-- ===== src/Net/Sockets.antt =====
-- The socket classes of include/iouxx/iouops/network/socket.hpp. A connection is a socket with a file
-- descriptor of its own.
use iouxx.Base.{ℕ, false, true, ℤ, negsuc}
use iouxx.Ops.{Target}

-- `socket_config`, with the numbers of the domain, the type and the protocol.
pub record SocketConfig : Type 0 where
  pub d : ℕ
  pub t : ℕ
  pub p : ℤ

-- `socket_config()`: `AF_UNSPEC`, `SOCK_STREAM` and the unknown protocol.
abbrev pub default_config : SocketConfig
default_config = record { d = 0; t = 1; p = negsuc 0 }

pub record Socket : Type 0 where
  pub fd : ℤ
  pub config : SocketConfig

pub record FixedSocket : Type 0 where
  pub fd_index : ℤ
  pub config : SocketConfig

-- `socket()` and `fixed_socket()`
abbrev pub no_socket : Socket
no_socket = record { fd = negsuc 0; config = default_config }

abbrev pub no_fixed_socket : FixedSocket
no_fixed_socket = record { fd_index = negsuc 0; config = default_config }

pub record Connection : Type 0 where
  pub sock : Socket
  pub conn_fd : ℤ

pub record FixedConnection : Type 0 where
  pub sock : FixedSocket
  pub conn_index : ℤ

-- The arguments of the member function `socket` of the operations that take all four.
pub data AnySocket : Type 0 where
  socket : Socket → AnySocket
  fixed_socket : FixedSocket → AnySocket
  connection : Connection → AnySocket
  fixed_connection : FixedConnection → AnySocket

-- `native_handle` and `index` of the four classes.
unfoldable pub target_socket : AnySocket → Target
target_socket (socket s) = record { fd = s.fd; is_fixed = false }
target_socket (fixed_socket s) = record { fd = s.fd_index; is_fixed = true }
target_socket (connection c) = record { fd = c.conn_fd; is_fixed = false }
target_socket (fixed_connection c) = record { fd = c.conn_index; is_fixed = true }

-- `socket_variant`; the initial value is a socket.
pub data SocketVariant : Type 0 where
  holds_socket : Socket → SocketVariant
  holds_fixed : FixedSocket → SocketVariant

abbrev pub no_variant : SocketVariant
no_variant = holds_socket no_socket

-- The handle and the kind of the socket that `visit` finds.
unfoldable pub target_variant : SocketVariant → Target
target_variant (holds_socket s) = record { fd = s.fd; is_fixed = false }
target_variant (holds_fixed s) = record { fd = s.fd_index; is_fixed = true }
