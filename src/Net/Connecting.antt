-- ===== src/Net/Connecting.antt =====
-- The operations of include/iouxx/iouops/network/connection.hpp: listening, connecting, accepting in six
-- ways, and shutting down. A system address is a value of an arbitrary type, with its size.
pub mod Laws
use iouxx.Base.{ℕ, ◌+◌, ltb, Bool, true, false, if◌then◌else◌, ℤ, pos, negsuc, int_max}
use iouxx.Base.Result.{Expected}
use iouxx.Ring.Setup.{with_bit}
use iouxx.Ops.{Sqe, Prep, prep, fixed_flag, received, more, Target}
use iouxx.Timeout.{CallbackKind, Received, receive}
use iouxx.Net.Sockets.{
  Socket, FixedSocket, Connection, FixedConnection, AnySocket, target_socket, SocketVariant,
  target_variant,
}
use iouxx.Net.Prepare.{sock_nonblock, sock_cloexec, alloc_index}

-- `SOMAXCONN`
abbrev pub default_backlog : ℕ
default_backlog = 4096

-- `peer_socket_info_base::peer_socket_info`
unfoldable pub peer_socket_info : {A : Type 0} → A → A → A
peer_socket_info system_sockaddr sockaddr = system_sockaddr

-- The functions of liburing with their arguments; an address that may be null is given by its size.
pub data Call (A : Type 0) : Type 0 where
  io_uring_prep_listen : (fd : ℤ) (backlog : ℕ) → Call A
  io_uring_prep_connect : (fd : ℤ) (addr : A) (addrlen : ℕ) → Call A
  io_uring_prep_accept : (fd : ℤ) (with_address : Bool) (flags : ℕ) → Call A
  io_uring_prep_accept_direct : (fd : ℤ) (with_address : Bool) (flags : ℕ) (file_index : ℤ) → Call A
  io_uring_prep_multishot_accept : (fd : ℤ) (flags : ℕ) → Call A
  io_uring_prep_multishot_accept_direct : (fd : ℤ) (flags : ℕ) → Call A
  io_uring_prep_shutdown : (fd : ℤ) (how : ℕ) → Call A

-- `socket_listen_operation`
pub record SocketListen : Type 0 where
  pub sock : SocketVariant
  pub bl : ℕ

unfoldable pub listen_socket : SocketVariant → SocketListen → SocketListen
listen_socket s self = record self { sock = s }

-- `std::clamp`
pub clamp : ℕ → ℕ → ℕ → ℕ
clamp v lo hi = if ltb v lo then lo else if ltb hi v then hi else v

-- `socket_listen_operation::backlog`
unfoldable pub backlog : ℕ → SocketListen → SocketListen
unfolding clamp
backlog n self = record self { bl = clamp n default_backlog int_max }

-- `socket_connect::operation`
pub record SocketConnect (A : Type 0) : Type 0 where
  pub sock : SocketVariant
  pub sockaddr : A

unfoldable pub connect_socket : {A : Type 0} → SocketVariant → SocketConnect A → SocketConnect A
connect_socket s self = record self { sock = s }

-- The operations that accept into the table of fixed files keep an index.
pub record FixedSocketAccept : Type 0 where
  pub sock : FixedSocket
  pub file_index : ℤ

-- `index` of `fixed_socket_accept::operation` and `fixed_socket_accept_operation`
unfoldable pub index : ℤ → FixedSocketAccept → FixedSocketAccept
index n self = record self { file_index = n }

unfoldable pub index_without_peer : ℤ → FixedSocketAccept → FixedSocketAccept
index_without_peer n self = record self { file_index = n }

-- `socket_shutdown_operation`, with the number of `shutdown_option`.
pub record SocketShutdown : Type 0 where
  pub how_opt : ℕ
  pub at : Target

unfoldable pub shutdown_socket : AnySocket → SocketShutdown → SocketShutdown
unfolding target_socket
shutdown_socket s self = record self { at = target_socket s }

unfoldable pub options : ℕ → SocketShutdown → SocketShutdown
options how self = record self { how_opt = how }

module _ {A : Type 0} (P : Prep (Call A)) where
  -- `socket_listen_operation::build`
  unfoldable pub listen_build : SocketListen → Sqe (Call A)
  unfolding target_variant
  listen_build self =
      let at = target_variant self.sock in
      fixed_flag at.is_fixed (prep P (io_uring_prep_listen at.fd self.bl))

  -- `socket_connect::operation::build`, with the size of the address.
  unfoldable pub connect_build : ℕ → SocketConnect A → Sqe (Call A)
  unfolding target_variant
  connect_build addrlen self =
      let at = target_variant self.sock in
      fixed_flag at.is_fixed (prep P (io_uring_prep_connect at.fd self.sockaddr addrlen))

  -- `build` of `socket_accept::operation` and `socket_accept_operation`
  unfoldable pub accept_build : Socket → Sqe (Call A)
  accept_build sock = prep P (io_uring_prep_accept sock.fd true (sock_nonblock + sock_cloexec))

  unfoldable pub accept_without_peer_build : Socket → Sqe (Call A)
  accept_without_peer_build sock =
      prep P (io_uring_prep_accept sock.fd false (sock_nonblock + sock_cloexec))

  -- `build` of `fixed_socket_accept::operation` and `fixed_socket_accept_operation`
  unfoldable pub fixed_accept_build : FixedSocketAccept → Sqe (Call A)
  fixed_accept_build self =
      fixed_flag true
        (prep P (io_uring_prep_accept_direct self.sock.fd_index true sock_nonblock self.file_index))

  unfoldable pub fixed_accept_without_peer_build : FixedSocketAccept → Sqe (Call A)
  fixed_accept_without_peer_build self =
      fixed_flag true (
        prep P (io_uring_prep_accept_direct self.sock.fd_index false sock_nonblock self.file_index))

  -- `build` of `socket_multishot_accept_operation` and `fixed_socket_multishot_accept_operation`
  unfoldable pub multishot_accept_build : Socket → Sqe (Call A)
  multishot_accept_build sock =
      prep P (io_uring_prep_multishot_accept sock.fd (sock_nonblock + sock_cloexec))

  unfoldable pub fixed_multishot_accept_build : FixedSocket → Sqe (Call A)
  fixed_multishot_accept_build sock =
      fixed_flag true (prep P (io_uring_prep_multishot_accept_direct sock.fd_index sock_nonblock))

  -- `socket_shutdown_operation::build`
  unfoldable pub shutdown_build : SocketShutdown → Sqe (Call A)
  shutdown_build self =
      fixed_flag self.at.is_fixed (prep P (io_uring_prep_shutdown self.at.fd self.how_opt))

-- `do_callback` of the operations without a result.
unfoldable pub listen_do_callback : CallbackKind → ℤ → Received
listen_do_callback kind ev = receive kind ev

unfoldable pub connect_do_callback : CallbackKind → ℤ → Received
connect_do_callback kind ev = receive kind ev

unfoldable pub shutdown_do_callback : CallbackKind → ℤ → Received
shutdown_do_callback kind ev = receive kind ev

-- The constructors of `connection` and `fixed_connection`, of a socket and a result from 0 on.
abbrev pub accepted : Socket → ℕ → Connection
accepted s n = record { sock = s; conn_fd = pos n }

abbrev pub fixed_accepted : FixedSocket → ℕ → FixedConnection
fixed_accepted s n = record { sock = s; conn_index = pos n }

-- `socket_accept_operation::do_callback` and `fixed_socket_accept_operation::do_callback`
unfoldable pub accept_without_peer_do_callback : Socket → ℤ → Expected Connection
accept_without_peer_do_callback sock ev = received (accepted sock) ev

unfoldable pub fixed_accept_without_peer_do_callback :
    FixedSocketAccept → ℤ → Expected FixedConnection
fixed_accept_without_peer_do_callback self ev = received (fixed_accepted self.sock) ev

-- `accept_result` and `fixed_accept_result`: the connection and the peer.
module _ {A I : Type 0} (from_system_sockaddr : A → I) where
  -- `do_callback` of `socket_accept::operation` and `fixed_socket_accept::operation`, with the address
  -- that the kernel has written.
  unfoldable pub accept_do_callback : Socket → A → ℤ → Expected (Connection × I)
  accept_do_callback sock sockaddr ev =
      received (λ n. (accepted sock n, from_system_sockaddr sockaddr)) ev

  unfoldable pub fixed_accept_do_callback :
      FixedSocketAccept → A → ℤ → Expected (FixedConnection × I)
  fixed_accept_do_callback self sockaddr ev =
      received (λ n. (fixed_accepted self.sock n, from_system_sockaddr sockaddr)) ev

-- `do_callback` of the two multishot operations: the connection, and whether there are more.
unfoldable pub multishot_accept_do_callback : Socket → ℤ → ℕ → Expected (Connection × Bool)
multishot_accept_do_callback sock ev cqe_flags =
    received (λ n. (accepted sock n, more cqe_flags)) ev

unfoldable pub fixed_multishot_accept_do_callback :
    FixedSocket → ℤ → ℕ → Expected (FixedConnection × Bool)
fixed_multishot_accept_do_callback sock ev cqe_flags =
    received (λ n. (fixed_accepted sock n, more cqe_flags)) ev
