-- ===== src/Net/Prepare.antt =====
-- The operations of include/iouxx/iouops/network/sockprep.hpp: opening, closing and binding a socket. A
-- system address is a value of an arbitrary type, with its size.
use iouxx.Base.{ℕ, if◌then◌else◌, ℤ, pos, negsuc}
use iouxx.Base.Result.{Expected}
use iouxx.Ring.Setup.{with_bit}
use iouxx.Ops.{Sqe, Prep, prep, fixed_flag, received, Target}
use iouxx.Timeout.{CallbackKind, Received, receive}
use iouxx.Net.Sockets.{
  SocketConfig, Socket, FixedSocket, AnySocket, target_socket, SocketVariant, target_variant,
}

-- `SOCK_NONBLOCK` and `SOCK_CLOEXEC`; `IORING_FILE_INDEX_ALLOC` as an `int`.
abbrev pub sock_nonblock : ℕ
sock_nonblock = 2048

abbrev pub sock_cloexec : ℕ
sock_cloexec = 524288

abbrev pub alloc_index : ℤ
alloc_index = negsuc 0

-- The functions of liburing with their arguments.
pub data Call (A : Type 0) : Type 0 where
  io_uring_prep_socket : (domain type : ℕ) (protocol : ℤ) (flags : ℕ) → Call A
  io_uring_prep_socket_direct : (domain type : ℕ) (protocol file_index : ℤ) (flags : ℕ) → Call A
  io_uring_prep_close : (fd : ℤ) → Call A
  io_uring_prep_close_direct : (file_index : ℤ) → Call A
  io_uring_prep_bind : (fd : ℤ) (addr : A) (addrlen : ℕ) → Call A

-- The member functions of `socket_prep_base`.
unfoldable pub domain : ℕ → SocketConfig → SocketConfig
domain d self = record self { d = d }

unfoldable pub type : ℕ → SocketConfig → SocketConfig
type t self = record self { t = with_bit sock_nonblock t }

unfoldable pub protocol : ℤ → SocketConfig → SocketConfig
protocol p self = record self { p = p }

-- `socket_open_operation::do_callback`
unfoldable pub open_do_callback : SocketConfig → ℤ → Expected Socket
open_do_callback self ev = received (λ n. record { fd = pos n; config = self }) ev

-- `fixed_socket_open_operation`, with its base class.
pub record FixedSocketOpen : Type 0 where
  pub config : SocketConfig
  pub file_index : ℤ

-- `fixed_socket_open_operation::index`
unfoldable pub index : ℤ → FixedSocketOpen → FixedSocketOpen
index n self = record self { file_index = n }

-- `fixed_socket_open_operation::do_callback`
unfoldable pub fixed_open_do_callback : FixedSocketOpen → ℤ → Expected FixedSocket
fixed_open_do_callback self ev =
    received (λ n. record { fd_index = pos n; config = self.config }) ev

-- `socket_close_operation::socket`
unfoldable pub close_socket : AnySocket → Target
unfolding target_socket
close_socket s = target_socket s

-- `socket_bind::operation`
pub record SocketBind (A : Type 0) : Type 0 where
  pub sock : SocketVariant
  pub sockaddr : A

unfoldable pub bind_socket : {A : Type 0} → SocketVariant → SocketBind A → SocketBind A
bind_socket s self = record self { sock = s }

unfoldable pub socket_info : {A : Type 0} → A → SocketBind A → SocketBind A
socket_info system_sockaddr self = record self { sockaddr = system_sockaddr }

module _ {A : Type 0} (P : Prep (Call A)) where
  -- `socket_open_operation::build`
  unfoldable pub open_build : SocketConfig → Sqe (Call A)
  open_build self = prep P (io_uring_prep_socket self.d (with_bit sock_cloexec self.t) self.p 0)

  -- `fixed_socket_open_operation::build`
  unfoldable pub fixed_open_build : FixedSocketOpen → Sqe (Call A)
  fixed_open_build self =
      prep P
        (io_uring_prep_socket_direct self.config.d self.config.t self.config.p self.file_index 0)

  -- `socket_close_operation::build`
  unfoldable pub close_build : Target → Sqe (Call A)
  close_build self =
      if self.is_fixed
      then prep P (io_uring_prep_close_direct self.fd)
      else prep P (io_uring_prep_close self.fd)

  -- `socket_bind::operation::build`, with the size of the address.
  unfoldable pub bind_build : ℕ → SocketBind A → Sqe (Call A)
  unfolding target_variant
  bind_build addrlen self =
      let at = target_variant self.sock in
      fixed_flag at.is_fixed (prep P (io_uring_prep_bind at.fd self.sockaddr addrlen))

-- `do_callback` of `socket_close_operation` and `socket_bind::operation`
unfoldable pub close_do_callback : CallbackKind → ℤ → Received
close_do_callback kind ev = receive kind ev

unfoldable pub bind_do_callback : CallbackKind → ℤ → Received
bind_do_callback kind ev = receive kind ev
