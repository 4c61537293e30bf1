-- ===== src/Net/Options.antt =====
-- The values of socket options in include/iouxx/iouops/network/sockcmd.hpp, and the operations that set and
-- get an option or ask for the name of a socket.
pub mod Names
pub mod Classes
pub mod Kernel
pub mod Laws
pub mod Unique
use iouxx.Base.{
  ℕ, ◌/◌, Bool, true, false, not, ◌==◌, if◌then◌else◌, ℤ, pos, negsuc, neg, ◌+ℤ◌, scale, quotient,
  Bytes, length, List, [],
}
use iouxx.Base.Result.{ErrorCode, Expected, ok, fail_system, is_nonzero}
use iouxx.Ring.Setup.{to_uint32}
use iouxx.Ops.{Sqe, Prep, prep, fixed_flag, received, Target}
use iouxx.Noop.{to_int32}
use iouxx.Time.{nano}
use iouxx.Ip.V4.{AddressV4}
use iouxx.Ip.V6.{AddressV6}
use iouxx.Ip.V6.{AddressV6}
use iouxx.Net.Sockets.{AnySocket, target_socket}
use iouxx.Net.Options.Names.{SockOpt, level, optname}

-- `bool_optval_base` and `int_optval_base`: the member `val`.
unfoldable pub bool_option : Bool → ℤ
bool_option value = if value then pos 1 else pos 0

unfoldable pub bool_result : ℤ → Bool
bool_result val = is_nonzero val

unfoldable pub int_option : ℤ → ℤ
int_option value = value

unfoldable pub int_result : ℤ → ℤ
int_result val = val

-- `linger_optval_base` over `::linger`, with the time in seconds, and `linger_result`.
pub record Linger : Type 0 where
  pub l_onoff : ℤ
  pub l_linger : ℤ

unfoldable pub linger_option : Bool → ℤ → Linger
linger_option onoff linger = record {
  l_onoff = if onoff then pos 1 else pos 0;
  l_linger = to_int32 (to_uint32 linger);
}

unfoldable pub linger_result : Linger → Bool × ℤ
linger_result lg = (is_nonzero lg.l_onoff, lg.l_linger)

-- `timeval_optval_base` over `::timeval`: nanoseconds in, microseconds out.
pub record Timeval : Type 0 where
  pub tv_sec : ℤ
  pub tv_usec : ℤ

unfoldable pub timeval_option : ℤ → Timeval
timeval_option time =
    let sec = quotient time nano in
    let usec = quotient (time +ℤ neg (scale sec nano)) 1000 in
    record { tv_sec = sec; tv_usec = usec }

unfoldable pub timeval_result : Timeval → ℤ
timeval_result tv = scale tv.tv_sec 1000000 +ℤ tv.tv_usec

-- `ip_mreqn_optval_base` over `::ip_mreqn`, and `ipv4_mreq_result`.
pub record IpMreqn : Type 0 where
  pub imr_multiaddr : ℕ
  pub imr_address : ℕ
  pub imr_ifindex : ℤ

unfoldable pub ip_mreqn_option : AddressV4 → AddressV4 → ℤ → IpMreqn
ip_mreqn_option multiaddr address interface = record {
  imr_multiaddr = multiaddr.addr;
  imr_address = address.addr;
  imr_ifindex = interface;
}

unfoldable pub ip_mreqn_result : IpMreqn → AddressV4 × AddressV4 × ℤ
ip_mreqn_result val =
    (record { addr = val.imr_multiaddr }, record { addr = val.imr_address }, val.imr_ifindex)

-- `ipv6_mreq_optval_base` over `::ipv6_mreq`, and `ipv6_mreq_result`.
pub record Ipv6Mreq : Type 0 where
  pub ipv6mr_multiaddr : List ℕ
  pub ipv6mr_interface : ℕ

unfoldable pub ipv6_mreq_option : AddressV6 → ℕ → Ipv6Mreq
ipv6_mreq_option multiaddr interface = record {
  ipv6mr_multiaddr = multiaddr.addr;
  ipv6mr_interface = interface;
}

unfoldable pub ipv6_mreq_result : Ipv6Mreq → AddressV6 × ℕ
ipv6_mreq_result val = (record { addr = val.ipv6mr_multiaddr }, val.ipv6mr_interface)

-- `string_optval_base`: the text, and `params` with the address of its bytes left out. `result` moves the text
-- out, which leaves the member empty.
unfoldable pub string_option : Bytes → Bytes
string_option str = str

unfoldable pub string_result : Bytes → Bytes × Bytes
string_result str = (str, [])

unfoldable pub string_params : Bytes → Bytes × ℕ
string_params str = (str, length str)

-- The functions of liburing with their arguments; the value of an option has a type of its own.
pub data Call (V : Type 0) : Type 0 where
  io_uring_prep_cmd_sock :
      (cmd_op : ℕ) (fd : ℤ) (level optname : ℕ) (optval : V) (optlen : ℕ) → Call V
  io_uring_prep_cmd_getsockname : (fd : ℤ) (addrlen peer : ℕ) → Call V

-- `SOCKET_URING_OP_GETSOCKOPT` and `SOCKET_URING_OP_SETSOCKOPT`
abbrev pub getsockopt : ℕ
getsockopt = 2

abbrev pub setsockopt : ℕ
setsockopt = 3

-- `sockopt_base::socket` and `socket_getsockname::operation::socket`
unfoldable pub option_socket : AnySocket → Target
unfolding target_socket
option_socket s = target_socket s

-- `socket_getsockname::operation`
pub record SocketGetsockname : Type 0 where
  pub at : Target
  pub is_peer : Bool

unfoldable pub getsockname_socket : AnySocket → SocketGetsockname → SocketGetsockname
unfolding target_socket
getsockname_socket s self = record self { at = target_socket s }

unfoldable pub peer : Bool → SocketGetsockname → SocketGetsockname
peer is_peer self = record self { is_peer = is_peer }

module _ {V : Type 0} (P : Prep (Call V)) where
  -- `build` of `socket_setoption::operation` and `socket_getoption::operation`, with the value of the option
  -- and its size.
  unfoldable pub setoption_build : SockOpt → Target → V → ℕ → Sqe (Call V)
  setoption_build opt at optval optlen =
      fixed_flag at.is_fixed
        (prep P (io_uring_prep_cmd_sock setsockopt at.fd (level opt) (optname opt) optval optlen))

  unfoldable pub getoption_build : SockOpt → Target → V → ℕ → Sqe (Call V)
  getoption_build opt at optval optlen =
      fixed_flag at.is_fixed
        (prep P (io_uring_prep_cmd_sock getsockopt at.fd (level opt) (optname opt) optval optlen))

  -- `socket_getsockname::operation::build`, with the size of the address.
  unfoldable pub getsockname_build : ℕ → SocketGetsockname → Sqe (Call V)
  getsockname_build addrlen self =
      fixed_flag self.at.is_fixed
        (prep P (io_uring_prep_cmd_getsockname self.at.fd addrlen (if self.is_peer then 1 else 0)))

-- `socket_setoption::operation::do_callback`
unfoldable pub setoption_do_callback : ℤ → Expected (Unit {0})
setoption_do_callback ev = if is_nonzero ev then fail_system (neg ev) else ok tt

-- `ev > 0`
abbrev pub is_positive : ℤ → Bool
is_positive (pos n) = not (n == 0)
is_positive (negsuc n) = false

-- `socket_getoption::operation::do_callback`, with the member that the kernel has written and what `result`
-- makes of it and leaves in it: what the callback receives, and the member afterwards.
unfoldable pub getoption_do_callback : {V R : Type 0} → (V → R × V) → V → ℤ → Expected R × V
getoption_do_callback result optval ev =
    if is_positive ev
    then (ok (result optval).0, (result optval).1)
    else (fail_system (neg ev), optval)

-- `socket_getsockname::operation::do_callback`, with the address that the kernel has written.
unfoldable pub getsockname_do_callback : {A I : Type 0} → (A → I) → A → ℤ → Expected I
getsockname_do_callback from_system_sockaddr sockaddr ev =
    received (λ n. from_system_sockaddr sockaddr) ev
