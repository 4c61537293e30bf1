-- ===== src/Net/Options/Classes.antt =====
-- The classes of option values of include/iouxx/iouops/network/sockcmd.hpp taken together: the member that
-- each of them holds, and `option`, `result` and `params` of the class that an option derives from.
use iouxx.Base.{ℕ, Bool, ℤ, Bytes}
use iouxx.Ip.V4.{AddressV4}
use iouxx.Ip.V6.{AddressV6}
use iouxx.Net.Options.Names.{OptvalBase}
use iouxx.Net.Options.{
  bool_option, bool_result, int_option, int_result, Linger, linger_option, linger_result, Timeval,
  timeval_option, timeval_result, IpMreqn, ip_mreqn_option, ip_mreqn_result, Ipv6Mreq,
  ipv6_mreq_option, ipv6_mreq_result, string_option, string_result, string_params,
}

-- The member `val`, `lg`, `tv` or `str`.
abbrev pub Member : OptvalBase → Type 0
Member OptvalBase.bool_optval = ℤ
Member OptvalBase.int_optval = ℤ
Member OptvalBase.linger_optval = Linger
Member OptvalBase.timeval_optval = Timeval
Member OptvalBase.string_optval = Bytes
Member OptvalBase.ip_mreqn_optval = IpMreqn
Member OptvalBase.ipv6_mreq_optval = Ipv6Mreq

-- The parameters of `option`.
abbrev pub Arguments : OptvalBase → Type 0
Arguments OptvalBase.bool_optval = Bool
Arguments OptvalBase.int_optval = ℤ
Arguments OptvalBase.linger_optval = Bool × ℤ
Arguments OptvalBase.timeval_optval = ℤ
Arguments OptvalBase.string_optval = Bytes
Arguments OptvalBase.ip_mreqn_optval = AddressV4 × AddressV4 × ℤ
Arguments OptvalBase.ipv6_mreq_optval = AddressV6 × ℕ

-- `result_type`
abbrev pub ResultType : OptvalBase → Type 0
ResultType OptvalBase.bool_optval = Bool
ResultType OptvalBase.int_optval = ℤ
ResultType OptvalBase.linger_optval = Bool × ℤ
ResultType OptvalBase.timeval_optval = ℤ
ResultType OptvalBase.string_optval = Bytes
ResultType OptvalBase.ip_mreqn_optval = AddressV4 × AddressV4 × ℤ
ResultType OptvalBase.ipv6_mreq_optval = AddressV6 × ℕ

-- `base::option`
unfoldable pub option : (base : OptvalBase) → Arguments base → Member base
option OptvalBase.bool_optval value = bool_option value
option OptvalBase.int_optval value = int_option value
option OptvalBase.linger_optval (onoff, linger) = linger_option onoff linger
option OptvalBase.timeval_optval time = timeval_option time
option OptvalBase.string_optval str = string_option str
option OptvalBase.ip_mreqn_optval (multiaddr, address, interface) =
    ip_mreqn_option multiaddr address interface
option OptvalBase.ipv6_mreq_optval (multiaddr, interface) = ipv6_mreq_option multiaddr interface

-- `base::result`, with the member that it leaves.
unfoldable pub result : (base : OptvalBase) → Member base → ResultType base × Member base
result OptvalBase.bool_optval val = (bool_result val, val)
result OptvalBase.int_optval val = (int_result val, val)
result OptvalBase.linger_optval lg = (linger_result lg, lg)
result OptvalBase.timeval_optval tv = (timeval_result tv, tv)
result OptvalBase.string_optval str = string_result str
result OptvalBase.ip_mreqn_optval val = (ip_mreqn_result val, val)
result OptvalBase.ipv6_mreq_optval val = (ipv6_mreq_result val, val)

-- `optlen` of `base::params`: the size of the member, or the length of the text.
unfoldable pub optlen : (base : OptvalBase) → Member base → ℕ
optlen OptvalBase.bool_optval val = 4
optlen OptvalBase.int_optval val = 4
optlen OptvalBase.linger_optval lg = 8
optlen OptvalBase.timeval_optval tv = 16
optlen OptvalBase.string_optval str = (string_params str).1
optlen OptvalBase.ip_mreqn_optval val = 12
optlen OptvalBase.ipv6_mreq_optval val = 20
