-- ===== src/Net/Options/Names.antt =====
-- The socket options of include/iouxx/iouops/network/sockcmd.hpp (`sockopts`): the class that holds the value
-- of each, its level and its name, with the numbers of the system's headers.
use iouxx.Base.{ℕ}

-- The classes of values that the options derive from.
pub data OptvalBase : Type 0 where
  bool_optval int_optval linger_optval timeval_optval : OptvalBase
  string_optval ip_mreqn_optval ipv6_mreq_optval : OptvalBase

-- `sockopts::general`
pub data General : Type 0 where
  reuseaddr reuseport keepalive debug acceptconn dontroute broadcast oobinline : General
  rcvbuf sndbuf rcvlowat sndlowat linger rcvtimeo sndtimeo priority bindtodevice : General

-- `sockopts::tcp`
pub data Tcp : Type 0 where
  nodelay cork quickack syncnt maxseg window_clamp keepidle keepintvl keepcnt user_timeout : Tcp

-- `sockopts::udp`
pub data Udp : Type 0 where
  cork no_check : Udp

-- `sockopts::ipv4`
pub data Ipv4 : Type 0 where
  tos ttl mtu_discover freebind transparent pktinfo recvttl recvtos : Ipv4
  multicast_ttl multicast_loop add_membership drop_membership : Ipv4

-- `sockopts::ipv6`
pub data Ipv6 : Type 0 where
  v6only tclass unicast_hops recverr pktinfo recvpktinfo dontfrag recvtclass : Ipv6
  multicast_hops multicast_loop join_group leave_group unicast_if : Ipv6

pub data SockOpt : Type 0 where
  general : General → SockOpt
  tcp : Tcp → SockOpt
  udp : Udp → SockOpt
  ipv4 : Ipv4 → SockOpt
  ipv6 : Ipv6 → SockOpt

-- `optname` of each option.
unfoldable pub general_name : General → ℕ
general_name General.reuseaddr = 2
general_name General.reuseport = 15
general_name General.keepalive = 9
general_name General.debug = 1
general_name General.acceptconn = 30
general_name General.dontroute = 5
general_name General.broadcast = 6
general_name General.oobinline = 10
general_name General.rcvbuf = 8
general_name General.sndbuf = 7
general_name General.rcvlowat = 18
general_name General.sndlowat = 19
general_name General.linger = 13
general_name General.rcvtimeo = 20
general_name General.sndtimeo = 21
general_name General.priority = 12
general_name General.bindtodevice = 25

unfoldable pub tcp_name : Tcp → ℕ
tcp_name Tcp.nodelay = 1
tcp_name Tcp.cork = 3
tcp_name Tcp.quickack = 12
tcp_name Tcp.syncnt = 7
tcp_name Tcp.maxseg = 2
tcp_name Tcp.window_clamp = 10
tcp_name Tcp.keepidle = 4
tcp_name Tcp.keepintvl = 5
tcp_name Tcp.keepcnt = 6
tcp_name Tcp.user_timeout = 18

unfoldable pub udp_name : Udp → ℕ
udp_name Udp.cork = 1
udp_name Udp.no_check = 11

unfoldable pub ipv4_name : Ipv4 → ℕ
ipv4_name Ipv4.tos = 1
ipv4_name Ipv4.ttl = 2
ipv4_name Ipv4.mtu_discover = 10
ipv4_name Ipv4.freebind = 15
ipv4_name Ipv4.transparent = 19
ipv4_name Ipv4.pktinfo = 8
ipv4_name Ipv4.recvttl = 12
ipv4_name Ipv4.recvtos = 13
ipv4_name Ipv4.multicast_ttl = 33
ipv4_name Ipv4.multicast_loop = 34
ipv4_name Ipv4.add_membership = 35
ipv4_name Ipv4.drop_membership = 36

unfoldable pub ipv6_name : Ipv6 → ℕ
ipv6_name Ipv6.v6only = 26
ipv6_name Ipv6.tclass = 67
ipv6_name Ipv6.unicast_hops = 16
ipv6_name Ipv6.recverr = 25
ipv6_name Ipv6.pktinfo = 50
ipv6_name Ipv6.recvpktinfo = 49
ipv6_name Ipv6.dontfrag = 62
ipv6_name Ipv6.recvtclass = 66
ipv6_name Ipv6.multicast_hops = 18
ipv6_name Ipv6.multicast_loop = 19
ipv6_name Ipv6.join_group = 20
ipv6_name Ipv6.leave_group = 21
ipv6_name Ipv6.unicast_if = 76

unfoldable pub optname : SockOpt → ℕ
unfolding general_name tcp_name udp_name ipv4_name ipv6_name
optname (general o) = general_name o
optname (tcp o) = tcp_name o
optname (udp o) = udp_name o
optname (ipv4 o) = ipv4_name o
optname (ipv6 o) = ipv6_name o

-- `level` of each option: `SOL_SOCKET`, `IPPROTO_TCP`, `IPPROTO_UDP`, `IPPROTO_IP` and `IPPROTO_IPV6`.
unfoldable pub level : SockOpt → ℕ
level (general o) = 1
level (tcp o) = 6
level (udp Udp.cork) = 17
level (udp Udp.no_check) = 1
level (ipv4 o) = 0
level (ipv6 o) = 41

-- The class of the value of each option.
unfoldable pub general_base : General → OptvalBase
general_base General.rcvbuf = int_optval
general_base General.sndbuf = int_optval
general_base General.rcvlowat = int_optval
general_base General.sndlowat = int_optval
general_base General.priority = int_optval
general_base General.linger = linger_optval
general_base General.rcvtimeo = timeval_optval
general_base General.sndtimeo = timeval_optval
general_base General.bindtodevice = string_optval
general_base o = bool_optval

unfoldable pub tcp_base : Tcp → OptvalBase
tcp_base Tcp.nodelay = bool_optval
tcp_base Tcp.cork = bool_optval
tcp_base Tcp.quickack = bool_optval
tcp_base o = int_optval

unfoldable pub ipv4_base : Ipv4 → OptvalBase
ipv4_base Ipv4.tos = int_optval
ipv4_base Ipv4.ttl = int_optval
ipv4_base Ipv4.mtu_discover = int_optval
ipv4_base Ipv4.multicast_ttl = int_optval
ipv4_base Ipv4.add_membership = ip_mreqn_optval
ipv4_base Ipv4.drop_membership = ip_mreqn_optval
ipv4_base o = bool_optval

unfoldable pub ipv6_base : Ipv6 → OptvalBase
ipv6_base Ipv6.tclass = int_optval
ipv6_base Ipv6.unicast_hops = int_optval
ipv6_base Ipv6.multicast_hops = int_optval
ipv6_base Ipv6.unicast_if = int_optval
ipv6_base Ipv6.join_group = ipv6_mreq_optval
ipv6_base Ipv6.leave_group = ipv6_mreq_optval
ipv6_base o = bool_optval

unfoldable pub optval_base : SockOpt → OptvalBase
unfolding general_base tcp_base ipv4_base ipv6_base
optval_base (general o) = general_base o
optval_base (tcp o) = tcp_base o
optval_base (udp o) = bool_optval
optval_base (ipv4 o) = ipv4_base o
optval_base (ipv6 o) = ipv6_base o
