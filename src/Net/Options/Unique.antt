-- ===== src/Net/Options/Unique.antt =====
-- No two of the socket options have the same level and the same name.
use iouxx.Base.{
  ℕ, ◌&&◌, ◌==◌, if◌then◌else◌, List, [], ◌∷◌, ◌++◌, Option, none, some, ◌≡◌, refl, sym, ap, ◌∙◌,
}
use iouxx.Net.Options.Names.{
  General, Tcp, Udp, Ipv4, Ipv6, SockOpt, general, tcp, udp, ipv4, ipv6, optname, level,
}

all_general : List SockOpt
all_general =
    general General.reuseaddr
    ∷ general General.reuseport
    ∷ general General.keepalive
    ∷ general General.debug
    ∷ general General.acceptconn
    ∷ general General.dontroute
    ∷ general General.broadcast
    ∷ general General.oobinline
    ∷ general General.rcvbuf
    ∷ general General.sndbuf
    ∷ general General.rcvlowat
    ∷ general General.sndlowat
    ∷ general General.linger
    ∷ general General.rcvtimeo
    ∷ general General.sndtimeo
    ∷ general General.priority
    ∷ general General.bindtodevice
    ∷ []

all_tcp : List SockOpt
all_tcp =
    tcp Tcp.nodelay
    ∷ tcp Tcp.cork
    ∷ tcp Tcp.quickack
    ∷ tcp Tcp.syncnt
    ∷ tcp Tcp.maxseg
    ∷ tcp Tcp.window_clamp
    ∷ tcp Tcp.keepidle
    ∷ tcp Tcp.keepintvl
    ∷ tcp Tcp.keepcnt
    ∷ tcp Tcp.user_timeout
    ∷ []

all_udp : List SockOpt
all_udp = udp Udp.cork ∷ udp Udp.no_check ∷ []

all_ipv4 : List SockOpt
all_ipv4 =
    ipv4 Ipv4.tos
    ∷ ipv4 Ipv4.ttl
    ∷ ipv4 Ipv4.mtu_discover
    ∷ ipv4 Ipv4.freebind
    ∷ ipv4 Ipv4.transparent
    ∷ ipv4 Ipv4.pktinfo
    ∷ ipv4 Ipv4.recvttl
    ∷ ipv4 Ipv4.recvtos
    ∷ ipv4 Ipv4.multicast_ttl
    ∷ ipv4 Ipv4.multicast_loop
    ∷ ipv4 Ipv4.add_membership
    ∷ ipv4 Ipv4.drop_membership
    ∷ []

all_ipv6 : List SockOpt
all_ipv6 =
    ipv6 Ipv6.v6only
    ∷ ipv6 Ipv6.tclass
    ∷ ipv6 Ipv6.unicast_hops
    ∷ ipv6 Ipv6.recverr
    ∷ ipv6 Ipv6.pktinfo
    ∷ ipv6 Ipv6.recvpktinfo
    ∷ ipv6 Ipv6.dontfrag
    ∷ ipv6 Ipv6.recvtclass
    ∷ ipv6 Ipv6.multicast_hops
    ∷ ipv6 Ipv6.multicast_loop
    ∷ ipv6 Ipv6.join_group
    ∷ ipv6 Ipv6.leave_group
    ∷ ipv6 Ipv6.unicast_if
    ∷ []

-- The option among those that has the level and the name.
option_of : ℕ → ℕ → List SockOpt → Option SockOpt
option_of l n [] = none
option_of l n (o ∷ os) = if level o == l && optname o == n then some o else option_of l n os

every : List SockOpt
unfolding all_general all_tcp all_udp all_ipv4 all_ipv6
every = all_general ++ (all_tcp ++ (all_udp ++ (all_ipv4 ++ all_ipv6)))

option_of-optname : (o : SockOpt) → option_of (level o) (optname o) every ≡ some o
unfolding option_of level optname every
option_of-optname (general General.reuseaddr) = refl
option_of-optname (general General.reuseport) = refl
option_of-optname (general General.keepalive) = refl
option_of-optname (general General.debug) = refl
option_of-optname (general General.acceptconn) = refl
option_of-optname (general General.dontroute) = refl
option_of-optname (general General.broadcast) = refl
option_of-optname (general General.oobinline) = refl
option_of-optname (general General.rcvbuf) = refl
option_of-optname (general General.sndbuf) = refl
option_of-optname (general General.rcvlowat) = refl
option_of-optname (general General.sndlowat) = refl
option_of-optname (general General.linger) = refl
option_of-optname (general General.rcvtimeo) = refl
option_of-optname (general General.sndtimeo) = refl
option_of-optname (general General.priority) = refl
option_of-optname (general General.bindtodevice) = refl
option_of-optname (tcp Tcp.nodelay) = refl
option_of-optname (tcp Tcp.cork) = refl
option_of-optname (tcp Tcp.quickack) = refl
option_of-optname (tcp Tcp.syncnt) = refl
option_of-optname (tcp Tcp.maxseg) = refl
option_of-optname (tcp Tcp.window_clamp) = refl
option_of-optname (tcp Tcp.keepidle) = refl
option_of-optname (tcp Tcp.keepintvl) = refl
option_of-optname (tcp Tcp.keepcnt) = refl
option_of-optname (tcp Tcp.user_timeout) = refl
option_of-optname (udp Udp.cork) = refl
option_of-optname (udp Udp.no_check) = refl
option_of-optname (ipv4 Ipv4.tos) = refl
option_of-optname (ipv4 Ipv4.ttl) = refl
option_of-optname (ipv4 Ipv4.mtu_discover) = refl
option_of-optname (ipv4 Ipv4.freebind) = refl
option_of-optname (ipv4 Ipv4.transparent) = refl
option_of-optname (ipv4 Ipv4.pktinfo) = refl
option_of-optname (ipv4 Ipv4.recvttl) = refl
option_of-optname (ipv4 Ipv4.recvtos) = refl
option_of-optname (ipv4 Ipv4.multicast_ttl) = refl
option_of-optname (ipv4 Ipv4.multicast_loop) = refl
option_of-optname (ipv4 Ipv4.add_membership) = refl
option_of-optname (ipv4 Ipv4.drop_membership) = refl
option_of-optname (ipv6 Ipv6.v6only) = refl
option_of-optname (ipv6 Ipv6.tclass) = refl
option_of-optname (ipv6 Ipv6.unicast_hops) = refl
option_of-optname (ipv6 Ipv6.recverr) = refl
option_of-optname (ipv6 Ipv6.pktinfo) = refl
option_of-optname (ipv6 Ipv6.recvpktinfo) = refl
option_of-optname (ipv6 Ipv6.dontfrag) = refl
option_of-optname (ipv6 Ipv6.recvtclass) = refl
option_of-optname (ipv6 Ipv6.multicast_hops) = refl
option_of-optname (ipv6 Ipv6.multicast_loop) = refl
option_of-optname (ipv6 Ipv6.join_group) = refl
option_of-optname (ipv6 Ipv6.leave_group) = refl
option_of-optname (ipv6 Ipv6.unicast_if) = refl

some-some : {o o' : SockOpt} → some o ≡ some o' → o ≡ o'
some-some e = cc

-- Socket options with the same level and the same name are the same option.
pub optname-eq : (o o' : SockOpt) → level o ≡ level o' → optname o ≡ optname o' → o ≡ o'
optname-eq o o' same_level same_name = some-some (
    sym (option_of-optname o)
    ∙ (ap (λ l. option_of l (optname o) every) same_level
        ∙ (ap (λ n. option_of (level o') n every) same_name ∙ option_of-optname o')))
