-- ===== src/Ip/SocketV4.antt =====
-- `socket_v4_info` of include/iouxx/iouops/network/ip.hpp.
pub mod Laws
pub mod Unchecked
use iouxx.Base.{
  ℕ, Bool, true, false, List, [], ◌∷◌, ◌++◌, Option, none, some, ◌==◌, and_then, if◌then◌else◌,
  Bytes, ◌&&◌,
}
use iouxx.Base.Result.{Expected, ok, fail_invalid_argument}
use iouxx.Text.Split.{contains, split}
use iouxx.Ip.Bytes.{Endian}
use iouxx.Ip.V4.{AddressV4}
use iouxx.Ip.V4
use iouxx.Ip.Port.{Port}
use iouxx.Ip.Port
use iouxx.Ip.Endpoint.{Endpoint, from_parts}

-- An address and a port: `addr` and `p`.
abbrev pub SocketV4 : Type 0
SocketV4 = Endpoint AddressV4

-- The default: 0.0.0.0 and port 0.
abbrev pub unset : SocketV4
unset = record { addr = record { addr = 0 }; p = record { p = 0 } }

-- `socket_v4_info::from_string`
unfoldable pub from_string : Endian → Bytes → Expected SocketV4
from_string e str =
    let read = λ (seperator : ℕ). from_parts e (V4.from_string e) (split seperator str) unset in
    if contains str b':'
    then read b':'
    else if contains str b'/'
    then read b'/'
    else fail_invalid_argument

-- The loop of `from_string_uncheck`; `none` is undefined behaviour.
pub assume_ports : Endian → List Bytes → SocketV4 → Option SocketV4
assume_ports e [] s = some s
assume_ports e (sub ∷ parts) s =
    and_then (Port.from_string_uncheck e sub) λ p. assume_ports e parts (record s { p = p })

pub assume_parts : Endian → List Bytes → SocketV4 → Option SocketV4
unfolding assume_ports
assume_parts e [] s = some s
assume_parts e (sub ∷ parts) s =
    and_then (V4.from_string_uncheck e sub) λ a. assume_ports e parts (record s { addr = a })

-- `socket_v4_info::from_string_uncheck`
unfoldable pub from_string_uncheck : Endian → Bytes → Option SocketV4
unfolding assume_parts
from_string_uncheck e str =
    let seperator = if contains str b'/' then b'/' else b':' in
    assume_parts e (split seperator str) unset

-- What `formatter<socket_v4_info>::parse` leaves: the separator and the rest of the text.
abbrev closed : ℕ → Bytes → Option (ℕ × Bytes)
closed seperator [] = some (seperator, [])
closed seperator (c ∷ text) = if c == b'}' then some (seperator, c ∷ text) else none

unfoldable pub parse : Bytes → Option (ℕ × Bytes)
parse [] = some (b':', [])
parse (c ∷ text) =
    if c == b'}'
    then some (b':', c ∷ text)
    else if c == b'/'
    then closed b'/' text
    else closed b':' (c ∷ text)

-- `formatter<socket_v4_info>::format`
unfoldable pub format : Endian → ℕ → SocketV4 → Bytes
format e seperator s =
    if seperator == b':'
    then V4.to_string e s.addr ++ b':' ∷ Port.to_string e s.p
    else V4.to_string e s.addr ++ b'/' ∷ Port.to_string e s.p

-- `socket_v4_info::to_string`
unfoldable pub to_string : Endian → SocketV4 → Bytes
unfolding format
to_string e s = format e b':' s

-- `sockaddr_in`, by its members that are not zero: the family, the port and the address.
pub record SockaddrIn : Type 0 where
  pub sin_family : ℕ
  pub sin_port : ℕ
  pub sin_addr : ℕ

abbrev af_inet : ℕ
af_inet = 2

unfoldable pub to_system_sockaddr : SocketV4 → SockaddrIn
to_system_sockaddr s = record { sin_family = af_inet; sin_port = s.p.p; sin_addr = s.addr.addr }

unfoldable pub from_system_sockaddr : SockaddrIn → SocketV4
from_system_sockaddr a = record {
  addr = record { addr = a.sin_addr };
  p = record { p = a.sin_port };
}
