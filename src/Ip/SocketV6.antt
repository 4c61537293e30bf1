-- ===== src/Ip/SocketV6.antt =====
-- `socket_v6_info` of include/iouxx/iouops/network/ip.hpp.
pub mod Laws
pub mod Unchecked
pub mod Sound
use iouxx.Base.{
  ℕ, Bool, true, false, List, [], ◌∷◌, ◌++◌, Option, none, some, ◌==◌, ◌||◌, if◌then◌else◌,
  and_then, Bytes, drop, replicate,
}
use iouxx.Base.Result.{Expected, ok, fail_invalid_argument, invalid_argument, ◌>>=◌, ◌>>◌, require}
use iouxx.Text.Split.{contains, contains_pair, split, split_pair}
use iouxx.Ip.Bytes.{Endian}
use iouxx.Ip.V4.{front}
use iouxx.Ip.V6.{AddressV6}
use iouxx.Ip.V6.Parse
use iouxx.Ip.V6.Parse.Uncheck
use iouxx.Ip.V6.Format
use iouxx.Ip.V6.Spec.{Spec, recommended}
use iouxx.Ip.V6.Spec
use iouxx.Ip.Port
use iouxx.Ip.Endpoint.{Endpoint, from_parts}

-- An address and a port: `addr` and `p`.
abbrev pub SocketV6 : Type 0
SocketV6 = Endpoint AddressV6

-- The default: the address "::" and port 0.
abbrev pub unset : SocketV6
unset = record { addr = record { addr = replicate 8 0 }; p = record { p = 0 } }

-- `socket_v6_info::from_string`
unfoldable pub from_string : Endian → Bytes → Expected SocketV6
from_string e str =
    let read = λ (parts : List Bytes). from_parts e (Parse.from_string e) parts unset in
    if contains_pair str b']' b':'
    then (require (front str == b'[') invalid_argument >> read (split_pair b']' b':' (drop 1 str)))
    else if contains str b'/'
    then read (split b'/' str)
    else if contains str b'#'
    then read (split b'#' str)
    else fail_invalid_argument

-- The loop of `from_string_uncheck`: the first part is the address, each later one the port.
pub assume_ports : Endian → List Bytes → SocketV6 → Option SocketV6
assume_ports e [] s = some s
assume_ports e (sub ∷ parts) s =
    and_then (Port.from_string_uncheck e sub) λ p. assume_ports e parts (record s { p = p })

pub assume_parts : Endian → List Bytes → SocketV6 → Option SocketV6
unfolding assume_ports
assume_parts e [] s = some s
assume_parts e (sub ∷ parts) s =
    and_then (Uncheck.from_string_uncheck e sub) λ a. assume_ports e parts (record s { addr = a })

-- `socket_v6_info::from_string_uncheck`; no result is undefined behaviour.
unfoldable pub from_string_uncheck : Endian → Bytes → Option SocketV6
unfolding assume_parts
from_string_uncheck e str =
    if contains_pair str b']' b':'
    then assume_parts e (split_pair b']' b':' (drop 1 str)) unset
    else if contains str b'/'
    then assume_parts e (split b'/' str) unset
    else if contains str b'#'
    then assume_parts e (split b'#' str) unset
    else none

-- The fields of `formatter<socket_v6_info>`; the separator 0 asks for the form with brackets.
pub record SocketSpec : Type 0 where
  pub seperator : ℕ
  pub addr_formatter : Spec

-- The nested specification, and what is left of the text. At the end of the text, where the code reads
-- a byte behind it, there is no result.
pub parse_nested : Bytes → Option (Spec × Bytes)
parse_nested [] = none
parse_nested (c ∷ text) = if c == b':' then Spec.parse text else some (recommended, c ∷ text)

abbrev closed : ℕ → Option (Spec × Bytes) → Option (SocketSpec × Bytes)
closed seperator none = none
closed seperator (some (spec, [])) =
    some (record { seperator = seperator; addr_formatter = spec }, [])
closed seperator (some (spec, c ∷ text)) =
    if c == b'}'
    then some (record { seperator = seperator; addr_formatter = spec }, c ∷ text)
    else none

-- `formatter<socket_v6_info>::parse`
unfoldable pub parse : Bytes → Option (SocketSpec × Bytes)
unfolding parse_nested
parse [] = none
parse (c ∷ text) =
    if c == b'/' || c == b'#'
    then closed c (parse_nested text)
    else closed 0 (parse_nested (c ∷ text))

-- `formatter<socket_v6_info>::format`
unfoldable pub format : Endian → SocketSpec → SocketV6 → Bytes
format e f s =
    if f.seperator == 0
    then b'[' ∷ (Format.format e f.addr_formatter s.addr ++ b']' ∷ b':' ∷ Port.to_string e s.p)
    else Format.format e f.addr_formatter s.addr ++ f.seperator ∷ Port.to_string e s.p

abbrev pub bracketed : SocketSpec
bracketed = record { seperator = 0; addr_formatter = recommended }

-- `socket_v6_info::to_string`
unfoldable pub to_string : Endian → SocketV6 → Bytes
unfolding format
to_string e s = format e bracketed s

-- `sockaddr_in6`, by its members that are not zero: the family, the port and the address.
pub record SockaddrIn6 : Type 0 where
  pub sin6_family : ℕ
  pub sin6_port : ℕ
  pub sin6_addr : List ℕ

abbrev af_inet6 : ℕ
af_inet6 = 10

unfoldable pub to_system_sockaddr : SocketV6 → SockaddrIn6
to_system_sockaddr s = record { sin6_family = af_inet6; sin6_port = s.p.p; sin6_addr = s.addr.addr }

unfoldable pub from_system_sockaddr : SockaddrIn6 → SocketV6
from_system_sockaddr a = record {
  addr = record { addr = a.sin6_addr };
  p = record { p = a.sin6_port };
}
