-- ===== src/Ip/Port.antt =====
-- `port` of include/iouxx/iouops/network/ip.hpp: its parsers, its formatter and its comparisons.
pub mod Laws
use iouxx.Base.{
  ℕ, ◌<◌, Bool, true, false, not, ◌&&◌, [], ◌∷◌, Option, none, some, ◌==◌, ltb, if◌then◌else◌,
  Bytes, length,
}
use iouxx.Base.Result.{Expected, ok, ◌>>=◌, ◌>>◌, require, invalid_argument}
use iouxx.Text.Number.{FromChars, parsed, failed, from_chars, format_decimal}
use iouxx.Ip.Bytes.{Endian, hton_16}
use iouxx.Ip.V4.{consumed, front}

pub record Port : Type 0 where
  -- In network byte order.
  pub p : ℕ

-- The raw port is a 16-bit number.
abbrev pub IsPort : Port → Type 0
IsPort a = a.p < 65536

unfoldable pub eq : Port → Port → Bool
eq lhs rhs = lhs.p == rhs.p

-- The comparison with a number in the order of the machine.
unfoldable pub eq_local : Endian → Port → ℕ → Bool
eq_local e lhs rhs = lhs.p == hton_16 e rhs

abbrev from_number : Endian → FromChars → Option Port
from_number e (parsed n []) = some (record { p = hton_16 e n })
from_number e _ = none

-- `port::from_string_uncheck`; `none` is undefined behaviour, an assumption that fails.
unfoldable pub from_string_uncheck : Endian → Bytes → Option Port
from_string_uncheck e port_str = from_number e (from_chars 10 65535 port_str)

-- `port::from_string`
unfoldable pub from_string : Endian → Bytes → Expected Port
from_string e port_str = do
  require (not (ltb 1 (length port_str) && front port_str == b'0')) invalid_argument
  port_num ← consumed (from_chars 10 65535 port_str)
  ok (record { p = hton_16 e port_num })

-- `formatter<port>::parse`: what is left of the text, or an exception.
unfoldable pub parse : Bytes → Option Bytes
parse [] = some []
parse (c ∷ text) = if c == b'}' then some (c ∷ text) else none

-- `formatter<port>::format` and `port::to_string`
unfoldable pub to_string : Endian → Port → Bytes
to_string e a = format_decimal (hton_16 e a.p)
