-- ===== src/Ip/V4.antt =====
-- `address_v4` of include/iouxx/iouops/network/ip.hpp: the checked and the unchecked parser, and the
-- formatter. A text is a list of bytes.
pub mod Print
pub mod RoundTrip
pub mod Sound
pub mod Uncheck
use iouxx.Base.{
  ℕ, suc, ◌<◌, Bool, true, false, not, ◌&&◌, ◌||◌, List, [], ◌∷◌, ◌++◌, Option, none, some, ◌==◌,
  ltb, if◌then◌else◌, Bytes, length, get_or, set,
}
use iouxx.Base.Result.{
  Expected, ok, unexpected, fail, fail_invalid_argument, invalid_argument, ◌>>=◌, ◌>>◌, require,
}
use iouxx.Text.Split.{split}
use iouxx.Text.Number.{FromChars, parsed, failed, from_chars, format_decimal}
use iouxx.Ip.Bytes.{Endian, load_32, store_32, hton}

pub record AddressV4 : Type 0 where
  -- In network byte order.
  pub addr : ℕ

abbrev pub is_empty : Bytes → Bool
is_empty [] = true
is_empty (c ∷ s) = false

-- `sub.front()`, of a text that is not empty.
abbrev pub front : Bytes → ℕ
front s = get_or s 0 0

-- The two tests behind each call of `std::from_chars`: no error, and the whole text consumed.
unfoldable pub consumed : FromChars → Expected ℕ
consumed (parsed n []) = ok n
consumed (parsed n (c ∷ rest)) = fail_invalid_argument
consumed (failed ec) = fail ec

-- One round of the loop of `from_string`, on a part between the dots.
pub parse_part : Bytes → Expected ℕ
unfolding consumed
parse_part sub = do
  require (not (is_empty sub || ltb 3 (length sub))) invalid_argument
  require (not (ltb 1 (length sub) && front sub == b'0')) invalid_argument
  consumed (from_chars 10 255 sub)

pub parse_parts : List Bytes → List ℕ → ℕ → Expected (List ℕ × ℕ)
unfolding parse_part
parse_parts [] part_results count = ok (part_results, count)
parse_parts (part ∷ parts) part_results count = do
  require (ltb count 4) invalid_argument
  n ← parse_part part
  parse_parts parts (set part_results count n) (suc count)

-- What follows the loop.
pub finish : Endian → List ℕ × ℕ → Expected AddressV4
finish e (part_results, count) = do
  require (count == 4) invalid_argument
  ok (record { addr = load_32 e part_results })

abbrev pub zeros : List ℕ
zeros = 0 ∷ 0 ∷ 0 ∷ 0 ∷ []

-- `address_v4::from_string`
unfoldable pub from_string : Endian → Bytes → Expected AddressV4
unfolding parse_parts finish
from_string e ipv4_str = do
  require (not (is_empty ipv4_str || ltb 15 (length ipv4_str))) invalid_argument
  r ← parse_parts (split b'.' ipv4_str) zeros 0
  finish e r

-- The loop of `from_string_uncheck`; `none` is undefined behaviour, an assumption that fails.
pub assume_parts : List Bytes → List ℕ → ℕ → Option (List ℕ)
assume_parts [] part_results count = some part_results
assume_parts (part ∷ parts) part_results count =
    if ltb count 4
    then (elim (from_chars 10 255 part) [
      | parsed n [] ↦ assume_parts parts (set part_results count n) (suc count)
      | _ ↦ none
    ])
    else none

abbrev from_parts : Endian → Option (List ℕ) → Option AddressV4
from_parts e none = none
from_parts e (some part_results) = some (record { addr = load_32 e part_results })

-- `address_v4::from_string_uncheck`
unfoldable pub from_string_uncheck : Endian → Bytes → Option AddressV4
unfolding assume_parts
from_string_uncheck e ipv4_str = from_parts e (assume_parts (split b'.' ipv4_str) zeros 0)

-- `formatter<address_v4>::format`, on the four bytes of the address.
pub format_parts : List ℕ → Bytes
format_parts parts =
    format_decimal (get_or parts 0 0)
    ++ (b'.'
        ∷ (format_decimal (get_or parts 1 0)
            ++ (b'.'
                ∷ (format_decimal (get_or parts 2 0)
                    ++ (b'.' ∷ format_decimal (get_or parts 3 0))))))

-- `address_v4::to_string`
unfoldable pub to_string : Endian → AddressV4 → Bytes
unfolding format_parts
to_string e a = format_parts (store_32 e a.addr)

-- The named addresses, and `raw`.
unfoldable pub loopback : Endian → AddressV4
loopback e = record { addr = hton e 0x7f000001 }

unfoldable pub any : Endian → AddressV4
any e = record { addr = hton e 0x00000000 }

unfoldable pub broadcast : Endian → AddressV4
broadcast e = record { addr = hton e 0xffffffff }

-- The raw address is a 32-bit number.
abbrev pub IsAddressV4 : AddressV4 → Type 0
IsAddressV4 a = a.addr < 0x1_0000_0000
