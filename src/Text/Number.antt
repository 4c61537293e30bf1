-- ===== src/Text/Number.antt =====
-- `std::from_chars` on unsigned integers, and `{}`, `{:x}`, `{:X}`, `{:04x}`, `{:04X}` of
-- `std::format`.
pub mod Digits
pub mod RoundTrip
pub mod Canonical
pub mod Numerals
use iouxx.Base.{
  ℕ, zero, suc, ◌+◌, ◌-◌, ◌*◌, ◌/◌, ◌%◌, Bool, false, ◌&&◌, [], ◌∷◌, ◌++◌, Option, none, some, ltb,
  leb, if◌then◌else◌, Bytes, replicate, length,
}
use iouxx.Base.Result.{Errc, invalid_argument, result_out_of_range}

abbrev within : ℕ → ℕ → ℕ → Bool
within lo hi c = leb lo c && leb c hi

-- What a byte stands for as a digit, upper and lower case alike; 36 and more is no digit.
unfoldable pub digit_value : ℕ → ℕ
digit_value c =
    if within b'0' b'9' c
    then c - b'0'
    else if within b'a' b'z' c
    then c - b'a' + 10
    else if within b'A' b'Z' c
    then c - b'A' + 10
    else 36

unfoldable pub digit : ℕ → ℕ → Option ℕ
digit base c = if ltb (digit_value c) base then some (digit_value c) else none

-- The number that the digits at the front spell behind `acc`, and the rest.
unfoldable pub read_digits : ℕ → ℕ → Bytes → ℕ × Bytes
read_digits base acc [] = (acc, [])
read_digits base acc (c ∷ s) = elim (digit base c) [
  | some d ↦ read_digits base (acc * base + d) s
  | none ↦ (acc, c ∷ s)
]

-- `parsed value rest` stands for no error, `failed` for `ec`.
pub data FromChars : Type 0 where
  parsed : ℕ → Bytes → FromChars
  failed : Errc → FromChars

pub in_range : ℕ → ℕ × Bytes → FromChars
in_range max (n, rest) = if leb n max then parsed n rest else failed result_out_of_range

-- `std::from_chars(first, last, value, base)` into an unsigned type whose largest value is `max`.
unfoldable pub from_chars : ℕ → ℕ → Bytes → FromChars
unfolding digit_value digit read_digits in_range
from_chars base max [] = failed invalid_argument
from_chars base max (c ∷ s) = elim (digit base c) [
  | some d ↦ in_range max (read_digits base d s)
  | none ↦ failed invalid_argument
]

pub write_digit : Bool → ℕ → ℕ
write_digit uppercase d =
    if ltb d 10 then b'0' + d else if uppercase then b'A' + d - 10 else b'a' + d - 10

pub write_digits : ℕ → Bool → ℕ → ℕ → Bytes
write_digits zero uppercase base n = []
write_digits (suc fuel) uppercase base n =
    let rest = write_digits fuel uppercase base (n / base) in
    if ltb n base
    then write_digit uppercase n ∷ []
    else rest ++ write_digit uppercase (n % base) ∷ []

-- The digits of `n`; one more than `n` is fuel enough.
unfoldable pub to_chars : Bool → ℕ → ℕ → Bytes
unfolding write_digit write_digits
to_chars uppercase base n = write_digits (suc n) uppercase base n

-- `{}`
unfoldable pub format_decimal : ℕ → Bytes
unfolding to_chars
format_decimal = to_chars false 10

-- `{:x}` and `{:X}`, or `{:04x}` and `{:04X}` where leading zeros are not removed.
unfoldable pub format_hex : Bool → Bool → ℕ → Bytes
unfolding to_chars
format_hex removed uppercase n =
    let digits = to_chars uppercase 16 n in
    if removed then digits else replicate (4 - length digits) b'0' ++ digits
