-- ===== src/Ring/Version.antt =====
-- `ring::version_info` of include/iouxx/iouringxx.hpp: its parser, its comparisons and its formatter.
pub mod Laws
use Prim.Native.Nat.{Ordering}
use iouxx.Base.{
  ℕ, zero, suc, Bool, true, false, not, ◌||◌, ◌&&◌, List, [], ◌∷◌, ◌++◌, Option, none, some, ◌==◌,
  if◌then◌else◌, and_then, Bytes, ℤ, pos, negsuc, neg, is_negative, int_compare, int_max,
}
use iouxx.Base.Result.{Errc}
use iouxx.Text.Split.{split}
use iouxx.Text.Number.{FromChars, parsed, failed, from_chars, format_decimal}

pub record VersionInfo : Type 0 where
  pub major : ℤ
  pub minor : ℤ

-- The default, and `invalid()`.
abbrev pub invalid : VersionInfo
invalid = record { major = pos int_max; minor = pos int_max }

abbrev whole : FromChars → Option ℕ
whole (parsed n []) = some n
whole _ = none

abbrev negated : Option ℕ → Option ℤ
negated none = none
negated (some n) = some (neg (pos n))

abbrev plain : Option ℕ → Option ℤ
plain none = none
plain (some n) = some (pos n)

-- `std::from_chars` into an `int`, without an error and with the whole text consumed.
unfoldable pub read_int : Bytes → Option ℤ
read_int [] = none
read_int (c ∷ s) =
    if c == b'-'
    then negated (whole (from_chars 10 2147483648 s))
    else plain (whole (from_chars 10 int_max (c ∷ s)))

-- A part that is no number, or a negative one, makes the version invalid.
pub read_part : Bytes → Option ℤ
read_part num = and_then (read_int num) λ n. if is_negative n then none else some n

abbrev minus_one : ℤ
minus_one = negsuc 0

abbrev pub is_unset : ℤ → Bool
is_unset (negsuc zero) = true
is_unset _ = false

-- The loop of `from_string`; `none` stands for the return of `invalid()`.
pub read_parts : List Bytes → VersionInfo → Option VersionInfo
unfolding read_part
read_parts [] v = some v
read_parts (num ∷ parts) v =
    if is_unset v.major
    then and_then (read_part num) (λ n. read_parts parts (record v { major = n }))
    else if is_unset v.minor
    then and_then (read_part num) (λ n. read_parts parts (record v { minor = n }))
    else none

pub checked : Option VersionInfo → VersionInfo
checked none = invalid
checked (some v) = if is_unset v.major || is_unset v.minor then invalid else v

-- `version_info::from_string`
unfoldable pub from_string : Bytes → VersionInfo
unfolding read_parts checked
from_string version =
    checked (read_parts (split b'.' version) (record { major = minus_one; minor = minus_one }))

-- The defaulted `operator<=>`: the members in their order.
abbrev then_compare : Ordering → Ordering → Ordering
then_compare Ordering.eq o = o
then_compare Ordering.lt o = Ordering.lt
then_compare Ordering.gt o = Ordering.gt

unfoldable pub compare : VersionInfo → VersionInfo → Ordering
compare v w = then_compare (int_compare v.major w.major) (int_compare v.minor w.minor)

-- `operator<=>` with a text.
unfoldable pub compare_text : VersionInfo → Bytes → Ordering
unfolding compare
compare_text ver str = compare ver (from_string str)

-- `ring::version_compat_with`; the check is liburing's `io_uring_check_version`.
unfoldable pub version_compat_with : (ℤ → ℤ → Bool) → VersionInfo → Bool
version_compat_with io_uring_check_version requirement =
    not (io_uring_check_version requirement.major requirement.minor)

-- `{}` on an `int`.
unfoldable pub format_int : ℤ → Bytes
format_int (pos n) = format_decimal n
format_int (negsuc n) = b'-' ∷ format_decimal (suc n)

-- `formatter<version_info>::parse`: the separator and what is left of the text, or an exception.
abbrev closed : ℕ → Bytes → Option (ℕ × Bytes)
closed seperator [] = some (seperator, [])
closed seperator (c ∷ text) = if c == b'}' then some (seperator, c ∷ text) else none

unfoldable pub parse : Bytes → Option (ℕ × Bytes)
parse [] = some (b'.', [])
parse (c ∷ text) = if c == b'}' then some (b'.', c ∷ text) else closed c text

-- `formatter<version_info>::format`
unfoldable pub format : ℕ → VersionInfo → Bytes
unfolding format_int
format seperator ver = format_int ver.major ++ seperator ∷ format_int ver.minor
