-- ===== src/Text/Number/Numerals.antt =====
-- Every text that `from_chars` consumes whole is a numeral.
use iouxx.Base.{
  ℕ, ◌≤◌, ◌*◌, ◌+◌, [], ◌∷◌, some, ◌≡◌, le→leb, Bytes, All, Option-cases, inl, inr, arith,
}
use iouxx.Text.Number.{parsed, digit, read_digits, in_range, from_chars}
use iouxx.Text.Number.Digits.{IsDigit}
use iouxx.Text.Number.RoundTrip.{IsNumeral}
use iouxx.Text.Number.Canonical.{from_chars_cases}

digit-IsDigit : (base c d : ℕ) → digit base c ≡ some d → IsDigit base c
unfolding digit
digit-IsDigit base c d h = ground arith

read_digits-IsDigit :
    (base acc n : ℕ) (s : Bytes) → read_digits base acc s ≡ (n, []) → All (IsDigit base) s
read_digits-IsDigit base acc n [] h = tt
read_digits-IsDigit base acc n (c ∷ s) h = elim (Option-cases (digit base c)) [
  | inl z ↦ absurd (unfold read_digits in cc (rw (read_digits, z) at h))
  | inr (d, z) ↦ (
    digit-IsDigit base c d z,
    read_digits-IsDigit base (acc * base + d) n s (unfold read_digits in rw (read_digits, z) at h),
  )
]

pub from_chars-IsNumeral :
    (base max n : ℕ) (s : Bytes)
    → from_chars base max s ≡ parsed n []
    → IsNumeral base n s × (n ≤ max)
from_chars-IsNumeral base max n [] h = absurd (unfold from_chars in cc)
from_chars-IsNumeral base max n (c ∷ s) h =
    let (d, first, rest, le) = from_chars_cases base max n c s h in
    (
      record {
        digits = (digit-IsDigit base c d first, read_digits-IsDigit base d n s rest);
        ne_nil = λ e. cc;
        value =
            λ top le'. unfold from_chars in_range in rw (from_chars, first, rest, le→leb n top le');
      },
      le,
    )
