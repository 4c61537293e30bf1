-- ===== src/Text/Number/RoundTrip.antt =====
-- `std::from_chars` reads back what `std::format` wrote.
use native.Mathlib.Nat.{div-add-mod', mod-lt, div-lt_self}
use iouxx.Base.{
  ℕ, zero, suc, ◌+◌, ◌-◌, ◌*◌, ◌/◌, ◌%◌, ◌≤◌, ◌<◌, Bool, true, false, [], ◌∷◌, ◌++◌, append_assoc,
  append-nil, some, ◌≡◌, refl, sym, ◌∙◌, ap, arith, ltb, lt→ltb, le→leb, Bytes, length,
  length-append, length-replicate, replicate, All, All-append, ◌≢◌, Bool-cases, inl, inr,
}
use iouxx.Text.Number.{
  digit_value, digit, read_digits, in_range, from_chars, parsed, write_digit, write_digits,
  to_chars, format_decimal, format_hex,
}
use iouxx.Text.Number.Digits.{
  IsDigit, write_digit-value, write_digit-IsDigit, Leads, write_digits-Leads, write_digits-IsDigit,
  length-write_digits,
}

digit-some : (base c : ℕ) → IsDigit base c → digit base c ≡ some (digit_value c)
unfolding digit
digit-some base c h = rw (lt→ltb (digit_value c) base h)

read_digits-cons :
    (base acc c : ℕ) (s : Bytes)
    → IsDigit base c
    → read_digits base acc (c ∷ s) ≡ read_digits base (acc * base + digit_value c) s
unfolding read_digits
read_digits-cons base acc c s h = rw (read_digits, digit-some base c h)

zero_digit : digit_value b'0' ≡ 0
unfolding digit_value
zero_digit = refl

zero_step : (base d : ℕ) → 0 * base + d ≡ d
zero_step base d = omega arith

-- Zeros in front of a number change nothing.
pub read_digits-zeros :
    (base k : ℕ) (s : Bytes)
    → 0 < base
    → read_digits base 0 (replicate k b'0' ++ s) ≡ read_digits base 0 s
read_digits-zeros base zero s h = refl
read_digits-zeros base (suc k) s h =
    read_digits-cons base 0 b'0' (replicate k b'0' ++ s) (rw zero_digit h)
    ∙ rw (zero_digit, zero_step) (read_digits-zeros base k s h)

from_chars-read :
    (base max c n : ℕ) (s rest : Bytes)
    → IsDigit base c
    → read_digits base 0 (c ∷ s) ≡ (n, rest)
    → n ≤ max
    → from_chars base max (c ∷ s) ≡ parsed n rest
from_chars-read base max c n s rest d e h =
    let first : read_digits base (digit_value c) s ≡ (n, rest) =
      ap (λ acc. read_digits base acc s) (sym (zero_step base (digit_value c)))
      ∙ sym (read_digits-cons base 0 c s d)
      ∙ e in
    unfold from_chars in rw (from_chars, digit-some base c d, first, in_range, le→leb n max h)

module _ (uppercase : Bool) (base : ℕ) (lo : 2 ≤ base) (hi : base ≤ 16) where
  read_digits-write_digit :
      (acc d : ℕ) (s : Bytes)
      → d < base
      → read_digits base acc (write_digit uppercase d ∷ s) ≡ read_digits base (acc * base + d) s
  read_digits-write_digit acc d s h =
      read_digits-cons base acc (write_digit uppercase d) s
        (write_digit-IsDigit uppercase base lo hi d h)
      ∙ rw (write_digit-value uppercase d (omega arith))

  read-write_digits :
      (fuel n : ℕ) (rest : Bytes)
      → n < fuel
      → read_digits base 0 (write_digits fuel uppercase base n ++ rest) ≡ read_digits base n rest
  unfolding write_digits
  read-write_digits zero n rest h = elim h [ ]
  read-write_digits (suc fuel) n rest h = elim (Bool-cases (ltb n base)) [
    | inl small ↦ rw small (read_digits-write_digit 0 n rest (ground arith) ∙ rw zero_step)
    | inr large ↦
        let less : n / base < n = div-lt_self (ground arith) (omega arith) in
        rw (large, append_assoc)
          (read-write_digits fuel (n / base) (write_digit uppercase (n % base) ∷ rest) (omega arith)
            ∙ read_digits-write_digit (n / base) (n % base) rest (mod-lt n (omega arith))
            ∙ rw (div-add-mod' n base))
  ]

-- A text of digits is read whole.
from_chars-digits :
    (base max n : ℕ) (s : Bytes)
    → s ≢ []
    → All (IsDigit base) s
    → read_digits base 0 s ≡ (n, [])
    → n ≤ max
    → from_chars base max s ≡ parsed n []
from_chars-digits base max n [] ne _ e h = absurd (ne refl)
from_chars-digits base max n (c ∷ s) ne (d, _) e h = from_chars-read base max c n s [] d e h

ne-nil_of_Leads : (n : ℕ) (s : Bytes) → Leads n s → s ≢ []
ne-nil_of_Leads n s (c, r, e, _) z = cc

append-ne-nil : (s t : Bytes) → t ≢ [] → s ++ t ≢ []
append-ne-nil [] t h = h
append-ne-nil (c ∷ s) t h = λ e. cc

replicate-IsDigit : (k : ℕ) → All (IsDigit 16) (replicate k b'0')
replicate-IsDigit zero = tt
replicate-IsDigit (suc k) = (rw zero_digit (omega arith), replicate-IsDigit k)

read_digits-to_chars :
    (uppercase : Bool) (base : ℕ)
    → 2 ≤ base
    → base ≤ 16
    → (n : ℕ) → read_digits base 0 (to_chars uppercase base n) ≡ (n, [])
unfolding to_chars read_digits
read_digits-to_chars uppercase base lo hi n =
    ap (read_digits base 0) (sym (append-nil _))
    ∙ read-write_digits uppercase base lo hi (suc n) n [] (omega arith)

-- The properties of the text of a number that its readers rely on.
pub record IsNumeral (base n : ℕ) (s : Bytes) : Type 0 where
  pub digits : All (IsDigit base) s
  pub ne_nil : s ≢ []
  pub value : (max : ℕ) → n ≤ max → from_chars base max s ≡ parsed n []

pub to_chars-IsNumeral :
    (uppercase : Bool) (base : ℕ)
    → 2 ≤ base
    → base ≤ 16
    → (n : ℕ) → IsNumeral base n (to_chars uppercase base n)
to_chars-IsNumeral uppercase base lo hi n =
    let all : All (IsDigit base) (to_chars uppercase base n) =
      unfold to_chars in write_digits-IsDigit uppercase base lo hi (suc n) n in
    let ne : to_chars uppercase base n ≢ [] =
      unfold to_chars in
      ne-nil_of_Leads n _ (write_digits-Leads uppercase base lo hi (suc n) n (omega arith)) in
    record {
      digits = all;
      ne_nil = ne;
      value = λ max h.
          from_chars-digits base max n _ ne all (read_digits-to_chars uppercase base lo hi n) h;
    }

pub format_decimal-IsNumeral : (n : ℕ) → IsNumeral 10 n (format_decimal n)
unfolding format_decimal
format_decimal-IsNumeral n = to_chars-IsNumeral false 10 (omega arith) (omega arith) n

-- Removed or not, the leading zeros do not change what is read.
pub format_hex-IsNumeral :
    (removed uppercase : Bool) (n : ℕ) → IsNumeral 16 n (format_hex removed uppercase n)
unfolding format_hex
format_hex-IsNumeral true uppercase n =
    to_chars-IsNumeral uppercase 16 (omega arith) (omega arith) n
format_hex-IsNumeral false uppercase n =
    let numeral = to_chars-IsNumeral uppercase 16 (omega arith) (omega arith) n in
    let k = 4 - length (to_chars uppercase 16 n) in
    let all = All-append (IsDigit 16) (replicate k b'0') _ (replicate-IsDigit k) numeral.digits in
    let ne = append-ne-nil (replicate k b'0') _ numeral.ne_nil in
    record {
      digits = all;
      ne_nil = ne;
      value = λ max h.
          from_chars-digits 16 max n _ ne all
            (read_digits-zeros 16 k _ (omega arith)
              ∙ read_digits-to_chars uppercase 16 (omega arith) (omega arith) n)
            h;
    }

-- The widths that the callers rely on.
pub length-format_decimal : (n : ℕ) → n < 256 → length (format_decimal n) ≤ 3
unfolding format_decimal
length-format_decimal n h =
    length-write_digits false 10 (omega arith) (omega arith) 2 (suc n) n (omega arith)

pub length-format_hex :
    (removed uppercase : Bool) (n : ℕ) → n < 65536 → length (format_hex removed uppercase n) ≤ 4
unfolding format_hex
length-format_hex true uppercase n h =
    length-write_digits uppercase 16 (omega arith) (omega arith) 3 (suc n) n (omega arith)
length-format_hex false uppercase n h =
    let width : length (to_chars uppercase 16 n) ≤ 4 =
      length-write_digits uppercase 16 (omega arith) (omega arith) 3 (suc n) n (omega arith) in
    let k = 4 - length (to_chars uppercase 16 n) in
    omega (
      arith,
      length-append {0} (replicate k b'0') (to_chars uppercase 16 n),
      length-replicate {0} {A = ℕ} k b'0',
    )

-- A decimal text of more than one digit does not begin with a zero.
pub format_decimal_leads : (n c : ℕ) (s : Bytes) → format_decimal n ≡ c ∷ s → s ≢ [] → c ≢ b'0'
unfolding format_decimal
format_decimal_leads zero c s e ne = absurd (ne cc)
format_decimal_leads (suc n) c s e ne =
    let (d, r, e', h) =
      write_digits-Leads false 10 (omega arith) (omega arith) (suc (suc n)) (suc n) (omega arith) in
    let same : c ≡ d = cc in rw same (h (omega arith))
