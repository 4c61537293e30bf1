-- ===== src/Text/Number/Canonical.antt =====
-- A decimal text with no zero in front is the only text of its number.
use native.Mathlib.Nat.{div-lt_self}
use iouxx.Base.{
  ℕ, zero, suc, ◌+◌, ◌*◌, ◌/◌, ◌%◌, ◌≤◌, ◌<◌, Bool, true, false, [], ◌∷◌, ◌++◌, append_assoc,
  append-nil, some, ◌≡◌, refl, sym, ◌∙◌, ap, arith, ltb, Bytes, Bool-cases, Option-cases, ◌⊎◌, inl,
  inr,
}
use iouxx.Text.Number.{
  parsed, digit_value, digit, read_digits, in_range, from_chars, write_digit, write_digits,
  to_chars, format_decimal,
}

module _ (uppercase : Bool) (base : ℕ) (lo : 2 ≤ base) where
  write_digits_fuel :
      (f g n : ℕ)
      → n < f
      → n < g
      → write_digits f uppercase base n ≡ write_digits g uppercase base n
  unfolding write_digits
  write_digits_fuel zero g n h k = elim h [ ]
  write_digits_fuel (suc f) zero n h k = elim k [ ]
  write_digits_fuel (suc f) (suc g) n h k = elim (Bool-cases (ltb n base)) [
    | inl small ↦ rw small
    | inr large ↦
        let less : n / base < n = div-lt_self (ground arith) (omega arith) in
        rw (large, write_digits_fuel f g (n / base) (omega arith) (omega arith))
  ]

  to_chars_step :
      (n : ℕ)
      → base ≤ n
      → to_chars uppercase base n
        ≡ to_chars uppercase base (n / base) ++ write_digit uppercase (n % base) ∷ []
  unfolding to_chars
  to_chars_step n h =
      let less : n / base < n = div-lt_self (omega arith) (omega arith) in
      let large : ltb n base ≡ false = ground arith in
      unfold write_digits in
      rw (large, write_digits_fuel n (suc (n / base)) (n / base) less (omega arith))

to_chars_one : (d : ℕ) → d < 10 → to_chars false 10 d ≡ write_digit false d ∷ []
unfolding to_chars
to_chars_one d h = let small : ltb d 10 ≡ true = ground arith in unfold write_digits in rw small

Pos-cases : (n : ℕ) → (n ≡ 0) ⊎ (0 < n)
Pos-cases zero = inl refl
Pos-cases (suc n) = inr (omega arith)

-- A decimal digit is the byte that is written for its value.
write_digit_of : (c : ℕ) → digit_value c < 10 → write_digit false (digit_value c) ≡ c
unfolding digit_value write_digit
write_digit_of c h = ground arith

digit_cases : (c d : ℕ) → digit 10 c ≡ some d → (d ≡ digit_value c) × (digit_value c < 10)
unfolding digit
digit_cases c d h = ground arith

read_digits-nil : (base acc n : ℕ) (s : Bytes) → s ≡ [] → read_digits base acc s ≡ (n, []) → acc ≡ n
unfolding read_digits
read_digits-nil base acc n [] e h = ap (λ (p : ℕ × Bytes). p.0) h
read_digits-nil base acc n (c ∷ s) e h = cc

to_chars_push :
    (acc d : ℕ)
    → 0 < acc
    → d < 10
    → to_chars false 10 (acc * 10 + d) ≡ to_chars false 10 acc ++ write_digit false d ∷ []
to_chars_push acc d pos h =
    let q : (acc * 10 + d) / 10 ≡ acc = omega arith in
    let r : (acc * 10 + d) % 10 ≡ d = omega arith in
    to_chars_step false 10 (omega arith) (acc * 10 + d) (omega arith) ∙ rw (q, r)

read_digits-to_chars :
    (s : Bytes) (acc n : ℕ)
    → 0 < acc
    → read_digits 10 acc s ≡ (n, [])
    → to_chars false 10 n ≡ to_chars false 10 acc ++ s
unfolding read_digits
read_digits-to_chars [] acc n pos e =
    ap (λ (p : ℕ × Bytes). to_chars false 10 p.0) (sym e) ∙ sym (append-nil (to_chars false 10 acc))
read_digits-to_chars (c ∷ s) acc n pos e = elim (Option-cases (digit 10 c)) [
  | inl z ↦ absurd (ground arith)
  | inr (d, z) ↦
      let (same, small) = digit_cases c d z in
      read_digits-to_chars s (acc * 10 + d) n (omega arith) (ground arith)
      ∙ ap (λ p. p ++ s) (to_chars_push acc d pos (omega arith))
      ∙ append_assoc (to_chars false 10 acc) (write_digit false d ∷ []) s
      ∙ rw same (rw (write_digit_of c small))
]

in_range_cases :
    (max n : ℕ) (r : ℕ × Bytes) → in_range max r ≡ parsed n [] → (r ≡ (n, [])) × (n ≤ max)
unfolding in_range
in_range_cases max n (m, rest) e = ground arith

pub from_chars_cases :
    (base max n c : ℕ) (s : Bytes)
    → from_chars base max (c ∷ s) ≡ parsed n []
    → (d : ℕ) × (digit base c ≡ some d) × (read_digits base d s ≡ (n, [])) × (n ≤ max)
from_chars_cases base max n c s e = elim (Option-cases (digit base c)) [
  | inl z ↦ absurd (unfold from_chars in cc (rw (from_chars, z) at e))
  | inr (d, z) ↦
      let (r, le) =
        in_range_cases max n (read_digits base d s)
          (unfold from_chars in rw (from_chars, z) at e) in
      (d, z, r, le)
]

format_decimal-to_chars : (n : ℕ) → format_decimal n ≡ to_chars false 10 n
unfolding format_decimal
format_decimal-to_chars n = refl

zero_cases : (c : ℕ) → digit_value c ≡ 0 → c ≡ b'0'
unfolding digit_value
zero_cases c h = ground arith

-- A text that the parser consumes whole, with no zero in front of another digit, is what the
-- formatter writes.
pub from_chars_canonical :
    (max n c : ℕ) (s : Bytes)
    → from_chars 10 max (c ∷ s) ≡ parsed n []
    → (c ≡ b'0' → s ≡ [])
    → (c ∷ s ≡ format_decimal n) × (n ≤ max)
from_chars_canonical max n c s e lead =
    let (d, z, r, le) = from_chars_cases 10 max n c s e in
    let (same, small) = digit_cases c d z in
    let one : to_chars false 10 d ≡ c ∷ [] =
      to_chars_one d (omega arith) ∙ rw same (rw (write_digit_of c small)) in
    let whole : to_chars false 10 n ≡ c ∷ s = elim (Pos-cases d) [
      | inl none_left ↦
          let empty = lead (zero_cases c (sym same ∙ none_left)) in
          let known = read_digits-nil 10 d n s empty r in
          rw (← known) (one ∙ ap (◌∷◌ c) (sym empty))
      | inr pos ↦ read_digits-to_chars s d n pos r ∙ ap (λ p. p ++ s) one
    ] in
    (sym (format_decimal-to_chars n ∙ whole), le)
