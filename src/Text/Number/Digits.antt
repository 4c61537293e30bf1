-- ===== src/Text/Number/Digits.antt =====
-- The bytes that `std::format` writes for a number: digits only, as many as the number needs, and
-- no zero in front.
use native.Mathlib.Nat.{
  div-lt_iff_lt-mul, div-lt_self, le-div_iff_mul-le, pow-zero, one-mul, mod-lt, pow-suc,
}
use iouxx.Base.{
  ℕ, zero, suc, ◌/◌, ◌%◌, ◌^◌, ◌≤◌, ◌<◌, Bool, [], ◌∷◌, ◌++◌, ◌≡◌, ◌≢◌, refl, ap, arith, ltb,
  lt→ltb, Bytes, All, All-append, Lacks, length, length-append, Bool-cases, inl, inr,
}
use iouxx.Text.Number.{digit_value, write_digit, write_digits}

-- A byte that `std::from_chars` reads as a digit.
abbrev pub IsDigit : ℕ → ℕ → Type 0
IsDigit base c = digit_value c < base

pub write_digit-value :
    (uppercase : Bool) (d : ℕ) → d < 16 → digit_value (write_digit uppercase d) ≡ d
unfolding digit_value write_digit
write_digit-value uppercase d h = ground arith

write_digit-zero : (uppercase : Bool) (d : ℕ) → 0 < d → write_digit uppercase d ≢ b'0'
unfolding write_digit
write_digit-zero uppercase d h = ground arith

pub Lacks-of_IsDigit :
    (base b : ℕ) (s : Bytes) → base ≤ digit_value b → All (IsDigit base) s → Lacks b s
Lacks-of_IsDigit base b [] h _ = tt
Lacks-of_IsDigit base b (c ∷ s) h (hc, hs) =
    (λ e. absurd (omega (arith, ap digit_value e)), Lacks-of_IsDigit base b s h hs)

div_pos : {n base : ℕ} → base ≤ n → 0 < base → 0 < n / base
div_pos {n} {base} h pos = (le-div_iff_mul-le {k = base} {x = 1} {y = n} pos).1 (omega arith)

div-lt-pow : {n base : ℕ} (k : ℕ) → 0 < base → n < base ^ suc k → n / base < base ^ k
div-lt-pow {n} {base} k pos h =
    (div-lt_iff_lt-mul {k = base} {x = n} {y = base ^ k} pos).1 (rw (← pow-suc base k) h)

-- The digits start with a byte, which is no zero unless the number is zero.
abbrev pub Leads : ℕ → Bytes → Type 0
Leads n s = (c : ℕ) × (r : Bytes) × (s ≡ c ∷ r) × (0 < n → c ≢ b'0')

module _ (uppercase : Bool) (base : ℕ) (lo : 2 ≤ base) (hi : base ≤ 16) where
  pub write_digit-IsDigit : (d : ℕ) → d < base → IsDigit base (write_digit uppercase d)
  write_digit-IsDigit d h = omega (arith, write_digit-value uppercase d)

  pub write_digits-IsDigit : (fuel n : ℕ) → All (IsDigit base) (write_digits fuel uppercase base n)
  unfolding write_digits
  write_digits-IsDigit zero n = tt
  write_digits-IsDigit (suc fuel) n = elim (Bool-cases (ltb n base)) [
    | inl small ↦ rw small (write_digit-IsDigit n (ground arith), tt)
    | inr large ↦ rw large (
        All-append _ (write_digits fuel uppercase base (n / base)) _
          (write_digits-IsDigit fuel (n / base))
          (write_digit-IsDigit (n % base) (mod-lt n (omega arith)), tt))
  ]

  pub write_digits-Leads : (fuel n : ℕ) → n < fuel → Leads n (write_digits fuel uppercase base n)
  unfolding write_digits
  write_digits-Leads zero n h = elim h [ ]
  write_digits-Leads (suc fuel) n h = elim (Bool-cases (ltb n base)) [
    | inl small ↦ rw small (write_digit uppercase n, [], refl, λ p. write_digit-zero uppercase n p)
    | inr large ↦
        let wide : base ≤ n = ground arith in
        let less : n / base < n = div-lt_self (omega arith) (omega arith) in
        let (c, r, e, ne) = write_digits-Leads fuel (n / base) (omega arith) in
        rw large (
          c,
          r ++ write_digit uppercase (n % base) ∷ [],
          rw e,
          λ _. ne (div_pos wide (omega arith)),
        )
  ]

  pub length-write_digits :
      (k fuel n : ℕ) → n < base ^ suc k → length (write_digits fuel uppercase base n) ≤ suc k
  unfolding write_digits
  length-write_digits k zero n h = omega arith
  length-write_digits zero (suc fuel) n h =
      rw (lt→ltb n base (rw (pow-suc, pow-zero, one-mul) at h)) (omega arith)
  length-write_digits (suc k) (suc fuel) n h = elim (Bool-cases (ltb n base)) [
    | inl small ↦ rw small (omega arith)
    | inr large ↦ rw large (
        omega (
          arith,
          length-append {0} (write_digits fuel uppercase base (n / base))
              (write_digit uppercase (n % base) ∷ []),
          length-write_digits k fuel (n / base) (div-lt-pow (suc k) (omega arith) h),
        ))
  ]
