-- ===== src/Time.antt =====
-- The conversions of time of include/iouxx/util/utility.hpp.
use iouxx.Base.{
  ℕ, zero, suc, ◌+◌, ◌*◌, ◌/◌, ◌-◌, ◌<◌, ◌≤◌, ◌≡◌, refl, sym, ap, ◌∙◌, arith, ltb, ℤ, pos, negsuc,
  neg, Bool-cases, inl, inr, ◌+ℤ◌, scale, quotient,
}
use iouxx.Ring.Liburing.{KernelTimespec}

-- Nanoseconds in a second.
abbrev pub nano : ℕ
nano = 1000000000

-- `to_kernel_timespec`, of a number of nanoseconds.
unfoldable pub to_kernel_timespec : ℤ → KernelTimespec
to_kernel_timespec stdtime =
    let sec = quotient stdtime nano in
    let nsec = stdtime +ℤ neg (scale sec nano) in record { tv_sec = sec; tv_nsec = nsec }

-- `from_kernel_timespec`
unfoldable pub from_kernel_timespec : KernelTimespec → ℤ
from_kernel_timespec ts = scale ts.tv_sec nano +ℤ ts.tv_nsec

-- The distance from zero.
abbrev pub magnitude : ℤ → ℕ
magnitude (pos n) = n
magnitude (negsuc n) = suc n

pub sub-pos : (a b : ℕ) → b ≤ a → pos a +ℤ neg (pos b) ≡ pos (a - b)
sub-pos a zero h = ap pos (omega arith)
sub-pos a (suc b) h = ground arith

neg-suc : {n : ℕ} (m : ℕ) → n ≡ suc m → neg (pos n) ≡ negsuc m
neg-suc m e = ap (λ k. neg (pos k)) e

neg_zero : {n : ℕ} → n ≡ 0 → neg (pos n) ≡ pos 0
neg_zero e = ap (λ k. neg (pos k)) e

pub neg-neg : (n : ℕ) → neg (neg (pos n)) ≡ pos n
neg-neg zero = refl
neg-neg (suc n) = refl

pub scale-neg : (m n : ℕ) → scale (neg (pos m)) n ≡ neg (pos (m * n))
scale-neg zero n = let nul : zero * n ≡ 0 = omega arith in ap pos nul ∙ sym (neg_zero nul)
scale-neg (suc m) n = refl

pub sub-neg : (a b : ℕ) → b ≤ a → neg (pos a) +ℤ pos b ≡ neg (pos (a - b))
sub-neg zero zero h = refl
sub-neg zero (suc b) h = absurd (omega arith)
sub-neg (suc a) b h = elim (Bool-cases (ltb a b)) [
  | inl less ↦
      let same : b ≡ suc a = ground arith in
      rw less (ap pos (omega arith) ∙ sym (neg_zero (omega arith)))
  | inr more ↦ let rest : b ≤ a = ground arith in rw more (sym (neg-suc (a - b) (omega arith)))
]

pub add-neg : (a b : ℕ) → neg (pos a) +ℤ neg (pos b) ≡ neg (pos (a + b))
add-neg zero zero = refl
add-neg zero (suc b) = ground arith
add-neg (suc a) zero = ground arith
add-neg (suc a) (suc b) = ground arith

below : (m : ℕ) → magnitude (neg (pos m)) ≡ m
below zero = refl
below (suc m) = refl

-- from_kernel_timespec gives back every number of nanoseconds, negative ones included, that
-- to_kernel_timespec converted, and the nanoseconds of the latter stay below a second in magnitude.
pub from_kernel_timespec-to_kernel_timespec :
    (d : ℤ)
    → (from_kernel_timespec (to_kernel_timespec d) ≡ d)
      × (magnitude (to_kernel_timespec d).tv_nsec < nano)
unfolding from_kernel_timespec to_kernel_timespec
from_kernel_timespec-to_kernel_timespec (pos n) =
    let q = n / nano in
    let rest = sub-pos n (q * nano) (omega arith) in rw rest (ap pos (omega arith), omega arith)
from_kernel_timespec-to_kernel_timespec (negsuc n) =
    let q = suc n / nano in
    let rest = sub-neg (suc n) (q * nano) (omega arith) in
    rw (scale-neg q nano, neg-neg (q * nano), rest, add-neg (q * nano) (suc n - q * nano))
      (neg-suc n (omega arith), rw (below (suc n - q * nano)) (omega arith))
