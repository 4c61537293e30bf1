-- ===== src/Clock/Laws.antt =====
-- The conversions of the clock against those of include/iouxx/util/utility.hpp.
use iouxx.Base.{
  ◌*◌, ◌/◌, suc, ℤ, pos, negsuc, neg, ◌+ℤ◌, scale, quotient, ◌≡◌, refl, sym, ap, ◌∙◌, arith,
}
use iouxx.Time.{
  nano, to_kernel_timespec, from_kernel_timespec, from_kernel_timespec-to_kernel_timespec, sub-pos,
  sub-neg, scale-neg, neg-neg,
}
use iouxx.Clock.{remainder, now, to_timespec, from_timespec_duration}

-- What is left behind whole seconds is the remainder.
left-remainder : (d : ℤ) → d +ℤ neg (scale (quotient d nano) nano) ≡ remainder d nano
left-remainder (pos a) = sub-pos a (a / nano * nano) (omega arith) ∙ ap pos (omega arith)
left-remainder (negsuc a) =
    let q = suc a / nano in
    ap (λ s. negsuc a +ℤ neg s) (scale-neg q nano)
    ∙ ap (λ s. negsuc a +ℤ s) (neg-neg (q * nano))
    ∙ sub-neg (suc a) (q * nano) (omega arith)
    ∙ ap (λ n. neg (pos n)) (omega arith)

-- For every number of nanoseconds, to_timespec of the clock gives the same seconds and nanoseconds
-- as to_kernel_timespec of the utilities, from_timespec_duration gives the number back from them,
-- and so does boottime_clock::now where the system tells them.
pub to_timespec-agrees :
    (d : ℤ)
    → ((to_timespec d).tv_sec ≡ (to_kernel_timespec d).tv_sec)
      × ((to_timespec d).tv_nsec ≡ (to_kernel_timespec d).tv_nsec)
      × (from_timespec_duration (to_timespec d) ≡ d)
      × (now (to_timespec d) ≡ d)
unfolding to_timespec to_kernel_timespec from_timespec_duration now from_kernel_timespec
to_timespec-agrees d =
    let back =
      ap (λ n. scale (quotient d nano) nano +ℤ n) (sym (left-remainder d))
      ∙ (from_kernel_timespec-to_kernel_timespec d).0 in
    (refl, sym (left-remainder d), back, back)
