-- ===== src/Noop/Laws.antt =====
-- The callback of a no-op is told of the pseudo result.
use iouxx.Base.{
  ℕ, zero, suc, ◌-◌, ◌%◌, ◌≤◌, ◌^◌, ltb-false, if◌then◌else◌, ℤ, pos, negsuc, neg, ◌≡◌, refl, ap,
  ◌∙◌, arith, int_max,
}
use iouxx.Base.Result.{is_nonzero, make_system_error_code}
use iouxx.Ring.Setup.{to_uint32}
use iouxx.Timeout.{stdexpected_callback, errorcode_callback, success, failed, code}
use iouxx.Noop.{to_int32, Noop, NopSqe, pseudo_result, build, do_callback}

-- What the documentation of io_uring says of a no-op: its result is 0, or the one in `len` if the flag
-- asks for it.
pub record IsNop (kernel : NopSqe → ℤ) : Type 0 where
  pub plain : (sqe : NopSqe) → sqe.nop_flags % 2 ≡ 0 → kernel sqe ≡ pos 0
  pub injected : (sqe : NopSqe) → sqe.nop_flags % 2 ≡ 1 → kernel sqe ≡ to_int32 sqe.len

negated : (m : ℕ) → suc m ≤ int_max → to_int32 ((2 ^ 32 - suc m) % 2 ^ 32) ≡ negsuc m
negated m h =
    rw (ltb-false ((2 ^ 32 - suc m) % 2 ^ 32) (2 ^ 31) (omega arith)) (ap negsuc (omega arith))

injected_len : (m : ℕ) → suc m ≤ int_max → to_int32 (to_uint32 (negsuc m)) ≡ negsuc m
injected_len m h =
    rw (ltb-false (to_uint32 (negsuc m)) (2 ^ 31) (omega arith)) (ap negsuc (omega arith))

kernel-build :
    (kernel : NopSqe → ℤ)
    → IsNop kernel
    → (n : ℕ) (self : Noop) → n ≤ int_max
    → kernel (build (pseudo_result n self)) ≡ neg (pos n)
unfolding build pseudo_result
kernel-build kernel law zero self h = law.plain _ refl
kernel-build kernel law (suc m) self h = rw (negated m h) (law.injected _ refl ∙ injected_len m h)

-- For a kernel that completes a no-op with 0 or, if the flag asks for it, with the result in the
-- entry, and a pseudo result that an int can hold, the callback is told of the pseudo result: as
-- the error code of that number, or as a success or a failure with that code.
pub do_callback-pseudo_result :
    (kernel : NopSqe → ℤ)
    → IsNop kernel
    → (n : ℕ) (self : Noop) → n ≤ int_max
    → (do_callback errorcode_callback (kernel (build (pseudo_result n self)))
        ≡ code (make_system_error_code (pos n)))
      × (do_callback stdexpected_callback (kernel (build (pseudo_result n self)))
          ≡ (if is_nonzero (pos n) then failed (make_system_error_code (pos n)) else success))
unfolding do_callback
do_callback-pseudo_result kernel law zero self h =
    rw (kernel-build kernel law zero self h) (refl, refl)
do_callback-pseudo_result kernel law (suc m) self h =
    rw (kernel-build kernel law (suc m) self h) (refl, refl)
