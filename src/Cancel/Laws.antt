-- ===== src/Cancel/Laws.antt =====
-- What the callback of a cancel operation is told, and that the last target decides.
use iouxx.Base.{ℕ, suc, true, false, ℤ, pos, negsuc, ◌≡◌, refl, ap, arith}
use iouxx.Base.Result.{ok, fail_system}
use iouxx.Ring.Setup.{has_bit, with_bit, without_bit}
use iouxx.Cancel.{
  CancelBase, CancelFdOperation, cancel_one, cancel_all, target_file, target_fixed_file,
  do_callback,
}

has_bit-with_bit : (n : ℕ) → has_bit 1 (with_bit 1 n) ≡ true
has_bit-with_bit n = ground arith

has_bit-without_bit : (n : ℕ) → has_bit 1 (without_bit 1 n) ≡ false
has_bit-without_bit n = ground arith

without_bit-with_bit : (n : ℕ) → without_bit 8 (with_bit 8 n) ≡ without_bit 8 n
without_bit-with_bit n = ground arith

with_bit-without_bit : (n : ℕ) → with_bit 8 (without_bit 8 n) ≡ with_bit 8 n
with_bit-without_bit n = ground arith

-- A result that is not negative is told as the count of cancelled operations behind cancel_all and
-- as 1 behind cancel_one, and a negative one as its error.
pub do_callback-counts :
    (self : CancelBase) (n : ℕ)
    → (do_callback (cancel_all self) (pos n) ≡ ok n)
      × (do_callback (cancel_one self) (pos n) ≡ ok 1)
      × (do_callback self (negsuc n) ≡ fail_system (pos (suc n)))
unfolding do_callback cancel_all cancel_one
do_callback-counts self n =
    (rw (has_bit-with_bit self.flags) refl, rw (has_bit-without_bit self.flags) refl, refl)

-- The last target of cancel_fd_operation decides between a file and a fixed file, its flag
-- included.
pub target_last :
    (file fixed : ℤ) (self : CancelFdOperation)
    → (target_file file (target_fixed_file fixed self) ≡ target_file file self)
      × (target_fixed_file fixed (target_file file self) ≡ target_fixed_file fixed self)
unfolding target_file target_fixed_file
target_last file fixed self = (
  ap (λ n. record { base = record { flags = n }; fd = file })
      (without_bit-with_bit self.base.flags),
  ap (λ n. record { base = record { flags = n }; fd = fixed })
      (with_bit-without_bit self.base.flags),
)
