-- ===== src/Ops/Laws.antt =====
-- The flag for a fixed file, in the entries of all operations.
use iouxx.Base.{Bool, true, false, ◌≡◌, refl, ℤ}
use iouxx.Ring.Setup.{has_bit}
use iouxx.Ops.{Sqe, fixed_flag, iosqe_fixed_file, Target}

module _ {C : Type 0} where
  pub fixed_flag-bit :
      (is_fixed : Bool) (sqe : Sqe C)
      → sqe.flags ≡ 0
      → has_bit iosqe_fixed_file (fixed_flag is_fixed sqe).flags ≡ is_fixed
  fixed_flag-bit true sqe plain = rw plain refl
  fixed_flag-bit false sqe plain = rw plain refl

  pub call-fixed_flag : (is_fixed : Bool) (sqe : Sqe C) → (fixed_flag is_fixed sqe).call ≡ sqe.call
  call-fixed_flag true sqe = refl
  call-fixed_flag false sqe = refl

  pub buf_index-fixed_flag :
      (is_fixed : Bool) (sqe : Sqe C) → (fixed_flag is_fixed sqe).buf_index ≡ sqe.buf_index
  buf_index-fixed_flag true sqe = refl
  buf_index-fixed_flag false sqe = refl

-- The entry is for the file of that target: its handle is the one that the call was given, and it is marked
-- as fixed exactly if the target is.
pub record IsAimed {C : Type 0} (fd_of : C → ℤ) (at : Target) (sqe : Sqe C) : Type 0 where
  pub handle : fd_of sqe.call ≡ at.fd
  pub fixed : has_bit iosqe_fixed_file sqe.flags ≡ at.is_fixed

pub fixed_flag-IsAimed :
    {C : Type 0} (fd_of : C → ℤ) (at : Target) (sqe : Sqe C)
    → fd_of sqe.call ≡ at.fd
    → sqe.flags ≡ 0
    → IsAimed fd_of at (fixed_flag at.is_fixed sqe)
fixed_flag-IsAimed fd_of at sqe h plain = record {
  handle = rw (call-fixed_flag at.is_fixed sqe) h;
  fixed = fixed_flag-bit at.is_fixed sqe plain;
}
