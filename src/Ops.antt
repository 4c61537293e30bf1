-- ===== src/Ops.antt =====
-- What the operations of include/iouxx/iouops share: the submission queue entry that they fill in, what
-- they make of a result, and the files of include/iouxx/iouops/file/file.hpp.
pub mod Laws
use iouxx.Base.{ℕ, suc, ◌%◌, Bool, true, false, if◌then◌else◌, ℤ, pos, negsuc, ◌≡◌}
use iouxx.Base.Result.{Expected, ok, fail_system}
use iouxx.Ring.Setup.{has_bit, with_bit}

-- A submission queue entry: the call of liburing that prepared it, with its arguments, and the members
-- that operations change behind that call.
pub record Sqe (C : Type 0) : Type 0 where
  pub call : C
  pub flags : ℕ
  pub ioprio : ℕ
  pub buf_index : ℕ

-- What the functions of liburing leave in these members.
pub record Prep (C : Type 0) : Type 0 where
  pub flags : C → ℕ
  pub ioprio : C → ℕ

abbrev pub prep : {C : Type 0} → Prep C → C → Sqe C
prep P call = record { call = call; flags = P.flags call; ioprio = P.ioprio call; buf_index = 0 }

-- What the documentation of liburing says of all of them: the entry is for a plain file descriptor.
pub record IsPrep {C : Type 0} (P : Prep C) : Type 0 where
  pub plain : (call : C) → P.flags call ≡ 0

-- `IOSQE_FIXED_FILE` and `IORING_CQE_F_MORE`
abbrev pub iosqe_fixed_file : ℕ
iosqe_fixed_file = 1

abbrev pub cqe_more : ℕ
cqe_more = 2

-- `if (is_fixed) sqe->flags |= IOSQE_FIXED_FILE`
abbrev pub fixed_flag : {C : Type 0} → Bool → Sqe C → Sqe C
fixed_flag is_fixed sqe =
    if is_fixed then record sqe { flags = with_bit iosqe_fixed_file sqe.flags } else sqe

-- What a callback receives of a result: the value that a result from 0 on stands for, or its error.
abbrev pub received : {A : Type 0} → (ℕ → A) → ℤ → Expected A
received value (pos n) = ok (value n)
received value (negsuc n) = fail_system (pos (suc n))

-- `(cqe_flags & IORING_CQE_F_MORE) != 0`
abbrev pub more : ℕ → Bool
more cqe_flags = has_bit cqe_more cqe_flags

-- `fileops::file` (and `fileops::directory`, which is one) and `fileops::fixed_file`, as the arguments of
-- an overloaded member function.
pub data AnyFile : Type 0 where
  file : ℤ → AnyFile
  fixed_file : ℤ → AnyFile

-- The members `fd` and `is_fixed` that an operation on a file keeps.
pub record Target : Type 0 where
  pub fd : ℤ
  pub is_fixed : Bool

abbrev pub no_target : Target
no_target = record { fd = negsuc 0; is_fixed = false }

-- `native_handle` and `index`, and the kind of the file.
unfoldable pub target_file : AnyFile → Target
target_file (file native_handle) = record { fd = native_handle; is_fixed = false }
target_file (fixed_file index) = record { fd = index; is_fixed = true }
