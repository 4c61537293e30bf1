-- ===== src/Cancel.antt =====
-- `cancel_operation` and `cancel_fd_operation` of include/iouxx/iouops/cancel.hpp: their targets and flags,
-- what they hand to liburing, and the count that their callbacks receive.
pub mod Laws
use iouxx.Base.{ℕ, if◌then◌else◌, ℤ, pos, negsuc, neg, is_negative}
use iouxx.Base.Result.{Expected, ok, fail_system}
use iouxx.Ring.Setup.{has_bit, with_bit, without_bit}

-- `IORING_ASYNC_CANCEL_ALL`, `IORING_ASYNC_CANCEL_FD_FIXED`, `IORING_ASYNC_CANCEL_USERDATA`
abbrev pub async_cancel_all : ℕ
async_cancel_all = 1

abbrev pub async_cancel_fd_fixed : ℕ
async_cancel_fd_fixed = 8

abbrev pub async_cancel_userdata : ℕ
async_cancel_userdata = 16

-- `details::cancel_base`, and its initial state.
pub record CancelBase : Type 0 where
  pub flags : ℕ

abbrev pub initial_base : CancelBase
initial_base = record { flags = async_cancel_userdata }

-- `cancel_base::cancel_one` and `cancel_base::cancel_all`
unfoldable pub cancel_one : CancelBase → CancelBase
cancel_one self = record { flags = without_bit async_cancel_all self.flags }

unfoldable pub cancel_all : CancelBase → CancelBase
cancel_all self = record { flags = with_bit async_cancel_all self.flags }

-- `cancel_operation`, with `details::cancel_id_base`.
pub record CancelOperation : Type 0 where
  pub base : CancelBase
  pub id : ℕ

-- `cancel_id_base::target`
unfoldable pub target : ℕ → CancelOperation → CancelOperation
target identifier self = record self { id = identifier }

-- `cancel_fd_operation`, with `details::cancel_fd_base`.
pub record CancelFdOperation : Type 0 where
  pub base : CancelBase
  pub fd : ℤ

-- `cancel_fd_base::target`, of a file and of a fixed file.
unfoldable pub target_file : ℤ → CancelFdOperation → CancelFdOperation
target_file native_handle self = record {
  base = record { flags = without_bit async_cancel_fd_fixed self.base.flags };
  fd = native_handle;
}

unfoldable pub target_fixed_file : ℤ → CancelFdOperation → CancelFdOperation
target_fixed_file index self = record {
  base = record { flags = with_bit async_cancel_fd_fixed self.base.flags };
  fd = index;
}

-- `build` of both operations: the arguments of `io_uring_prep_cancel` and `io_uring_prep_cancel_fd`.
pub build : CancelOperation → ℕ × ℕ
build self = (self.id, self.base.flags)

pub build_fd : CancelFdOperation → ℤ × ℕ
build_fd self = (self.fd, self.base.flags)

-- The count of operations that were canceled, for a result that is not negative.
abbrev cancelled_count : CancelBase → ℤ → ℕ
cancelled_count self (pos n) = if has_bit async_cancel_all self.flags then n else 1
cancelled_count self (negsuc n) = 0

-- The same of the operations without a callback.
unfoldable pub pure_build : CancelOperation → ℕ × ℕ
pure_build self = (self.id, self.base.flags)

unfoldable pub pure_build_fd : CancelFdOperation → ℤ × ℕ
pure_build_fd self = (self.fd, self.base.flags)

-- `do_callback` of both operations: what the callback receives.
unfoldable pub do_callback : CancelBase → ℤ → Expected ℕ
do_callback self ev = if is_negative ev then fail_system (neg ev) else ok (cancelled_count self ev)

unfoldable pub do_callback_fd : CancelBase → ℤ → Expected ℕ
do_callback_fd self ev =
    if is_negative ev then fail_system (neg ev) else ok (cancelled_count self ev)
