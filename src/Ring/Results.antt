-- ===== src/Ring/Results.antt =====
-- Submitting, and the results of a ring: `submit`, `fetch_result` and `wait_for_result` of `ring`, and
-- `operation_result`, in include/iouxx/iouringxx.hpp.
pub mod Order
use iouxx.Base.{ℕ, Bool, true, false, Option, none, some, ℤ, neg, is_negative, if◌then◌else◌}
use iouxx.Base.Result.{
  ErrorCode, no_error, make_error_code, make_system_error_code, resource_unavailable_try_again,
  Expected, ok, fail_system,
}
use iouxx.Ring.Liburing.{Liburing, KernelTimespec, Cqe}
use iouxx.Ring.State.{Ring}

-- `operation_result`: the operation is named by the user data of the completion.
pub record OperationResult : Type 0 where
  pub cb : ℕ
  pub res : ℤ
  pub cqe_flags : ℕ

unfoldable pub from_cqe : Cqe → OperationResult
from_cqe cqe = record { cb = cqe.user_data; res = cqe.res; cqe_flags = cqe.flags }

module _ {K : Type 0} (L : Liburing K) where
  -- `ring::submit`; the submission queue entry may be null.
  unfoldable pub submit : Option ℕ → Ring → K → ErrorCode × K
  submit none r k = (make_error_code resource_unavailable_try_again, k)
  submit (some sqe) r k =
      let (ev, k₁) = L.io_uring_submit r.raw_ring k in
      if is_negative ev then (make_system_error_code (neg ev), k₁) else (no_error, k₁)

  -- What follows the call that looks for a completion.
  pub take_result : Ring → (ℤ × Cqe) × K → Expected OperationResult × K
  take_result r ((ev, cqe), k) =
      if is_negative ev
      then (fail_system (neg ev), k)
      else (ok (from_cqe cqe), L.io_uring_cqe_seen r.raw_ring cqe k)

  -- `ring::fetch_result`
  unfoldable pub fetch_result : Ring → K → Expected OperationResult × K
  unfolding take_result from_cqe
  fetch_result r k = take_result r (L.io_uring_peek_cqe r.raw_ring k)

  -- `ring::wait_for_result`; a timeout of zero is none.
  unfoldable pub wait_for_result : Option KernelTimespec → Ring → K → Expected OperationResult × K
  unfolding take_result from_cqe
  wait_for_result none r k = take_result r (L.io_uring_wait_cqe r.raw_ring k)
  wait_for_result (some ts) r k = take_result r (L.io_uring_wait_cqe_timeout r.raw_ring ts k)
