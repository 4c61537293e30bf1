-- ===== src/Ring/Operation.antt =====
-- `operation_base` of include/iouxx/iouringxx.hpp with the two kinds of callback that the library adds: the
-- synchronous wait and the awaiter. An operation is named by its address; what its class provides, `build`
-- and the meaning of a result, is a parameter.
pub mod Laws
use iouxx.Base.{ℕ, Bool, true, false, Option, none, some, ◌&&◌, ◌==◌, if◌then◌else◌, ℤ, pos, negsuc}
use iouxx.Base.Result.{
  ErrorCode, no_error, has_error, make_error_code, function_not_supported, operation_canceled,
  errno, Expected, ok, unexpected,
}
use iouxx.Ring.Liburing.{Liburing}
use iouxx.Ring.State.{Ring}
use iouxx.Ring.Results.{OperationResult, submit, wait_for_result}

-- The initial value of `syncwait_callback::result`.
abbrev pub no_result : {A : Type 0} → Expected A
no_result = unexpected no_error

module _ {K A : Type 0} (L : Liburing K) (build : ℕ → ℕ → K → K)
    (meaning : ℕ → ℤ → ℕ → Expected A) where
  -- The member `result` of the callback of each operation.
  abbrev pub Results : Type 0
  Results = ℕ → Expected A

  -- `syncwait_callback::operator()`
  abbrev pub put_result : Results → ℕ → Expected A → Results
  put_result results op res i = if i == op then res else results i

  -- `operation_base::to_sqe`
  pub to_sqe : ℕ → Ring → K → Option ℕ × K
  to_sqe self r k =
      let (entry, k₁) = L.io_uring_get_sqe r.raw_ring k in
      elim entry [
        | none ↦ (none, k₁)
        | some sqe ↦ (some sqe, L.io_uring_sqe_set_data sqe self (build self sqe k₁))
      ]

  -- `operation_base::feature_test`, with what the probe of the ring says of the operation.
  pub feature_test : Bool → ErrorCode
  feature_test supported = if supported then no_error else make_error_code function_not_supported

  -- `operation_base::do_submit`
  unfoldable pub do_submit : Bool → ℕ → Ring → K → ErrorCode × K
  unfolding to_sqe feature_test
  do_submit supported self r k =
      let test = feature_test supported in
      if has_error test then (test, k) else (let (sqe, k₁) = to_sqe self r k in submit L sqe r k₁)

  -- `operation_base::callback`, of the operation that the result names.
  unfoldable pub callback : OperationResult → Results → Results
  callback res results = put_result results res.cb (meaning res.cb res.res res.cqe_flags)

  -- `submit_and_wait` behind the wait.
  pub take_own : ℕ → Results → Expected OperationResult × K → Expected A × (Results × K)
  take_own self results (ok res, k) =
      let results' = callback res results in (results' self, (results', k))
  take_own self results (unexpected ec, k) = (unexpected ec, (results, k))

  -- `operation_base::submit_and_wait`
  unfoldable pub submit_and_wait : Bool → ℕ → Ring → Results → K → Expected A × (Results × K)
  unfolding take_own
  submit_and_wait supported self r results k =
      let (ec, k₁) = do_submit supported self r k in
      if has_error ec
      then (unexpected ec, (results, k₁))
      else take_own self results (wait_for_result L none r k₁)

-- What the callback of an awaited operation does: it resumes the handler of a cancellation, or stores the
-- result and resumes the coroutine.
pub data Resumed (A : Type 0) : Type 0 where
  canceled : Resumed A
  resumed : Expected A → Resumed A

-- `ec == std::errc::operation_canceled`, which both categories can be.
abbrev is_value : ℕ → ℤ → Bool
is_value n (pos m) = m == n
is_value n (negsuc m) = false

abbrev pub is_canceled : {A : Type 0} → Expected A → Bool
is_canceled (ok a) = false
is_canceled (unexpected ec) = is_value (errno operation_canceled) ec.value

-- `awaiter_callback::operator()`; the first argument says whether there is a handler.
unfoldable pub awaiter_callback : {A : Type 0} → Bool → Expected A → Resumed A
awaiter_callback cancel_handler res =
    if cancel_handler && is_canceled res then canceled else resumed res
