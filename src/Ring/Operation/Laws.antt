-- ===== src/Ring/Operation/Laws.antt =====
-- The outcomes of `submit_and_wait`.
use iouxx.Base.{
  ℕ, Bool, true, false, none, ◌==◌, if◌then◌else◌, ◌≢◌, ℤ, ◌≡◌, refl, arith, Bool-cases, inl, inr,
}
use iouxx.Base.Result.{
  ErrorCode, make_error_code, function_not_supported, has_error, Expected, ok, unexpected,
}
use iouxx.Ring.Liburing.{Liburing}
use iouxx.Ring.State.{Ring}
use iouxx.Ring.Results.{OperationResult, wait_for_result}
use iouxx.Ring.Operation.{do_submit, callback, take_own, submit_and_wait}

module _ {K A : Type 0} (L : Liburing K) (build : ℕ → ℕ → K → K)
    (meaning : ℕ → ℤ → ℕ → Expected A) where
  -- The results when the operation that a completion names is told of it, and no other.
  abbrev pub told : (ℕ → Expected A) → OperationResult → ℕ → Expected A
  told before res i = if i == res.cb then meaning res.cb res.res res.cqe_flags else before i

  -- What `submit_and_wait` does with the operation `self`: what it returns, the results that it leaves in
  -- the callbacks, and the state behind it.
  module _ (supported : Bool) (self : ℕ) (r : Ring) (before : ℕ → Expected A) (k : K) where
    abbrev sent : ErrorCode × K
    sent = do_submit L build meaning supported self r k

    abbrev waited : Expected OperationResult × K
    waited = wait_for_result L none r sent.1

    pub data IsWaited (s : Expected A × ((ℕ → Expected A) × K)) : Type 0 where
      -- The kernel does not support the operation: nothing was asked of liburing.
      unsupported :
          supported ≡ false
          → s ≡ (unexpected (make_error_code function_not_supported), (before, k))
          → IsWaited s
      -- The submission failed: nobody waits.
      refused :
          supported ≡ true
          → has_error sent.0 ≡ true
          → s ≡ (unexpected sent.0, (before, sent.1))
          → IsWaited s
      -- The submission succeeded, and the wait failed.
      not_waited :
          (ec : ErrorCode)
          → has_error sent.0 ≡ false
          → waited.0 ≡ unexpected ec
          → s ≡ (unexpected ec, (before, waited.1))
          → IsWaited s
      -- The completion that the wait gave is that of the operation.
      own :
          (res : OperationResult)
          → has_error sent.0 ≡ false
          → waited.0 ≡ ok res
          → res.cb ≡ self
          → s.0 ≡ meaning self res.res res.cqe_flags
          → s.1 ≡ (told before res, waited.1)
          → IsWaited s
      -- It is that of another operation; the caller gets what was there.
      other :
          (res : OperationResult)
          → has_error sent.0 ≡ false
          → waited.0 ≡ ok res
          → res.cb ≢ self
          → s.0 ≡ before self
          → s.1 ≡ (told before res, waited.1)
          → IsWaited s

    take_own-IsWaited :
        (o : Expected OperationResult)
        → has_error sent.0 ≡ false
        → waited.0 ≡ o
        → IsWaited (take_own L build meaning self before (o, waited.1))
    unfolding take_own callback
    take_own-IsWaited (unexpected ec) accepted e = not_waited ec accepted e refl
    take_own-IsWaited (ok res) accepted e = elim (Bool-cases (self == res.cb)) [
      | inl same ↦
          let named : res.cb ≡ self = ground arith in
          own res accepted e named (rw (same, named) refl) refl
      | inr different ↦ other res accepted e (λ n. ground arith) (rw different refl) refl
    ]

    unsupported-error : supported ≡ false → sent ≡ (make_error_code function_not_supported, k)
    unfolding do_submit
    unsupported-error e = rw e refl

    -- submit_and_wait has five outcomes, whatever liburing answers: for an operation that the
    -- kernel does not support it returns function_not_supported and asks nothing of liburing; an
    -- error of the submission is returned and nobody waits; after a submission without an error, an
    -- error of the wait is returned; or the completion that the wait gave names the operation, and
    -- what it means is returned; or it names another one, and the result that the own callback held
    -- before is returned. In the last two the operation that the completion names is told what it
    -- means and no other, in the first three none is.
    pub submit_and_wait-IsWaited :
        IsWaited (submit_and_wait L build meaning supported self r before k)
    unfolding submit_and_wait
    submit_and_wait-IsWaited = elim (Bool-cases (has_error sent.0)) [
      | inl failed ↦ elim (Bool-cases supported) [
        | inl able ↦ refused able failed (rw failed refl)
        | inr lacking ↦ unsupported lacking (rw (unsupported-error lacking) refl)
      ]
      | inr accepted ↦ rw accepted (take_own-IsWaited waited.0 accepted refl)
    ]
