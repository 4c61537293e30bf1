-- ===== src/Tests/Awaiters.antt =====
-- Two coroutines on the small liburing.
use iouxx.Base.{length, ◌+◌, ℕ, true, false, List, [], ◌∷◌, ℤ, ◌≡◌, refl}
use iouxx.Base.Result.{make_error_code, function_not_supported, Expected, ok, unexpected}
use iouxx.Ring.Liburing.{Cqe}
use iouxx.Ring.Results.{OperationResult, from_cqe, fetch_result}
use iouxx.Ring.Operation.{do_submit}
use iouxx.Ring.Results.{submit}
use iouxx.Ring.Awaiter.{
  continued, Coroutines, no_coroutines, await_resume, await_suspend, complete, Event, awaited,
  completed, Run, start, then_step, awaits, fetches, submitted,
}
use iouxx.Ring.Awaiter.Laws.{woken, returned, Run-told}
use iouxx.Ring.Awaiter.Drain.{completions, drained-woken}
use iouxx.Tests.Kernel.{kernel, running, completion, pending, kernel-IsQueue}

abbrev no_build : ℕ → ℕ → List Cqe → List Cqe
no_build op sqe k = k

abbrev meaning : ℕ → ℤ → ℕ → Expected ℕ
meaning op res flags = ok op

-- The coroutine 100 awaits the operation 5, the coroutine 101 awaits the operation 6, which the kernel does
-- not support, and the completion of 5 is taken.
abbrev result : OperationResult
result = from_cqe (completion 5)

abbrev first : Coroutines ℕ × List Cqe
first = (await_suspend kernel no_build meaning running true 5 100 false no_coroutines []).1

abbrev second : Coroutines ℕ × List Cqe
second = (await_suspend kernel no_build meaning running false 6 101 true first.0 first.1).1

abbrev third : Coroutines ℕ × List Cqe
third = (
  complete kernel no_build meaning running result second.0,
  (fetch_result kernel running second.1).1,
)

abbrev events : List (Event kernel no_build meaning running)
events =
    completed result
    ∷ awaited 6 101 true (submitted kernel no_build meaning running false 6 first.1).0
    ∷ awaited 5 100 false (submitted kernel no_build meaning running true 5 []).0
    ∷ []

run : Run kernel no_build meaning running (no_coroutines, []) events third
unfolding await_suspend do_submit submit fetch_result from_cqe
run =
    then_step (then_step (then_step start (awaits true 5 100 false)) (awaits false 6 101 true))
      (fetches result refl)

Run-told_example :
    (third.0.log ≡ woken kernel no_build meaning running events)
    × (await_resume 6 third.0 ≡ returned kernel no_build meaning running 6 events)
Run-told_example = Run-told kernel no_build meaning running events third [] 6 run

wakes_one :
    (third.0.log ≡ continued 100 (ok 5) ∷ [])
    × (await_resume 5 third.0 ≡ ok 5)
    × (await_resume 6 third.0 ≡ unexpected (make_error_code function_not_supported))
unfolding await_suspend do_submit submit fetch_result from_cqe complete await_resume
wakes_one = (refl, refl, refl)

-- Both coroutines wait, for the operations 5 and 6 that the kernel supports, and their completions are
-- there, the later first.
abbrev waiting : Coroutines ℕ × List Cqe
waiting = (await_suspend kernel no_build meaning running true 6 101 true first.0 first.1).1

abbrev awaited_both : List (Event kernel no_build meaning running)
awaited_both =
    awaited 6 101 true (submitted kernel no_build meaning running true 6 first.1).0
    ∷ awaited 5 100 false (submitted kernel no_build meaning running true 5 []).0
    ∷ []

run_waiting : Run kernel no_build meaning running (no_coroutines, []) awaited_both waiting
run_waiting = then_step (then_step start (awaits true 5 100 false)) (awaits true 6 101 true)

left_waiting : waiting.1 ≡ completion 6 ∷ completion 5 ∷ []
unfolding await_suspend do_submit submit
left_waiting = refl

abbrev both : List Cqe
both = completion 6 ∷ completion 5 ∷ []

abbrev all_taken : List (Event kernel no_build meaning running)
all_taken = completions kernel no_build meaning running pending kernel-IsQueue both awaited_both

drained-woken_example :
    (u : Coroutines ℕ × List Cqe) × Run kernel no_build meaning running
      (no_coroutines, [])
      all_taken
      u
    × (u.1 ≡ [])
    × (u.0.log ≡ woken kernel no_build meaning running all_taken)
    × (length u.0.log ≡ 2 + length waiting.0.log)
drained-woken_example =
    drained-woken kernel no_build meaning running pending kernel-IsQueue both [] awaited_both
      waiting run_waiting left_waiting
