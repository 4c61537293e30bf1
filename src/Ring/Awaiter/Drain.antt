-- ===== src/Ring/Awaiter/Drain.antt =====
-- A program that takes all completions of the queue: no coroutine of them is left waiting.
use iouxx.Base.{ℕ, ◌+◌, List, [], ◌∷◌, ℤ, ◌≡◌, sym, ap, ◌∙◌, length, arith}
use iouxx.Base.Result.{Expected}
use iouxx.Ring.Liburing.{Liburing, Cqe}
use iouxx.Ring.State.{Ring}
use iouxx.Ring.Results.{from_cqe, fetch_result}
use iouxx.Ring.Results.Order.{IsQueue, fetch_result_first}
use iouxx.Ring.Awaiter.{
  Coroutines, no_coroutines, Event, completed, complete, Run, then_step, fetches,
}
use iouxx.Ring.Awaiter.Laws.{woken, Run-told}

module _ {K A : Type 0} (L : Liburing K) (build : ℕ → ℕ → K → K) (meaning : ℕ → ℤ → ℕ → Expected A)
    (r : Ring) (pending : K → List Cqe) (q : IsQueue L pending) where
  -- The history behind taking these completions, one after the other.
  abbrev pub completions :
      List Cqe → List (Event L build meaning r) → List (Event L build meaning r)
  completions [] es = es
  completions (c ∷ cs) es = completions cs (completed (from_cqe c) ∷ es)

  length-woken :
      (cs : List Cqe) (es : List (Event L build meaning r))
      → length (woken L build meaning r (completions cs es))
        ≡ length cs + length (woken L build meaning r es)
  unfolding woken
  length-woken [] es = omega arith
  length-woken (c ∷ cs) es = omega (arith, length-woken cs (completed (from_cqe c) ∷ es))

  Run-drained :
      (cs : List Cqe) (k : K) (es : List (Event L build meaning r)) (s : Coroutines A × K)
      → Run L build meaning r (no_coroutines, k) es s
      → pending s.1 ≡ cs
      → (u : Coroutines A × K) × Run L build meaning r (no_coroutines, k) (completions cs es) u
        × (pending u.1 ≡ [])
  Run-drained [] k es s run h = (s, run, h)
  Run-drained (c ∷ cs) k es s run h =
      let (first, left) = fetch_result_first L pending q r s.1 c cs h in
      Run-drained cs k (completed (from_cqe c) ∷ es)
        (complete L build meaning r (from_cqe c) s.0, (fetch_result L r s.1).1)
        (then_step run (fetches (from_cqe c) first)) left

  -- Over a completion queue that io_uring_peek_cqe shows the oldest entry of and io_uring_cqe_seen
  -- takes it from, in any run from the start of a ring, the program can go on to take all
  -- completions that are pending: then none is pending, and each of them has woken one coroutine,
  -- the one that its place in the history says.
  pub drained-woken :
      (cs : List Cqe) (k : K) (es : List (Event L build meaning r)) (s : Coroutines A × K)
      → Run L build meaning r (no_coroutines, k) es s
      → pending s.1 ≡ cs
      → (u : Coroutines A × K) × Run L build meaning r (no_coroutines, k) (completions cs es) u
        × (pending u.1 ≡ [])
        × (u.0.log ≡ woken L build meaning r (completions cs es))
        × (length u.0.log ≡ length cs + length s.0.log)
  drained-woken cs k es s run h =
      let (u, all, none_left) = Run-drained cs k es s run h in
      let told = (Run-told L build meaning r (completions cs es) u k 0 all).0 in
      let before = (Run-told L build meaning r es s k 0 run).0 in
      (
        u,
        all,
        none_left,
        told,
        ap length told ∙ length-woken cs es ∙ ap (λ l. length cs + length l) (sym before),
      )
