-- ===== src/Ring/Awaiter/Laws.antt =====
-- The awaiter against the history of a run: who is woken, with what, and what an awaiter returns.
use iouxx.Base.{
  ℕ, Bool, true, false, not, ◌&&◌, ◌||◌, ◌==◌, ==_refl, if◌then◌else◌, List, [], ◌∷◌, ℤ, ◌≡◌, refl,
  arith, Bool-cases, inl, inr, ap, ap₂, sym, ◌∙◌,
}
use iouxx.Base.Result.{has_error, Expected, unexpected}
use iouxx.Ring.Liburing.{Liburing}
use iouxx.Ring.State.{Ring}
use iouxx.Ring.Results.{OperationResult}
use iouxx.Ring.Operation.{no_result, awaiter_callback, is_canceled}
use iouxx.Ring.Awaiter.{
  Woken, stopped, continued, Coroutines, no_coroutines, setup_awaiter_callback, await_resume,
  await_suspend, complete, wake, submitted, Event, awaited, completed, elapsed, Step, awaits,
  fetches, waits, elapses, Run, start, then_step,
}

module _ {K A : Type 0} (L : Liburing K) (build : ℕ → ℕ → K → K) (meaning : ℕ → ℤ → ℕ → Expected A)
    (r : Ring) where
  abbrev History : Type 0
  History = List (Event L build meaning r)

  abbrev value : OperationResult → Expected A
  value res = meaning res.cb res.res res.cqe_flags

  -- The coroutine that awaited the operation last; none is the null handle.
  pub waiter : ℕ → History → ℕ
  waiter op [] = 0
  waiter op (awaited o handle stoppable code ∷ es) =
      let w = waiter op es in if op == o then handle else w
  waiter op (completed res ∷ es) = waiter op es
  waiter op (elapsed ∷ es) = waiter op es

  -- A coroutine with `unhandled_stopped` has awaited the operation.
  pub has_handler : ℕ → History → Bool
  has_handler op [] = false
  has_handler op (awaited o handle stoppable code ∷ es) =
      let before = has_handler op es in if op == o then stoppable || before else before
  has_handler op (completed res ∷ es) = has_handler op es
  has_handler op (elapsed ∷ es) = has_handler op es

  -- The completion goes to such a handler.
  pub is_stopped : OperationResult → History → Bool
  unfolding has_handler
  is_stopped res es = has_handler res.cb es && is_canceled (value res)

  -- What every completion wakes.
  unfoldable pub woken : History → List (Woken A)
  unfolding waiter is_stopped
  woken [] = []
  woken (awaited o handle stoppable code ∷ es) = woken es
  woken (completed res ∷ es) =
      let h = waiter res.cb es in
      (if is_stopped res es then stopped h else continued h (value res)) ∷ woken es
  woken (elapsed ∷ es) = woken es

  -- What the last awaiter of the operation returns: the error of its submission, or the value of the last
  -- completion that did not go to a handler.
  pub returned : ℕ → History → Expected A
  unfolding is_stopped
  returned op [] = no_result
  returned op (awaited o handle stoppable code ∷ es) =
      let before = returned op es in
      if op == o then (if has_error code then unexpected code else no_result) else before
  returned op (completed res ∷ es) =
      let before = returned op es in
      if (op == res.cb) && (not (is_stopped res es)) then value res else before
  returned op (elapsed ∷ es) = returned op es

  -- The callbacks and the log say what the history says.
  record IsTold (es : History) (c : Coroutines A) : Type 0 where
    handles : (op : ℕ) → (c.callbacks op).handle ≡ waiter op es
    handlers : (op : ℕ) → (c.callbacks op).cancel_handler ≡ has_handler op es
    results : (op : ℕ) → (c.callbacks op).result ≡ returned op es
    log : c.log ≡ woken es

  handler-again :
      (es : History) (c : Coroutines A) (i op : ℕ) (stoppable : Bool)
      → IsTold es c
      → (i == op) ≡ true
      → (stoppable || (c.callbacks op).cancel_handler) ≡ (stoppable || has_handler i es)
  handler-again es c i op stoppable t s =
      let named : i ≡ op = ground arith in
      ap (λ h. stoppable || h) (t.handlers op ∙ ap (λ j. has_handler j es) (sym named))

  awaits-IsTold :
      (es : History) (c : Coroutines A) (k : K) (supported : Bool) (op handle : ℕ)
      (stoppable : Bool)
      → IsTold es c
      → IsTold
          (awaited op handle stoppable (submitted L build meaning r supported op k).0 ∷ es)
          (await_suspend L build meaning r supported op handle stoppable c k).1.0
  unfolding waiter has_handler returned woken is_stopped await_suspend setup_awaiter_callback
  awaits-IsTold es c k supported op handle stoppable t =
      elim (Bool-cases (has_error (submitted L build meaning r supported op k).0)) [
        | inl e ↦ rw e (record {
          handles = λ i. elim (Bool-cases (i == op)) [
            | inl s ↦ rw (s, ==_refl op) refl
            | inr s ↦ rw s (t.handles i)
          ];
          handlers = λ i. elim (Bool-cases (i == op)) [
            | inl s ↦ rw (s, ==_refl op) (handler-again es c i op stoppable t s)
            | inr s ↦ rw s (t.handlers i)
          ];
          results = λ i. elim (Bool-cases (i == op)) [
            | inl s ↦ rw (s, e) refl
            | inr s ↦ rw s (t.results i)
          ];
          log = t.log;
        })
        | inr e ↦ rw e (record {
          handles =
              λ i. elim (Bool-cases (i == op)) [ inl s ↦ rw s refl | inr s ↦ rw s (t.handles i) ];
          handlers = λ i. elim (Bool-cases (i == op)) [
            | inl s ↦ rw s (handler-again es c i op stoppable t s)
            | inr s ↦ rw s (t.handlers i)
          ];
          results = λ i. elim (Bool-cases (i == op)) [
            | inl s ↦ rw (s, e) refl
            | inr s ↦ rw s (t.results i)
          ];
          log = t.log;
        })
      ]

  completed-IsTold :
      (es : History) (c : Coroutines A) (res : OperationResult)
      → IsTold es c
      → IsTold (completed res ∷ es) (complete L build meaning r res c)
  unfolding waiter has_handler returned woken is_stopped complete wake awaiter_callback
  completed-IsTold es c res t =
      elim (Bool-cases (has_handler res.cb es && is_canceled (value res))) [
        | inl e ↦
            rw (t.handlers res.cb, e)
              (record {
                handles = t.handles;
                handlers = t.handlers;
                results = λ i. elim (Bool-cases (i == res.cb)) [
                  | inl s ↦ rw (s, e) (t.results i)
                  | inr s ↦ rw s (t.results i)
                ];
                log = rw e (ap₂ ◌∷◌ (ap stopped (t.handles res.cb)) t.log);
              })
        | inr e ↦
            rw (t.handlers res.cb, e)
              (record {
                handles = λ i. elim (Bool-cases (i == res.cb)) [
                  | inl s ↦
                      let named : i ≡ res.cb = ground arith in
                      rw s (t.handles res.cb ∙ ap (λ j. waiter j es) (sym named))
                  | inr s ↦ rw s (t.handles i)
                ];
                handlers = λ i. elim (Bool-cases (i == res.cb)) [
                  | inl s ↦
                      let named : i ≡ res.cb = ground arith in
                      rw s (t.handlers res.cb ∙ ap (λ j. has_handler j es) (sym named))
                  | inr s ↦ rw s (t.handlers i)
                ];
                results = λ i. elim (Bool-cases (i == res.cb)) [
                  | inl s ↦ rw (s, e) refl
                  | inr s ↦ rw s (t.results i)
                ];
                log = rw e (ap₂ ◌∷◌ (ap (λ h. continued h (value res)) (t.handles res.cb)) t.log);
              })
      ]

  Step-IsTold :
      {s u : Coroutines A × K} {e : Event L build meaning r} (es : History)
      → Step L build meaning r s e u
      → IsTold es s.0
      → IsTold (e ∷ es) u.0
  unfolding waiter has_handler returned woken
  Step-IsTold es (awaits {c = c} {k = k} supported op handle stoppable) t =
      awaits-IsTold es c k supported op handle stoppable t
  Step-IsTold es (fetches {c = c} res e) t = completed-IsTold es c res t
  Step-IsTold es (waits {c = c} res e) t = completed-IsTold es c res t
  Step-IsTold es (elapses k') t = record {
    handles = t.handles;
    handlers = t.handlers;
    results = t.results;
    log = t.log;
  }

  Run-IsTold :
      (k : K) {es : History} {s : Coroutines A × K}
      → Run L build meaning r (no_coroutines, k) es s
      → IsTold es s.0
  unfolding waiter has_handler returned woken
  Run-IsTold k start = record {
    handles = λ op. refl;
    handlers = λ op. refl;
    results = λ op. refl;
    log = refl;
  }
  Run-IsTold k (then_step {es = es} run step) = Step-IsTold es step (Run-IsTold k run)

  -- Whatever liburing answers, and in every run on a ring that starts without awaiters: each
  -- completion that is taken wakes exactly the coroutine that awaited its operation last, in the
  -- order of the completions, through the handler of cancellations exactly if the result is
  -- operation_canceled and some coroutine with unhandled_stopped has awaited the operation so far;
  -- and await_resume returns for the last awaiter of an operation the value of the last completion
  -- since that went to no handler, or else the error of its submission, or else an error code that
  -- is none.
  pub Run-told :
      (es : History) (s : Coroutines A × K) (k : K) (op : ℕ)
      → Run L build meaning r (no_coroutines, k) es s
      → (s.0.log ≡ woken es) × (await_resume op s.0 ≡ returned op es)
  unfolding await_resume
  Run-told es s k op run = let t = Run-IsTold k run in (t.log, t.results op)
