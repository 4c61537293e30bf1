-- ===== src/Ring/Awaiter.antt =====
-- Coroutines that await operations: `operation_awaiter`, `awaiter_callback` and `setup_awaiter_callback`
-- of include/iouxx/iouringxx.hpp. A coroutine is named by the address of its handle, an operation by its
-- own; what runs when a coroutine is resumed is the next steps.
pub mod Laws
pub mod Drain
use iouxx.Base.{
  ℕ, Bool, true, false, not, List, [], ◌∷◌, none, some, ◌||◌, ◌==◌, if◌then◌else◌, ℤ, ◌≡◌,
}
use iouxx.Base.Result.{ErrorCode, has_error, Expected, ok, unexpected}
use iouxx.Ring.Liburing.{Liburing}
use iouxx.Ring.State.{Ring}
use iouxx.Ring.Results.{OperationResult, fetch_result, wait_for_result}
use iouxx.Ring.Operation.{do_submit, no_result, Resumed, canceled, resumed, awaiter_callback}

-- The callback of an awaited operation, with the member `result` of its awaiter, to which it points.
pub record AwaiterCallback (A : Type 0) : Type 0 where
  pub handle : ℕ
  pub cancel_handler : Bool
  pub result : Expected A

abbrev pub no_awaiter : {A : Type 0} → AwaiterCallback A
no_awaiter = record { handle = 0; cancel_handler = false; result = no_result }

-- What happens to a coroutine at a completion: the handler of a cancellation of its promise is resumed,
-- or the coroutine is, to receive a result.
pub data Woken (A : Type 0) : Type 0 where
  stopped : (handle : ℕ) → Woken A
  continued : (handle : ℕ) (result : Expected A) → Woken A

-- The callbacks of all operations, and what was woken, the latest first.
pub record Coroutines (A : Type 0) : Type 0 where
  pub callbacks : ℕ → AwaiterCallback A
  pub log : List (Woken A)

abbrev pub no_coroutines : {A : Type 0} → Coroutines A
no_coroutines = record { callbacks = λ op. no_awaiter; log = [] }

abbrev pub put :
    {A : Type 0} → ℕ → AwaiterCallback A → (ℕ → AwaiterCallback A) → ℕ → AwaiterCallback A
put op cb cbs i = if i == op then cb else cbs i

-- `setup_awaiter_callback`, for a new awaiter; `stoppable` is whether the promise of the coroutine has
-- `unhandled_stopped`.
unfoldable pub setup_awaiter_callback : {A : Type 0} → ℕ → ℕ → Bool → Coroutines A → Coroutines A
setup_awaiter_callback op handle stoppable c = record c {
  callbacks =
      put op
        (record {
          handle = handle;
          cancel_handler = stoppable || (c.callbacks op).cancel_handler;
          result = no_result;
        })
        c.callbacks;
}

-- `operation_awaiter::await_resume`
unfoldable pub await_resume : {A : Type 0} → ℕ → Coroutines A → Expected A
await_resume op c = (c.callbacks op).result

module _ {K A : Type 0} (L : Liburing K) (build : ℕ → ℕ → K → K) (meaning : ℕ → ℤ → ℕ → Expected A)
    (r : Ring) where
  abbrev pub submitted : Bool → ℕ → K → ErrorCode × K
  submitted supported op k = do_submit L build meaning supported op r k

  -- `operation_awaiter::await_suspend`: whether the coroutine is suspended.
  unfoldable pub await_suspend : Bool → ℕ → ℕ → Bool → Coroutines A → K → Bool × (Coroutines A × K)
  unfolding setup_awaiter_callback
  await_suspend supported op handle stoppable c k =
      let c₁ = setup_awaiter_callback op handle stoppable c in
      let (res, k₁) = submitted supported op k in
      if has_error res
      then (
        false,
        (
          record c₁ {
            callbacks = put op (record (c₁.callbacks op) { result = unexpected res }) c₁.callbacks;
          },
          k₁,
        ),
      )
      else (true, (c₁, k₁))

  -- The callback of an operation, behind what its class makes of the result.
  pub wake : ℕ → Resumed A → Coroutines A → Coroutines A
  wake op canceled c = record c { log = stopped (c.callbacks op).handle ∷ c.log }
  wake op (resumed res) c = record c {
    callbacks = put op (record (c.callbacks op) { result = res }) c.callbacks;
    log = continued (c.callbacks op).handle res ∷ c.log;
  }

  -- `operation_base::callback` of a completion, with `awaiter_callback::operator()`.
  unfoldable pub complete : OperationResult → Coroutines A → Coroutines A
  unfolding wake awaiter_callback
  complete res c =
      wake res.cb
        (awaiter_callback (c.callbacks res.cb).cancel_handler
          (meaning res.cb res.res res.cqe_flags))
        c

  pub data Event : Type 0 where
    -- A coroutine awaits an operation, whose submission gave this error code.
    awaited : (op handle : ℕ) (stoppable : Bool) (code : ErrorCode) → Event
    completed : OperationResult → Event
    elapsed : Event

  -- The steps of a program on one ring: a coroutine awaits, the program takes a completion and runs its
  -- callback, or something else happens to the ring.
  pub data Step : Coroutines A × K → Event → Coroutines A × K → Type 0 where
    awaits :
        {c : Coroutines A} {k : K} (supported : Bool) (op handle : ℕ) (stoppable : Bool)
        → Step
            (c, k)
            (awaited op handle stoppable (submitted supported op k).0)
            (await_suspend supported op handle stoppable c k).1
    fetches :
        {c : Coroutines A} {k : K} (res : OperationResult)
        → (fetch_result L r k).0 ≡ ok res
        → Step (c, k) (completed res) (complete res c, (fetch_result L r k).1)
    waits :
        {c : Coroutines A} {k : K} (res : OperationResult)
        → (wait_for_result L none r k).0 ≡ ok res
        → Step (c, k) (completed res) (complete res c, (wait_for_result L none r k).1)
    elapses : {c : Coroutines A} {k : K} (k' : K) → Step (c, k) elapsed (c, k')

  -- A run with its events, the latest first.
  pub data Run (s : Coroutines A × K) : List Event → Coroutines A × K → Type 0 where
    start : Run s [] s
    then_step :
        {es : List Event} {e : Event} {t u : Coroutines A × K}
        → Run s es t
        → Step t e u
        → Run s (e ∷ es) u
