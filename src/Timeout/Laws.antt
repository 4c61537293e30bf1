-- ===== src/Timeout/Laws.antt =====
-- The last wait of a timeout decides, and which completions of a timeout are no error.
use iouxx.Base.{
  ℕ, zero, suc, ◌/◌, ◌%◌, Bool, true, false, not, ◌==◌, ◌≡◌, ◌⊎◌, ◌↔◌, inl, inr, refl, sym, ap, ◌∙◌,
  arith, ℤ, pos, negsuc, Bool-cases, true-ne-false,
}
use iouxx.Base.Result.{has_error}
use iouxx.Ring.Setup.{with_bit, without_bit}
use iouxx.Time.{to_kernel_timespec, from_kernel_timespec, from_kernel_timespec-to_kernel_timespec}
use iouxx.Timeout.{
  Clock, steady_clock, system_clock, boottime_clock, timeout_abs, set_clock_flag, TimeoutBase,
  wait_for, wait_until, CallbackKind, stdexpected_callback, errorcode_callback, Received, success,
  failed, code, timed_out, do_callback,
}

abbrev clock_word : Clock → ℕ
clock_word steady_clock = 0
clock_word boottime_clock = 1
clock_word system_clock = 2

-- The bits of the clock, of the absolute mode, and the others.
pub record IsWaiting (before after : TimeoutBase) (clock : Clock) (absolute : ℕ) (time : ℤ)
    : Type 0 where
  pub mode : after.flags % 2 ≡ absolute
  pub clock_bits : after.flags / 4 % 4 ≡ clock_word clock
  pub others : (after.flags / 2 % 2 ≡ before.flags / 2 % 2) × (after.flags / 16 ≡ before.flags / 16)
  pub wait : from_kernel_timespec after.ts ≡ time

set_clock_flag-bits :
    (clock : Clock) (n : ℕ)
    → (set_clock_flag clock n / 4 % 4 ≡ clock_word clock)
      × (set_clock_flag clock n % 4 ≡ n % 4)
      × (set_clock_flag clock n / 16 ≡ n / 16)
unfolding set_clock_flag
set_clock_flag-bits steady_clock n = ground arith
set_clock_flag-bits system_clock n = ground arith
set_clock_flag-bits boottime_clock n = ground arith

without_abs :
    (n : ℕ) → (without_bit timeout_abs n % 2 ≡ 0) × (without_bit timeout_abs n / 2 ≡ n / 2)
without_abs n = ground arith

with_abs : (n : ℕ) → (with_bit timeout_abs n % 2 ≡ 1) × (with_bit timeout_abs n / 2 ≡ n / 2)
with_abs n = ground arith

pub wait_for-IsWaiting :
    (clock : Clock) (duration : ℤ) (self : TimeoutBase)
    → IsWaiting self (wait_for clock duration self) clock 0 duration
unfolding wait_for
wait_for-IsWaiting clock duration self =
    let clocked = set_clock_flag-bits clock self.flags in
    let relative = without_abs (set_clock_flag clock self.flags) in
    record {
      mode = relative.0;
      clock_bits = omega (arith, clocked, relative);
      others = omega (arith, clocked, relative);
      wait = (from_kernel_timespec-to_kernel_timespec duration).0;
    }

-- Behind wait_until the flags say the absolute mode and the clock that was given, all other flags
-- are as before, and the time is the one that was given.
pub wait_until-IsWaiting :
    (clock : Clock) (time : ℤ) (self : TimeoutBase)
    → IsWaiting self (wait_until clock time self) clock 1 time
unfolding wait_until
wait_until-IsWaiting clock time self =
    let clocked = set_clock_flag-bits clock self.flags in
    let absolute = with_abs (set_clock_flag clock self.flags) in
    record {
      mode = absolute.0;
      clock_bits = omega (arith, clocked, absolute);
      others = omega (arith, clocked, absolute);
      wait = (from_kernel_timespec-to_kernel_timespec time).0;
    }

-- Two words with the same bits are the same.
same_word :
    (m n : ℕ)
    → m % 2 ≡ n % 2
    → m / 2 % 2 ≡ n / 2 % 2
    → m / 4 % 4 ≡ n / 4 % 4
    → m / 16 ≡ n / 16
    → m ≡ n
same_word m n a b c d = omega arith

-- wait_for behind wait_until leaves what wait_for alone leaves, whatever the clocks and times.
pub wait_for-last :
    (clock clock' : Clock) (duration time : ℤ) (self : TimeoutBase)
    → wait_for clock duration (wait_until clock' time self) ≡ wait_for clock duration self
wait_for-last clock clock' duration time self =
    let middle = wait_until-IsWaiting clock' time self in
    let both = wait_for-IsWaiting clock duration (wait_until clock' time self) in
    let once = wait_for-IsWaiting clock duration self in
    let flags =
      same_word _ _ (both.mode ∙ sym once.mode)
        (omega (arith, both.others, once.others, middle.others))
        (both.clock_bits ∙ sym once.clock_bits)
        (omega (arith, both.others, once.others, middle.others)) in
    unfold wait_for in λ i. record { ts = to_kernel_timespec duration; flags = flags i }

abbrev pub is_ok : Received → Bool
is_ok success = true
is_ok (failed ec) = false
is_ok (code ec) = not (has_error ec)

told_error : {c : Bool} {A : Type 0} → c ≡ false → ¬ A → (c ≡ true) ↔ A
told_error e never = ((λ t. absurd (true-ne-false (sym t ∙ e))), (λ a. absurd (never a)))

told_ok : {c : Bool} {A : Type 0} → c ≡ true → A → (c ≡ true) ↔ A
told_ok e a = ((λ _. a), (λ _. e))

not_ok : (n : ℕ) → ¬ (n ≡ 61) → ¬ ((negsuc n ≡ pos 0) ⊎ (negsuc n ≡ timed_out))
not_ok n ne (inl e) = cc
not_ok n ne (inr e) = ne cc

-- Both kinds of callback of timeout_operation are told of success exactly if the result is 0 or
-- -ETIME.
pub do_callback-ok :
    (kind : CallbackKind) (ev : ℤ)
    → (is_ok (do_callback kind ev) ≡ true) ↔ ((ev ≡ pos 0) ⊎ (ev ≡ timed_out))
unfolding do_callback
do_callback-ok stdexpected_callback (pos zero) = told_ok refl (inl refl)
do_callback-ok errorcode_callback (pos zero) = told_ok refl (inl refl)
do_callback-ok stdexpected_callback (pos (suc n)) =
    told_error refl λ e. elim e [ inl z ↦ cc | inr z ↦ cc ]
do_callback-ok errorcode_callback (pos (suc n)) =
    told_error refl λ e. elim e [ inl z ↦ cc | inr z ↦ cc ]
do_callback-ok stdexpected_callback (negsuc n) = elim (Bool-cases (n == 61)) [
  | inl out ↦ told_ok (rw out refl) (inr (ap negsuc (ground arith)))
  | inr other ↦ told_error (rw other refl) (not_ok n (λ z. ground arith))
]
do_callback-ok errorcode_callback (negsuc n) = elim (Bool-cases (n == 61)) [
  | inl out ↦ told_ok (rw out refl) (inr (ap negsuc (ground arith)))
  | inr other ↦ told_error (rw other refl) (not_ok n (λ z. ground arith))
]
