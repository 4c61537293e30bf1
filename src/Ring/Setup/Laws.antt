-- ===== src/Ring/Setup/Laws.antt =====
-- What the methods of `ring_option` do to the parameters of the ring.
use iouxx.Base.{
  ℕ, ◌/◌, ◌%◌, ◌<◌, true, false, ltb, ◌==◌, ℤ, ◌≡◌, refl, sym, ◌∙◌, arith, Bool-cases, inl, inr, ap,
}
use iouxx.Ring.Liburing.{Params}
use iouxx.Ring.Setup.{
  RingOption, has_bit, with_bit, without_bit, uint32_max, to_uint32, setup_sqpoll_flag,
  setup_sq_aff, setup_sqpoll, setup_cqsize, setup_attach, to_params,
}

-- The flags of the polling thread, and all the others.
pub record IsPolling (before after : Params) (thread_cpu : ℕ) (idle : ℤ) : Type 0 where
  pub polling : has_bit setup_sqpoll_flag after.flags ≡ true
  pub pinned : has_bit setup_sq_aff after.flags ≡ ltb thread_cpu uint32_max
  pub cpu : thread_cpu < uint32_max → after.sq_thread_cpu ≡ thread_cpu
  pub idles : after.sq_thread_idle ≡ to_uint32 idle
  pub others : (after.flags % 2 ≡ before.flags % 2) × (after.flags / 8 ≡ before.flags / 8)
  pub kept : (after.wq_fd ≡ before.wq_fd) × (after.cq_entries ≡ before.cq_entries)

with_bit_2 :
    (n : ℕ) → (with_bit 2 n / 2 % 2 ≡ 1) × (with_bit 2 n % 2 ≡ n % 2) × (with_bit 2 n / 4 ≡ n / 4)
with_bit_2 n = ground arith

with_bit_4 :
    (n : ℕ) → (with_bit 4 n / 4 % 2 ≡ 1) × (with_bit 4 n % 4 ≡ n % 4) × (with_bit 4 n / 8 ≡ n / 8)
with_bit_4 n = ground arith

without_bit_4 :
    (n : ℕ)
    → (without_bit 4 n / 4 % 2 ≡ 0) × (without_bit 4 n % 4 ≡ n % 4) × (without_bit 4 n / 8 ≡ n / 8)
without_bit_4 n = ground arith

is_one : {n : ℕ} → n ≡ 1 → (n == 1) ≡ true
is_one e = ground arith

is_zero : {n : ℕ} → n ≡ 0 → (n == 1) ≡ false
is_zero e = ground arith

-- In the parameters of an option behind setup_sqpoll, the polling flag is set, the affinity flag is
-- set exactly if the thread is below the largest 32-bit number, in which case the thread is as
-- asked, the idle time is as asked up to 32 bits, and all other flags, the work queue and the queue
-- size are as before.
pub setup_sqpoll-IsPolling :
    (thread_cpu : ℕ) (idle : ℤ) (o : RingOption)
    → IsPolling (to_params o) (to_params (setup_sqpoll thread_cpu idle o)) thread_cpu idle
unfolding setup_sqpoll to_params
setup_sqpoll-IsPolling thread_cpu idle o =
    let n = o.ring_flags in
    let polled = with_bit 2 n in
    let two = with_bit_2 n in
    elim (Bool-cases (ltb thread_cpu uint32_max)) [
      | inl pinned ↦
          let four = with_bit_4 polled in
          rw pinned (record {
            polling = is_one (omega (arith, two, four));
            pinned = is_one (four.0) ∙ sym pinned;
            cpu = λ _. refl;
            idles = refl;
            others = omega (arith, two, four);
            kept = (refl, refl);
          })
      | inr free ↦
          let four = without_bit_4 polled in
          rw free (record {
            polling = is_one (omega (arith, two, four));
            pinned = is_zero (four.0) ∙ sym free;
            cpu = λ small. absurd (ground arith);
            idles = refl;
            others = omega (arith, two, four);
            kept = (refl, refl);
          })
    ]

bits_commute : (n : ℕ) → with_bit 8 (with_bit 32 n) ≡ with_bit 32 (with_bit 8 n)
bits_commute n = ground arith

-- setup_cqsize and setup_attach can be called in either order.
pub setup_cqsize-setup_attach :
    (cq_size : ℕ) (native_handle : ℤ) (o : RingOption)
    → setup_cqsize cq_size (setup_attach native_handle o)
      ≡ setup_attach native_handle (setup_cqsize cq_size o)
unfolding setup_cqsize setup_attach
setup_cqsize-setup_attach cq_size native_handle o =
    ap
      (λ n. record {
        ring_flags = n;
        wq_fd = to_uint32 native_handle;
        cq_entries = cq_size;
        sq_thread_cpu = o.sq_thread_cpu;
        sq_thread_idle = o.sq_thread_idle;
      })
      (bits_commute o.ring_flags)
