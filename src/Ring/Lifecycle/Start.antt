-- ===== src/Ring/Lifecycle/Start.antt =====
-- Starting a ring and ending it: the invariant of `ring`, and nothing that liburing hands out is lost,
-- whatever liburing answers.
use iouxx.Base.{
  ℕ, ◌+◌, true, false, not, Option, none, some, ℤ, pos, negsuc, neg, is_negative, ◌≡◌, refl, sym,
  ap, ◌∙◌, arith, length-replicate, Bool-cases, true-ne-false, inl, inr,
}
use iouxx.Base.Result.{ErrorCode, has_error, make_system_error_code}
use iouxx.Ring.Liburing.{Liburing, RawRing, Params}
use iouxx.Ring.State.{
  Ring, valid, is_some, buffer_ring_size_max, no_buffer_ring, no_ring, IsWellFormed,
}
use iouxx.Ring.Lifecycle.{release, exit, take_probe, do_init, reinit}
use iouxx.Ring.Lifecycle.Balance.{
  Books, counted, IsBalanced, IsDocumented, free_probe-counted, one_if, registered_none, exit-valid,
  exit_invalid, exit-IsBalanced,
}

no_ring-IsWellFormed : IsWellFormed no_ring
no_ring-IsWellFormed = record {
  size = length-replicate buffer_ring_size_max no_buffer_ring;
  probed = refl;
  released = λ _. registered_none buffer_ring_size_max;
}

-- A ring, the error code of the operation that left it and the books agree.
pub record IsStarted (ec : ErrorCode) (r : Ring) (b : Books) : Type 0 where
  pub well_formed : IsWellFormed r
  pub balanced : IsBalanced r b
  pub started : valid r ≡ not (has_error ec)

module _ {K : Type 0} (L : Liburing K) (r : Ring) (k : K) where
  -- Where the ring is valid, `exit` leaves the ring of the default constructor.
  exit-no_ring : valid r ≡ true → (exit L r k).0 ≡ no_ring
  exit-no_ring v = rw (exit-valid L r k v) (unfold release in refl)

  pub exit-invalid : valid (exit L r k).0 ≡ false
  exit-invalid = elim (Bool-cases (valid r)) [
    | inl v ↦ rw (exit-no_ring v) refl
    | inr v ↦ rw (exit_invalid L r k v) v
  ]

  pub exit-IsWellFormed : IsWellFormed r → IsWellFormed (exit L r k).0
  exit-IsWellFormed h = elim (Bool-cases (valid r)) [
    | inl v ↦ rw (exit-no_ring v) no_ring-IsWellFormed
    | inr v ↦ rw (exit_invalid L r k v) h
  ]

module _ {K : Type 0} (L : Liburing K) where
  -- The last step: the probe.
  module _ (r : Ring) (raw : RawRing) (b : Books) (h : IsWellFormed r) (v : valid r ≡ false)
      (balanced : IsBalanced r b) (opened : is_negative raw.ring_fd ≡ false) where
    abbrev with_raw : Ring
    with_raw = record r { raw_ring = raw }

    abbrev with_probe : Option ℕ → Books
    with_probe o = record b {
      rings_got = b.rings_got + 1;
      probes_got = b.probes_got + one_if (is_some o);
    }

    no_probe : is_some r.probe ≡ false
    no_probe = h.probed ∙ v

    with_raw-valid : valid with_raw ≡ true
    with_raw-valid = rw opened refl

    take_probe-IsStarted :
        (o : Option ℕ) (k : K)
        → (let s = take_probe (counted L) with_raw o (k, with_probe o) in
            IsStarted s.0 s.1.0 s.1.1.1)
    unfolding take_probe
    take_probe-IsStarted none k = record {
      well_formed =
          rw (exit-no_ring (counted L) with_raw (k, with_probe none) with_raw-valid)
            no_ring-IsWellFormed;
      balanced = exit-IsBalanced L with_raw k (with_probe none) (record {
        rings = omega (arith, rw v at balanced.rings, ap one_if with_raw-valid);
        probes = omega (arith, balanced.probes);
        buffers = balanced.buffers;
      });
      started = exit-invalid (counted L) with_raw (k, with_probe none);
    }
    take_probe-IsStarted (some p) k =
        rw (free_probe-counted L r.probe k (with_probe (some p))) (record {
          well_formed = record {
            size = h.size;
            probed = sym with_raw-valid;
            released = λ invalid. absurd (true-ne-false (sym with_raw-valid ∙ invalid));
          };
          balanced = record {
            rings = omega (arith, rw v at balanced.rings, ap one_if with_raw-valid);
            probes = omega (arith, rw no_probe at balanced.probes, ap one_if no_probe);
            buffers = balanced.buffers;
          };
          started = with_raw-valid;
        })

  init_failed :
      (ev : ℤ) → is_negative ev ≡ true → has_error (make_system_error_code (neg ev)) ≡ true
  init_failed (pos n) h = cc
  init_failed (negsuc n) h = refl

  -- Where it succeeds the ring is valid, where it fails it is not; the rest is in order in both cases.
  pub do_init-IsStarted :
      IsDocumented L
      → (depth : ℕ) (params : Params) (r : Ring) (k : K) (b : Books) → IsWellFormed r
      → valid r ≡ false
      → IsBalanced r b
      → (let s = do_init (counted L) depth params r (k, b) in IsStarted s.0 s.1.0 s.1.1.1)
  unfolding do_init
  do_init-IsStarted doc depth params r k b h v balanced =
      let call = L.io_uring_queue_init_params depth params k in
      elim (Bool-cases (is_negative call.0.0)) [
        | inl failed ↦ rw failed (record {
          well_formed = record {
            size = h.size;
            probed = h.probed ∙ v;
            released = λ _. h.released v;
          };
          balanced = record {
            rings = omega (arith, rw v at balanced.rings);
            probes = balanced.probes;
            buffers = balanced.buffers;
          };
          started = ap not (sym (init_failed call.0.0 failed));
        })
        | inr opened ↦
            let probe = L.io_uring_get_probe_ring call.0.1 call.1 in
            rw opened (
              take_probe-IsStarted r call.0.1 b h v balanced (doc.opened depth params k opened)
                probe.0 probe.1)
      ]

  -- Whatever a liburing answers whose successful calls give a descriptor that is not negative and a
  -- buffer ring that is not null, reinit of a well-formed ring with balanced books leaves a
  -- well-formed ring with balanced books (all rings, probes and buffer rings obtained are given
  -- back, save those that the ring holds), which is valid exactly if the error code that is
  -- returned is none.
  pub reinit-IsStarted :
      IsDocumented L
      → (depth : ℕ) (params : Params) (r : Ring) (k : K) (b : Books) → IsWellFormed r
      → IsBalanced r b
      → (let s = reinit (counted L) depth params r (k, b) in IsStarted s.0 s.1.0 s.1.1.1)
  unfolding reinit
  reinit-IsStarted doc depth params r k b h balanced =
      let left = exit (counted L) r (k, b) in
      do_init-IsStarted doc depth params left.0 left.1.0 left.1.1
        (exit-IsWellFormed (counted L) r (k, b) h) (exit-invalid (counted L) r (k, b))
        (exit-IsBalanced L r k b balanced)

-- Behind exit of a well-formed ring with balanced books, as many rings, probes and buffer rings
-- have been given back as were obtained, whatever liburing answers.
pub exit-nothing_held :
    {K : Type 0} (L : Liburing K) (r : Ring) (k : K) (b : Books)
    → IsWellFormed r
    → IsBalanced r b
    → (let b' = (exit (counted L) r (k, b)).1.1 in
        (b'.rings_got ≡ b'.rings_released)
        × (b'.probes_got ≡ b'.probes_released)
        × (b'.buffers_got ≡ b'.buffers_released))
exit-nothing_held L r k b h balanced =
    let left = exit (counted L) r (k, b) in
    let after = exit-IsBalanced L r k b balanced in
    let gone = exit-invalid (counted L) r (k, b) in
    let h' = exit-IsWellFormed (counted L) r (k, b) h in
    (
      omega (arith, after.rings, ap one_if gone),
      omega (arith, after.probes, ap one_if (h'.probed ∙ gone)),
      omega (arith, after.buffers, h'.released gone),
    )
