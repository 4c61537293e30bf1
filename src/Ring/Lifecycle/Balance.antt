-- ===== src/Ring/Lifecycle/Balance.antt =====
-- What a ring obtains from liburing and what it gives back, whatever liburing answers.
use iouxx.Base.{
  ℕ, zero, suc, ◌+◌, Bool, true, false, not, List, [], ◌∷◌, Option, none, some, ℤ, is_negative,
  if◌then◌else◌, replicate, ◌≡◌, refl, ap, ◌∙◌, arith, Bool-cases, inl, inr,
}
use iouxx.Ring.Liburing.{Liburing, RawRing, Params, KernelTimespec}
use iouxx.Ring.State.{
  Ring, BufferRing, no_buffer_ring, buffer_ring_valid, valid, is_some, registered, no_ring,
  buffer_ring_size_max,
}
use iouxx.Ring.Lifecycle.{free_probe, free_buffer_ring, free_handle, clear, stop, release, exit}

-- How often each kind of thing was obtained, and how often given back.
pub record Books : Type 0 where
  pub rings_got : ℕ
  pub rings_released : ℕ
  pub probes_got : ℕ
  pub probes_released : ℕ
  pub buffers_got : ℕ
  pub buffers_released : ℕ

abbrev pub one_if : Bool → ℕ
one_if c = if c then 1 else 0

-- liburing that keeps books on the calls that obtain something and those that give it back.
abbrev pub counted : {K : Type 0} → Liburing K → Liburing (K × Books)
counted L = record {
  io_uring_queue_init_params = λ depth params (k, b).
      let (r, k₁) = L.io_uring_queue_init_params depth params k in
      (r, (k₁, record b { rings_got = b.rings_got + one_if (not (is_negative r.0)) }));
  io_uring_queue_exit = λ raw (k, b).
      (L.io_uring_queue_exit raw k, record b { rings_released = b.rings_released + 1 });
  io_uring_get_probe_ring = λ raw (k, b).
      let (p, k₁) = L.io_uring_get_probe_ring raw k in
      (p, (k₁, record b { probes_got = b.probes_got + one_if (is_some p) }));
  io_uring_free_probe =
      λ p (k, b). (L.io_uring_free_probe p k, record b { probes_released = b.probes_released + 1 });
  io_uring_register_sync_cancel =
      λ raw reg (k, b). let (ev, k₁) = L.io_uring_register_sync_cancel raw reg k in (ev, (k₁, b));
  io_uring_enable_rings =
      λ raw (k, b). let (ev, k₁) = L.io_uring_enable_rings raw k in (ev, (k₁, b));
  io_uring_submit = λ raw (k, b). let (ev, k₁) = L.io_uring_submit raw k in (ev, (k₁, b));
  io_uring_peek_cqe = λ raw (k, b). let (r, k₁) = L.io_uring_peek_cqe raw k in (r, (k₁, b));
  io_uring_wait_cqe = λ raw (k, b). let (r, k₁) = L.io_uring_wait_cqe raw k in (r, (k₁, b));
  io_uring_wait_cqe_timeout =
      λ raw ts (k, b). let (r, k₁) = L.io_uring_wait_cqe_timeout raw ts k in (r, (k₁, b));
  io_uring_cqe_seen = λ raw cqe (k, b). (L.io_uring_cqe_seen raw cqe k, b);
  io_uring_setup_buf_ring = λ raw entries bgid flags (k, b).
      let (r, k₁) = L.io_uring_setup_buf_ring raw entries bgid flags k in
      (r, (k₁, record b { buffers_got = b.buffers_got + one_if (not (is_negative r.0)) }));
  io_uring_free_buf_ring = λ raw p entries bgid (k, b). (
    L.io_uring_free_buf_ring raw p entries bgid k,
    record b { buffers_released = b.buffers_released + 1 },
  );
  io_uring_register_files_sparse = λ raw size (k, b).
      let (ev, k₁) = L.io_uring_register_files_sparse raw size k in (ev, (k₁, b));
  io_uring_register_file_alloc_range = λ raw offset n (k, b).
      let (ev, k₁) = L.io_uring_register_file_alloc_range raw offset n k in (ev, (k₁, b));
  io_uring_register_buffers_sparse = λ raw size (k, b).
      let (ev, k₁) = L.io_uring_register_buffers_sparse raw size k in (ev, (k₁, b));
  io_uring_get_sqe = λ raw (k, b). let (sqe, k₁) = L.io_uring_get_sqe raw k in (sqe, (k₁, b));
  io_uring_sqe_set_data = λ sqe data_ (k, b). (L.io_uring_sqe_set_data sqe data_ k, b);
  io_uring_register_napi =
      λ raw napi (k, b). let (r, k₁) = L.io_uring_register_napi raw napi k in (r, (k₁, b));
  io_uring_unregister_napi =
      λ raw napi (k, b). let (r, k₁) = L.io_uring_unregister_napi raw napi k in (r, (k₁, b));
  io_uring_register_iowq_aff =
      λ raw cpus (k, b). let (ev, k₁) = L.io_uring_register_iowq_aff raw cpus k in (ev, (k₁, b));
  io_uring_unregister_iowq_aff =
      λ raw (k, b). let (ev, k₁) = L.io_uring_unregister_iowq_aff raw k in (ev, (k₁, b));
  io_uring_register_iowq_max_workers = λ raw info (k, b).
      let (r, k₁) = L.io_uring_register_iowq_max_workers raw info k in (r, (k₁, b));
}

-- All that was obtained was given back, save what the ring holds.
pub record IsBalanced (r : Ring) (b : Books) : Type 0 where
  pub rings : b.rings_got ≡ b.rings_released + one_if (valid r)
  pub probes : b.probes_got ≡ b.probes_released + one_if (is_some r.probe)
  pub buffers : b.buffers_got ≡ b.buffers_released + registered r.buffer_rings

-- What the documentation of liburing says of the calls that succeed.
pub record IsDocumented {K : Type 0} (L : Liburing K) : Type 0 where
  pub opened :
      (depth : ℕ) (params : Params) (k : K)
      → is_negative (L.io_uring_queue_init_params depth params k).0.0 ≡ false
      → is_negative (L.io_uring_queue_init_params depth params k).0.1.ring_fd ≡ false
  pub mapped :
      (raw : RawRing) (entries : ℕ) (bgid : ℤ) (flags : ℕ) (k : K)
      → is_negative (L.io_uring_setup_buf_ring raw entries bgid flags k).0.0 ≡ false
      → is_some (L.io_uring_setup_buf_ring raw entries bgid flags k).0.1 ≡ true

pub registered_none : (n : ℕ) → registered (replicate n no_buffer_ring) ≡ 0
registered_none zero = refl
registered_none (suc n) = omega (arith, registered_none n)

add_zero : (n : ℕ) → n ≡ n + 0
add_zero n = omega arith

pub exit-valid :
    {K : Type 0} (L : Liburing K) (r : Ring) (k : K) → valid r ≡ true → exit L r k ≡ release L r k
unfolding exit
exit-valid L r k v = rw v refl

pub exit_invalid :
    {K : Type 0} (L : Liburing K) (r : Ring) (k : K) → valid r ≡ false → exit L r k ≡ (r, k)
unfolding exit
exit_invalid L r k v = rw v refl

module _ {K : Type 0} (L : Liburing K) where
  pub free_probe-counted :
      (p : Option ℕ) (k : K) (b : Books)
      → free_probe (counted L) p (k, b)
        ≡ (free_probe L p k, record b { probes_released = b.probes_released + one_if (is_some p) })
  unfolding free_probe
  free_probe-counted none k b =
      ap (λ n. (k, record b { probes_released = n })) (add_zero b.probes_released)
  free_probe-counted (some p) k b = refl

  pub free_handle-counted :
      (raw : RawRing) (p : Option ℕ) (entries : ℕ) (bgid : ℤ) (k : K) (b : Books)
      → free_handle (counted L) raw p entries bgid (k, b) ≡ (
        free_handle L raw p entries bgid k,
        record b { buffers_released = b.buffers_released + one_if (is_some p) },
      )
  unfolding free_handle
  free_handle-counted raw none entries bgid k b =
      ap (λ n. (k, record b { buffers_released = n })) (add_zero b.buffers_released)
  free_handle-counted raw (some p) entries bgid k b = refl

  clear-counted :
      (raw : RawRing) (brs : List BufferRing) (k : K) (b : Books)
      → clear (counted L) raw brs (k, b)
        ≡ (clear L raw brs k, record b { buffers_released = b.buffers_released + registered brs })
  unfolding clear
  clear-counted raw [] k b =
      ap (λ n. (k, record b { buffers_released = n })) (add_zero b.buffers_released)
  clear-counted raw (br ∷ brs) k b =
      let k₁ = free_buffer_ring L raw br k in
      let one = one_if (buffer_ring_valid br) in
      ap (clear (counted L) raw brs) (free_handle-counted raw br.buf_ring br.entries br.bgid k b)
      ∙ clear-counted raw brs k₁ (record b { buffers_released = b.buffers_released + one })
      ∙ ap (λ n. (clear L raw brs k₁, record b { buffers_released = n })) (omega arith)

  -- The steps of `exit` on a valid ring.
  abbrev pub after_exit : Ring → K → K
  after_exit r k =
      L.io_uring_queue_exit r.raw_ring
        (clear L r.raw_ring r.buffer_rings (free_probe L r.probe (stop L none r k).1))

  pub stop-counted :
      (timeout : Option KernelTimespec) (r : Ring) (k : K) (b : Books)
      → (stop (counted L) timeout r (k, b)).1 ≡ ((stop L timeout r k).1, b)
  unfolding stop
  stop-counted timeout r k b = elim (Bool-cases (valid r)) [ inl v ↦ rw v | inr v ↦ rw v ]

  abbrev pub released : Ring → Books → Books
  released r b = record b {
    rings_released = b.rings_released + 1;
    probes_released = b.probes_released + one_if (is_some r.probe);
    buffers_released = b.buffers_released + registered r.buffer_rings;
  }

  pub release-counted :
      (r : Ring) (k : K) (b : Books)
      → release (counted L) r (k, b) ≡ (no_ring, (after_exit r k, released r b))
  unfolding release
  release-counted r k b =
      let C = counted L in
      let k₁ = (stop L none r k).1 in
      let b₁ = record b { probes_released = b.probes_released + one_if (is_some r.probe) } in
      ap (λ s. (no_ring, C.io_uring_queue_exit r.raw_ring s))
        (ap (clear C r.raw_ring r.buffer_rings)
            (ap (free_probe C r.probe) (stop-counted none r k b) ∙ free_probe-counted r.probe k₁ b)
          ∙ clear-counted r.raw_ring r.buffer_rings (free_probe L r.probe k₁) b₁)

  no_ring-IsBalanced :
      (b : Books) (r : Ring) → IsBalanced r b → valid r ≡ true → IsBalanced no_ring (released r b)
  no_ring-IsBalanced b r h v = record {
    rings = omega (arith, h.rings, rw v at h.rings);
    probes = omega (arith, h.probes);
    buffers = omega (arith, h.buffers, registered_none buffer_ring_size_max);
  }

  -- `exit` gives back all that the ring holds.
  pub exit-IsBalanced :
      (r : Ring) (k : K) (b : Books)
      → IsBalanced r b
      → IsBalanced (exit (counted L) r (k, b)).0 (exit (counted L) r (k, b)).1.1
  exit-IsBalanced r k b h = elim (Bool-cases (valid r)) [
    | inl v ↦
        rw (exit-valid (counted L) r (k, b) v, release-counted r k b) (no_ring-IsBalanced b r h v)
    | inr v ↦ rw (exit_invalid (counted L) r (k, b) v) h
  ]
