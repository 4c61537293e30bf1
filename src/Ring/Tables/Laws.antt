-- ===== src/Ring/Tables/Laws.antt =====
-- When the table of direct descriptors is registered, and that the limits of the workers are read back.
use iouxx.Base.{
  ℕ, zero, suc, ◌<◌, Bool, true, false, ◌≡◌, refl, sym, ap, ◌∙◌, ℤ, pos, negsuc, neg, is_negative,
  Bool-cases, true-ne-false, inl, inr,
}
use iouxx.Base.Result.{has_error, make_system_error_code}
use iouxx.Ring.Liburing.{Liburing, RawRing}
use iouxx.Ring.State.{Ring}
use iouxx.Ring.Tables.{register_direct_descriptor_table, current_worker_maximum, set_worker_maximum}

-- What the documentation of liburing says of the limits of the workers: a call sets the limits that are
-- not zero, and gives the limits that held before.
pub record IsLimits {K : Type 0} (L : Liburing K) (limits : K → ℕ × ℕ) : Type 0 where
  pub gives :
      (raw : RawRing) (info : ℕ × ℕ) (k : K)
      → (L.io_uring_register_iowq_max_workers raw info k).0.1 ≡ limits k
  pub sets :
      (raw : RawRing) (b u : ℕ) (k : K)
      → 0 < b
      → 0 < u
      → (L.io_uring_register_iowq_max_workers raw (b, u) k).0.0 ≡ pos 0
      → limits (L.io_uring_register_iowq_max_workers raw (b, u) k).1 ≡ (b, u)

no_error-zero : (ev : ℤ) → has_error (make_system_error_code (neg ev)) ≡ false → ev ≡ pos 0
no_error-zero (pos zero) h = refl
no_error-zero (pos (suc n)) h = cc
no_error-zero (negsuc n) h = cc

module _ {K : Type 0} (L : Liburing K) where
  -- For a liburing that sets the limits that are not zero and gives those that held before,
  -- current_worker_maximum reads the two positive limits that set_worker_maximum set without an
  -- error.
  pub current_worker_maximum-set_worker_maximum :
      (limits : K → ℕ × ℕ)
      → IsLimits L limits
      → (r : Ring) (k : K) (b u : ℕ) → 0 < b
      → 0 < u
      → has_error (set_worker_maximum L b u r k).0 ≡ false
      → (current_worker_maximum L r (set_worker_maximum L b u r k).1).0
        ≡ record { bounded = b; unbounded = u }
  unfolding current_worker_maximum set_worker_maximum
  current_worker_maximum-set_worker_maximum limits law r k b u hb hu done =
      let call = L.io_uring_register_iowq_max_workers r.raw_ring (b, u) k in
      ap (λ (i : ℕ × ℕ). record { bounded = i.0; unbounded = i.1 })
        (law.gives r.raw_ring (0, 0) call.1
          ∙ law.sets r.raw_ring b u k hb hu (no_error-zero call.0.0 done))

  -- If register_direct_descriptor_table returns no error, the table was registered, and so was its
  -- whole range where it was asked for.
  pub register_direct_descriptor_table-calls :
      (size : ℕ) (all_alloc : Bool) (r : Ring) (k : K)
      → has_error (register_direct_descriptor_table L size all_alloc r k).0 ≡ false
      → (is_negative (L.io_uring_register_files_sparse r.raw_ring size k).0 ≡ false)
        × (all_alloc ≡ true
            → (L.io_uring_register_file_alloc_range r.raw_ring 0 size
                (L.io_uring_register_files_sparse r.raw_ring size k).1).0
              ≡ pos 0)
  unfolding register_direct_descriptor_table
  register_direct_descriptor_table-calls size true r k h =
      let first = L.io_uring_register_files_sparse r.raw_ring size k in
      elim (Bool-cases (is_negative first.0)) [
        | inl failed ↦
            let zero_result = no_error-zero first.0 (rw failed at h) in
            absurd (true-ne-false (sym failed ∙ ap is_negative zero_result))
        | inr made ↦ (made, λ _. no_error-zero _ (rw made at h))
      ]
  register_direct_descriptor_table-calls size false r k h =
      let first = L.io_uring_register_files_sparse r.raw_ring size k in
      elim (Bool-cases (is_negative first.0)) [
        | inl failed ↦
            let zero_result = no_error-zero first.0 (rw failed at h) in
            absurd (true-ne-false (sym failed ∙ ap is_negative zero_result))
        | inr made ↦ (made, λ e. absurd (true-ne-false (sym e)))
      ]
