-- ===== src/Ring/Lifecycle/Groups.antt =====
-- The groups of buffers of a ring: the vector is a map from group numbers, each of which is registered
-- once, and no ring of buffers is lost.
use iouxx.Base.{
  ℕ, zero, suc, ◌+◌, ◌<◌, Bool, true, false, List, [], ◌∷◌, pos, is_negative, if◌then◌else◌, ◌≡◌,
  refl, sym, ap, ◌∙◌, arith, length, length-set, get_or, set, Bool-cases, true-ne-false, inl, inr,
}
use iouxx.Ring.Liburing.{Liburing}
use iouxx.Ring.State.{
  Ring, BufferRing, no_buffer_ring, buffer_ring_valid, valid, registered, buffer_ring_size_max,
  IsWellFormed,
}
use iouxx.Ring.Lifecycle.{pbuf_ring_inc, register_buffer_group, unregister_buffer_group}
use iouxx.Ring.Lifecycle.Balance.{
  Books, counted, IsBalanced, IsDocumented, one_if, free_handle-counted,
}

abbrev pub group : Ring → ℕ → BufferRing
group r bgid = get_or r.buffer_rings bgid no_buffer_ring

pub get_or-set :
    (brs : List BufferRing) (i : ℕ) (br : BufferRing)
    → i < length brs
    → get_or (set brs i br) i no_buffer_ring ≡ br
get_or-set [] i br h = absurd (omega arith)
get_or-set (x ∷ brs) zero br h = refl
get_or-set (x ∷ brs) (suc i) br h = get_or-set brs i br (omega arith)

pub get_or-set_other :
    (brs : List BufferRing) (i j : ℕ) (br : BufferRing)
    → ¬ (i ≡ j)
    → get_or (set brs i br) j no_buffer_ring ≡ get_or brs j no_buffer_ring
get_or-set_other [] i j br ne = refl
get_or-set_other (x ∷ brs) zero zero br ne = absurd (ne refl)
get_or-set_other (x ∷ brs) zero (suc j) br ne = refl
get_or-set_other (x ∷ brs) (suc i) zero br ne = refl
get_or-set_other (x ∷ brs) (suc i) (suc j) br ne = get_or-set_other brs i j br (λ e. ne (ap suc e))

registered-set :
    (brs : List BufferRing) (i : ℕ) (br : BufferRing)
    → i < length brs
    → registered (set brs i br) + one_if (buffer_ring_valid (get_or brs i no_buffer_ring))
      ≡ registered brs + one_if (buffer_ring_valid br)
registered-set [] i br h = absurd (omega arith)
registered-set (x ∷ brs) zero br h = omega arith
registered-set (x ∷ brs) (suc i) br h = omega (arith, registered-set brs i br (omega arith))

-- What an operation on the groups keeps.
pub record IsKept (r : Ring) (b : Books) : Type 0 where
  pub well_formed : IsWellFormed r
  pub balanced : IsBalanced r b
  pub still_valid : valid r ≡ true

module _ {K : Type 0} (L : Liburing K) (r : Ring) (k : K) (b : Books) (bgid : ℕ) (h : IsKept r b)
    (small : bgid < buffer_ring_size_max) where
  in_range : bgid < length r.buffer_rings
  in_range = rw h.well_formed.size small

  abbrev with_group : BufferRing → Ring
  with_group br = record r { buffer_rings = set r.buffer_rings bgid br }

  with_group-IsWellFormed : (br : BufferRing) → IsWellFormed (with_group br)
  with_group-IsWellFormed br = record {
    size = length-set r.buffer_rings bgid br ∙ h.well_formed.size;
    probed = h.well_formed.probed;
    released = λ v. absurd (true-ne-false (sym h.still_valid ∙ v));
  }

  -- A new group in a free place.
  put-IsKept :
      (br : BufferRing)
      → buffer_ring_valid (group r bgid) ≡ false
      → buffer_ring_valid br ≡ true
      → IsKept (with_group br) (record b { buffers_got = b.buffers_got + 1 })
  put-IsKept br free filled = record {
    well_formed = with_group-IsWellFormed br;
    balanced = record {
      rings = h.balanced.rings;
      probes = h.balanced.probes;
      buffers = omega (
        arith,
        h.balanced.buffers,
        registered-set r.buffer_rings bgid br in_range,
        ap one_if free,
        ap one_if filled,
      );
    };
    still_valid = h.still_valid;
  }

  -- An empty place for a group that is given back.
  drop-IsKept :
      buffer_ring_valid (group r bgid) ≡ true
      → IsKept (with_group no_buffer_ring) (record b { buffers_released = b.buffers_released + 1 })
  drop-IsKept filled = record {
    well_formed = with_group-IsWellFormed no_buffer_ring;
    balanced = record {
      rings = h.balanced.rings;
      probes = h.balanced.probes;
      buffers = omega (
        arith,
        h.balanced.buffers,
        registered-set r.buffer_rings bgid no_buffer_ring in_range,
        ap one_if filled,
      );
    };
    still_valid = h.still_valid;
  }

  unchanged : {n : ℕ} → b.buffers_got ≡ n → IsKept r (record b { buffers_got = n })
  unchanged e = record {
    well_formed = h.well_formed;
    balanced = record {
      rings = h.balanced.rings;
      probes = h.balanced.probes;
      buffers = omega (arith, h.balanced.buffers, e);
    };
    still_valid = h.still_valid;
  }

  -- For a group number below 65536 and a liburing whose successful calls give what they document,
  -- register_buffer_group keeps a valid and well-formed ring valid and well-formed, and its books
  -- balanced.
  pub register_buffer_group-IsKept :
      IsDocumented L
      → (entries : ℕ) (inc_consume : Bool)
      → (let s = register_buffer_group (counted L) entries bgid inc_consume r (k, b) in
          IsKept s.1.0 s.1.1.1)
  unfolding register_buffer_group
  register_buffer_group-IsKept doc entries inc_consume =
      elim (Bool-cases (buffer_ring_valid (group r bgid))) [
        | inl taken ↦ rw taken h
        | inr free ↦
            let flags = if inc_consume then 0 else pbuf_ring_inc in
            let call = L.io_uring_setup_buf_ring r.raw_ring entries (pos bgid) flags k in
            elim (Bool-cases (is_negative call.0.0)) [
              | inl failed ↦ rw (free, failed) (unchanged (omega arith))
              | inr made ↦
                  rw (free, made)
                    (put-IsKept (record { buf_ring = call.0.1; entries = entries; bgid = pos bgid })
                      free (doc.mapped r.raw_ring entries (pos bgid) flags k made))
            ]
      ]

  -- For a group number below 65536, unregister_buffer_group keeps a valid and well-formed ring
  -- valid and well-formed, and its books balanced.
  pub unregister_buffer_group-IsKept :
      (let s = unregister_buffer_group (counted L) bgid r (k, b) in IsKept s.0 s.1.1)
  unfolding unregister_buffer_group
  unregister_buffer_group-IsKept = elim (Bool-cases (buffer_ring_valid (group r bgid))) [
    | inl filled ↦
        let br = group r bgid in
        rw (filled, free_handle-counted L r.raw_ring br.buf_ring br.entries br.bgid k b, filled)
          (drop-IsKept filled)
    | inr empty ↦ rw empty h
  ]
