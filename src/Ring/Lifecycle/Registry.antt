-- ===== src/Ring/Lifecycle/Registry.antt =====
-- The groups of buffers of a ring as a map from group numbers, and the operations on it.
use iouxx.Base.{
  ℕ, ◌<◌, Bool, true, Option, none, some, pos, is_negative, if◌then◌else◌, ◌≡◌, refl, length, set,
  Bool-cases, inl, inr,
}
use iouxx.Base.Result.{ErrorCode, Expected, ok, unexpected}
use iouxx.Ring.Liburing.{Liburing}
use iouxx.Ring.State.{Ring, BufferRing, no_buffer_ring, buffer_ring_valid}
use iouxx.Ring.Lifecycle.{
  pbuf_ring_inc, register_buffer_group, unregister_buffer_group, find_buffer_group,
}
use iouxx.Ring.Lifecycle.Balance.{IsDocumented}
use iouxx.Ring.Lifecycle.Groups.{group, get_or-set, get_or-set_other}

-- The abstract view: which groups there are.
abbrev pub View : Type 0
View = ℕ → Option ℕ

abbrev pub groups : Ring → View
groups r bgid = find_buffer_group bgid r

-- `after` has the group that `found` says, and every other group as `before` has it.
pub record IsUpdate (before after : View) (bgid : ℕ) (found : Option ℕ) : Type 0 where
  pub here : after bgid ≡ found
  pub elsewhere : (j : ℕ) → ¬ (bgid ≡ j) → after j ≡ before j

find-set_other :
    (r : Ring) (bgid j : ℕ) (br : BufferRing)
    → ¬ (bgid ≡ j)
    → groups (record r { buffer_rings = set r.buffer_rings bgid br }) j ≡ groups r j
unfolding find_buffer_group
find-set_other r bgid j br ne = rw (get_or-set_other r.buffer_rings bgid j br ne) refl

module _ {K : Type 0} (r : Ring) (bgid : ℕ) where
  -- The two outcomes of `register_buffer_group`: an error that leaves the ring as it was, or a new group.
  pub data IsRegistered (s : Expected ℕ × (Ring × K)) : Type 0 where
    refused : (ec : ErrorCode) → s.0 ≡ unexpected ec → s.1.0 ≡ r → IsRegistered s
    registered_new :
        s.0 ≡ ok bgid
        → groups r bgid ≡ none
        → IsUpdate (groups r) (groups s.1.0) bgid (some bgid)
        → IsRegistered s

module _ {K : Type 0} (L : Liburing K) (r : Ring) (k : K) (bgid : ℕ)
    (small : bgid < length r.buffer_rings) where
  put-IsUpdate :
      (br : BufferRing)
      → buffer_ring_valid br ≡ true
      → IsUpdate
          (groups r)
          (groups (record r { buffer_rings = set r.buffer_rings bgid br }))
          bgid
          (some bgid)
  unfolding find_buffer_group
  put-IsUpdate br filled = record {
    here = rw (get_or-set r.buffer_rings bgid br small, filled) refl;
    elsewhere = λ j ne. find-set_other r bgid j br ne;
  }

  -- For a group number within the vector and a liburing whose successful calls give what they
  -- document, register_buffer_group returns an error and leaves the ring as it was, or returns the
  -- group, which was not there before, and the ring then has this group and all others as before.
  pub register_buffer_group-IsRegistered :
      IsDocumented L
      → (entries : ℕ) (inc_consume : Bool)
      → IsRegistered r bgid (register_buffer_group L entries bgid inc_consume r k)
  unfolding register_buffer_group
  register_buffer_group-IsRegistered doc entries inc_consume =
      elim (Bool-cases (buffer_ring_valid (group r bgid))) [
        | inl taken ↦ rw taken (refused _ refl refl)
        | inr free ↦
            let flags = if inc_consume then 0 else pbuf_ring_inc in
            let call = L.io_uring_setup_buf_ring r.raw_ring entries (pos bgid) flags k in
            elim (Bool-cases (is_negative call.0.0)) [
              | inl failed ↦ rw (free, failed) (refused _ refl refl)
              | inr made ↦
                  rw (free, made)
                    (registered_new refl (unfold find_buffer_group in rw free refl)
                      (put-IsUpdate _ (doc.mapped r.raw_ring entries (pos bgid) flags k made)))
            ]
      ]

  -- For a group number within the vector, find_buffer_group does not find the group behind
  -- unregister_buffer_group, and finds every other group as before.
  pub unregister_buffer_group-IsUpdate :
      IsUpdate (groups r) (groups (unregister_buffer_group L bgid r k).0) bgid none
  unfolding unregister_buffer_group find_buffer_group
  unregister_buffer_group-IsUpdate = elim (Bool-cases (buffer_ring_valid (group r bgid))) [
    | inl filled ↦ rw filled (record {
      here = rw (get_or-set r.buffer_rings bgid no_buffer_ring small) refl;
      elsewhere = λ j ne. find-set_other r bgid j no_buffer_ring ne;
    })
    | inr free ↦ rw free (record { here = rw free refl; elsewhere = λ j ne. refl })
  ]
