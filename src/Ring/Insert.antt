-- ===== src/Ring/Insert.antt =====
-- Filling a buffer ring: `insert` and `insert_range` of `ring::buffer_ring` and `ring::buffer_group` in
-- include/iouxx/iouringxx.hpp. What liburing does with a buffer ring is an interface of its own.
pub mod Laws
use iouxx.Base.{ℕ, ◌+◌, ◌%◌, ◌^◌, Bool, List, [], ◌∷◌, Option, if◌then◌else◌, get_or}
use iouxx.Base.Result.{ErrorCode, no_error, make_error_code, not_enough_memory}
use iouxx.Ring.State.{Ring, BufferRing, no_buffer_ring}

-- `iovec`, of a buffer by `utility::to_iovec`.
pub record Iovec : Type 0 where
  pub iov_base : ℕ
  pub iov_len : ℕ

-- The calls of liburing on a buffer ring, in the order of their arguments.
pub record BufRing (K : Type 0) : Type 0 where
  pub io_uring_buf_ring_add : (buf_ring : Option ℕ) (addr len bid mask offset : ℕ) → K → K
  pub io_uring_buf_ring_mask : ℕ → ℕ
  pub io_uring_buf_ring_advance : (buf_ring : Option ℕ) (count : ℕ) → K → K

-- `std::views::zip`, which ends where the shorter range ends.
abbrev pub zip {ℓ κ} : {A : Type ℓ} {B : Type κ} → List A → List B → List (A × B)
zip [] ys = []
zip (x ∷ xs) [] = []
zip (x ∷ xs) (y ∷ ys) = (x, y) ∷ zip xs ys

module _ {K : Type 0} (B : BufRing K) where
  -- The call of `io_uring_buf_ring_add`, which takes the length as an unsigned int.
  abbrev pub add : BufferRing → Iovec → ℕ → ℕ → K → K
  add br buf bid offset k =
      B.io_uring_buf_ring_add br.buf_ring buf.iov_base (buf.iov_len % 2 ^ 32) bid
        (B.io_uring_buf_ring_mask br.entries) offset k

  -- `buffer_ring::insert`
  unfoldable pub insert : BufferRing → Iovec → ℕ → K → K
  insert br buf bid k = B.io_uring_buf_ring_advance br.buf_ring 1 (add br buf bid 0 k)

  -- The loop of `insert_range`, with `total`, a std::uint16_t.
  pub add_all : BufferRing → List (Iovec × ℕ) → ℕ → K → ℕ × K
  add_all br [] total k = (total, k)
  add_all br ((buf, bid) ∷ rest) total k =
      add_all br rest ((total + 1) % 2 ^ 16) (add br buf bid total k)

  -- `buffer_ring::insert_range`; `has_memory` is whether the vectors could be allocated.
  unfoldable pub insert_range : Bool → BufferRing → List Iovec → List ℕ → K → ErrorCode × K
  unfolding add_all
  insert_range has_memory br bufs bids k =
      if has_memory
      then (let (total, k₁) = add_all br (zip bufs bids) 0 k in
          (no_error, B.io_uring_buf_ring_advance br.buf_ring total k₁))
      else (make_error_code not_enough_memory, k)

  -- `insert` and `insert_range` of a buffer group, which is the place of its buffer ring in the vector.
  unfoldable pub group_insert : ℕ → Iovec → ℕ → Ring → K → K
  unfolding insert
  group_insert bgid buf bid r k = insert (get_or r.buffer_rings bgid no_buffer_ring) buf bid k

  unfoldable pub group_insert_range : Bool → ℕ → List Iovec → List ℕ → Ring → K → ErrorCode × K
  unfolding insert_range
  group_insert_range has_memory bgid bufs bids r k =
      insert_range has_memory (get_or r.buffer_rings bgid no_buffer_ring) bufs bids k
