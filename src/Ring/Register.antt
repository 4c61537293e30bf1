-- ===== src/Ring/Register.antt =====
-- The registration of buffers by address and of direct descriptors, methods of `ring` in
-- include/iouxx/iouringxx.hpp, and the exchange and the move of rings and buffer rings.
use iouxx.Base.{ℕ, Bool, List, length, replicate, Option, none, some, if◌then◌else◌, ℤ, neg}
use iouxx.Base.Result.{ErrorCode, make_error_code, make_system_error_code, not_enough_memory}
use iouxx.Ring.Liburing.{Liburing, RawRing}
use iouxx.Ring.State.{Ring, BufferRing, no_buffer_ring}
use iouxx.Ring.Lifecycle.{free_buffer_ring}
use iouxx.Ring.Insert.{Iovec}

-- The calls of liburing that these methods make. The tags of `io_uring_register_buffers_update_tag` are a
-- pointer that may be null.
pub record Registration (K : Type 0) : Type 0 where
  pub io_uring_register_buffers_update_tag :
      RawRing → (offset : ℕ) → List Iovec → Option (List ℕ) → (size : ℕ) → K → ℤ × K
  pub io_uring_register_buffers_tags : RawRing → List Iovec → List ℕ → (size : ℕ) → K → ℤ × K
  pub io_uring_register_buffers : RawRing → List Iovec → (size : ℕ) → K → ℤ × K
  pub io_uring_register_files_update : RawRing → (offset : ℕ) → List ℤ → (size : ℕ) → K → ℤ × K
  pub io_uring_register_files : RawRing → List ℤ → (size : ℕ) → K → ℤ × K

-- `ring::swap`
unfoldable pub swap : Ring → Ring → Ring × Ring
swap r other = (record r { raw_ring = other.raw_ring }, record other { raw_ring = r.raw_ring })

-- `buffer_ring::swap`, and the constructor that takes a buffer ring over and leaves an empty one behind.
unfoldable pub swap_buffer_ring : BufferRing → BufferRing → BufferRing × BufferRing
swap_buffer_ring br other = (other, br)

unfoldable pub move_buffer_ring : BufferRing → BufferRing × BufferRing
move_buffer_ring other = (other, no_buffer_ring)

-- `buffer_ring::operator=`: the third buffer ring, which the exchange gave the old one, is destroyed.
unfoldable pub assign_buffer_ring :
    {K : Type 0}
    → Liburing K
    → RawRing
    → BufferRing
    → BufferRing
    → K
    → (BufferRing × BufferRing) × K
unfolding swap_buffer_ring move_buffer_ring
assign_buffer_ring L raw br other k =
    let (taken, left) = move_buffer_ring other in
    let (old, new) = swap_buffer_ring taken br in ((new, left), free_buffer_ring L raw old k)

module _ {K : Type 0} (G : Registration K) where
  -- What the methods make of an answer.
  abbrev answered : ℤ × K → ErrorCode × K
  answered (ev, k) = (make_system_error_code (neg ev), k)

  -- The methods that allocate: where that fails, `has_memory` is false.
  abbrev allocating : Bool → ℤ × K → K → ErrorCode × K
  allocating has_memory answer k =
      if has_memory then answered answer else (make_error_code not_enough_memory, k)

  -- `ring::update_buffer_table`, with an operation for the end of their use, at the address `unreg_op`,
  -- and without.
  unfoldable pub update_buffer_table_tagged : Bool → ℕ → List Iovec → ℕ → Ring → K → ErrorCode × K
  update_buffer_table_tagged has_memory offset iovecs unreg_op r k =
      let tags = replicate (length iovecs) unreg_op in
      allocating has_memory
        (G.io_uring_register_buffers_update_tag r.raw_ring offset iovecs (some tags) (length iovecs)
          k)
        k

  unfoldable pub update_buffer_table : Bool → ℕ → List Iovec → Ring → K → ErrorCode × K
  update_buffer_table has_memory offset iovecs r k =
      allocating has_memory
        (G.io_uring_register_buffers_update_tag r.raw_ring offset iovecs none (length iovecs) k) k

  -- `ring::register_buffers`, with such an operation and without.
  unfoldable pub register_buffers_tagged : Bool → List Iovec → ℕ → Ring → K → ErrorCode × K
  register_buffers_tagged has_memory iovecs unreg_op r k =
      let tags = replicate (length iovecs) unreg_op in
      allocating has_memory
        (G.io_uring_register_buffers_tags r.raw_ring iovecs tags (length iovecs) k) k

  unfoldable pub register_buffers : Bool → List Iovec → Ring → K → ErrorCode × K
  register_buffers has_memory iovecs r k =
      allocating has_memory (G.io_uring_register_buffers r.raw_ring iovecs (length iovecs) k) k

  -- `ring::update_direct_descriptor_table` and `ring::register_direct_descriptors`
  unfoldable pub update_direct_descriptor_table : ℕ → List ℤ → Ring → K → ErrorCode × K
  update_direct_descriptor_table offset fds r k =
      answered (G.io_uring_register_files_update r.raw_ring offset fds (length fds) k)

  unfoldable pub register_direct_descriptors : List ℤ → Ring → K → ErrorCode × K
  register_direct_descriptors fds r k =
      answered (G.io_uring_register_files r.raw_ring fds (length fds) k)
