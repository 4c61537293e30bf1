-- ===== src/Ring/Lifecycle.antt =====
-- Starting and ending a ring: `do_init`, the constructor, `reinit`, `stop` and `exit` of `ring`, and the
-- groups of buffers that it registers.
pub mod Balance
pub mod Start
pub mod Groups
pub mod Registry
use iouxx.Base.{
  ℕ, zero, suc, ◌+◌, Bool, true, false, not, List, [], ◌∷◌, Option, none, some, ℤ, pos, negsuc, neg,
  is_negative, if◌then◌else◌, replicate, get_or, set,
}
use iouxx.Base.Result.{
  ErrorCode, no_error, make_error_code, make_system_error_code, not_enough_memory, file_exists,
  has_error, Expected, ok, unexpected, fail, fail_system,
}
use iouxx.Ring.Liburing.{Liburing, RawRing, Params, SyncCancelReg, KernelTimespec}
use iouxx.Ring.State.{
  Ring, BufferRing, no_buffer_ring, buffer_ring_valid, valid, invalid_ring, empty_buffer_rings,
  no_ring,
}

-- `IORING_ASYNC_CANCEL_ANY | IORING_ASYNC_CANCEL_ALL`
abbrev cancel_everything : ℕ
cancel_everything = 5

-- `IOU_PBUF_RING_INC`
abbrev pub pbuf_ring_inc : ℕ
pbuf_ring_inc = 2

-- The timeout of `stop` without an argument.
abbrev without_end : KernelTimespec
without_end = record { tv_sec = negsuc 0; tv_nsec = negsuc 0 }

-- `std::optional` stands for a timeout that is not zero.
abbrev cancel_timeout : Option KernelTimespec → KernelTimespec
cancel_timeout none = without_end
cancel_timeout (some ts) = ts

-- `ring::find_buffer_group`
unfoldable pub find_buffer_group : ℕ → Ring → Option ℕ
find_buffer_group bgid r =
    if buffer_ring_valid (get_or r.buffer_rings bgid no_buffer_ring) then some bgid else none

module _ {K : Type 0} (L : Liburing K) where
  -- The destructor of `probe_handle` and of `buffer_ring`.
  pub free_probe : Option ℕ → K → K
  free_probe none k = k
  free_probe (some p) k = L.io_uring_free_probe p k

  pub free_handle : RawRing → Option ℕ → ℕ → ℤ → K → K
  free_handle raw none entries bgid k = k
  free_handle raw (some p) entries bgid k = L.io_uring_free_buf_ring raw p entries bgid k

  abbrev pub free_buffer_ring : RawRing → BufferRing → K → K
  free_buffer_ring raw br k = free_handle raw br.buf_ring br.entries br.bgid k

  -- `buffer_rings.clear()`
  pub clear : RawRing → List BufferRing → K → K
  clear raw [] k = k
  clear raw (br ∷ brs) k = clear raw brs (free_buffer_ring raw br k)

  -- `ring::stop`
  unfoldable pub stop : Option KernelTimespec → Ring → K → ErrorCode × K
  stop timeout r k =
      if not (valid r)
      then (no_error, k)
      else (let reg : SyncCancelReg = record {
        timeout = cancel_timeout timeout;
        flags = cancel_everything;
      } in
          let (ev, k₁) = L.io_uring_register_sync_cancel r.raw_ring reg k in
          (make_system_error_code (neg ev), k₁))

  -- The body of `exit`, where the ring is valid.
  pub release : Ring → K → Ring × K
  release r k =
      let (res, k₁) = stop none r k in
      let k₂ = free_probe r.probe k₁ in
      let k₃ = clear r.raw_ring r.buffer_rings k₂ in (no_ring, L.io_uring_queue_exit r.raw_ring k₃)

  -- `ring::exit`
  unfoldable pub exit : Ring → K → Ring × K
  unfolding release free_handle free_probe clear
  exit r k = if valid r then release r k else (r, k)

  -- `do_init` behind `io_uring_queue_init_params`, where it succeeded.
  pub take_probe : Ring → Option ℕ → K → ErrorCode × (Ring × K)
  take_probe r (some raw) k = (no_error, (record r { probe = some raw }, free_probe r.probe k))
  take_probe r none k = (make_error_code not_enough_memory, exit r k)

  -- `ring::do_init`
  unfoldable pub do_init : ℕ → Params → Ring → K → ErrorCode × (Ring × K)
  unfolding take_probe free_probe
  do_init queue_depth params r k =
      let ((ev, raw), k₁) = L.io_uring_queue_init_params queue_depth params k in
      if is_negative ev
      then (make_system_error_code (neg ev), (record r { raw_ring = invalid_ring }, k₁))
      else (let (probe, k₂) = L.io_uring_get_probe_ring raw k₁ in
          take_probe (record r { raw_ring = raw }) probe k₂)

  -- `ring::reinit`
  unfoldable pub reinit : ℕ → Params → Ring → K → ErrorCode × (Ring × K)
  reinit queue_depth params r k = let (r₁, k₁) = exit r k in do_init queue_depth params r₁ k₁

  -- The constructor: where `do_init` fails, it throws.
  unfoldable pub make_ring : ℕ → Params → K → Expected Ring × K
  make_ring queue_depth params k =
      let (ec, (r, k₁)) = do_init queue_depth params no_ring k in
      if has_error ec then (unexpected ec, k₁) else (ok r, k₁)

  -- `ring::start_from_disabled`
  unfoldable pub start_from_disabled : Ring → K → ErrorCode × K
  start_from_disabled r k =
      let (ev, k₁) = L.io_uring_enable_rings r.raw_ring k in (make_system_error_code (neg ev), k₁)

  -- `buffer_ring::make`
  pub make_buffer_ring : RawRing → ℕ → ℤ → ℕ → K → Expected BufferRing × K
  make_buffer_ring raw entries bgid flags k =
      let ((err, buf_ring), k₁) = L.io_uring_setup_buf_ring raw entries bgid flags k in
      if is_negative err
      then (fail_system (neg err), k₁)
      else (ok (record { buf_ring = buf_ring; entries = entries; bgid = bgid }), k₁)

  pub put_buffer_ring : Ring → ℕ → Expected BufferRing × K → Expected ℕ × (Ring × K)
  put_buffer_ring r bgid (ok br, k) =
      (ok bgid, (record r { buffer_rings = set r.buffer_rings bgid br }, k))
  put_buffer_ring r bgid (unexpected ec, k) = (unexpected ec, (r, k))

  -- `ring::register_buffer_group`; the group in the result, a pointer into the vector, is its index.
  unfoldable pub register_buffer_group : ℕ → ℕ → Bool → Ring → K → Expected ℕ × (Ring × K)
  unfolding make_buffer_ring put_buffer_ring
  register_buffer_group entries bgid inc_consume r k =
      if buffer_ring_valid (get_or r.buffer_rings bgid no_buffer_ring)
      then (fail file_exists, (r, k))
      else put_buffer_ring r bgid (
          make_buffer_ring r.raw_ring entries (pos bgid) (if inc_consume then 0 else pbuf_ring_inc)
            k)

  -- `ring::unregister_buffer_group`
  unfoldable pub unregister_buffer_group : ℕ → Ring → K → Ring × K
  unfolding free_handle
  unregister_buffer_group bgid r k =
      let br = get_or r.buffer_rings bgid no_buffer_ring in
      if buffer_ring_valid br
      then (
        record r { buffer_rings = set r.buffer_rings bgid no_buffer_ring },
        free_buffer_ring r.raw_ring br k,
      )
      else (r, k)
