-- ===== src/Ring/Tables.antt =====
-- The tables, features, NAPI and worker methods of `ring` in include/iouxx/iouringxx.hpp: each is a call
-- of liburing and the conversion of its result, and one makes two calls.
pub mod Laws
use Prim.Native.Nat.{bit_and}
use iouxx.Base.{
  ℕ, zero, suc, Bool, true, false, not, ◌&&◌, ◌==◌, List, if◌then◌else◌, ℤ, pos, negsuc, neg,
  is_negative,
}
use iouxx.Base.Result.{ErrorCode, make_system_error_code, is_nonzero, Expected, ok, fail_system}
use iouxx.Ring.Liburing.{Liburing, RawRing, Napi}
use iouxx.Ring.State.{Ring}
use iouxx.Ring.Setup.{to_uint32}

-- `ring::test_feature` and `ring::test_flag`
unfoldable pub test_feature : ℕ → Ring → Bool
test_feature f r = bit_and r.raw_ring.features f == f

unfoldable pub test_flag : ℕ → Ring → Bool
test_flag f r = bit_and r.raw_ring.flags f == f

-- `ring::napi_config`, with the time in microseconds.
pub record NapiConfig : Type 0 where
  pub busy_poll_to : ℕ
  pub prefer_busy_poll : Bool

-- `ring::worker_maximum`
pub record WorkerMaximum : Type 0 where
  pub bounded : ℕ
  pub unbounded : ℕ

module _ {K : Type 0} (L : Liburing K) where
  -- `ring::register_buffer_table`
  unfoldable pub register_buffer_table : ℕ → Ring → K → ErrorCode × K
  register_buffer_table size r k =
      let (ev, k₁) = L.io_uring_register_buffers_sparse r.raw_ring size k in
      (make_system_error_code (neg ev), k₁)

  -- `ring::register_direct_descriptor_table_alloc_range`
  unfoldable pub register_direct_descriptor_table_alloc_range : ℕ → ℕ → Ring → K → ErrorCode × K
  register_direct_descriptor_table_alloc_range offset length r k =
      let (ev, k₁) = L.io_uring_register_file_alloc_range r.raw_ring offset length k in
      (make_system_error_code (neg ev), k₁)

  -- `ring::register_direct_descriptor_table`
  unfoldable pub register_direct_descriptor_table : ℕ → Bool → Ring → K → ErrorCode × K
  unfolding register_direct_descriptor_table_alloc_range
  register_direct_descriptor_table size all_alloc r k =
      let (ev, k₁) = L.io_uring_register_files_sparse r.raw_ring size k in
      if not (is_negative ev) && all_alloc
      then register_direct_descriptor_table_alloc_range 0 size r k₁
      else (make_system_error_code (neg ev), k₁)

  -- What both NAPI methods make of the answer.
  pub napi_answer : (ℤ × Napi) × K → Expected NapiConfig × K
  napi_answer ((ev, napi), k) = if is_nonzero ev then (fail_system (neg ev), k) else (
    ok (record {
      busy_poll_to = napi.busy_poll_to;
      prefer_busy_poll = not (napi.prefer_busy_poll == 0);
    }),
    k,
  )

  -- `ring::register_napi`, with the timeout in microseconds.
  unfoldable pub register_napi : ℤ → Bool → Ring → K → Expected NapiConfig × K
  unfolding napi_answer
  register_napi timeout prefer_busy_poll r k =
      let napi : Napi = record {
        busy_poll_to = to_uint32 timeout;
        prefer_busy_poll = if prefer_busy_poll then 1 else 0;
      } in
      napi_answer (L.io_uring_register_napi r.raw_ring napi k)

  -- `ring::unregister_napi`
  unfoldable pub unregister_napi : Ring → K → Expected NapiConfig × K
  unfolding napi_answer
  unregister_napi r k =
      napi_answer (
        L.io_uring_unregister_napi r.raw_ring (record { busy_poll_to = 0; prefer_busy_poll = 0 }) k)

  -- `ring::set_worker_affinity`, with the processors of the mask, and `ring::reset_worker_affinity`.
  unfoldable pub set_worker_affinity : List ℕ → Ring → K → ErrorCode × K
  set_worker_affinity thread_cpus r k =
      let (ev, k₁) = L.io_uring_register_iowq_aff r.raw_ring thread_cpus k in
      (make_system_error_code (neg ev), k₁)

  unfoldable pub reset_worker_affinity : Ring → K → ErrorCode × K
  reset_worker_affinity r k =
      let (ev, k₁) = L.io_uring_unregister_iowq_aff r.raw_ring k in
      (make_system_error_code (neg ev), k₁)

  -- `ring::current_worker_maximum`
  unfoldable pub current_worker_maximum : Ring → K → WorkerMaximum × K
  current_worker_maximum r k =
      let ((ev, info), k₁) = L.io_uring_register_iowq_max_workers r.raw_ring (0, 0) k in
      (record { bounded = info.0; unbounded = info.1 }, k₁)

  -- `ring::set_worker_maximum`
  unfoldable pub set_worker_maximum : ℕ → ℕ → Ring → K → ErrorCode × K
  set_worker_maximum bounded unbounded r k =
      let ((ev, info), k₁) =
        L.io_uring_register_iowq_max_workers r.raw_ring (bounded, unbounded) k in
      (make_system_error_code (neg ev), k₁)
