-- ===== src/Ring/Liburing.antt =====
-- The calls of liburing that `ring` of include/iouxx/iouringxx.hpp makes, as an interface over a state of
-- the kernel and the library.
use iouxx.Base.{ℕ, List, Option, ℤ}

-- The fields of `io_uring` that the code reads.
pub record RawRing : Type 0 where
  pub ring_fd : ℤ
  pub flags : ℕ
  pub features : ℕ

-- The fields of `io_uring_params` that the code writes; all others are zero.
pub record Params : Type 0 where
  pub flags : ℕ
  pub wq_fd : ℕ
  pub cq_entries : ℕ
  pub sq_thread_cpu : ℕ
  pub sq_thread_idle : ℕ

-- `__kernel_timespec`
pub record KernelTimespec : Type 0 where
  pub tv_sec : ℤ
  pub tv_nsec : ℤ

-- `io_uring_sync_cancel_reg`; all other fields are zero.
pub record SyncCancelReg : Type 0 where
  pub timeout : KernelTimespec
  pub flags : ℕ

-- `io_uring_cqe`
pub record Cqe : Type 0 where
  pub user_data : ℕ
  pub res : ℤ
  pub flags : ℕ

-- The fields of `io_uring_napi` that the code reads and writes.
pub record Napi : Type 0 where
  pub busy_poll_to : ℕ
  pub prefer_busy_poll : ℕ

-- A call returns its result and the state behind it. A pointer that may be null is an option.
pub record Liburing (K : Type 0) : Type 0 where
  pub io_uring_queue_init_params : ℕ → Params → K → (ℤ × RawRing) × K
  pub io_uring_queue_exit : RawRing → K → K
  pub io_uring_get_probe_ring : RawRing → K → Option ℕ × K
  pub io_uring_free_probe : ℕ → K → K
  pub io_uring_register_sync_cancel : RawRing → SyncCancelReg → K → ℤ × K
  pub io_uring_enable_rings : RawRing → K → ℤ × K
  pub io_uring_submit : RawRing → K → ℤ × K
  pub io_uring_peek_cqe : RawRing → K → (ℤ × Cqe) × K
  pub io_uring_wait_cqe : RawRing → K → (ℤ × Cqe) × K
  pub io_uring_wait_cqe_timeout : RawRing → KernelTimespec → K → (ℤ × Cqe) × K
  pub io_uring_cqe_seen : RawRing → Cqe → K → K
  pub io_uring_setup_buf_ring : RawRing → ℕ → ℤ → ℕ → K → (ℤ × Option ℕ) × K
  pub io_uring_free_buf_ring : RawRing → ℕ → ℕ → ℤ → K → K
  pub io_uring_register_files_sparse : RawRing → ℕ → K → ℤ × K
  pub io_uring_register_file_alloc_range : RawRing → ℕ → ℕ → K → ℤ × K
  pub io_uring_register_buffers_sparse : RawRing → ℕ → K → ℤ × K
  pub io_uring_get_sqe : RawRing → K → Option ℕ × K
  pub io_uring_sqe_set_data : ℕ → ℕ → K → K
  pub io_uring_register_napi : RawRing → Napi → K → (ℤ × Napi) × K
  pub io_uring_unregister_napi : RawRing → Napi → K → (ℤ × Napi) × K
  pub io_uring_register_iowq_aff : RawRing → List ℕ → K → ℤ × K
  pub io_uring_unregister_iowq_aff : RawRing → K → ℤ × K
  pub io_uring_register_iowq_max_workers : RawRing → ℕ × ℕ → K → (ℤ × (ℕ × ℕ)) × K
