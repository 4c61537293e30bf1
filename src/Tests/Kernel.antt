-- ===== src/Tests/Kernel.antt =====
-- A small liburing for the runs: every call succeeds, the state is the completion queue, and an entry that
-- is given its user data is complete.
use iouxx.Base.{ℕ, zero, suc, ◌<◌, List, [], ◌∷◌, none, some, ◌≡◌, refl, ap, ℤ, pos, arith}
use iouxx.Ring.Liburing.{Liburing, RawRing, Cqe}
use iouxx.Ring.State.{Ring, empty_buffer_rings, buffer_ring_size_max, no_buffer_ring, IsWellFormed}
use iouxx.Ring.Lifecycle.Balance.{Books, IsBalanced, IsDocumented, registered_none}
use iouxx.Ring.Lifecycle.Groups.{IsKept}
use iouxx.Ring.Tables.Laws.{IsLimits}
use iouxx.Ring.Results.Order.{IsQueue, again}
use iouxx.Base.{length-replicate, true-ne-false}

abbrev Queue : Type 0
Queue = List Cqe

abbrev pub completion : ℕ → Cqe
completion n = record { user_data = n; res = pos 0; flags = 0 }

abbrev peek : Queue → (ℤ × Cqe) × Queue
peek [] = ((again, completion 0), [])
peek (c ∷ cs) = ((pos 0, c), c ∷ cs)

abbrev seen : Queue → Queue
seen [] = []
seen (c ∷ cs) = cs

abbrev pub raw : RawRing
raw = record { ring_fd = pos 3; flags = 0; features = 0 }

abbrev pub kernel : Liburing (List Cqe)
kernel = record {
  io_uring_queue_init_params = λ depth params k. ((pos 0, raw), k);
  io_uring_queue_exit = λ r k. k;
  io_uring_get_probe_ring = λ r k. (some 7, k);
  io_uring_free_probe = λ p k. k;
  io_uring_register_sync_cancel = λ r reg k. (pos 0, k);
  io_uring_enable_rings = λ r k. (pos 0, k);
  io_uring_submit = λ r k. (pos 1, k);
  io_uring_peek_cqe = λ r k. peek k;
  io_uring_wait_cqe = λ r k. peek k;
  io_uring_wait_cqe_timeout = λ r ts k. peek k;
  io_uring_cqe_seen = λ r c k. seen k;
  io_uring_setup_buf_ring = λ r entries bgid flags k. ((pos 0, some 9), k);
  io_uring_free_buf_ring = λ r p entries bgid k. k;
  io_uring_register_files_sparse = λ r size k. (pos 0, k);
  io_uring_register_file_alloc_range = λ r offset n k. (pos 0, k);
  io_uring_register_buffers_sparse = λ r size k. (pos 0, k);
  io_uring_get_sqe = λ r k. (some 1, k);
  io_uring_sqe_set_data = λ sqe user_data k. completion user_data ∷ k;
  io_uring_register_napi = λ r napi k. ((pos 0, napi), k);
  io_uring_unregister_napi = λ r napi k. ((pos 0, napi), k);
  io_uring_register_iowq_aff = λ r cpus k. (pos 0, k);
  io_uring_unregister_iowq_aff = λ r k. (pos 0, k);
  io_uring_register_iowq_max_workers = λ r info k. ((pos 0, info), k);
}

pub kernel-IsDocumented : IsDocumented kernel
kernel-IsDocumented = record {
  opened = λ depth params k h. refl;
  mapped = λ r entries bgid flags k h. refl;
}

abbrev pub pending : List Cqe → List Cqe
pending k = k

peek-kept : (k : Queue) → (peek k).1 ≡ k
peek-kept [] = refl
peek-kept (c ∷ cs) = refl

pub kernel-IsQueue : IsQueue kernel pending
kernel-IsQueue = record {
  peek_keeps = λ r k. peek-kept k;
  peek_empty = λ r k h. ap (λ q. (peek q).0.0) h;
  peek_first = λ r k c cs h. (ap (λ q. (peek q).0.0) h, ap (λ q. (peek q).0.1) h);
  seen = λ r k c cs h. ap seen h;
}

-- A ring that runs, and the books behind its start.
abbrev pub running : Ring
running = record { raw_ring = raw; probe = some 7; buffer_rings = empty_buffer_rings }

abbrev pub books : Books
books = record {
  rings_got = 1;
  rings_released = 0;
  probes_got = 1;
  probes_released = 0;
  buffers_got = 0;
  buffers_released = 0;
}

pub running-IsWellFormed : IsWellFormed running
running-IsWellFormed = record {
  size = length-replicate buffer_ring_size_max no_buffer_ring;
  probed = refl;
  released = λ v. absurd (true-ne-false v);
}

pub running-IsBalanced : IsBalanced running books
running-IsBalanced = record {
  rings = refl;
  probes = refl;
  buffers = omega (arith, registered_none buffer_ring_size_max);
}

pub running-IsKept : IsKept running books
running-IsKept = record {
  well_formed = running-IsWellFormed;
  balanced = running-IsBalanced;
  still_valid = refl;
}

-- Another one, whose state is the limits of the workers.
abbrev pick : ℕ → ℕ → ℕ
pick zero old = old
pick (suc n) old = suc n

pick-positive : (n old : ℕ) → 0 < n → pick n old ≡ n
pick-positive zero old h = absurd (omega arith)
pick-positive (suc n) old h = refl

abbrev pub limited : Liburing (ℕ × ℕ)
limited = record {
  io_uring_queue_init_params = λ depth params k. ((pos 0, raw), k);
  io_uring_queue_exit = λ r k. k;
  io_uring_get_probe_ring = λ r k. (some 7, k);
  io_uring_free_probe = λ p k. k;
  io_uring_register_sync_cancel = λ r reg k. (pos 0, k);
  io_uring_enable_rings = λ r k. (pos 0, k);
  io_uring_submit = λ r k. (pos 1, k);
  io_uring_peek_cqe = λ r k. ((again, completion 0), k);
  io_uring_wait_cqe = λ r k. ((again, completion 0), k);
  io_uring_wait_cqe_timeout = λ r ts k. ((again, completion 0), k);
  io_uring_cqe_seen = λ r c k. k;
  io_uring_setup_buf_ring = λ r entries bgid flags k. ((pos 0, some 9), k);
  io_uring_free_buf_ring = λ r p entries bgid k. k;
  io_uring_register_files_sparse = λ r size k. (pos 0, k);
  io_uring_register_file_alloc_range = λ r offset n k. (pos 0, k);
  io_uring_register_buffers_sparse = λ r size k. (pos 0, k);
  io_uring_get_sqe = λ r k. (none, k);
  io_uring_sqe_set_data = λ sqe user_data k. k;
  io_uring_register_napi = λ r napi k. ((pos 0, napi), k);
  io_uring_unregister_napi = λ r napi k. ((pos 0, napi), k);
  io_uring_register_iowq_aff = λ r cpus k. (pos 0, k);
  io_uring_unregister_iowq_aff = λ r k. (pos 0, k);
  io_uring_register_iowq_max_workers = λ r info k. ((pos 0, k), (pick info.0 k.0, pick info.1 k.1));
}

abbrev pub limits : ℕ × ℕ → ℕ × ℕ
limits k = k

pub limited-IsLimits : IsLimits limited limits
limited-IsLimits = record {
  gives = λ r info k. refl;
  sets = λ r b u k hb hu h i. (pick-positive b k.0 hb i, pick-positive u k.1 hu i);
}
