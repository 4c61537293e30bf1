-- ===== src/Tests/Buffers.antt =====
-- A small liburing with buffer rings of eight places, and runs on it.
use iouxx.Base.{
  ℕ, ◌+◌, true, List, [], ◌∷◌, ◌++◌, Option, none, some, ◌==◌, ==_refl, ==_false, if◌then◌else◌,
  ◌≡◌, refl, Bool-cases, arith, inl, inr,
}
use iouxx.Base.Result.{no_error}
use iouxx.Ring.State.{BufferRing}
use iouxx.Ring.Insert.{Iovec, BufRing, insert, insert_range}
use iouxx.Ring.Insert.Laws.{Buffer, slice, IsBufRing, at_place, insert_range-publishes}

-- A buffer ring: what the kernel sees, and what stands behind it.
record Slots : Type 0 where
  shown : List Buffer
  hidden : ℕ → Buffer

abbrev Memory : Type 0
Memory = ℕ → Slots

abbrev update : Option ℕ → (Slots → Slots) → Memory → Memory
update none f k q = k q
update (some p) f k q = if q == p then f (k q) else k q

abbrev write : ℕ → Buffer → Slots → Slots
write offset b s = record s { hidden = λ i. if i == offset then b else s.hidden i }

abbrev show : ℕ → Slots → Slots
show count s = record {
  shown = s.shown ++ slice 0 count s.hidden;
  hidden = λ i. s.hidden (i + count);
}

abbrev memory : BufRing Memory
memory = record {
  io_uring_buf_ring_add = λ p addr len bid mask offset k.
      update p (write offset (record { addr = addr; len = len; bid = bid })) k;
  io_uring_buf_ring_mask = λ entries. entries;
  io_uring_buf_ring_advance = λ p count k. update p (show count) k;
}

shown-write :
    (p q offset : ℕ) (b : Buffer) (k : Memory)
    → (update (some p) (write offset b) k q).shown ≡ (k q).shown
shown-write p q offset b k = elim (Bool-cases (q == p)) [ inl e ↦ rw e refl | inr e ↦ rw e refl ]

memory-IsBufRing : IsBufRing memory (λ p. 8) (λ p k. 8) (λ p k. (k p).shown) (λ p k. (k p).hidden)
memory-IsBufRing = record {
  bounded = λ p k. omega arith;
  add_room = λ p q addr len bid mask offset k. refl;
  add_published = λ p q addr len bid offset k h.
      shown-write p q offset (record { addr = addr; len = len; bid = bid }) k;
  add_staged = λ p addr len bid offset k h. rw (==_refl p, ==_refl offset) refl;
  add_others = λ p addr len bid offset i k h other. rw (==_refl p, ==_false i offset other) refl;
  advance_published = λ p count k h. rw (==_refl p) refl;
  advance_others = λ p q count k other. rw (==_false q p other) refl;
}

abbrev blank : Memory
blank q = record { shown = []; hidden = λ i. record { addr = 0; len = 0; bid = 0 } }

-- Two buffers for the buffer ring at 9, which has shown one before, and one at 5.
abbrev bufs : List Iovec
bufs = record { iov_base = 4096; iov_len = 64 } ∷ record { iov_base = 8192; iov_len = 32 } ∷ []

abbrev old : Iovec
old = record { iov_base = 512; iov_len = 16 }

abbrev ring_9 : BufferRing
ring_9 = at_place (λ p. 8) 9 2

abbrev started : Memory
unfolding insert
started = insert memory ring_9 old 7 blank

insert_range-publishes_example :
    ((insert_range memory true ring_9 bufs (1 ∷ 2 ∷ []) started).0 ≡ no_error)
    × (((insert_range memory true ring_9 bufs (1 ∷ 2 ∷ []) started).1 9).shown
        ≡ record { addr = 512; len = 16; bid = 7 }
          ∷ record { addr = 4096; len = 64; bid = 1 }
          ∷ record { addr = 8192; len = 32; bid = 2 }
          ∷ [])
    × (((insert_range memory true ring_9 bufs (1 ∷ 2 ∷ []) started).1 5).shown ≡ [])
    × (insert memory ring_9 old 3 started
        ≡ (insert_range memory true ring_9 (old ∷ []) (3 ∷ []) started).1)
unfolding started
insert_range-publishes_example =
    insert_range-publishes memory (λ p. 8) (λ p k. 8) (λ p k. (k p).shown) (λ p k. (k p).hidden)
      memory-IsBufRing 9 2 bufs (1 ∷ 2 ∷ []) old 3 5 started (omega arith, (omega arith, tt))
      (omega arith) (λ e. omega arith)
