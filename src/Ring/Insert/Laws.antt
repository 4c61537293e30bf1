-- ===== src/Ring/Insert/Laws.antt =====
-- What `insert` and `insert_range` publish to the kernel.
use iouxx.Base.{
  ℕ, zero, suc, ◌+◌, ◌%◌, ◌^◌, ◌≤◌, ◌<◌, true, List, [], ◌∷◌, ◌++◌, length, some, All, map, ◌≡◌,
  ◌≢◌, refl, ap, ap₂, ◌∙◌, arith, pos,
}
use iouxx.Base.Result.{no_error}
use iouxx.Ring.State.{BufferRing}
use iouxx.Ring.Insert.{Iovec, BufRing, zip, add, insert, add_all, insert_range}

-- A buffer as the kernel sees it.
pub record Buffer : Type 0 where
  pub addr : ℕ
  pub len : ℕ
  pub bid : ℕ

-- `n` values of a function, from `start` on.
abbrev pub slice {ℓ} : {A : Type ℓ} → ℕ → ℕ → (ℕ → A) → List A
slice start zero f = []
slice start (suc n) f = f start ∷ slice (suc start) n f

-- What the documentation of liburing says: a buffer ring has at most 32768 places; adding a buffer writes
-- it to a place behind the end of those that the kernel sees, and advancing shows it the next places.
pub record IsBufRing {K : Type 0} (B : BufRing K) (entries : ℕ → ℕ) (room : ℕ → K → ℕ)
    (published : ℕ → K → List Buffer) (staged : ℕ → K → ℕ → Buffer) : Type 0 where
  pub bounded : (p : ℕ) (k : K) → room p k ≤ 32768
  pub add_room :
      (p q addr len bid mask offset : ℕ) (k : K)
      → room q (B.io_uring_buf_ring_add (some p) addr len bid mask offset k) ≡ room q k
  pub add_published :
      (p q addr len bid offset : ℕ) (k : K)
      → offset < room p k
      → published q (
          B.io_uring_buf_ring_add
            (some p)
            addr
            len
            bid
            (B.io_uring_buf_ring_mask (entries p))
            offset
            k)
        ≡ published q k
  pub add_staged :
      (p addr len bid offset : ℕ) (k : K)
      → offset < room p k
      → staged p
          (B.io_uring_buf_ring_add
            (some p)
            addr
            len
            bid
            (B.io_uring_buf_ring_mask (entries p))
            offset
            k)
          offset
        ≡ record { addr = addr; len = len; bid = bid }
  pub add_others :
      (p addr len bid offset i : ℕ) (k : K)
      → offset < room p k
      → i ≢ offset
      → staged p
          (B.io_uring_buf_ring_add
            (some p)
            addr
            len
            bid
            (B.io_uring_buf_ring_mask (entries p))
            offset
            k)
          i
        ≡ staged p k i
  pub advance_published :
      (p count : ℕ) (k : K)
      → count ≤ room p k
      → published p (B.io_uring_buf_ring_advance (some p) count k)
        ≡ published p k ++ slice 0 count (staged p k)
  pub advance_others :
      (p q count : ℕ) (k : K)
      → q ≢ p
      → published q (B.io_uring_buf_ring_advance (some p) count k) ≡ published q k

-- The buffer of an identifier, of a length that an unsigned int can hold.
abbrev pub buffer : Iovec × ℕ → Buffer
buffer (buf, bid) = record { addr = buf.iov_base; len = buf.iov_len; bid = bid }

abbrev pub IsShort : Iovec × ℕ → Type 0
IsShort (buf, bid) = buf.iov_len < 2 ^ 32

-- A buffer ring that is registered, at `p`.
abbrev pub at_place : (ℕ → ℕ) → ℕ → ℕ → BufferRing
at_place entries p bgid = record { buf_ring = some p; entries = entries p; bgid = pos bgid }

module _ {K : Type 0} (B : BufRing K) (entries : ℕ → ℕ) (room : ℕ → K → ℕ)
    (published : ℕ → K → List Buffer) (staged : ℕ → K → ℕ → Buffer)
    (d : IsBufRing B entries room published staged) (p bgid : ℕ) where
  -- The loop has added these buffers behind the first `total` places.
  record IsAdded (total : ℕ) (items : List (Iovec × ℕ)) (k : K) (end : ℕ × K) : Type 0 where
    count : end.0 ≡ total + length items
    same_room : room p end.1 ≡ room p k
    same_published : (q : ℕ) → published q end.1 ≡ published q k
    before : (i : ℕ) → i < total → staged p end.1 i ≡ staged p k i
    added : slice total (length items) (staged p end.1) ≡ map buffer items

  -- The call of the loop, for a buffer of such a length.
  add-short :
      (x : Iovec × ℕ) (offset : ℕ) (k : K)
      → IsShort x
      → add B (at_place entries p bgid) x.0 x.1 offset k
        ≡ B.io_uring_buf_ring_add
            (some p)
            x.0.iov_base
            x.0.iov_len
            x.1
            (B.io_uring_buf_ring_mask (entries p))
            offset
            k
  add-short x offset k s =
      ap
        (λ len.
          B.io_uring_buf_ring_add (some p) x.0.iov_base len x.1
            (B.io_uring_buf_ring_mask (entries p)) offset k)
        (omega (arith, s))

  next_total : (total : ℕ) (k : K) → total < room p k → (total + 1) % 65536 ≡ suc total
  next_total total k h = omega (arith, d.bounded p k)

  IsAdded-step :
      (x : Iovec × ℕ) (rest : List (Iovec × ℕ)) (total : ℕ) (k : K) (end : ℕ × K)
      → total < room p k
      → IsAdded
          (suc total)
          rest
          (B.io_uring_buf_ring_add
            (some p)
            x.0.iov_base
            x.0.iov_len
            x.1
            (B.io_uring_buf_ring_mask (entries p))
            total
            k)
          end
      → IsAdded total (x ∷ rest) k end
  IsAdded-step (buf, bid) rest total k end h a =
      let mask = B.io_uring_buf_ring_mask (entries p) in
      record {
        count = omega (arith, a.count);
        same_room = a.same_room ∙ d.add_room p p buf.iov_base buf.iov_len bid mask total k;
        same_published =
            λ q. a.same_published q ∙ d.add_published p q buf.iov_base buf.iov_len bid total k h;
        before = λ i hi.
            a.before i (omega arith)
            ∙ d.add_others p buf.iov_base buf.iov_len bid total i k h (λ e. omega arith);
        added =
            ap₂ ◌∷◌
              (a.before total (omega arith) ∙ d.add_staged p buf.iov_base buf.iov_len bid total k h)
              a.added;
      }

  add_all-IsAdded :
      (items : List (Iovec × ℕ)) (total : ℕ) (k : K)
      → All IsShort items
      → total + length items ≤ room p k
      → IsAdded total items k (add_all B (at_place entries p bgid) items total k)
  unfolding add_all
  add_all-IsAdded [] total k short h = record {
    count = omega arith;
    same_room = refl;
    same_published = λ q. refl;
    before = λ i hi. refl;
    added = refl;
  }
  add_all-IsAdded ((buf, bid) ∷ rest) total k (s, short) h =
      rw (add-short (buf, bid) total k s, next_total total k (omega arith))
        (IsAdded-step (buf, bid) rest total k
          (add_all B (at_place entries p bgid) rest (suc total) (
            B.io_uring_buf_ring_add (some p) buf.iov_base buf.iov_len bid
              (B.io_uring_buf_ring_mask (entries p)) total k))
          (omega arith)
          (add_all-IsAdded rest (suc total)
            (B.io_uring_buf_ring_add (some p) buf.iov_base buf.iov_len bid
              (B.io_uring_buf_ring_mask (entries p)) total k)
            short
            (rw
              (d.add_room p p buf.iov_base buf.iov_len bid (B.io_uring_buf_ring_mask (entries p))
                total k)
              (omega arith))))

  advance-published :
      (items : List (Iovec × ℕ)) (k : K) (end : ℕ × K)
      → length items ≤ room p k
      → IsAdded 0 items k end
      → published p (B.io_uring_buf_ring_advance (some p) end.0 end.1)
        ≡ published p k ++ map buffer items
  advance-published items k end h a =
      d.advance_published p end.0 end.1 (omega (arith, a.count, a.same_room))
      ∙ ap₂ ◌++◌ (a.same_published p)
          (ap (λ n. slice 0 n (staged p end.1)) (omega (arith, a.count)) ∙ a.added)

  -- For a liburing that keeps a buffer ring as documented, a registered buffer ring, and buffers of
  -- less than 4 GiB with identifiers for which it has room, insert_range with enough memory returns
  -- no error and shows the kernel exactly these buffers with their identifiers, in order, behind
  -- what it showed before, and what another buffer ring shows stays as it was; insert does what
  -- insert_range does with one buffer.
  pub insert_range-publishes :
      (bufs : List Iovec) (bids : List ℕ) (buf : Iovec) (bid q : ℕ) (k : K)
      → All IsShort (zip bufs bids)
      → length (zip bufs bids) ≤ room p k
      → q ≢ p
      → ((insert_range B true (at_place entries p bgid) bufs bids k).0 ≡ no_error)
        × (published p (insert_range B true (at_place entries p bgid) bufs bids k).1
            ≡ published p k ++ map buffer (zip bufs bids))
        × (published q (insert_range B true (at_place entries p bgid) bufs bids k).1
            ≡ published q k)
        × (insert B (at_place entries p bgid) buf bid k
            ≡ (insert_range B true (at_place entries p bgid) (buf ∷ []) (bid ∷ []) k).1)
  unfolding insert_range insert
  insert_range-publishes bufs bids buf bid q k short h other =
      let end = add_all B (at_place entries p bgid) (zip bufs bids) 0 k in
      let a = add_all-IsAdded (zip bufs bids) 0 k short (omega arith) in
      (
        refl,
        advance-published (zip bufs bids) k end h a,
        d.advance_others p q end.0 end.1 other ∙ a.same_published q,
        refl,
      )
