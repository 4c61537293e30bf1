-- ===== src/Ring/Results/Order.antt =====
-- `fetch_result` delivers each completion once and in the order of the completion queue.
use iouxx.Base.{ℕ, zero, suc, List, [], ◌∷◌, map, ◌≡◌, refl, ◌∙◌, ℤ, pos, negsuc, neg, length}
use iouxx.Base.Result.{Expected, ok, fail_system}
use iouxx.Ring.Liburing.{Liburing, RawRing, Cqe}
use iouxx.Ring.State.{Ring}
use iouxx.Ring.Results.{OperationResult, from_cqe, fetch_result}

-- `-EAGAIN`
abbrev pub again : ℤ
again = negsuc 10

-- What the documentation of liburing says of the completion queue: `io_uring_peek_cqe` shows the oldest
-- completion and leaves it there, `io_uring_cqe_seen` takes it away.
pub record IsQueue {K : Type 0} (L : Liburing K) (pending : K → List Cqe) : Type 0 where
  pub peek_keeps : (raw : RawRing) (k : K) → pending (L.io_uring_peek_cqe raw k).1 ≡ pending k
  pub peek_empty :
      (raw : RawRing) (k : K) → pending k ≡ [] → (L.io_uring_peek_cqe raw k).0.0 ≡ again
  pub peek_first :
      (raw : RawRing) (k : K) (c : Cqe) (cs : List Cqe)
      → pending k ≡ c ∷ cs
      → ((L.io_uring_peek_cqe raw k).0.0 ≡ pos 0) × ((L.io_uring_peek_cqe raw k).0.1 ≡ c)
  pub seen :
      (raw : RawRing) (k : K) (c : Cqe) (cs : List Cqe)
      → pending k ≡ c ∷ cs
      → pending (L.io_uring_cqe_seen raw c k) ≡ cs

module _ {K : Type 0} (L : Liburing K) (r : Ring) where
  -- The loop of a client that fetches `n` times.
  unfoldable pub fetch_all : ℕ → K → List (Expected OperationResult) × K
  fetch_all zero k = ([], k)
  fetch_all (suc n) k =
      let (res, k₁) = fetch_result L r k in let (more, k₂) = fetch_all n k₁ in (res ∷ more, k₂)

module _ {K : Type 0} (L : Liburing K) (pending : K → List Cqe) (q : IsQueue L pending)
    (r : Ring) where
  pub fetch_result_first :
      (k : K) (c : Cqe) (cs : List Cqe)
      → pending k ≡ c ∷ cs
      → ((fetch_result L r k).0 ≡ ok (from_cqe c)) × (pending (fetch_result L r k).1 ≡ cs)
  unfolding fetch_result
  fetch_result_first k c cs h =
      let (code, first) = q.peek_first r.raw_ring k c cs h in
      rw (code, first)
        (
          refl,
          q.seen r.raw_ring (L.io_uring_peek_cqe r.raw_ring k).1 c cs
              (q.peek_keeps r.raw_ring k ∙ h),
        )

  fetch_result_empty :
      (k : K)
      → pending k ≡ []
      → ((fetch_result L r k).0 ≡ fail_system (neg again)) × (pending (fetch_result L r k).1 ≡ [])
  unfolding fetch_result
  fetch_result_empty k h = rw (q.peek_empty r.raw_ring k h) (refl, q.peek_keeps r.raw_ring k ∙ h)

  -- Over a completion queue that io_uring_peek_cqe shows the oldest entry of and io_uring_cqe_seen
  -- takes it from, as many calls of fetch_result as there are completions return all of them in
  -- order and leave none.
  pub fetch_all-pending :
      (k : K) (cs : List Cqe)
      → pending k ≡ cs
      → ((fetch_all L r (length cs) k).0 ≡ map (λ c. ok (from_cqe c)) cs)
        × (pending (fetch_all L r (length cs) k).1 ≡ [])
  unfolding fetch_all
  fetch_all-pending k [] h = (refl, h)
  fetch_all-pending k (c ∷ cs) h =
      let (first, left) = fetch_result_first k c cs h in
      let (rest, done) = fetch_all-pending (fetch_result L r k).1 cs left in
      (λ i. first i ∷ rest i, done)
