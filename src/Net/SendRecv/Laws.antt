-- ===== src/Net/SendRecv/Laws.antt =====
-- The entries of the send and receive operations, and what the completions of a send with zero copies tell
-- of its buffer.
use iouxx.Base.{
  ℕ, ◌+◌, ◌-◌, ◌%◌, true, false, List, [], ◌∷◌, ◌++◌, ℤ, pos, negsuc, ◌≡◌, refl, ap, ◌∙◌, arith,
  length, replicate,
}
use iouxx.Base.Result.{Expected, ok, unexpected}
use iouxx.Ring.Setup.{has_bit, with_bit}
use iouxx.Ops.Laws.{IsAimed, fixed_flag-IsAimed, buf_index-fixed_flag}
use iouxx.Ops.{Sqe, Prep, IsPrep, fixed_flag, Target, more}
use iouxx.Net.SendRecv.{
  Call, io_uring_prep_send, io_uring_prep_send_zc, io_uring_prep_sendmsg, io_uring_prep_sendmsg_zc,
  io_uring_prep_recv, io_uring_prep_recv_multishot, SendOpBase, RecvOpBase, SendmsgBase,
  fixed_buffer, send_build, send_zc_build, sendmsg_build, sendmsg_zc_build, recv_build,
  multishot_recv_build, recvsend_fixed_buf, cqe_notif, SendZcResult, buffer_free_notification,
  send_result_more, send_result_nomore, send_zc_do_callback, sendmsg_zc_do_callback,
}

-- The six operations, with their members.
pub data Operation (M : Type 0) : Type 0 where
  send send_zc : SendOpBase → Operation M
  sendmsg sendmsg_zc : SendmsgBase M → Operation M
  recv multishot_recv : RecvOpBase → Operation M

abbrev pub build : {M : Type 0} → Prep (Call M) → Target → Operation M → Sqe (Call M)
build P at (send self) = send_build P at self
build P at (send_zc self) = send_zc_build P at self
build P at (sendmsg self) = sendmsg_build P at self
build P at (sendmsg_zc self) = sendmsg_zc_build P at self
build P at (recv self) = recv_build P at self
build P at (multishot_recv self) = multishot_recv_build P at self

abbrev pub fd_of : {M : Type 0} → Call M → ℤ
fd_of (io_uring_prep_send fd buf len flags) = fd
fd_of (io_uring_prep_send_zc fd buf len flags zc_flags) = fd
fd_of (io_uring_prep_sendmsg fd msg flags) = fd
fd_of (io_uring_prep_sendmsg_zc fd msg flags) = fd
fd_of (io_uring_prep_recv fd buf len flags) = fd
fd_of (io_uring_prep_recv_multishot fd buf len flags) = fd

-- The index of the registered buffer, where the operation has one.
abbrev pub index_of : {M : Type 0} → Operation M → ℤ
index_of (send self) = self.buf_index
index_of (send_zc self) = self.buf_index
index_of (sendmsg self) = negsuc 0
index_of (sendmsg_zc self) = negsuc 0
index_of (recv self) = self.buf_index
index_of (multishot_recv self) = self.buf_index

-- An entry asks for the registered buffer of that index, or for none.
abbrev pub IsBuffered : {C : Type 0} → ℤ → Sqe C → Type 0
IsBuffered (pos n) sqe =
    (sqe.buf_index ≡ n % 65536) × (has_bit recvsend_fixed_buf sqe.ioprio ≡ true)
IsBuffered (negsuc n) sqe = sqe.buf_index ≡ 0

pub record IsEntry {M : Type 0} (at : Target) (index : ℤ) (sqe : Sqe (Call M)) : Type 0 where
  pub aimed : IsAimed fd_of at sqe
  pub buffered : IsBuffered index sqe

has_bit-with_bit : (n : ℕ) → has_bit recvsend_fixed_buf (with_bit recvsend_fixed_buf n) ≡ true
has_bit-with_bit n = ground arith

module _ {M : Type 0} (at : Target) where
  fixed_buffer-IsEntry :
      (sqe : Sqe (Call M)) (index : ℤ)
      → IsAimed fd_of at sqe
      → sqe.buf_index ≡ 0
      → IsEntry at index (fixed_buffer index sqe)
  fixed_buffer-IsEntry sqe (pos n) aimed unset = record {
    aimed = record { handle = aimed.handle; fixed = aimed.fixed };
    buffered = (refl, has_bit-with_bit sqe.ioprio);
  }
  fixed_buffer-IsEntry sqe (negsuc n) aimed unset = record { aimed = aimed; buffered = unset }

  flagged-IsEntry :
      (sqe : Sqe (Call M)) (index : ℤ)
      → fd_of sqe.call ≡ at.fd
      → sqe.flags ≡ 0
      → sqe.buf_index ≡ 0
      → IsEntry at index (fixed_buffer index (fixed_flag at.is_fixed sqe))
  flagged-IsEntry sqe index handle plain unset =
      fixed_buffer-IsEntry (fixed_flag at.is_fixed sqe) index
        (fixed_flag-IsAimed fd_of at sqe handle plain)
        (buf_index-fixed_flag at.is_fixed sqe ∙ unset)

-- For a liburing that prepares entries for plain files, the entry of each of the six send and
-- receive operations has the handle of its socket, is marked as fixed exactly if the socket is, and
-- has the index of the registered buffer modulo 2^16 with the flag for it if that index is not
-- negative, or no index.
pub build-IsEntry :
    {M : Type 0} (P : Prep (Call M))
    → IsPrep P
    → (at : Target) (op : Operation M) → IsEntry at (index_of op) (build P at op)
unfolding send_build send_zc_build sendmsg_build sendmsg_zc_build recv_build multishot_recv_build
build-IsEntry P doc at (send self) = flagged-IsEntry at _ self.buf_index refl (doc.plain _) refl
build-IsEntry P doc at (send_zc self) = flagged-IsEntry at _ self.buf_index refl (doc.plain _) refl
build-IsEntry P doc at (sendmsg self) = flagged-IsEntry at _ (negsuc 0) refl (doc.plain _) refl
build-IsEntry P doc at (sendmsg_zc self) = flagged-IsEntry at _ (negsuc 0) refl (doc.plain _) refl
build-IsEntry P doc at (recv self) = flagged-IsEntry at _ self.buf_index refl (doc.plain _) refl
build-IsEntry P doc at (multishot_recv self) =
    flagged-IsEntry at _ self.buf_index refl (doc.plain _) refl

-- The completions of a send of `n` bytes with zero copies, as io_uring documents them: one, or one with
-- the flag for more and a notification with the result 0.
pub data IsSend (n : ℕ) (cqes : List (ℤ × ℕ)) : Type 0 where
  once :
      (flags : ℕ)
      → more flags ≡ false
      → has_bit cqe_notif flags ≡ false
      → cqes ≡ (pos n, flags) ∷ []
      → IsSend n cqes
  notified :
      (flags notice : ℕ)
      → more flags ≡ true
      → more notice ≡ false
      → has_bit cqe_notif notice ≡ true
      → cqes ≡ (pos n, flags) ∷ (pos 0, notice) ∷ []
      → IsSend n cqes

-- What a sender keeps: whether the buffer is free, and the bytes that it was told of.
pub data Buffer : Type 0 where
  in_use free : Buffer

abbrev pub told : Expected SendZcResult → Buffer × ℕ → Buffer × ℕ
told (ok buffer_free_notification) (buffer, bytes) = (free, bytes)
told (ok (send_result_more n)) (buffer, bytes) = (buffer, bytes + n)
told (ok (send_result_nomore n)) (buffer, bytes) = (free, bytes + n)
told (unexpected ec) (buffer, bytes) = (buffer, bytes)

-- What it knows behind each of the completions.
abbrev pub history : (ℤ → ℕ → Expected SendZcResult) → Buffer × ℕ → List (ℤ × ℕ) → List (Buffer × ℕ)
history do_callback known [] = []
history do_callback known ((ev, flags) ∷ cqes) =
    let known' = told (do_callback ev flags) known in known' ∷ history do_callback known' cqes

sum : (n : ℕ) → 0 + n ≡ n
sum n = omega arith

-- For the completions of a send of n bytes with zero copies (one, or one that announces more and a
-- notification with the result 0), a sender that follows what the callback is told knows of the n
-- bytes from the first completion on, and takes the buffer for free exactly behind the last one; so
-- for messages too.
pub send_zc_do_callback-history :
    (n : ℕ) (cqes : List (ℤ × ℕ))
    → IsSend n cqes
    → (history send_zc_do_callback (in_use, 0) cqes
        ≡ replicate (length cqes - 1) (in_use, n) ++ (free, n) ∷ [])
      × (history sendmsg_zc_do_callback (in_use, 0) cqes
          ≡ replicate (length cqes - 1) (in_use, n) ++ (free, n) ∷ [])
unfolding send_zc_do_callback sendmsg_zc_do_callback
send_zc_do_callback-history n cqes (once flags last quiet e) =
    rw (e, last, quiet) (ap (λ b. (free, b) ∷ []) (sum n), ap (λ b. (free, b) ∷ []) (sum n))
send_zc_do_callback-history n cqes (notified flags notice first last notif e) =
    rw (e, first, last, notif)
      (
        ap (λ b. (in_use, b) ∷ (free, b) ∷ []) (sum n),
        ap (λ b. (in_use, b) ∷ (free, b) ∷ []) (sum n),
      )
