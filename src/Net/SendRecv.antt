-- ===== src/Net/SendRecv.antt =====
-- The operations of include/iouxx/iouops/network/sendrecv.hpp: sending, with zero copies and of messages,
-- and receiving, once and in several shots. A buffer is its address and its length.
pub mod Laws
use iouxx.Base.{ℕ, ◌%◌, Bool, true, false, if◌then◌else◌, ℤ, pos, negsuc}
use iouxx.Base.Result.{Expected}
use iouxx.Ring.Setup.{has_bit, with_bit}
use iouxx.Ops.{Sqe, Prep, prep, fixed_flag, received, more, Target, no_target}
use iouxx.Net.Sockets.{AnySocket, target_socket}

-- `IORING_RECVSEND_FIXED_BUF` and `IORING_CQE_F_NOTIF`
abbrev pub recvsend_fixed_buf : ℕ
recvsend_fixed_buf = 4

abbrev pub cqe_notif : ℕ
cqe_notif = 8

-- `send_recv_socket_base::socket`
unfoldable pub set_socket : AnySocket → Target
unfolding target_socket
set_socket s = target_socket s

-- `send_op_base`
pub record SendOpBase : Type 0 where
  pub buf : ℕ
  pub len : ℕ
  pub buf_index : ℤ
  pub flags : ℕ
  pub ring_flags : ℕ

unfoldable pub send_buffer : ℕ → ℕ → ℤ → SendOpBase → SendOpBase
send_buffer buf len buf_index self = record self { buf = buf; len = len; buf_index = buf_index }

unfoldable pub send_options : ℕ → SendOpBase → SendOpBase
send_options flags self = record self { flags = flags }

unfoldable pub ring_options : ℕ → SendOpBase → SendOpBase
ring_options ring_flags self = record self { ring_flags = ring_flags }

-- `recv_op_base`
pub record RecvOpBase : Type 0 where
  pub buf : ℕ
  pub len : ℕ
  pub buf_index : ℤ
  pub flags : ℕ

unfoldable pub recv_buffer : ℕ → ℕ → ℤ → RecvOpBase → RecvOpBase
recv_buffer buf len buf_index self = record self { buf = buf; len = len; buf_index = buf_index }

unfoldable pub recv_options : ℕ → RecvOpBase → RecvOpBase
recv_options flags self = record self { flags = flags }

-- `sendmsg_base`, where a `msghdr` is a value of an arbitrary type.
pub record SendmsgBase (M : Type 0) : Type 0 where
  pub msg : M
  pub flags : ℕ

unfoldable pub message : {M : Type 0} → M → SendmsgBase M → SendmsgBase M
message hdr self = record self { msg = hdr }

unfoldable pub msg_options : {M : Type 0} → ℕ → SendmsgBase M → SendmsgBase M
msg_options flags self = record self { flags = flags }

-- The functions of liburing with their arguments.
pub data Call (M : Type 0) : Type 0 where
  io_uring_prep_send : (fd : ℤ) (buf len flags : ℕ) → Call M
  io_uring_prep_send_zc : (fd : ℤ) (buf len flags zc_flags : ℕ) → Call M
  io_uring_prep_sendmsg : (fd : ℤ) (msg : M) (flags : ℕ) → Call M
  io_uring_prep_sendmsg_zc : (fd : ℤ) (msg : M) (flags : ℕ) → Call M
  io_uring_prep_recv : (fd : ℤ) (buf len flags : ℕ) → Call M
  io_uring_prep_recv_multishot : (fd : ℤ) (buf len flags : ℕ) → Call M

-- The assignments for a registered buffer; `sqe->buf_index` has 16 bits.
abbrev pub fixed_buffer : {C : Type 0} → ℤ → Sqe C → Sqe C
fixed_buffer (pos n) sqe = record sqe {
  buf_index = n % 65536;
  ioprio = with_bit recvsend_fixed_buf sqe.ioprio;
}
fixed_buffer (negsuc n) sqe = sqe

module _ {M : Type 0} (P : Prep (Call M)) where
  -- `socket_send_operation::build`
  unfoldable pub send_build : Target → SendOpBase → Sqe (Call M)
  send_build at self =
      let sqe = prep P (io_uring_prep_send at.fd self.buf self.len self.flags) in
      fixed_buffer self.buf_index
        (fixed_flag at.is_fixed (record sqe { ioprio = self.ring_flags % 65536 }))

  -- `socket_send_zc_operation::build`
  unfoldable pub send_zc_build : Target → SendOpBase → Sqe (Call M)
  send_zc_build at self =
      let sqe = prep P (io_uring_prep_send_zc at.fd self.buf self.len self.flags self.ring_flags) in
      fixed_buffer self.buf_index (fixed_flag at.is_fixed sqe)

  -- `socket_sendmsg_operation::build` and `socket_sendmsg_zc_operation::build`
  unfoldable pub sendmsg_build : Target → SendmsgBase M → Sqe (Call M)
  sendmsg_build at self =
      fixed_flag at.is_fixed (prep P (io_uring_prep_sendmsg at.fd self.msg self.flags))

  unfoldable pub sendmsg_zc_build : Target → SendmsgBase M → Sqe (Call M)
  sendmsg_zc_build at self =
      fixed_flag at.is_fixed (prep P (io_uring_prep_sendmsg_zc at.fd self.msg self.flags))

  -- `socket_recv_operation::build` and `socket_multishot_recv_operation::build`
  unfoldable pub recv_build : Target → RecvOpBase → Sqe (Call M)
  recv_build at self =
      fixed_buffer self.buf_index
        (fixed_flag at.is_fixed (prep P (io_uring_prep_recv at.fd self.buf self.len self.flags)))

  unfoldable pub multishot_recv_build : Target → RecvOpBase → Sqe (Call M)
  multishot_recv_build at self = fixed_buffer self.buf_index (
      fixed_flag at.is_fixed
        (prep P (io_uring_prep_recv_multishot at.fd self.buf self.len self.flags)))

-- `do_callback` of `socket_send_operation` and `socket_sendmsg_operation`: how many bytes were sent.
unfoldable pub send_do_callback : ℤ → Expected ℕ
send_do_callback ev = received (λ n. n) ev

unfoldable pub sendmsg_do_callback : ℤ → Expected ℕ
sendmsg_do_callback ev = received (λ n. n) ev

-- `send_zc_result`
pub data SendZcResult : Type 0 where
  buffer_free_notification : SendZcResult
  send_result_more : ℕ → SendZcResult
  send_result_nomore : ℕ → SendZcResult

-- What a result from 0 on says with the flags of the completion.
abbrev pub zc_result : ℕ → ℕ → SendZcResult
zc_result cqe_flags n =
    if more cqe_flags
    then send_result_more n
    else if has_bit cqe_notif cqe_flags
    then buffer_free_notification
    else send_result_nomore n

-- `do_callback` of `socket_send_zc_operation` and `socket_sendmsg_zc_operation`
unfoldable pub send_zc_do_callback : ℤ → ℕ → Expected SendZcResult
send_zc_do_callback ev cqe_flags = received (zc_result cqe_flags) ev

unfoldable pub sendmsg_zc_do_callback : ℤ → ℕ → Expected SendZcResult
sendmsg_zc_do_callback ev cqe_flags = received (zc_result cqe_flags) ev

-- A `std::span` of bytes.
pub record Span : Type 0 where
  pub start : ℕ
  pub size : ℕ

-- `socket_recv_operation::do_callback`
unfoldable pub recv_do_callback : RecvOpBase → ℤ → Expected Span
recv_do_callback self ev = received (λ n. record { start = self.buf; size = n }) ev

-- `multishot_recv_result`
pub record MultishotRecvResult : Type 0 where
  pub bytes : Span
  pub is_more : Bool

-- `socket_multishot_recv_operation::do_callback`
unfoldable pub multishot_recv_do_callback : RecvOpBase → ℤ → ℕ → Expected MultishotRecvResult
multishot_recv_do_callback self ev cqe_flags =
    received
      (λ n. record { bytes = record { start = self.buf; size = n }; is_more = more cqe_flags }) ev
