-- ===== src/Timeout.antt =====
-- The timeout operations of include/iouxx/iouops/timeout.hpp: the clock flags, what each operation hands
-- to liburing, and what its callback receives.
pub mod Laws
use iouxx.Base.{ℕ, zero, suc, ◌/◌, ◌%◌, Bool, true, false, ◌==◌, if◌then◌else◌, ℤ, pos, negsuc, neg}
use iouxx.Base.Result.{ErrorCode, make_system_error_code, is_nonzero}
use iouxx.Ring.Liburing.{KernelTimespec}
use iouxx.Ring.Setup.{has_bit, with_bit, without_bit}
use iouxx.Time.{to_kernel_timespec}

-- `std::chrono::steady_clock`, `std::chrono::system_clock` and `iouxx::boottime_clock`.
pub data Clock : Type 0 where
  steady_clock system_clock boottime_clock : Clock

-- `IORING_TIMEOUT_ABS`, `IORING_TIMEOUT_BOOTTIME`, `IORING_TIMEOUT_REALTIME`, `IORING_TIMEOUT_MULTISHOT`
abbrev pub timeout_abs : ℕ
timeout_abs = 1

abbrev pub timeout_boottime : ℕ
timeout_boottime = 4

abbrev pub timeout_realtime : ℕ
timeout_realtime = 8

abbrev pub timeout_multishot : ℕ
timeout_multishot = 64

-- `details::set_clock_flag`
unfoldable pub set_clock_flag : Clock → ℕ → ℕ
set_clock_flag steady_clock flags =
    without_bit timeout_boottime (without_bit timeout_realtime flags)
set_clock_flag system_clock flags = without_bit timeout_boottime (with_bit timeout_realtime flags)
set_clock_flag boottime_clock flags = without_bit timeout_realtime (with_bit timeout_boottime flags)

-- `details::timeout_base`
pub record TimeoutBase : Type 0 where
  pub ts : KernelTimespec
  pub flags : ℕ

-- `timeout_base::wait_for`, with a duration in nanoseconds.
unfoldable pub wait_for : Clock → ℤ → TimeoutBase → TimeoutBase
unfolding set_clock_flag
wait_for clock duration self = record {
  ts = to_kernel_timespec duration;
  flags = without_bit timeout_abs (set_clock_flag clock self.flags);
}

-- `timeout_base::wait_until`, with the time since the epoch of the clock.
unfoldable pub wait_until : Clock → ℤ → TimeoutBase → TimeoutBase
unfolding set_clock_flag
wait_until clock time_since_epoch self = record {
  ts = to_kernel_timespec time_since_epoch;
  flags = with_bit timeout_abs (set_clock_flag clock self.flags);
}

-- The arguments of `io_uring_prep_timeout`.
pub record Prepared : Type 0 where
  pub ts : KernelTimespec
  pub count : ℕ
  pub flags : ℕ

-- `timeout_operation::build`
unfoldable pub build : TimeoutBase → Prepared
build self = record { ts = self.ts; count = 0; flags = self.flags }

-- The two kinds of callback, and what they receive.
pub data CallbackKind : Type 0 where
  stdexpected_callback errorcode_callback : CallbackKind

pub data Received : Type 0 where
  success : Received
  failed : ErrorCode → Received
  code : ErrorCode → Received

-- `-ETIME`
abbrev pub timed_out : ℤ
timed_out = negsuc 61

abbrev is_timed_out : ℤ → Bool
is_timed_out (pos n) = false
is_timed_out (negsuc n) = n == 61

-- The correction of `ev` at the head of `do_callback`.
pub settle : ℤ → ℤ
settle ev = if is_timed_out ev then pos 0 else ev

abbrev pub receive : CallbackKind → ℤ → Received
receive stdexpected_callback ev =
    if is_nonzero ev then failed (make_system_error_code (neg ev)) else success
receive errorcode_callback ev = code (make_system_error_code (neg ev))

-- `timeout_operation::do_callback`
unfoldable pub do_callback : CallbackKind → ℤ → Received
unfolding settle
do_callback kind ev = receive kind (settle ev)

-- `timeout_cancel_operation::target` and `build`, with a callback and without: the arguments of
-- `io_uring_prep_timeout_remove`.
unfoldable pub cancel_target : ℕ → ℕ → ℕ
cancel_target identifier id = identifier

unfoldable pub cancel_build : ℕ → ℕ × ℕ
cancel_build id = (id, 0)

unfoldable pub pure_cancel_target : ℕ → ℕ → ℕ
pure_cancel_target identifier id = identifier

unfoldable pub pure_cancel_build : ℕ → ℕ × ℕ
pure_cancel_build id = (id, 0)

-- `timeout_cancel_operation::do_callback`
unfoldable pub cancel_do_callback : CallbackKind → ℤ → Received
cancel_do_callback kind ev = receive kind ev

-- `multishot_timeout_operation`
pub record Multishot : Type 0 where
  pub base : TimeoutBase
  pub count : ℕ

-- `multishot_timeout_operation::repeat` and `repeat_forever`
unfoldable pub repeat : ℕ → Multishot → Multishot
repeat n self = record self { count = n }

unfoldable pub repeat_forever : Multishot → Multishot
unfolding repeat
repeat_forever self = repeat 0 self

-- `multishot_timeout_operation::build`; the flags of the operation change with it.
unfoldable pub multishot_build : Multishot → Multishot × Prepared
multishot_build self =
    let flags = with_bit timeout_multishot self.base.flags in
    (
      record self { base = record { ts = self.base.ts; flags = flags } },
      record { ts = self.base.ts; count = self.count; flags = flags },
    )

-- What a multishot callback receives: whether there are more shots, or an error.
pub data ReceivedShot : Type 0 where
  shot : Bool → ReceivedShot
  shot_failed : ErrorCode → ReceivedShot

-- `IORING_CQE_F_MORE`
abbrev pub cqe_more : ℕ
cqe_more = 2

-- `multishot_timeout_operation::do_callback`
unfoldable pub multishot_do_callback : ℤ → ℕ → ReceivedShot
unfolding settle
multishot_do_callback ev cqe_flags =
    let ev' = settle ev in
    if is_nonzero ev'
    then shot_failed (make_system_error_code (neg ev'))
    else shot (has_bit cqe_more cqe_flags)
