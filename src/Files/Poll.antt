-- ===== src/Files/Poll.antt =====
-- The operations of include/iouxx/iouops/file/poll.hpp: polling a file, once or in several shots, and
-- removing or updating a poll.
use iouxx.Base.{ℕ, Bool, ℤ}
use iouxx.Base.Result.{Expected}
use iouxx.Ring.Setup.{with_bit}
use iouxx.Ops.{Sqe, Prep, prep, fixed_flag, received, more, AnyFile, Target, target_file}
use iouxx.Timeout.{CallbackKind, Received, receive}

-- `IORING_POLL_ADD_MULTI` and `IORING_POLL_UPDATE_EVENTS`
abbrev pub poll_add_multi : ℕ
poll_add_multi = 1

abbrev pub poll_update_events : ℕ
poll_update_events = 2

-- `poll_base::file`
unfoldable pub set_file : AnyFile → Target
unfolding target_file
set_file f = target_file f

-- `poll_event_base::events` and `poll_target_base::target`, which set a number and an identifier.
unfoldable pub events : ℕ → ℕ → ℕ
events new mask = new

unfoldable pub target : ℕ → ℕ → ℕ
target identifier id = identifier

-- `file_poll_update_operation`
pub record PollUpdate : Type 0 where
  pub mask : ℕ
  pub id : ℕ
  pub flags : ℕ

unfoldable pub multishot : PollUpdate → PollUpdate
multishot self = record self { flags = with_bit poll_add_multi self.flags }

-- The functions of liburing with their arguments.
pub data Call : Type 0 where
  io_uring_prep_poll_add io_uring_prep_poll_multishot : (fd : ℤ) (poll_mask : ℕ) → Call
  io_uring_prep_poll_remove : (user_data : ℕ) → Call
  io_uring_prep_poll_update : (old_user_data new_user_data poll_mask flags : ℕ) → Call

module _ (P : Prep Call) where
  -- `build` of the operations.
  unfoldable pub add_build : Target → ℕ → Sqe Call
  add_build at mask = fixed_flag at.is_fixed (prep P (io_uring_prep_poll_add at.fd mask))

  unfoldable pub multishot_build : Target → ℕ → Sqe Call
  multishot_build at mask =
      fixed_flag at.is_fixed (prep P (io_uring_prep_poll_multishot at.fd mask))

  unfoldable pub remove_build : ℕ → Sqe Call
  remove_build id = prep P (io_uring_prep_poll_remove id)

  unfoldable pub update_build : PollUpdate → Sqe Call
  update_build self = prep P (io_uring_prep_poll_update self.id 0 self.mask self.flags)

-- `do_callback` of the operations: the events, and for several shots whether there are more.
unfoldable pub add_do_callback : ℤ → Expected ℕ
add_do_callback ev = received (λ n. n) ev

unfoldable pub multishot_do_callback : ℤ → ℕ → Expected (ℕ × Bool)
multishot_do_callback ev cqe_flags = received (λ n. (n, more cqe_flags)) ev

unfoldable pub remove_do_callback : CallbackKind → ℤ → Received
remove_do_callback kind ev = receive kind ev

unfoldable pub update_do_callback : CallbackKind → ℤ → Received
update_do_callback kind ev = receive kind ev
