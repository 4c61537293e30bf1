-- ===== src/Tests/Rings.antt =====
-- Runs of the ring, its options and its versions.
use iouxx.Base.{
  ℕ, true, false, ◌<◌, List, [], ◌∷◌, none, ◌≡◌, refl, arith, codes, pos, ℤ, is_negative, length,
  length-replicate,
}
use iouxx.Base.Result.{ErrorCode, has_error, Expected, ok}
use iouxx.Text.Number.{from_chars, digit_value}
use iouxx.Text.Split.{split}
use iouxx.Ring.Liburing.{Params, Cqe}
use iouxx.Ring.State.{Ring, buffer_ring_size_max, no_buffer_ring}
use iouxx.Ring.Setup.{default_option, setup_sqpoll, to_params}
use iouxx.Ring.Setup.Laws.{IsPolling, setup_sqpoll-IsPolling}
use iouxx.Ring.Version.{invalid, from_string, read_int, format}
use iouxx.Ring.Version.Laws.{version, from_string-format-version, from_string-positive}
use iouxx.Ring.Lifecycle.{exit, reinit, register_buffer_group, unregister_buffer_group}
use iouxx.Ring.Lifecycle.Balance.{Books, counted}
use iouxx.Ring.Lifecycle.Start.{IsStarted, reinit-IsStarted, exit-nothing_held}
use iouxx.Ring.Lifecycle.Groups.{
  IsKept, register_buffer_group-IsKept, unregister_buffer_group-IsKept,
}
use iouxx.Ring.Lifecycle.Registry.{
  groups, IsUpdate, IsRegistered, register_buffer_group-IsRegistered,
  unregister_buffer_group-IsUpdate,
}
use iouxx.Ring.Results.{from_cqe}
use iouxx.Ring.Results.Order.{fetch_all, fetch_all-pending}
use iouxx.Ring.Results.{submit, wait_for_result}
use iouxx.Ring.Operation.{do_submit, callback, submit_and_wait, no_result}
use iouxx.Ring.Operation.Laws.{IsWaited, submit_and_wait-IsWaited}
use iouxx.Ring.Tables.{register_direct_descriptor_table, set_worker_maximum}
use iouxx.Tests.Kernel.{
  limited, kernel, kernel-IsDocumented, kernel-IsQueue, pending, completion, running,
  running-IsWellFormed, running-IsBalanced, running-IsKept, books,
}

abbrev no_params : Params
no_params = record { flags = 0; wq_fd = 0; cq_entries = 0; sq_thread_cpu = 0; sq_thread_idle = 0 }

abbrev restarted : ErrorCode × (Ring × (List Cqe × Books))
restarted = reinit (counted kernel) 8 no_params running ([], books)

reinit-IsStarted_example : IsStarted restarted.0 restarted.1.0 restarted.1.1.1
reinit-IsStarted_example =
    reinit-IsStarted kernel kernel-IsDocumented 8 no_params running [] books running-IsWellFormed
      running-IsBalanced

abbrev ended : Ring × (List Cqe × Books)
ended = exit (counted kernel) running ([], books)

exit-nothing_held_example :
    (ended.1.1.rings_got ≡ ended.1.1.rings_released)
    × (ended.1.1.probes_got ≡ ended.1.1.probes_released)
    × (ended.1.1.buffers_got ≡ ended.1.1.buffers_released)
exit-nothing_held_example =
    exit-nothing_held kernel running [] books running-IsWellFormed running-IsBalanced

abbrev with_group : Expected ℕ × (Ring × (List Cqe × Books))
with_group = register_buffer_group (counted kernel) 16 5 false running ([], books)

register_buffer_group-IsKept_example : IsKept with_group.1.0 with_group.1.1.1
register_buffer_group-IsKept_example =
    register_buffer_group-IsKept kernel running [] books 5 running-IsKept (omega arith)
      kernel-IsDocumented 16 false

abbrev without_group : Ring × (List Cqe × Books)
without_group = unregister_buffer_group (counted kernel) 5 running ([], books)

unregister_buffer_group-IsKept_example : IsKept without_group.0 without_group.1.1
unregister_buffer_group-IsKept_example =
    unregister_buffer_group-IsKept kernel running [] books 5 running-IsKept (omega arith)

room : 5 < length running.buffer_rings
room = omega (arith, length-replicate buffer_ring_size_max no_buffer_ring)

register_buffer_group-IsRegistered_example :
    IsRegistered running 5 (register_buffer_group kernel 16 5 true running [])
register_buffer_group-IsRegistered_example =
    register_buffer_group-IsRegistered kernel running [] 5 room kernel-IsDocumented 16 true

unregister_buffer_group-IsUpdate_example :
    IsUpdate (groups running) (groups (unregister_buffer_group kernel 5 running []).0) 5 none
unregister_buffer_group-IsUpdate_example = unregister_buffer_group-IsUpdate kernel running [] 5 room

abbrev two_completions : List Cqe
two_completions = completion 1 ∷ completion 2 ∷ []

fetch_all-pending_example :
    ((fetch_all kernel running 2 two_completions).0
      ≡ ok (from_cqe (completion 1)) ∷ ok (from_cqe (completion 2)) ∷ [])
    × (pending (fetch_all kernel running 2 two_completions).1 ≡ [])
fetch_all-pending_example =
    fetch_all-pending kernel pending kernel-IsQueue running two_completions two_completions refl

-- Options.
setup_sqpoll-IsPolling_example :
    IsPolling
      (to_params default_option)
      (to_params (setup_sqpoll 3 (pos 100) default_option))
      3
      (pos 100)
setup_sqpoll-IsPolling_example = setup_sqpoll-IsPolling 3 (pos 100) default_option

sqpoll_flags : (to_params (setup_sqpoll 3 (pos 100) default_option)).flags ≡ 6
unfolding to_params setup_sqpoll
sqpoll_flags = refl

-- Versions.
from_string-format-version_example : from_string (format b'.' (version 2 9)) ≡ version 2 9
from_string-format-version_example = from_string-format-version 2 9 (omega arith) (omega arith)

negative_version : from_string (codes "2.-1") ≡ invalid
unfolding from_string split from_chars digit_value read_int
negative_version = refl

minus_zero : from_string (codes "-0.1") ≡ version 0 1
unfolding from_string split from_chars digit_value read_int
minus_zero = refl

from_string-positive_example :
    (is_negative (from_string (codes "2.9")).major ≡ false)
    × (is_negative (from_string (codes "2.9")).minor ≡ false)
from_string-positive_example = from_string-positive (codes "2.9")

-- Operations and tables.
abbrev no_build : ℕ → ℕ → List Cqe → List Cqe
no_build op sqe k = k

abbrev plain_meaning : ℕ → ℤ → ℕ → Expected ℤ
plain_meaning op res flags = ok res

abbrev none_before : ℕ → Expected ℤ
none_before op = no_result

submit_and_wait-IsWaited_example :
    IsWaited kernel no_build plain_meaning true 5 running none_before []
      (submit_and_wait kernel no_build plain_meaning true 5 running none_before [])
submit_and_wait-IsWaited_example =
    submit_and_wait-IsWaited kernel no_build plain_meaning true 5 running none_before []

waits_for_own :
    (submit_and_wait kernel no_build plain_meaning true 5 running none_before []).0 ≡ ok (pos 0)
unfolding submit_and_wait do_submit callback submit wait_for_result
waits_for_own = refl

abbrev set_limits : ErrorCode × (ℕ × ℕ)
set_limits = set_worker_maximum limited 4 8 running (1, 1)

set_limits_done : has_error set_limits.0 ≡ false
unfolding set_worker_maximum
set_limits_done = refl

table_done : has_error (register_direct_descriptor_table kernel 16 true running []).0 ≡ false
unfolding register_direct_descriptor_table
table_done = refl
