-- ===== src/Tests/Timeouts.antt =====
-- Runs of the conversions of time and of the timeouts.
use iouxx.Base.{◌<◌, true, ◌≡◌, ◌↔◌, ◌⊎◌, refl, pos, negsuc}
use iouxx.Time.{
  to_kernel_timespec, from_kernel_timespec, magnitude, nano,
  from_kernel_timespec-to_kernel_timespec,
}
use iouxx.Clock.{to_timespec, from_timespec_duration, now}
use iouxx.Clock.Laws.{to_timespec-agrees}
use iouxx.Timeout.{
  TimeoutBase, steady_clock, system_clock, boottime_clock, wait_for, wait_until,
  stdexpected_callback, do_callback, timed_out,
}
use iouxx.Timeout.Laws.{wait_for-last, is_ok, do_callback-ok}

-- A second and a half, forwards and backwards.
forwards : to_kernel_timespec (pos 1500000000) ≡ record { tv_sec = pos 1; tv_nsec = pos 500000000 }
unfolding to_kernel_timespec
forwards = refl

backwards :
    to_kernel_timespec (negsuc 1499999999)
    ≡ record { tv_sec = negsuc 0; tv_nsec = negsuc 499999999 }
unfolding to_kernel_timespec
backwards = refl

from_kernel_timespec-to_kernel_timespec_example :
    (from_kernel_timespec (to_kernel_timespec (negsuc 1499999999)) ≡ negsuc 1499999999)
    × (magnitude (to_kernel_timespec (negsuc 1499999999)).tv_nsec < nano)
from_kernel_timespec-to_kernel_timespec_example =
    from_kernel_timespec-to_kernel_timespec (negsuc 1499999999)

abbrev unset : TimeoutBase
unset = record { ts = record { tv_sec = pos 0; tv_nsec = pos 0 }; flags = 0 }

boot_flags : (wait_until boottime_clock (pos 5) unset).flags ≡ 5
unfolding wait_until
boot_flags = refl

wait_for-last_example :
    wait_for steady_clock (pos 7) (wait_until system_clock (pos 5) unset)
    ≡ wait_for steady_clock (pos 7) unset
wait_for-last_example = wait_for-last steady_clock system_clock (pos 7) (pos 5) unset

do_callback-ok_example :
    (is_ok (do_callback stdexpected_callback timed_out) ≡ true)
    ↔ ((timed_out ≡ pos 0) ⊎ (timed_out ≡ timed_out))
do_callback-ok_example = do_callback-ok stdexpected_callback timed_out

to_timespec-agrees_example :
    ((to_timespec (negsuc 1500000000)).tv_sec ≡ (to_kernel_timespec (negsuc 1500000000)).tv_sec)
    × ((to_timespec (negsuc 1500000000)).tv_nsec ≡ (to_kernel_timespec (negsuc 1500000000)).tv_nsec)
    × (from_timespec_duration (to_timespec (negsuc 1500000000)) ≡ negsuc 1500000000)
    × (now (to_timespec (negsuc 1500000000)) ≡ negsuc 1500000000)
to_timespec-agrees_example = to_timespec-agrees (negsuc 1500000000)
