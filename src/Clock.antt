-- ===== src/Clock.antt =====
-- `boottime_clock` of include/iouxx/clock.hpp and the conversions of its times. A duration and a point in
-- time are numbers of nanoseconds; what `clock_gettime` gives is a parameter.
pub mod Laws
use iouxx.Base.{ℕ, ◌%◌, suc, ℤ, pos, negsuc, neg, ◌+ℤ◌, scale, quotient}
use iouxx.Time.{nano}

-- `timespec`
pub record Timespec : Type 0 where
  pub tv_sec : ℤ
  pub tv_nsec : ℤ

-- `a % n`, which has the sign of `a`.
abbrev pub remainder : ℤ → ℕ → ℤ
remainder (pos a) n = pos (a % n)
remainder (negsuc a) n = neg (pos (suc a % n))

-- `boottime_clock::now`
unfoldable pub now : (clock_gettime : Timespec) → ℤ
now ts = scale ts.tv_sec nano +ℤ ts.tv_nsec

-- `to_timespec` of a duration and of a point in time.
unfoldable pub to_timespec : ℤ → Timespec
to_timespec total_ns = record { tv_sec = quotient total_ns nano; tv_nsec = remainder total_ns nano }

unfoldable pub time_point_to_timespec : ℤ → Timespec
unfolding to_timespec
time_point_to_timespec time_since_epoch = to_timespec time_since_epoch

-- `from_timespec_duration` and `from_timespec_time_point`
unfoldable pub from_timespec_duration : Timespec → ℤ
from_timespec_duration ts = scale ts.tv_sec nano +ℤ ts.tv_nsec

unfoldable pub from_timespec_time_point : Timespec → ℤ
unfolding from_timespec_duration
from_timespec_time_point ts = from_timespec_duration ts
