-- ===== src/Time/Duration.antt =====
-- src/hlib_time.cpp: `class Duration`. An operator that assigns returns what `*this` is after it.
use hlib.Base.{Bool, not, ◌&&◌, ◌||◌, ℤ, pos, ltb_ℤ, eqb_ℤ}
use hlib.Time.{Timespec, timespec_add, timespec_subtract}

-- `Duration()`
abbrev pub zero_duration : Timespec
zero_duration = record { tv_sec = pos 0; tv_nsec = pos 0 }

-- `Duration(ts)`
abbrev pub duration_of : Timespec → Timespec
duration_of ts = ts

-- `Duration(secs, nsecs)`
abbrev pub make_duration : ℤ → ℤ → Timespec
make_duration secs nsecs = record { tv_sec = secs; tv_nsec = nsecs }

unfoldable pub plus : Timespec → Timespec → Timespec
plus this that = duration_of (timespec_add this that)

unfoldable pub minus : Timespec → Timespec → Timespec
minus this that = duration_of (timespec_subtract this that)

unfoldable pub plus_assign : Timespec → Timespec → Timespec
plus_assign this that = timespec_add this that

unfoldable pub minus_assign : Timespec → Timespec → Timespec
minus_assign this that = timespec_subtract this that

-- `!duration`
unfoldable pub is_zero : Timespec → Bool
is_zero this = eqb_ℤ (pos 0) this.tv_sec && eqb_ℤ (pos 0) this.tv_nsec

unfoldable pub equal : Timespec → Timespec → Bool
equal this that = eqb_ℤ this.tv_sec that.tv_sec && eqb_ℤ this.tv_nsec that.tv_nsec

unfoldable pub not_equal : Timespec → Timespec → Bool
unfolding equal
not_equal this that = not (equal this that)

unfoldable pub less : Timespec → Timespec → Bool
less this that =
    ltb_ℤ this.tv_sec that.tv_sec
    || (eqb_ℤ this.tv_sec that.tv_sec && ltb_ℤ this.tv_nsec that.tv_nsec)

unfoldable pub greater : Timespec → Timespec → Bool
greater this that =
    ltb_ℤ that.tv_sec this.tv_sec
    || (eqb_ℤ this.tv_sec that.tv_sec && ltb_ℤ that.tv_nsec this.tv_nsec)

unfoldable pub less_equal : Timespec → Timespec → Bool
unfolding greater
less_equal this that = not (greater this that)

unfoldable pub greater_equal : Timespec → Timespec → Bool
unfolding less
greater_equal this that = not (less this that)
