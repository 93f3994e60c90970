-- ===== src/Time/Clock.antt =====
-- src/hlib_time.cpp: `class Clock`. An operator that assigns returns what `*this` is after it.
use hlib.Base.{Bool, not, ◌&&◌, ◌||◌, ℤ, pos, ltb_ℤ, eqb_ℤ}
use hlib.Time.Duration.{duration_of}
use hlib.Time.{Timespec, timespec_add, timespec_subtract}

-- `Clock()`
abbrev pub zero_clock : Timespec
zero_clock = record { tv_sec = pos 0; tv_nsec = pos 0 }

-- `Clock(ts)`
abbrev pub clock_of : Timespec → Timespec
clock_of ts = record { tv_sec = ts.tv_sec; tv_nsec = ts.tv_nsec }

-- `Clock(secs, nsecs)`
abbrev pub make_clock : ℤ → ℤ → Timespec
make_clock secs nsecs = record { tv_sec = secs; tv_nsec = nsecs }

-- the duration between two clocks
unfoldable pub between : Timespec → Timespec → Timespec
between this that = duration_of (timespec_subtract this that)

unfoldable pub plus : Timespec → Timespec → Timespec
plus this that = clock_of (timespec_add this that)

unfoldable pub minus : Timespec → Timespec → Timespec
minus this that = clock_of (timespec_subtract this that)

unfoldable pub plus_assign : Timespec → Timespec → Timespec
plus_assign this that =
    let result = clock_of (timespec_add this that) in
    record this { tv_sec = result.tv_sec; tv_nsec = result.tv_nsec }

unfoldable pub minus_assign : Timespec → Timespec → Timespec
minus_assign this that =
    let result = clock_of (timespec_subtract this that) in
    record this { tv_sec = result.tv_sec; tv_nsec = result.tv_nsec }

-- `!clock`
unfoldable pub is_zero : Timespec → Bool
is_zero this = eqb_ℤ (pos 0) this.tv_sec && eqb_ℤ (pos 0) this.tv_nsec

unfoldable pub equal : Timespec → Timespec → Bool
equal this that = eqb_ℤ this.tv_sec that.tv_sec && eqb_ℤ this.tv_nsec that.tv_nsec

unfoldable pub not_equal : Timespec → Timespec → Bool
unfolding equal
not_equal this that = not (equal this that)

unfoldable pub less : Timespec → Timespec → Bool
less this that =
    ltb_ℤ this.tv_sec that.tv_sec
    || (eqb_ℤ this.tv_sec that.tv_sec && ltb_ℤ this.tv_nsec that.tv_nsec)

unfoldable pub greater : Timespec → Timespec → Bool
greater this that =
    ltb_ℤ that.tv_sec this.tv_sec
    || (eqb_ℤ this.tv_sec that.tv_sec && ltb_ℤ that.tv_nsec this.tv_nsec)

unfoldable pub less_equal : Timespec → Timespec → Bool
unfolding greater
less_equal this that = not (greater this that)

unfoldable pub greater_equal : Timespec → Timespec → Bool
unfolding less
greater_equal this that = not (less this that)

-- `time::infinity`
abbrev pub infinity : Timespec
infinity = make_clock (pos 2147483647) (pos 0)
