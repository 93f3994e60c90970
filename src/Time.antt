-- ===== src/Time.antt =====
-- src/hlib_time.cpp and include/hlib/time.hpp: durations and points in time. `std::timespec` is the
-- base of both classes, so that a `Duration` and a `Clock` are values of the record `Timespec`. The
-- seconds and nanoseconds are integers; where a sum leaves the 64 bits of the machine's type, the
-- code has no defined behaviour.
pub mod Duration
pub mod Clock
pub mod Normal
pub mod Arithmetic
pub mod Comparing
pub mod Printing
pub mod Parsing
pub mod Texts
mod Tests
use hlib.Base.{◌^◌, Bool, ltb_ℤ, ℤ, pos, ◌+ℤ◌, ◌-ℤ◌, if◌then◌else◌}

-- `struct std::timespec`
pub record Timespec : Type 0 where
  pub tv_sec : ℤ
  pub tv_nsec : ℤ

abbrev pub nsec_per_sec : ℤ
nsec_per_sec = pos (10 ^ 9)

-- the carry of a sum, from the nanoseconds to the seconds
abbrev pub carry : Timespec → Timespec
carry result =
    if ltb_ℤ result.tv_nsec nsec_per_sec
    then result
    else record { tv_sec = result.tv_sec +ℤ pos 1; tv_nsec = result.tv_nsec -ℤ nsec_per_sec }

unfoldable pub timespec_add : Timespec → Timespec → Timespec
timespec_add lhs that =
    carry (record { tv_sec = lhs.tv_sec +ℤ that.tv_sec; tv_nsec = lhs.tv_nsec +ℤ that.tv_nsec })

-- the borrow of a difference, by the nanoseconds from the seconds
abbrev pub borrow : Timespec → Timespec
borrow result =
    if ltb_ℤ result.tv_nsec (pos 0)
    then record { tv_sec = result.tv_sec -ℤ pos 1; tv_nsec = result.tv_nsec +ℤ nsec_per_sec }
    else result

unfoldable pub timespec_subtract : Timespec → Timespec → Timespec
timespec_subtract lhs that =
    borrow (record { tv_sec = lhs.tv_sec -ℤ that.tv_sec; tv_nsec = lhs.tv_nsec -ℤ that.tv_nsec })
