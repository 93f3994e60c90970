-- ===== src/Time/Tests.antt =====
-- src/hlib_time.cpp at concrete inputs.
use hlib.Base.{
  ◌≡◌, refl, true, false, Option, none, some, [], ◌++◌, Bytes, codes, ℕ, pos, negsuc, ◌+ℤ◌, ◌-ℤ◌,
  arith,
}
use hlib.Time.{Timespec, timespec_add, timespec_subtract}
use hlib.Time.Duration
use hlib.Time.Clock
use hlib.Time.Normal.{nanoseconds}
use hlib.Time.Arithmetic.{Adds, Subtracts, exact_arithmetic}
use hlib.Time.Comparing.{Compares, less-Compares}
use hlib.Time.Printing.{duration_to_string, to_string_utc, to_string_local}
use hlib.Time.Parsing.{outside, to_clock}
use hlib.Time.Texts.{Tells, duration_to_string-Tells}

abbrev late : Timespec
late = record { tv_sec = pos 5; tv_nsec = pos 700000000 }

abbrev early : Timespec
early = record { tv_sec = negsuc 2; tv_nsec = pos 800000000 }

carried : Duration.plus late early ≡ record { tv_sec = pos 3; tv_nsec = pos 500000000 }
unfolding Duration.plus timespec_add ◌+ℤ◌ ◌-ℤ◌
carried = refl

borrowed : Clock.between late early ≡ record { tv_sec = pos 7; tv_nsec = pos 900000000 }
unfolding Clock.between timespec_subtract ◌+ℤ◌ ◌-ℤ◌
borrowed = refl

zero_time : Duration.is_zero Duration.zero_duration ≡ true
unfolding Duration.is_zero
zero_time = refl

later_than : Clock.greater Clock.infinity late ≡ true
unfolding Clock.greater
later_than = refl

duration_text : duration_to_string late true ≡ codes "00:00:05.700"
unfolding duration_to_string
duration_text = refl

-- A duration below zero has its sign at the seconds.
negative_text :
    duration_to_string (record { tv_sec = negsuc 61; tv_nsec = pos 0 }) false ≡ codes "00:-1:-2"
unfolding duration_to_string
negative_text = refl

-- A library that writes the format, and behind it whether the time was taken apart as local.
abbrev write_format : ℕ → Bytes → Bytes → Bytes
write_format size format zone = format ++ zone

utc_text :
    to_string_utc {Tm = Bytes}
      (λ s. codes "utc")
      (λ s. codes "local")
      (λ t. pos 0)
      write_format
      late
      false
    ≡ codes "%Y-%m-%dT%H:%M:%SZutc"
unfolding to_string_utc
utc_text = refl

-- The local time is written with the parts of the universal time.
local_text :
    to_string_local {Tm = Bytes}
      (λ s. codes "utc")
      (λ s. codes "local")
      (λ t. pos 5400)
      write_format
      late
      false
    ≡ codes "%Y-%m-%dT%H:%M:%Sutc+01:30"
unfolding to_string_local
local_text = refl

-- A library that reads some text as 7 seconds, and leaves a fraction of one digit of it.
abbrev read_text : Bytes → Bytes → ℕ → Option (Bytes × ℕ)
read_text text format seconds = elim text [ [] ↦ none | _ ↦ some (codes ".5", seconds) ]

-- Behind fewer than three digits of a fraction the zone is looked for outside the text.
short_fraction :
    to_clock {Tm = ℕ} 7 read_text (λ r. some (pos 5)) (λ t. pos t) (codes "2020-01-02T00:00:07.5")
    ≡ outside
unfolding to_clock
short_fraction = refl

exact_arithmetic_example :
    Adds (nanoseconds late +ℤ nanoseconds early) late early
    × Subtracts (nanoseconds late -ℤ nanoseconds early) late early
exact_arithmetic_example =
    exact_arithmetic late early (refl, omega arith) (refl, omega arith) (omega arith) (omega arith)

less-Compares_example :
    Compares
      (nanoseconds late)
      (nanoseconds early)
      (Duration.equal late early)
      (Duration.not_equal late early)
      (Duration.less late early)
      (Duration.greater late early)
      (Duration.less_equal late early)
      (Duration.greater_equal late early)
    × Compares
        (nanoseconds late)
        (nanoseconds early)
        (Clock.equal late early)
        (Clock.not_equal late early)
        (Clock.less late early)
        (Clock.greater late early)
        (Clock.less_equal late early)
        (Clock.greater_equal late early)
less-Compares_example = less-Compares late early (refl, omega arith) (refl, omega arith)

duration_to_string-Tells_example : Tells 3661 500000000
duration_to_string-Tells_example = duration_to_string-Tells 3661 500000000 (omega arith)
