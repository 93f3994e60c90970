-- ===== src/Time/Arithmetic.antt =====
-- src/hlib_time.cpp: sums and differences of durations and clocks.
use hlib.Base.{◌≡◌, ap, ◌∙◌, ℤ, ◌+ℤ◌, ◌-ℤ◌, +ℤ_parts, -ℤ_parts, eq_of_parts, arith}
use hlib.Time.{Timespec, timespec_add, timespec_subtract}
use hlib.Time.Duration
use hlib.Time.Clock
use hlib.Time.Normal.{
  IsNormal, IsHalf, StandsFor, nanoseconds, add-StandsFor, subtract-StandsFor,
  nanoseconds-injective,
}

-- All operators that add, and all that subtract.
pub record Adds (n : ℤ) (a b : Timespec) : Type 0 where
  pub duration_plus : StandsFor n (Duration.plus a b)
  pub duration_plus_assign : StandsFor n (Duration.plus_assign a b)
  pub clock_plus : StandsFor n (Clock.plus a b)
  pub clock_plus_assign : StandsFor n (Clock.plus_assign a b)

pub record Subtracts (n : ℤ) (a b : Timespec) : Type 0 where
  pub duration_minus : StandsFor n (Duration.minus a b)
  pub duration_minus_assign : StandsFor n (Duration.minus_assign a b)
  pub clock_between : StandsFor n (Clock.between a b)
  pub clock_minus : StandsFor n (Clock.minus a b)
  pub clock_minus_assign : StandsFor n (Clock.minus_assign a b)

plus-Adds :
    (a b : Timespec)
    → IsNormal a
    → IsNormal b
    → IsHalf a
    → IsHalf b
    → Adds (nanoseconds a +ℤ nanoseconds b) a b
unfolding Duration.plus Duration.plus_assign Clock.plus Clock.plus_assign
plus-Adds a b h k x y =
    let s = add-StandsFor a b h k x y in
    record { duration_plus = s; duration_plus_assign = s; clock_plus = s; clock_plus_assign = s }

minus-Subtracts :
    (a b : Timespec)
    → IsNormal a
    → IsNormal b
    → IsHalf a
    → IsHalf b
    → Subtracts (nanoseconds a -ℤ nanoseconds b) a b
unfolding Duration.minus Duration.minus_assign Clock.between Clock.minus Clock.minus_assign
minus-Subtracts a b h k x y =
    let s = subtract-StandsFor a b h k x y in
    record {
      duration_minus = s;
      duration_minus_assign = s;
      clock_between = s;
      clock_minus = s;
      clock_minus_assign = s;
    }

-- The sum of two normal times with seconds in half of the range, by `+` or `+=` and of durations or
-- of a clock and a duration, is normal, does not overflow, and has the sum of their nanoseconds. The
-- difference, by `-` or `-=` and also of two clocks, is normal, does not overflow, and has the
-- difference of their nanoseconds.
pub exact_arithmetic :
    (a b : Timespec)
    → IsNormal a
    → IsNormal b
    → IsHalf a
    → IsHalf b
    → Adds (nanoseconds a +ℤ nanoseconds b) a b × Subtracts (nanoseconds a -ℤ nanoseconds b) a b
exact_arithmetic a b h k x y = (plus-Adds a b h k x y, minus-Subtracts a b h k x y)

-- What was subtracted, added again.
back :
    (a b : Timespec)
    → IsNormal a
    → IsNormal b
    → IsHalf a
    → IsHalf b
    → IsHalf (timespec_subtract a b)
    → timespec_add b (timespec_subtract a b) ≡ a
back a b h k x y z =
    let d = subtract-StandsFor a b h k x y in
    let r = add-StandsFor b (timespec_subtract a b) k d.normal y z in
    nanoseconds-injective (timespec_add b (timespec_subtract a b)) a r.normal h (
      r.total
      ∙ ap (λ n. nanoseconds b +ℤ n) d.total
      ∙ eq_of_parts (nanoseconds b +ℤ (nanoseconds a -ℤ nanoseconds b)) (nanoseconds a) (
          omega (
            arith,
            -ℤ_parts (nanoseconds a) (nanoseconds b),
            +ℤ_parts (nanoseconds b) (nanoseconds a -ℤ nanoseconds b),
          )))

-- What was added, subtracted again.
forth :
    (a b : Timespec)
    → IsNormal a
    → IsNormal b
    → IsHalf a
    → IsHalf b
    → IsHalf (timespec_add a b)
    → timespec_subtract (timespec_add a b) b ≡ a
forth a b h k x y z =
    let s = add-StandsFor a b h k x y in
    let r = subtract-StandsFor (timespec_add a b) b s.normal k z y in
    nanoseconds-injective (timespec_subtract (timespec_add a b) b) a r.normal h (
      r.total
      ∙ ap (λ n. n -ℤ nanoseconds b) s.total
      ∙ eq_of_parts ((nanoseconds a +ℤ nanoseconds b) -ℤ nanoseconds b) (nanoseconds a) (
          omega (
            arith,
            +ℤ_parts (nanoseconds a) (nanoseconds b),
            -ℤ_parts (nanoseconds a +ℤ nanoseconds b) (nanoseconds b),
          )))

-- A clock that is moved forth by a duration and back by it is where it was, and a clock that is
-- moved by what lies between it and another is the other: for normal times whose seconds, and those
-- of the sum and of the difference, are in half of the range.
pub minus-plus :
    (a b : Timespec)
    → IsNormal a
    → IsNormal b
    → IsHalf a
    → IsHalf b
    → IsHalf (Clock.plus a b)
    → IsHalf (Clock.between a b)
    → (Clock.minus (Clock.plus a b) b ≡ a) × (Clock.plus b (Clock.between a b) ≡ a)
unfolding Clock.plus Clock.minus Clock.between
minus-plus a b h k x y z w = (forth a b h k x y z, back a b h k x y w)
