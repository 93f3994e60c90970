-- ===== src/Time/Comparing.antt =====
-- src/hlib_time.cpp: the comparisons of times, against those of their numbers of nanoseconds.
use hlib.Base.{◌≡◌, ap, Bool, not, ◌&&◌, ◌||◌, ℤ, ltb_ℤ, eqb_ℤ, arith}
use hlib.Time.{Timespec}
use hlib.Time.Duration
use hlib.Time.Clock
use hlib.Time.Normal.{IsNormal, nanoseconds, nanoseconds_parts}

less_of :
    (a b : Timespec)
    → IsNormal a
    → IsNormal b
    → (ltb_ℤ a.tv_sec b.tv_sec || (eqb_ℤ a.tv_sec b.tv_sec && ltb_ℤ a.tv_nsec b.tv_nsec))
      ≡ ltb_ℤ (nanoseconds a) (nanoseconds b)
less_of a b h k = ground (arith, nanoseconds_parts a, nanoseconds_parts b)

equal_of :
    (a b : Timespec)
    → IsNormal a
    → IsNormal b
    → (eqb_ℤ a.tv_sec b.tv_sec && eqb_ℤ a.tv_nsec b.tv_nsec) ≡ eqb_ℤ (nanoseconds a) (nanoseconds b)
equal_of a b h k = ground (arith, nanoseconds_parts a, nanoseconds_parts b)

greater_of :
    (a b : Timespec)
    → IsNormal a
    → IsNormal b
    → (ltb_ℤ b.tv_sec a.tv_sec || (eqb_ℤ a.tv_sec b.tv_sec && ltb_ℤ b.tv_nsec a.tv_nsec))
      ≡ ltb_ℤ (nanoseconds b) (nanoseconds a)
greater_of a b h k = ground (arith, nanoseconds_parts a, nanoseconds_parts b)

-- The comparisons of one class, against those of the numbers m and n.
pub record Compares (m n : ℤ) (equal not_equal less greater less_equal greater_equal : Bool)
    : Type 0 where
  pub eq : equal ≡ eqb_ℤ m n
  pub ne : not_equal ≡ not (eqb_ℤ m n)
  pub lt : less ≡ ltb_ℤ m n
  pub gt : greater ≡ ltb_ℤ n m
  pub le : less_equal ≡ not (ltb_ℤ n m)
  pub ge : greater_equal ≡ not (ltb_ℤ m n)

compares :
    {m n : ℤ} {e l g : Bool}
    → e ≡ eqb_ℤ m n
    → l ≡ ltb_ℤ m n
    → g ≡ ltb_ℤ n m
    → Compares m n e (not e) l g (not g) (not l)
compares e l g = record { eq = e; ne = ap not e; lt = l; gt = g; le = ap not g; ge = ap not l }

-- The six comparisons of durations, and the six of clocks, compare the numbers of nanoseconds of
-- normal times.
pub less-Compares :
    (a b : Timespec)
    → IsNormal a
    → IsNormal b
    → Compares
        (nanoseconds a)
        (nanoseconds b)
        (Duration.equal a b)
        (Duration.not_equal a b)
        (Duration.less a b)
        (Duration.greater a b)
        (Duration.less_equal a b)
        (Duration.greater_equal a b)
      × Compares
          (nanoseconds a)
          (nanoseconds b)
          (Clock.equal a b)
          (Clock.not_equal a b)
          (Clock.less a b)
          (Clock.greater a b)
          (Clock.less_equal a b)
          (Clock.greater_equal a b)
unfolding Duration.equal Duration.not_equal Duration.less Duration.greater Duration.less_equal
    Duration.greater_equal Clock.equal Clock.not_equal Clock.less Clock.greater Clock.less_equal
    Clock.greater_equal
less-Compares a b h k =
    let c = compares (equal_of a b h k) (less_of a b h k) (greater_of a b h k) in (c, c)
