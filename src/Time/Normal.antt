-- ===== src/Time/Normal.antt =====
-- src/hlib_time.cpp: the carry and the borrow of `timespec_add` and `timespec_subtract`, against the
-- numbers of nanoseconds that times stand for.
use hlib.Base.{
  InRange, negsuc, ◌≤◌, ◌+◌, ◌*◌, ◌^◌, ◌<◌, ◌≡◌, refl, ap, ap₂, ◌∙◌, Bool, true, false, ltb_ℤ,
  if◌then◌else◌, ℤ, pos, ◌+ℤ◌, ◌-ℤ◌, pos_part, neg_part, sub_ℕ, +ℤ_parts, -ℤ_parts, eq_of_parts,
  arith,
}
use hlib.Time.{Timespec, carry, borrow, nsec_per_sec, timespec_add, timespec_subtract}

-- The nanoseconds are a part of a second.
abbrev pub IsNormal : Timespec → Type 0
IsNormal t = (neg_part t.tv_nsec ≡ 0) × (pos_part t.tv_nsec < 10 ^ 9)

-- the time in nanoseconds
unfoldable pub nanoseconds : Timespec → ℤ
nanoseconds t =
    sub_ℕ (pos_part t.tv_sec * 10 ^ 9 + pos_part t.tv_nsec)
      (neg_part t.tv_sec * 10 ^ 9 + neg_part t.tv_nsec)

pub nanoseconds_parts :
    (t : Timespec)
    → pos_part (nanoseconds t) + (neg_part t.tv_sec * 10 ^ 9 + neg_part t.tv_nsec)
      ≡ neg_part (nanoseconds t) + (pos_part t.tv_sec * 10 ^ 9 + pos_part t.tv_nsec)
unfolding nanoseconds
nanoseconds_parts t = ground arith

carry-IsNormal :
    (s n : ℤ)
    → neg_part n ≡ 0
    → pos_part n < 2 * 10 ^ 9
    → IsNormal (carry (record { tv_sec = s; tv_nsec = n }))
carry-IsNormal s n h k = ground (arith, -ℤ_parts n nsec_per_sec)

borrow-IsNormal :
    (s n : ℤ)
    → neg_part n < 10 ^ 9
    → pos_part n < 10 ^ 9
    → IsNormal (borrow (record { tv_sec = s; tv_nsec = n }))
borrow-IsNormal s n h k = ground (arith, +ℤ_parts n nsec_per_sec)

if_total :
    (b : Bool) (x y : Timespec) {n : ℤ}
    → nanoseconds x ≡ n
    → nanoseconds y ≡ n
    → nanoseconds (if b then x else y) ≡ n
if_total true x y p q = p
if_total false x y p q = q

carry-nanoseconds : (t : Timespec) → nanoseconds (carry t) ≡ nanoseconds t
carry-nanoseconds t =
    let u : Timespec = record { tv_sec = t.tv_sec +ℤ pos 1; tv_nsec = t.tv_nsec -ℤ nsec_per_sec } in
    if_total (ltb_ℤ t.tv_nsec nsec_per_sec) t u refl (
      eq_of_parts (nanoseconds u) (nanoseconds t) (
        omega (
          arith,
          nanoseconds_parts u,
          nanoseconds_parts t,
          +ℤ_parts t.tv_sec (pos 1),
          -ℤ_parts t.tv_nsec nsec_per_sec,
        )))

borrow-nanoseconds : (t : Timespec) → nanoseconds (borrow t) ≡ nanoseconds t
borrow-nanoseconds t =
    let u : Timespec = record { tv_sec = t.tv_sec -ℤ pos 1; tv_nsec = t.tv_nsec +ℤ nsec_per_sec } in
    if_total (ltb_ℤ t.tv_nsec (pos 0)) u t
      (eq_of_parts (nanoseconds u) (nanoseconds t) (
        omega (
          arith,
          nanoseconds_parts u,
          nanoseconds_parts t,
          -ℤ_parts t.tv_sec (pos 1),
          +ℤ_parts t.tv_nsec nsec_per_sec,
        )))
      refl

-- Half of the range of the seconds, so that a sum stays in the range.
abbrev pub IsHalf : Timespec → Type 0
IsHalf t = InRange 63 t.tv_sec

in_range : (s : ℤ) → pos_part s < 2 ^ 63 → neg_part s ≤ 2 ^ 63 → InRange 64 s
in_range (pos n) h k = h
in_range (negsuc n) h k = omega arith

parts_of_half : (s : ℤ) → InRange 63 s → (pos_part s < 2 ^ 62) × (neg_part s ≤ 2 ^ 62)
parts_of_half (pos n) h = (h, omega arith)
parts_of_half (negsuc n) h = (omega arith, omega (arith, h))

-- A time that is normal, does not overflow, and stands for a number of nanoseconds.
pub record StandsFor (n : ℤ) (t : Timespec) : Type 0 where
  pub normal : IsNormal t
  pub fits : InRange 64 t.tv_sec
  pub total : nanoseconds t ≡ n

if_fits :
    (b : Bool) (x y : Timespec)
    → InRange 64 x.tv_sec
    → InRange 64 y.tv_sec
    → InRange 64 (if b then x else y).tv_sec
if_fits true x y p q = p
if_fits false x y p q = q

carry-fits :
    (t : Timespec)
    → pos_part t.tv_sec + 1 < 2 ^ 63
    → neg_part t.tv_sec ≤ 2 ^ 63
    → InRange 64 (carry t).tv_sec
carry-fits t h k =
    let u : Timespec = record { tv_sec = t.tv_sec +ℤ pos 1; tv_nsec = t.tv_nsec -ℤ nsec_per_sec } in
    if_fits (ltb_ℤ t.tv_nsec nsec_per_sec) t u (in_range t.tv_sec (omega arith) k) (
      in_range (t.tv_sec +ℤ pos 1) (ground (arith, +ℤ_parts t.tv_sec (pos 1)))
        (ground (arith, +ℤ_parts t.tv_sec (pos 1))))

borrow-fits :
    (t : Timespec)
    → pos_part t.tv_sec < 2 ^ 63
    → neg_part t.tv_sec < 2 ^ 63
    → InRange 64 (borrow t).tv_sec
borrow-fits t h k =
    let u : Timespec = record { tv_sec = t.tv_sec -ℤ pos 1; tv_nsec = t.tv_nsec +ℤ nsec_per_sec } in
    if_fits (ltb_ℤ t.tv_nsec (pos 0)) u t
      (in_range (t.tv_sec -ℤ pos 1) (ground (arith, -ℤ_parts t.tv_sec (pos 1)))
        (ground (arith, -ℤ_parts t.tv_sec (pos 1))))
      (in_range t.tv_sec h (omega arith))

pub add-StandsFor :
    (a b : Timespec)
    → IsNormal a
    → IsNormal b
    → IsHalf a
    → IsHalf b
    → StandsFor (nanoseconds a +ℤ nanoseconds b) (timespec_add a b)
unfolding timespec_add
add-StandsFor a b h k x y =
    let (ap, an) = parts_of_half a.tv_sec x in
    let (bp, bn) = parts_of_half b.tv_sec y in
    let s = a.tv_sec +ℤ b.tv_sec in
    let n = a.tv_nsec +ℤ b.tv_nsec in
    let t : Timespec = record { tv_sec = s; tv_nsec = n } in
    record {
      normal =
          carry-IsNormal s n (ground (arith, +ℤ_parts a.tv_nsec b.tv_nsec))
            (ground (arith, +ℤ_parts a.tv_nsec b.tv_nsec));
      fits =
          carry-fits t (ground (arith, +ℤ_parts a.tv_sec b.tv_sec))
            (ground (arith, +ℤ_parts a.tv_sec b.tv_sec));
      total =
          carry-nanoseconds t
          ∙ eq_of_parts (nanoseconds t) (nanoseconds a +ℤ nanoseconds b) (
              omega (
                arith,
                nanoseconds_parts t,
                nanoseconds_parts a,
                nanoseconds_parts b,
                +ℤ_parts a.tv_sec b.tv_sec,
                +ℤ_parts a.tv_nsec b.tv_nsec,
                +ℤ_parts (nanoseconds a) (nanoseconds b),
              ));
    }

pub subtract-StandsFor :
    (a b : Timespec)
    → IsNormal a
    → IsNormal b
    → IsHalf a
    → IsHalf b
    → StandsFor (nanoseconds a -ℤ nanoseconds b) (timespec_subtract a b)
unfolding timespec_subtract
subtract-StandsFor a b h k x y =
    let (ap, an) = parts_of_half a.tv_sec x in
    let (bp, bn) = parts_of_half b.tv_sec y in
    let s = a.tv_sec -ℤ b.tv_sec in
    let n = a.tv_nsec -ℤ b.tv_nsec in
    let t : Timespec = record { tv_sec = s; tv_nsec = n } in
    record {
      normal =
          borrow-IsNormal s n (ground (arith, -ℤ_parts a.tv_nsec b.tv_nsec))
            (ground (arith, -ℤ_parts a.tv_nsec b.tv_nsec));
      fits =
          borrow-fits t (ground (arith, -ℤ_parts a.tv_sec b.tv_sec))
            (ground (arith, -ℤ_parts a.tv_sec b.tv_sec));
      total =
          borrow-nanoseconds t
          ∙ eq_of_parts (nanoseconds t) (nanoseconds a -ℤ nanoseconds b) (
              omega (
                arith,
                nanoseconds_parts t,
                nanoseconds_parts a,
                nanoseconds_parts b,
                -ℤ_parts a.tv_sec b.tv_sec,
                -ℤ_parts a.tv_nsec b.tv_nsec,
                -ℤ_parts (nanoseconds a) (nanoseconds b),
              ));
    }

-- A normal time is known by its number of nanoseconds.
pub nanoseconds-injective :
    (a b : Timespec) → IsNormal a → IsNormal b → nanoseconds a ≡ nanoseconds b → a ≡ b
nanoseconds-injective a b h k e =
    let p : pos_part (nanoseconds a) ≡ pos_part (nanoseconds b) = ap pos_part e in
    let n : neg_part (nanoseconds a) ≡ neg_part (nanoseconds b) = ap neg_part e in
    ap₂ (λ s n. record { tv_sec = s; tv_nsec = n })
      (eq_of_parts a.tv_sec b.tv_sec (omega (arith, nanoseconds_parts a, nanoseconds_parts b)))
      (eq_of_parts a.tv_nsec b.tv_nsec (omega (arith, nanoseconds_parts a, nanoseconds_parts b)))
