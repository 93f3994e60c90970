-- ===== src/Base/Search.antt =====
-- What `find` returns: the first place, from the given one on, at which the pattern stands.
use Prim.Native.Nat.{ℕ, zero, suc, ◌+◌, ◌≤◌, ◌<◌}
use mathlib.Core.Bool.{true, false}
use mathlib.Core.List.{[], ◌∷◌, ◌++◌}
use mathlib.Core.Logic.{inl, inr}
use mathlib.Core.Option.{some}
use mathlib.Core.Path.{◌≡◌, refl, ap}
use native.Mathlib.Omega.{arith}
use hlib.Base.Find.{is_prefix, find_at, find}
use hlib.Base.Order.{Bool-cases, Option-cases}
use hlib.Base.Seq.{Bytes, drop, length, length-append}

pub is_prefix-append : (ys rest : Bytes) → is_prefix (ys ++ rest) ys ≡ true
unfolding is_prefix
is_prefix-append [] rest = is_prefix-nil rest
  where
    is_prefix-nil : (xs : Bytes) → is_prefix xs [] ≡ true
    is_prefix-nil [] = refl
    is_prefix-nil (x ∷ xs) = refl
is_prefix-append (y ∷ ys) rest = ground (arith, is_prefix-append ys rest)

-- A prefix is there exactly if the sequence splits behind it.
pub is_prefix_sound : (xs ys : Bytes) → is_prefix xs ys ≡ true → (rest : Bytes) × (xs ≡ ys ++ rest)
unfolding is_prefix
is_prefix_sound xs [] h = (xs, refl)
is_prefix_sound [] (y ∷ ys) h = cc
is_prefix_sound (x ∷ xs) (y ∷ ys) h =
    let (rest, e) = is_prefix_sound xs ys (ground arith) in (rest, ground (arith, e))

is_prefix-length : (xs ys : Bytes) → is_prefix xs ys ≡ true → length ys ≤ length xs
is_prefix-length xs ys h =
    let (rest, e) = is_prefix_sound xs ys h in omega (arith, ap length e, length-append ys rest)

-- The place found is from `i` on, the pattern stands there, and at no earlier place.
pub record Found (xs ys : Bytes) (from at : ℕ) : Type 0 where
  pub not_before : from ≤ at
  pub stands : is_prefix (drop at xs) ys ≡ true
  pub within : at + length ys ≤ length xs
  pub first : (j : ℕ) → from ≤ j → j < at → is_prefix (drop j xs) ys ≡ false

find_at-Found :
    (xs ys : Bytes) (i : ℕ) {k : ℕ}
    → find_at xs ys i ≡ some k
    → (at : ℕ) × (k ≡ i + at) × Found xs ys 0 at
unfolding find_at
find_at-Found [] ys i {k} e = elim (Bool-cases (is_prefix [] ys)) [
  | inl stands ↦ (
    0,
    ground arith,
    record {
      not_before = omega arith;
      stands = stands;
      within = omega (arith, is_prefix-length [] ys stands);
      first = λ j h g. absurd (omega arith);
    },
  )
  | inr no_place ↦ absurd (cc (rw no_place at e))
]
find_at-Found (x ∷ xs) ys i {k} e = elim (Bool-cases (is_prefix (x ∷ xs) ys)) [
  | inl stands ↦ (
    0,
    ground arith,
    record {
      not_before = omega arith;
      stands = stands;
      within = omega (arith, is_prefix-length (x ∷ xs) ys stands);
      first = λ j h g. absurd (omega arith);
    },
  )
  | inr later ↦
      let (at, shifted, f) = find_at-Found xs ys (i + 1) (rw later at e) in
      (
        suc at,
        omega arith,
        record {
          not_before = omega arith;
          stands = f.stands;
          within = omega (arith, f.within);
          first = first_behind f later;
        },
      )
]
  where
    first_behind :
        {at : ℕ}
        → Found xs ys 0 at
        → is_prefix (x ∷ xs) ys ≡ false
        → (j : ℕ) → 0 ≤ j
        → j < suc at
        → is_prefix (drop j (x ∷ xs)) ys ≡ false
    first_behind f later zero h g = later
    first_behind f later (suc j) h g = f.first j (omega arith) (omega arith)

Found-cons :
    (x : ℕ) (xs ys : Bytes) (from at : ℕ)
    → Found xs ys from at
    → Found (x ∷ xs) ys (suc from) (suc at)
Found-cons x xs ys from at f = record {
  not_before = omega (arith, f.not_before);
  stands = f.stands;
  within = omega (arith, f.within);
  first = first_behind;
}
  where
    first_behind : (j : ℕ) → suc from ≤ j → j < suc at → is_prefix (drop j (x ∷ xs)) ys ≡ false
    first_behind zero h g = absurd (omega arith)
    first_behind (suc j) h g = f.first j (omega arith) (omega arith)

pub find-Found :
    (xs ys : Bytes) (from : ℕ) {at : ℕ} → find xs ys from ≡ some at → Found xs ys from at
unfolding find
find-Found xs ys zero {at = k} e =
    let (at, same, f) = find_at-Found xs ys 0 e in rw (let t : k ≡ at = omega (arith, same) in t) f
find-Found [] ys (suc from) e = cc
find-Found (x ∷ xs) ys (suc from) {at = k} e = elim (Option-cases (find xs ys from)) [
  | inl no_place ↦ absurd (cc (rw (no_place, find) at e))
  | inr (at, place) ↦
      rw (let t : k ≡ suc at = ground (arith, e, place) in t)
        (Found-cons x xs ys from at (find-Found xs ys from place))
]
