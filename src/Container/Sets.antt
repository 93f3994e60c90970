-- ===== src/Container/Sets.antt =====
-- include/hlib/container.hpp: the union, the intersection and the complement of containers.
use hlib.Base.{
  ◌≡◌, refl, ap, ap₂, sym, ◌∙◌, Bool, true, false, not, ◌&&◌, ◌||◌, List, [], ◌∷◌, Bool-cases, inl,
  inr,
}
use hlib.Container.{
  Less, same, contains, set_insert, set_insert_all, set_erase, make_union, intersection_loop,
  make_intersection, complement_loop, make_complement,
}
use hlib.Container.Sorted.{
  IsSorted, IsUnique, same_refl, same_sound, contains-set_insert, contains-set_erase,
  set_insert-IsSorted, set_insert_all-IsSorted, contains-set_insert_all,
}

or_none : (b : Bool) → (b || false) ≡ b
or_none true = refl
or_none false = refl

and_none : (b : Bool) → (b && false) ≡ false
and_none true = refl
and_none false = refl

-- A value of both sides, taken once.
taken_once : (s c m : Bool) → (s ≡ true → c ≡ true) → (s || ((not s && c) && m)) ≡ (c && (s || m))
taken_once true true m h = refl
taken_once true false m h = absurd (cc (h refl))
taken_once false c m h = refl

-- A value that the set lacks, passed over.
passed_over : (s c m : Bool) → (s ≡ true → c ≡ false) → (c && m) ≡ (c && (s || m))
passed_over true true m h = absurd (cc (h refl))
passed_over true false m h = refl
passed_over false c m h = refl

-- A value that the other set has is left out, and one that it lacks is put in.
left_out : (s v o r : Bool) → (s ≡ true → o ≡ true) → (v && not o || r) ≡ ((s || v) && not o || r)
left_out true true true r h = refl
left_out true false true r h = refl
left_out true v false r h = absurd (cc (h refl))
left_out false v o r h = refl

put_in :
    (s v o r : Bool) → (s ≡ true → o ≡ false) → (v && not o || (s || r)) ≡ ((s || v) && not o || r)
put_in true v true r h = absurd (cc (h refl))
put_in true true false r h = refl
put_in true false false r h = refl
put_in false v o r h = refl

-- A value is in one of both.
abbrev pub xor : Bool → Bool → Bool
xor true b = not b
xor false b = b

module _ {A : Type 0} (order : Less A) where
  contains-same :
      (set : List A) (x y : A) {b : Bool}
      → contains order set y ≡ b
      → same order x y ≡ true
      → contains order set x ≡ b
  contains-same set x y e h = ap (contains order set) (same_sound order x y h) ∙ e

  contains-intersection_loop :
      (set rhs : List A) (x : A)
      → contains order (intersection_loop order set rhs) x
        ≡ (contains order set x && contains order rhs x)
  unfolding intersection_loop contains
  contains-intersection_loop set [] x = sym (and_none (contains order set x))
  contains-intersection_loop set (y ∷ ys) x = elim (Bool-cases (contains order set y)) [
    | inl e ↦ rw e (
        ap (λ b. same order x y || b)
          (contains-intersection_loop (set_erase order y set) ys x
            ∙ ap (λ b. b && contains order ys x) (contains-set_erase order y set x))
        ∙ taken_once (same order x y) (contains order set x) (contains order ys x)
            (contains-same set x y e))
    | inr e ↦ rw e (
        contains-intersection_loop set ys x
        ∙ passed_over (same order x y) (contains order set x) (contains order ys x)
            (contains-same set x y e))
  ]

  erased : (set : List A) (y : A) → contains order (set_erase order y set) y ≡ false
  erased set y =
      contains-set_erase order y set y ∙ ap (λ b. not b && contains order set y) (same_refl order y)

  intersection_loop-IsUnique : (set rhs : List A) → IsUnique order (intersection_loop order set rhs)
  unfolding intersection_loop
  intersection_loop-IsUnique set [] = tt
  intersection_loop-IsUnique set (y ∷ ys) = elim (Bool-cases (contains order set y)) [
    | inl e ↦ rw e (
      contains-intersection_loop (set_erase order y set) ys y
          ∙ ap (λ b. b && contains order ys y) (erased set y),
      intersection_loop-IsUnique (set_erase order y set) ys,
    )
    | inr e ↦ rw e (intersection_loop-IsUnique set ys)
  ]

  contains-complement_loop :
      (other values result : List A) (x : A)
      → contains order (complement_loop order other values result) x
        ≡ ((contains order values x && not (contains order other x)) || contains order result x)
  unfolding complement_loop contains
  contains-complement_loop other [] result x = refl
  contains-complement_loop other (y ∷ ys) result x = elim (Bool-cases (contains order other y)) [
    | inl e ↦ rw e (
        contains-complement_loop other ys result x
        ∙ left_out (same order x y) (contains order ys x) (contains order other x)
            (contains order result x) (contains-same other x y e))
    | inr e ↦ rw e (
        contains-complement_loop other ys (set_insert order y result) x
        ∙ ap (λ b. contains order ys x && not (contains order other x) || b)
            (contains-set_insert order y result x)
        ∙ put_in (same order x y) (contains order ys x) (contains order other x)
            (contains order result x) (contains-same other x y e))
  ]

  complement_loop-IsSorted :
      (other values result : List A)
      → IsSorted order result
      → IsSorted order (complement_loop order other values result)
  unfolding complement_loop
  complement_loop-IsSorted other [] result h = h
  complement_loop-IsSorted other (y ∷ ys) result h = elim (Bool-cases (contains order other y)) [
    | inl e ↦ rw e (complement_loop-IsSorted other ys result h)
    | inr e ↦ rw e (
        complement_loop-IsSorted other ys (set_insert order y result)
          (set_insert-IsSorted order y result h))
  ]

  contains-set :
      (xs : List A) (x : A) → contains order (set_insert_all order xs []) x ≡ contains order xs x
  unfolding contains
  contains-set xs x = contains-set_insert_all order xs [] x ∙ or_none (contains order xs x)

  both_ways : (a b : Bool) → (b && not a || (a && not b || false)) ≡ xor a b
  both_ways true true = refl
  both_ways true false = refl
  both_ways false true = refl
  both_ways false false = refl

  swapped : (a b : Bool) → (b || a) ≡ (a || b)
  swapped true true = refl
  swapped true false = refl
  swapped false true = refl
  swapped false false = refl

  -- The values of the results, and how often they are there.
  pub record Combines (lhs rhs : List A) : Type 0 where
    pub union :
        (x : A)
        → contains order (make_union order lhs rhs) x
          ≡ (contains order lhs x || contains order rhs x)
    pub intersection :
        (x : A)
        → contains order (make_intersection order lhs rhs) x
          ≡ (contains order lhs x && contains order rhs x)
    pub complement :
        (x : A)
        → contains order (make_complement order lhs rhs) x
          ≡ xor (contains order lhs x) (contains order rhs x)
    pub union_IsSorted : IsSorted order (make_union order lhs rhs)
    pub intersection_IsUnique : IsUnique order (make_intersection order lhs rhs)
    pub complement_IsSorted : IsSorted order (make_complement order lhs rhs)

  -- `make_union` has exactly the values that are in one of two sequences or in both,
  -- `make_intersection` those in both, and `make_complement` those in one but not in both. The union
  -- and the complement are sorted in the order of the values, which is strict and total, and the
  -- intersection has each value once, whatever is repeated in the sequences.
  pub make_union-Combines : (lhs rhs : List A) → Combines lhs rhs
  unfolding make_union make_intersection make_complement contains
  make_union-Combines lhs rhs =
      let l = set_insert_all order lhs [] in
      let r = set_insert_all order rhs [] in
      record {
        union = λ x.
            contains-set_insert_all order rhs l x
            ∙ ap (λ b. contains order rhs x || b) (contains-set lhs x)
            ∙ swapped (contains order lhs x) (contains order rhs x);
        intersection = λ x.
            contains-intersection_loop l rhs x
            ∙ ap (λ b. b && contains order rhs x) (contains-set lhs x);
        complement = λ x.
            contains-complement_loop l rhs (complement_loop order r lhs []) x
            ∙ ap₂ (λ a b. contains order rhs x && not a || b) (contains-set lhs x)
                (contains-complement_loop r lhs [] x
                  ∙ ap (λ b. contains order lhs x && not b || false) (contains-set rhs x))
            ∙ both_ways (contains order lhs x) (contains order rhs x);
        union_IsSorted =
            set_insert_all-IsSorted order rhs l (set_insert_all-IsSorted order lhs [] tt);
        intersection_IsUnique = intersection_loop-IsUnique l rhs;
        complement_IsSorted =
            complement_loop-IsSorted l rhs (complement_loop order r lhs [])
              (complement_loop-IsSorted r lhs [] tt);
      }
