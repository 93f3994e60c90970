-- ===== src/Container/Tests.antt =====
-- include/hlib/container.hpp at concrete inputs.
use hlib.Base.{codes, ℕ, ◌+◌, ltb, ◌==◌, ◌≡◌, refl, true, false, none, some, List, [], ◌∷◌, arith}
use hlib.Container.{
  Less, get_size, make_union, make_intersection, make_complement, for_each, contains_key,
  contains_pair, find_or_default, replace_value,
}
use hlib.Container.Sets.{Combines, make_union-Combines}

irreflexive : (a : ℕ) → ltb a a ≡ false
irreflexive a = ground arith

transitive : (a b c : ℕ) → ltb a b ≡ true → ltb b c ≡ true → ltb a c ≡ true
transitive a b c h k = ground arith

total : (a b : ℕ) → ltb a b ≡ false → ltb b a ≡ false → a ≡ b
total a b h k = ground arith

abbrev by_number : Less ℕ
by_number = record { less = ltb; irreflexive = irreflexive; transitive = transitive; total = total }

united : make_union by_number (3 ∷ 1 ∷ 3 ∷ []) (2 ∷ 1 ∷ []) ≡ 1 ∷ 2 ∷ 3 ∷ []
unfolding make_union
united = refl

intersected : make_intersection by_number (3 ∷ 1 ∷ 4 ∷ []) (4 ∷ 1 ∷ 4 ∷ 2 ∷ []) ≡ 4 ∷ 1 ∷ []
unfolding make_intersection
intersected = refl

complemented : make_complement by_number (3 ∷ 1 ∷ []) (2 ∷ 1 ∷ []) ≡ 2 ∷ 3 ∷ []
unfolding make_complement
complemented = refl

sized : get_size (codes "ab") ≡ 2
sized = refl

incremented : for_each (3 ∷ 1 ∷ []) (λ n. n + 1) ≡ 4 ∷ 2 ∷ []
incremented = refl

abbrev table : List (ℕ × ℕ)
table = (1, 10) ∷ (2, 20) ∷ []

has_key : contains_key ◌==◌ table 2 ≡ true
unfolding contains_key
has_key = refl

has_pair : contains_pair ◌==◌ ◌==◌ table (2, 10) ≡ false
unfolding contains_pair
has_pair = refl

defaulted : find_or_default ◌==◌ table 7 5 ≡ 5
unfolding find_or_default
defaulted = refl

replaced : replace_value ◌==◌ table 2 7 ≡ ((1, 10) ∷ (2, 7) ∷ [], some 7)
unfolding replace_value
replaced = refl

-- The pair is added, but what is returned is taken from the end of the container.
added_at_end : replace_value ◌==◌ table 3 7 ≡ ((1, 10) ∷ (2, 20) ∷ (3, 7) ∷ [], none)
unfolding replace_value
added_at_end = refl

make_union-Combines_example : Combines by_number (3 ∷ 1 ∷ 3 ∷ []) (2 ∷ 1 ∷ [])
make_union-Combines_example = make_union-Combines by_number (3 ∷ 1 ∷ 3 ∷ []) (2 ∷ 1 ∷ [])
