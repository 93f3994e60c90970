-- ===== src/Strings/Counting.antt =====
-- src/hlib_string.cpp: what the loop of `count` counts, and when it ends.
use hlib.Base.{
  ℕ, zero, suc, ◌+◌, ◌≤◌, ◌<◌, ◌≡◌, refl, ap, ◌∙◌, false, [], ◌∷◌, Bytes, none, some, length, drop,
  Bool-cases, Option-cases, inl, inr, arith, is_prefix, find_at, find, Found, find-Found,
}
use hlib.Strings.Parts.{count, count_from}

-- The pattern stands nowhere from a place on.
abbrev pub NowhereFrom : Bytes → Bytes → ℕ → Type 0
NowhereFrom xs ys from = (j : ℕ) → from ≤ j → is_prefix (drop j xs) ys ≡ false

-- The occurrences from a place on, each the first one behind the one before, are n.
pub data Occurrences (xs ys : Bytes) : ℕ → ℕ → Type 0 where
  no_more : {from : ℕ} → NowhereFrom xs ys from → Occurrences xs ys from 0
  one_more :
      {from at n : ℕ}
      → Found xs ys from at
      → Occurrences xs ys (at + length ys) n
      → Occurrences xs ys from (suc n)

module _ (y : ℕ) (ys : Bytes) where
  find_at-none : (xs : Bytes) (i : ℕ) → find_at xs (y ∷ ys) i ≡ none → NowhereFrom xs (y ∷ ys) 0
  unfolding find_at is_prefix
  find_at-none [] i e zero h = refl
  find_at-none [] i e (suc j) h = refl
  find_at-none (x ∷ xs) i e zero h = elim (Bool-cases (is_prefix (x ∷ xs) (y ∷ ys))) [
    | inl stands ↦ absurd (cc (rw stands at e))
    | inr later ↦ later
  ]
  find_at-none (x ∷ xs) i e (suc j) h = elim (Bool-cases (is_prefix (x ∷ xs) (y ∷ ys))) [
    | inl stands ↦ absurd (cc (rw stands at e))
    | inr later ↦ find_at-none xs (i + 1) (rw later at e) j (omega arith)
  ]

  pub find-none :
      (xs : Bytes) (from : ℕ) → find xs (y ∷ ys) from ≡ none → NowhereFrom xs (y ∷ ys) from
  unfolding find is_prefix
  find-none xs zero e j h = find_at-none xs 0 e j h
  find-none [] (suc from) e zero h = refl
  find-none [] (suc from) e (suc j) h = refl
  find-none (x ∷ xs) (suc from) e zero h = absurd (omega arith)
  find-none (x ∷ xs) (suc from) e (suc j) h = elim (Option-cases (find xs (y ∷ ys) from)) [
    | inl no_place ↦ find-none xs from no_place j (omega arith)
    | inr (at, place) ↦ absurd (cc (rw (place, find) at e))
  ]

  count_from-Occurrences :
      (fuel : ℕ) (xs : Bytes) (from k : ℕ)
      → length xs < from + fuel
      → from ≤ length xs
      → (n : ℕ) × (count_from fuel xs (y ∷ ys) from k ≡ some (k + n))
        × Occurrences xs (y ∷ ys) from n
  unfolding count_from
  count_from-Occurrences zero xs from k h g = absurd (omega arith)
  count_from-Occurrences (suc fuel) xs from k h g = elim (Option-cases (find xs (y ∷ ys) from)) [
    | inl e ↦ (0, rw (e, count_from) (ap some (omega arith)), no_more (find-none xs from e))
    | inr (at, e) ↦
        let f = find-Found xs (y ∷ ys) from e in
        let (n, r, o) =
          count_from-Occurrences fuel xs (at + length (y ∷ ys)) (k + 1)
            (omega (arith, f.not_before)) f.within in
        (suc n, rw (e, count_from) (r ∙ ap some (omega arith)), one_more f o)
  ]

  -- For a text to look for that is not empty, the loop of `count` ends within one round more than
  -- the string is long, and returns the number of occurrences that do not overlap, taken from the
  -- left.
  pub count-Occurrences :
      (xs : Bytes)
      → (n : ℕ) × (count (length xs + 1) xs (y ∷ ys) ≡ some n) × Occurrences xs (y ∷ ys) 0 n
  unfolding count
  count-Occurrences xs =
      let (n, r, o) = count_from-Occurrences (length xs + 1) xs 0 0 (omega arith) (omega arith) in
      (n, r ∙ ap some (omega arith), o)

pub find_empty : (xs : Bytes) → find xs [] 0 ≡ some 0
unfolding find find_at is_prefix
find_empty [] = refl
find_empty (x ∷ xs) = refl

count_from-empty : (fuel : ℕ) (xs : Bytes) (k : ℕ) → count_from fuel xs [] 0 k ≡ none
unfolding count_from
count_from-empty zero xs k = refl
count_from-empty (suc fuel) xs k = rw (find_empty xs, count_from) (count_from-empty fuel xs (k + 1))

-- For the empty text to look for, the loop of `count` never ends: no number of rounds is enough,
-- whatever the string is.
pub count_diverges : (fuel : ℕ) (xs : Bytes) → count fuel xs [] ≡ none
unfolding count
count_diverges fuel xs = count_from-empty fuel xs 0
