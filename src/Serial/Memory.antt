-- ===== src/Serial/Memory.antt =====
-- Stores into memory: what they change and what they leave.
use hlib.Base.{
  ℕ, zero, suc, ◌+◌, ◌≤◌, ◌<◌, ◌≡◌, ◌≢◌, refl, ap, ◌∙◌, sym, ap₂, ◌++◌, take, drop, length-append,
  length-take, length-drop, append_assoc, take-append_length, drop-append_length, drop-drop,
  take-append-drop, ◌⊎◌, inl, inr, [], ◌∷◌, none, some, Bytes, length, get_elem?, arith,
}
use native.Mathlib.Decide.{dec_lt}
use hlib.Serial.{poke, stores}

-- The values `vs` stand in memory m from p on.
abbrev pub Holds : Bytes → ℕ → Bytes → Type 0
Holds m p vs = (i : ℕ) → i < length vs → get_elem? m (p + i) ≡ get_elem? vs i

-- Memory m with the values `vs` from p on, and nothing else changed, is m'.
pub record Stored (m : Bytes) (p : ℕ) (vs m' : Bytes) : Type 0 where
  pub cells : Holds m' p vs
  pub others : (j : ℕ) → (j < p) ⊎ (p + length vs ≤ j) → get_elem? m' j ≡ get_elem? m j
  pub same_length : length m' ≡ length m

record Poked (m : Bytes) (p v : ℕ) (m' : Bytes) : Type 0 where
  pokes : poke m p v ≡ some m'
  cell : get_elem? m' p ≡ some v
  others : (j : ℕ) → j ≢ p → get_elem? m' j ≡ get_elem? m j
  same_length : length m' ≡ length m

poke-Poked : (m : Bytes) (p v : ℕ) → p < length m → (m' : Bytes) × Poked m p v m'
unfolding poke
poke-Poked [] p v h = absurd (omega arith)
poke-Poked (x ∷ xs) zero v h =
    (v ∷ xs, record { pokes = refl; cell = refl; others = elsewhere; same_length = refl })
  where
    elsewhere : (j : ℕ) → j ≢ 0 → get_elem? (v ∷ xs) j ≡ get_elem? (x ∷ xs) j
    elsewhere zero ne = absurd (ne refl)
    elsewhere (suc j) ne = refl
poke-Poked (x ∷ xs) (suc p) v h =
    let (ys, k) = poke-Poked xs p v (omega arith) in
    (
      x ∷ ys,
      record {
        pokes = rw k.pokes;
        cell = k.cell;
        others = elsewhere ys k;
        same_length = ap suc k.same_length;
      },
    )
  where
    elsewhere :
        (ys : Bytes)
        → Poked xs p v ys
        → (j : ℕ) → j ≢ suc p
        → get_elem? (x ∷ ys) j ≡ get_elem? (x ∷ xs) j
    elsewhere ys k zero ne = refl
    elsewhere ys k (suc j) ne = k.others j (λ e. ne (ap suc e))

Stored-cons :
    {m m1 m2 : Bytes} {p : ℕ} (v : ℕ) (vs : Bytes)
    → Poked m p v m1
    → Stored m1 (p + 1) vs m2
    → Stored m p (v ∷ vs) m2
Stored-cons {m} {m1} {m2} {p} v vs k s = record {
  cells = cell_at;
  others = other_at;
  same_length = s.same_length ∙ k.same_length;
}
  where
    cell_at : (i : ℕ) → i < length (v ∷ vs) → get_elem? m2 (p + i) ≡ get_elem? (v ∷ vs) i
    cell_at zero h =
        ap (get_elem? m2) (let t : p + 0 ≡ p = omega arith in t)
        ∙ s.others p (inl (omega arith))
        ∙ k.cell
    cell_at (suc i) h =
        ap (get_elem? m2) (let t : p + suc i ≡ p + 1 + i = omega arith in t)
        ∙ s.cells i (omega arith)

    other_at : (j : ℕ) → (j < p) ⊎ (p + length (v ∷ vs) ≤ j) → get_elem? m2 j ≡ get_elem? m j
    other_at j (inl h) = s.others j (inl (omega arith)) ∙ k.others j (omega arith)
    other_at j (inr h) = s.others j (inr (omega arith)) ∙ k.others j (omega arith)

-- Stores inside the memory succeed.
pub stores-Stored :
    (m : Bytes) (p : ℕ) (vs : Bytes)
    → p + length vs ≤ length m
    → (m' : Bytes) × (stores m p vs ≡ some m') × Stored m p vs m'
unfolding stores
stores-Stored m p [] h = (
  m,
  refl,
  record { cells = λ i g. absurd (omega arith); others = λ j g. refl; same_length = refl },
)
stores-Stored m p (v ∷ vs) h =
    let (m1, k) = poke-Poked m p v (omega arith) in
    let (m2, e, s) = stores-Stored m1 (p + 1) vs (omega (arith, k.same_length)) in
    (m2, rw k.pokes e, Stored-cons v vs k s)

poke_outside : (m : Bytes) (p v : ℕ) → length m ≤ p → poke m p v ≡ none
unfolding poke
poke_outside [] p v h = refl
poke_outside (x ∷ xs) zero v h = absurd (omega arith)
poke_outside (x ∷ xs) (suc p) v h = rw (poke_outside xs p v (omega arith))

-- Stores of which one falls outside the memory fail.
pub stores_outside :
    (m : Bytes) (p : ℕ) (vs : Bytes)
    → length m < p + length vs
    → p ≤ length m
    → stores m p vs ≡ none
unfolding stores
stores_outside m p [] h g = absurd (omega arith)
stores_outside m p (v ∷ vs) h g = elim (dec_lt p (length m)) [
  | yes inside ↦
      let (m1, k) = poke-Poked m p v inside in
      rw k.pokes
        (stores_outside m1 (p + 1) vs (omega (arith, k.same_length)) (omega (arith, k.same_length)))
  | no outside ↦ rw (poke_outside m p v (omega arith))
]

get_elem?-append_left :
    (xs ys : Bytes) (i : ℕ) → i < length xs → get_elem? (xs ++ ys) i ≡ get_elem? xs i
get_elem?-append_left [] ys i h = absurd (omega arith)
get_elem?-append_left (x ∷ xs) ys zero h = refl
get_elem?-append_left (x ∷ xs) ys (suc i) h = get_elem?-append_left xs ys i (omega arith)

get_elem?-append_right :
    (xs ys : Bytes) (p i : ℕ) → length xs ≡ p → get_elem? (xs ++ ys) (p + i) ≡ get_elem? ys i
get_elem?-append_right [] ys p i h = ap (get_elem? ys) (omega arith)
get_elem?-append_right (x ∷ xs) ys zero i h = absurd (omega arith)
get_elem?-append_right (x ∷ xs) ys (suc p) i h =
    ap (get_elem? (x ∷ (xs ++ ys))) (let t : suc p + i ≡ suc (p + i) = omega arith in t)
    ∙ get_elem?-append_right xs ys p i (omega arith)

pub Holds-append : (xs vs rest : Bytes) (p : ℕ) → length xs ≡ p → Holds (xs ++ (vs ++ rest)) p vs
Holds-append xs vs rest p h i g =
    get_elem?-append_right xs (vs ++ rest) p i h ∙ get_elem?-append_left vs rest i g

-- Stores inside the memory, as an equation.
stored : Bytes → ℕ → ℕ → Bytes
stored m p v = take p m ++ (v ∷ drop (p + 1) m)

module _ (m : Bytes) (p v : ℕ) (inside : p < length m) where
  length-stored : length (stored m p v) ≡ length m
  unfolding stored
  length-stored =
      omega (
        arith,
        length-append (take p m) (v ∷ drop (p + 1) m),
        length-take p m,
        length-drop (p + 1) m,
      )

  split-stored : stored m p v ≡ (take p m ++ v ∷ []) ++ drop (p + 1) m
  unfolding stored
  split-stored = sym (append_assoc (take p m) (v ∷ []) (drop (p + 1) m))

  length-stored_front : length (take p m ++ v ∷ []) ≡ p + 1
  length-stored_front = omega (arith, length-append (take p m) (v ∷ []), length-take p m)

  take-stored : take (p + 1) (stored m p v) ≡ take p m ++ v ∷ []
  take-stored =
      ap (take (p + 1)) split-stored
      ∙ take-append_length (p + 1) (take p m ++ v ∷ []) (drop (p + 1) m) length-stored_front

  drop-stored : (k : ℕ) → drop (p + 1 + k) (stored m p v) ≡ drop (p + 1 + k) m
  drop-stored k =
      sym (drop-drop k (p + 1) (stored m p v))
      ∙ ap (drop k) (
          ap (drop (p + 1)) split-stored
          ∙ drop-append_length (p + 1) (take p m ++ v ∷ []) (drop (p + 1) m) length-stored_front)
      ∙ drop-drop k (p + 1) m

poke_lem : (m : Bytes) (p v : ℕ) → p < length m → poke m p v ≡ some (stored m p v)
unfolding poke stored
poke_lem [] p v h = absurd (omega arith)
poke_lem (x ∷ xs) zero v h = refl
poke_lem (x ∷ xs) (suc p) v h =
    rw (poke_lem xs p v (omega arith), let t : suc p + 1 ≡ suc (p + 1) = omega arith in t)

pub stores_lem :
    (m : Bytes) (p : ℕ) (vs : Bytes)
    → p + length vs ≤ length m
    → stores m p vs ≡ some (take p m ++ (vs ++ drop (p + length vs) m))
unfolding stores
stores_lem m p [] h =
    ap some (sym (take-append-drop p m) ∙ ap (λ k. take p m ++ drop k m) (omega arith))
stores_lem m p (v ∷ vs) h = rw (poke_lem m p v (omega arith)) (
    stores_lem (stored m p v) (p + 1) vs (omega (arith, length-stored m p v (omega arith)))
    ∙ ap some (
        ap₂ (λ t d. t ++ (vs ++ d)) (take-stored m p v (omega arith))
          (drop-stored m p v (omega arith) (length vs) ∙ ap (λ k. drop k m) (omega arith))
        ∙ append_assoc (take p m) (v ∷ []) _))
