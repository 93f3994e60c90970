-- ===== src/EventBus/Map.antt =====
-- What src/hlib_event_bus.cpp uses of std::unordered_map with texts as keys: a list of entries, in
-- the order in which the map is run through, where a key has one entry.
use hlib.Base.{
  ◌≡◌, refl, ap, ap₂, sym, ◌∙◌, Bool, true, false, Option, none, some, List, [], ◌∷◌, Bytes, ◌==◌,
  ==_iff, Bool-cases, inl, inr, if◌then◌else◌,
}
use mathlib.Core.Path.{subst}
use hlib.Strings.Integers.{equals}

equals_refl : (xs : Bytes) → equals xs xs ≡ true
unfolding equals
equals_refl [] = refl
equals_refl (x ∷ xs) = rw ((==_iff x x).1 refl, equals_refl xs) refl

pub equals_sound : (xs ys : Bytes) → equals xs ys ≡ true → xs ≡ ys
unfolding equals
equals_sound [] [] h = refl
equals_sound [] (y ∷ ys) h = absurd (cc h)
equals_sound (x ∷ xs) [] h = absurd (cc h)
equals_sound (x ∷ xs) (y ∷ ys) h = elim (Bool-cases (x == y)) [
  | inl e ↦ ap₂ (λ a t. a ∷ t) ((==_iff x y).0 e) (equals_sound xs ys (rw e at h))
  | inr e ↦ absurd (cc (rw e at h))
]

differs : (j k i : Bytes) → j ≡ i → equals k i ≡ false → equals j k ≡ false
differs j k i p e = elim (Bool-cases (equals j k)) [
  | inl f ↦
      let q : k ≡ i = sym (equals_sound j k f) ∙ p in
      absurd (cc (sym e ∙ ap (λ t. equals t i) q ∙ equals_refl i))
  | inr f ↦ f
]

module _ {V : Type 0} where
  -- `find`
  unfoldable pub lookup : Bytes → List (Bytes × V) → Option V
  unfolding equals
  lookup k [] = none
  lookup k ((j, v) ∷ m) = let rest = lookup k m in if equals k j then some v else rest

  -- `map[k] = v`
  unfoldable pub insert_or_assign : Bytes → V → List (Bytes × V) → List (Bytes × V)
  unfolding equals
  insert_or_assign k v [] = (k, v) ∷ []
  insert_or_assign k v ((j, w) ∷ m) =
      let rest = insert_or_assign k v m in if equals k j then (j, v) ∷ m else (j, w) ∷ rest

  -- `erase(it)` for the entry of a key
  unfoldable pub erase_key : Bytes → List (Bytes × V) → List (Bytes × V)
  unfolding equals
  erase_key k [] = []
  erase_key k ((j, w) ∷ m) = let rest = erase_key k m in if equals k j then rest else (j, w) ∷ rest

  -- a run through the map that erases the entries whose value fails a test
  unfoldable pub keep : (V → Bool) → List (Bytes × V) → List (Bytes × V)
  keep test [] = []
  keep test ((k, v) ∷ m) = let rest = keep test m in if test v then (k, v) ∷ rest else rest

module _ {V : Type 0} where
  -- Each key has one entry.
  abbrev pub IsMap : List (Bytes × V) → Type 0
  IsMap [] = Unit
  IsMap ((k, v) ∷ m) = (lookup k m ≡ none) × IsMap m

  pub lookup-insert_or_assign :
      (j k : Bytes) (v : V) (m : List (Bytes × V))
      → lookup j (insert_or_assign k v m) ≡ (if equals j k then some v else lookup j m)
  unfolding lookup insert_or_assign
  lookup-insert_or_assign j k v [] = refl
  lookup-insert_or_assign j k v ((i, w) ∷ m) = elim (Bool-cases (equals k i)) [
    | inl e ↦ rw e (same (equals_sound k i e))
    | inr e ↦ rw e (elim (Bool-cases (equals j i)) [
      | inl f ↦ rw f (other (equals_sound j i f) e)
      | inr f ↦ rw f (lookup-insert_or_assign j k v m)
    ])
  ]
    where
      same :
          k ≡ i
          → (if equals j i then some v else lookup j m)
            ≡ (if equals j k then some v else if equals j i then some w else lookup j m)
      same p = elim (Bool-cases (equals j i)) [
        | inl f ↦
            rw (f, let g : equals j k ≡ true = subst (λ t. equals j t ≡ true) (sym p) f in g) refl
        | inr f ↦
            rw (f, let g : equals j k ≡ false = subst (λ t. equals j t ≡ false) (sym p) f in g) refl
      ]

      other : j ≡ i → equals k i ≡ false → some w ≡ (if equals j k then some v else some w)
      other p e = rw (differs j k i p e) refl

  pub lookup-erase_key :
      (j k : Bytes) (m : List (Bytes × V))
      → lookup j (erase_key k m) ≡ (if equals j k then none else lookup j m)
  unfolding lookup erase_key
  lookup-erase_key j k [] = elim (Bool-cases (equals j k)) [ inl e ↦ rw e refl | inr e ↦ rw e refl ]
  lookup-erase_key j k ((i, w) ∷ m) = elim (Bool-cases (equals k i)) [
    | inl e ↦ rw e (lookup-erase_key j k m ∙ same (equals_sound k i e))
    | inr e ↦ rw e (elim (Bool-cases (equals j i)) [
      | inl f ↦ rw (f, differs j k i (equals_sound j i f) e) refl
      | inr f ↦ rw f (lookup-erase_key j k m)
    ])
  ]
    where
      same :
          k ≡ i
          → (if equals j k then none else lookup j m)
            ≡ (if equals j k then none else if equals j i then some w else lookup j m)
      same p = elim (Bool-cases (equals j k)) [
        | inl f ↦ rw f refl
        | inr f ↦ rw (f, let g : equals j i ≡ false = subst (λ t. equals j t ≡ false) p f in g) refl
      ]

  -- What a run through the map leaves of one value.
  abbrev pub kept : (V → Bool) → Option V → Option V
  kept test none = none
  kept test (some v) = if test v then some v else none

  pub lookup-keep :
      (test : V → Bool) (j : Bytes) (m : List (Bytes × V))
      → IsMap m
      → lookup j (keep test m) ≡ kept test (lookup j m)
  unfolding keep lookup
  lookup-keep test j [] h = refl
  lookup-keep test j ((i, w) ∷ m) h = elim (Bool-cases (test w)) [
    | inl e ↦ rw e (elim (Bool-cases (equals j i)) [
      | inl f ↦ rw (f, kept) (rw e refl)
      | inr f ↦ rw f (lookup-keep test j m h.1)
    ])
    | inr e ↦ rw e (elim (Bool-cases (equals j i)) [
      | inl f ↦ rw f (
          lookup-keep test j m h.1
          ∙ ap (kept test) (ap (λ t. lookup t m) (equals_sound j i f) ∙ h.0)
          ∙ sym (rw e refl))
      | inr f ↦ rw f (lookup-keep test j m h.1)
    ])
  ]

module _ {V : Type 0} where
  pub IsMap-insert_or_assign :
      (k : Bytes) (v : V) (m : List (Bytes × V)) → IsMap m → IsMap (insert_or_assign k v m)
  unfolding insert_or_assign lookup
  IsMap-insert_or_assign k v [] h = (refl, tt)
  IsMap-insert_or_assign k v ((j, w) ∷ m) h = elim (Bool-cases (equals k j)) [
    | inl e ↦ rw e h
    | inr e ↦ rw e (
      lookup-insert_or_assign j k v m ∙ rw (differs j k j refl e, h.0) refl,
      IsMap-insert_or_assign k v m h.1,
    )
  ]

  pub IsMap-erase_key : (k : Bytes) (m : List (Bytes × V)) → IsMap m → IsMap (erase_key k m)
  unfolding erase_key lookup
  IsMap-erase_key k [] h = tt
  IsMap-erase_key k ((j, w) ∷ m) h = elim (Bool-cases (equals k j)) [
    | inl e ↦ rw e (IsMap-erase_key k m h.1)
    | inr e ↦ rw e (
      lookup-erase_key j k m
          ∙ rw (h.0) (elim (Bool-cases (equals j k)) [ inl f ↦ rw f refl | inr f ↦ rw f refl ]),
      IsMap-erase_key k m h.1,
    )
  ]

  pub IsMap-keep : (test : V → Bool) (m : List (Bytes × V)) → IsMap m → IsMap (keep test m)
  unfolding keep lookup
  IsMap-keep test [] h = tt
  IsMap-keep test ((j, w) ∷ m) h = elim (Bool-cases (test w)) [
    | inl e ↦ rw e (lookup-keep test j m h.1 ∙ ap (kept test) h.0, IsMap-keep test m h.1)
    | inr e ↦ rw e (IsMap-keep test m h.1)
  ]

  pub keep_cong :
      (f g : V → Bool) → ((v : V) → f v ≡ g v) → (m : List (Bytes × V)) → keep f m ≡ keep g m
  unfolding keep
  keep_cong f g h [] = refl
  keep_cong f g h ((k, v) ∷ m) = rw (h v, keep_cong f g h m) refl
