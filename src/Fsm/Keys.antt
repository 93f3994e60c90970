-- ===== src/Fsm/Keys.antt =====
-- include/hlib/fsm.hpp: the keys of `combine`, and the table that the constructor fills.
use hlib.Base.{
  ℕ, ◌+◌, ◌*◌, ◌%◌, ◌^◌, ◌<◌, ◌≡◌, refl, ap, ◌∙◌, sym, Bool, true, false, ◌&&◌, Option, none, some,
  List, [], ◌∷◌, ◌++◌, ◌==◌, ==_iff, if◌then◌else◌, ℤ, pos, negsuc, bit_or_low, arith, Bool-cases,
  Option-cases, inl, inr,
}
use mathlib.Core.Option.{some-injective}
use mathlib.Core.Path.{subst}
use hlib.Fsm.{combine, Transition, TransitionCallback, Table, find_key, emplace, emplace_all}

-- An enumerator that is not negative and has at most 32 bits.
abbrev pub IsCode : ℤ → Type 0
IsCode (pos n) = n < 2 ^ 32
IsCode (negsuc n) = ⊥

unfoldable pub same : ℤ → ℤ → Bool
same (pos m) (pos n) = m == n
same (negsuc m) (negsuc n) = m == n
same _ _ = false

combine_lem : (s e : ℕ) → s < 2 ^ 32 → e < 2 ^ 32 → combine (pos s) (pos e) ≡ e * 2 ^ 32 + s
unfolding combine
combine_lem s e h g =
    rw
      (
        let z : s % 2 ^ 64 ≡ s = omega arith in z,
        let z : e % 2 ^ 64 ≡ e = omega arith in z,
        let z : e * 2 ^ 32 % 2 ^ 64 ≡ e * 2 ^ 32 = omega arith in z,
      )
      (bit_or_low 32 e s h)

key_equal :
    (s e s' e' : ℕ)
    → s < 2 ^ 32
    → s' < 2 ^ 32
    → (e * 2 ^ 32 + s == e' * 2 ^ 32 + s') ≡ (s == s' && e == e')
key_equal s e s' e' h h' = elim (Bool-cases (s == s')) [
  | inl a ↦ elim (Bool-cases (e == e')) [
    | inl b ↦ rw (a, b) (ground arith)
    | inr b ↦ rw (a, b) (ground arith)
  ]
  | inr a ↦ rw a (ground arith)
]

-- The keys of two pairs of such enumerators are the same exactly if the pairs are.
combine-same :
    (s e s' e' : ℤ)
    → IsCode s
    → IsCode e
    → IsCode s'
    → IsCode e'
    → (combine s e == combine s' e') ≡ (same s s' && same e e')
unfolding same
combine-same (pos s) (pos e) (pos s') (pos e') h g h' g' =
    rw (combine_lem s e h g, combine_lem s' e' h' g') (key_equal s e s' e' h h')
combine-same (negsuc s) e s' e' h g h' g' = absurd h
combine-same (pos s) (negsuc e) s' e' h g h' g' = absurd g
combine-same (pos s) (pos e) (negsuc s') e' h g h' g' = absurd h'
combine-same (pos s) (pos e) (pos s') (negsuc e') h g h' g' = absurd g'

abbrev or_else : {A : Type 0} → Option A → Option A → Option A
or_else none o = o
or_else (some a) o = some a

or_else-none : {A : Type 0} (o : Option A) → or_else o none ≡ o
or_else-none none = refl
or_else-none (some a) = refl

or_else_assoc : {A : Type 0} (o p q : Option A) → or_else (or_else o p) q ≡ or_else o (or_else p q)
or_else_assoc none p q = refl
or_else_assoc (some a) p q = refl

module _ {Data World : Type 0} where
  -- The first transition of the list for a state and an event.
  unfoldable pub first_transition :
      List (Transition Data World) → ℤ → ℤ → Option (ℤ × Option (TransitionCallback Data World))
  unfolding same
  first_transition [] state event = none
  first_transition (t ∷ ts) state event =
      let rest = first_transition ts state event in
      if same state t.from && same event t.event then some (t.to, t.callback) else rest

  find_key-append :
      (key : ℕ) (table more : Table Data World)
      → find_key key (table ++ more) ≡ or_else (find_key key table) (find_key key more)
  unfolding find_key
  find_key-append key [] more = refl
  find_key-append key ((k, v) ∷ table) more = elim (Bool-cases (key == k)) [
    | inl e ↦ rw e
    | inr e ↦ rw e (find_key-append key table more)
  ]

  find_key-emplace :
      (key k : ℕ) (v : ℤ × Option (TransitionCallback Data World)) (table : Table Data World)
      → find_key key (emplace k v table)
        ≡ or_else (find_key key table) (if key == k then some v else none)
  unfolding emplace
  find_key-emplace key k v table = elim (Option-cases (find_key k table)) [
    | inl e ↦
        rw (e, emplace)
          (find_key-append key table ((k, v) ∷ []) ∙ ap (or_else (find_key key table)) one)
    | inr (w, e) ↦
        rw (e, emplace)
          (elim (Bool-cases (key == k)) [
            | inl h ↦ rw (h, ap (λ i. find_key i table) ((==_iff key k).0 h) ∙ e)
            | inr h ↦ rw h (sym (or_else-none (find_key key table)))
          ])
  ]
    where
      one : find_key key ((k, v) ∷ []) ≡ (if key == k then some v else none)
      one = refl

  -- All enumerators of the transitions have at most 32 bits and are not negative.
  abbrev pub AreCodes : List (Transition Data World) → Type 0
  AreCodes [] = Unit
  AreCodes (t ∷ ts) = (IsCode t.from × (IsCode t.event × IsCode t.to)) × AreCodes ts

  if-or_else :
      (b : Bool) (v : ℤ × Option (TransitionCallback Data World))
      (o : Option (ℤ × Option (TransitionCallback Data World)))
      → or_else (if b then some v else none) o ≡ (if b then some v else o)
  if-or_else true v o = refl
  if-or_else false v o = refl

  find_key-emplace_all :
      (state event : ℤ) (table : Table Data World) (ts : List (Transition Data World))
      → IsCode state
      → IsCode event
      → AreCodes ts
      → find_key (combine state event) (emplace_all table ts)
        ≡ or_else (find_key (combine state event) table) (first_transition ts state event)
  unfolding emplace_all first_transition
  find_key-emplace_all state event table [] h g a =
      sym (or_else-none (find_key (combine state event) table))
  find_key-emplace_all state event table (t ∷ ts) h g a =
      let key = combine state event in
      let v : ℤ × Option (TransitionCallback Data World) = (t.to, t.callback) in
      find_key-emplace_all state event (emplace (combine t.from t.event) v table) ts h g a.1
      ∙ ap (λ o. or_else o (first_transition ts state event))
          (find_key-emplace key (combine t.from t.event) v table)
      ∙ or_else_assoc (find_key key table) _ (first_transition ts state event)
      ∙ ap (or_else (find_key key table)) (
          if-or_else (key == combine t.from t.event) v (first_transition ts state event)
          ∙ ap (λ b. if b then some v else first_transition ts state event)
              (combine-same state event t.from t.event h g a.0.0 a.0.1.0))

  -- The table of the constructor holds, for each state and event, the first transition of the list.
  pub find_key-first_transition :
      (state event : ℤ) (ts : List (Transition Data World))
      → IsCode state
      → IsCode event
      → AreCodes ts
      → find_key (combine state event) (emplace_all [] ts) ≡ first_transition ts state event
  unfolding find_key
  find_key-first_transition state event ts h g a = find_key-emplace_all state event [] ts h g a

  pub first_transition-IsCode :
      (state event : ℤ) (ts : List (Transition Data World)) {to : ℤ}
      {callback : Option (TransitionCallback Data World)}
      → AreCodes ts
      → first_transition ts state event ≡ some (to, callback)
      → IsCode to
  unfolding first_transition
  first_transition-IsCode state event [] a e = absurd (cc e)
  first_transition-IsCode state event (t ∷ ts) {to} a e =
      elim (Bool-cases (same state t.from && same event t.event)) [
        | inl h ↦ subst IsCode (ap (λ r. r.0) (some-injective _ _ (rw h at e))) a.0.1.1
        | inr h ↦ first_transition-IsCode state event ts a.1 (rw h at e)
      ]
