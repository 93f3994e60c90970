-- ===== src/Container/Sorted.antt =====
-- include/hlib/container.hpp: what the sets of `std::set` hold.
use hlib.Base.{
  ◌≡◌, refl, ap, sym, ◌∙◌, Bool, true, false, not, ◌&&◌, ◌||◌, List, [], ◌∷◌, Bool-cases, inl, inr,
}
use hlib.Container.{Less, same, contains, set_insert, set_insert_all, set_erase}

module _ {A : Type 0} (order : Less A) where
  -- All values are above one.
  abbrev pub AllAbove : A → List A → Type 0
  AllAbove a [] = Unit
  AllAbove a (x ∷ xs) = (order.less a x ≡ true) × AllAbove a xs

  abbrev pub IsSorted : List A → Type 0
  IsSorted [] = Unit
  IsSorted (x ∷ xs) = AllAbove x xs × IsSorted xs

  pub same_refl : (a : A) → same order a a ≡ true
  same_refl a = rw (order.irreflexive a) refl

  pub same_sound : (a b : A) → same order a b ≡ true → a ≡ b
  same_sound a b h = elim (Bool-cases (order.less a b)) [
    | inl e ↦ absurd (cc (rw e at h))
    | inr e ↦ elim (Bool-cases (order.less b a)) [
      | inl f ↦ absurd (cc (rw (e, f) at h))
      | inr f ↦ order.total a b e f
    ]
  ]

  swap : (a b c : Bool) → (a || (b || c)) ≡ (b || (a || c))
  swap true true c = refl
  swap true false c = refl
  swap false b c = refl

  absorbed : (a b c : Bool) → (a ≡ b) → (a || c) ≡ (b || (a || c))
  absorbed true b c e = rw (sym e) refl
  absorbed false b c e = rw (sym e) refl

  pub contains-set_insert :
      (value : A) (set : List A) (x : A)
      → contains order (set_insert order value set) x ≡ (same order x value || contains order set x)
  unfolding contains set_insert
  contains-set_insert value [] x = refl
  contains-set_insert value (y ∷ ys) x = elim (Bool-cases (order.less value y)) [
    | inl e ↦ rw e refl
    | inr e ↦ elim (Bool-cases (order.less y value)) [
      | inl f ↦
          rw (e, f)
            (ap (λ b. same order x y || b) (contains-set_insert value ys x)
              ∙ swap (same order x y) (same order x value) (contains order ys x))
      | inr f ↦
          rw (e, f)
            (absorbed (same order x y) (same order x value) (contains order ys x)
              (ap (same order x) (sym (order.total value y e f))))
    ]
  ]

  erased_here : (b c : Bool) → (not b && c) ≡ (not b && (b || c))
  erased_here true c = refl
  erased_here false c = refl

  kept_here : (b s c : Bool) → (b ≡ true → s ≡ false) → (b || (not s && c)) ≡ (not s && (b || c))
  kept_here true s c h = rw (h refl) refl
  kept_here false true c h = refl
  kept_here false false c h = refl

  -- A value that is the same as another is compared as it.
  same-same : (x y z : A) → same order x y ≡ true → same order y z ≡ same order x z
  same-same x y z h = ap (λ a. same order a z) (sym (same_sound x y h))

  same_apart : (v x y : A) → same order v y ≡ false → same order x y ≡ true → same order x v ≡ false
  same_apart v x y e h = elim (Bool-cases (same order x v)) [
    | inl f ↦ absurd (cc (sym e ∙ same-same x v y f ∙ h))
    | inr f ↦ f
  ]

  pub contains-set_erase :
      (value : A) (set : List A) (x : A)
      → contains order (set_erase order value set) x
        ≡ (not (same order x value) && contains order set x)
  unfolding contains set_erase
  contains-set_erase value [] x = sym (false_behind (not (same order x value)))
    where
      false_behind : (b : Bool) → (b && false) ≡ false
      false_behind true = refl
      false_behind false = refl
  contains-set_erase value (y ∷ ys) x = elim (Bool-cases (same order value y)) [
    | inl e ↦ rw e (
        contains-set_erase value ys x
        ∙ erased_here (same order x value) (contains order ys x)
        ∙ ap (λ b. not (same order x value) && (b || contains order ys x))
            (ap (same order x) (same_sound value y e)))
    | inr e ↦ rw e (
        ap (λ b. same order x y || b) (contains-set_erase value ys x)
        ∙ kept_here (same order x y) (same order x value) (contains order ys x)
            (same_apart value x y e))
  ]

  AllAbove-AllAbove :
      (a x : A) (xs : List A) → order.less a x ≡ true → AllAbove x xs → AllAbove a xs
  AllAbove-AllAbove a x [] h k = tt
  AllAbove-AllAbove a x (y ∷ ys) h k =
      (order.transitive a x y h k.0, AllAbove-AllAbove a x ys h k.1)

  AllAbove-set_insert :
      (a value : A) (set : List A)
      → order.less a value ≡ true
      → AllAbove a set
      → AllAbove a (set_insert order value set)
  unfolding set_insert
  AllAbove-set_insert a value [] h k = (h, tt)
  AllAbove-set_insert a value (x ∷ xs) h k = elim (Bool-cases (order.less value x)) [
    | inl e ↦ rw e (h, k)
    | inr e ↦ elim (Bool-cases (order.less x value)) [
      | inl f ↦ rw (e, f) (k.0, AllAbove-set_insert a value xs h k.1)
      | inr f ↦ rw (e, f) k
    ]
  ]

  pub set_insert-IsSorted :
      (value : A) (set : List A) → IsSorted set → IsSorted (set_insert order value set)
  unfolding set_insert
  set_insert-IsSorted value [] h = (tt, tt)
  set_insert-IsSorted value (x ∷ xs) h = elim (Bool-cases (order.less value x)) [
    | inl e ↦ rw e ((e, AllAbove-AllAbove value x xs e h.0), h)
    | inr e ↦ elim (Bool-cases (order.less x value)) [
      | inl f ↦ rw (e, f) (AllAbove-set_insert x value xs f h.0, set_insert-IsSorted value xs h.1)
      | inr f ↦ rw (e, f) h
    ]
  ]

  pub set_insert_all-IsSorted :
      (xs set : List A) → IsSorted set → IsSorted (set_insert_all order xs set)
  unfolding set_insert_all
  set_insert_all-IsSorted [] set h = h
  set_insert_all-IsSorted (x ∷ xs) set h =
      set_insert_all-IsSorted xs (set_insert order x set) (set_insert-IsSorted x set h)

  moved : (a b c : Bool) → (a || (b || c)) ≡ ((b || a) || c)
  moved true true c = refl
  moved true false c = refl
  moved false true c = refl
  moved false false c = refl

  pub contains-set_insert_all :
      (xs set : List A) (x : A)
      → contains order (set_insert_all order xs set) x
        ≡ (contains order xs x || contains order set x)
  unfolding set_insert_all contains
  contains-set_insert_all [] set x = refl
  contains-set_insert_all (y ∷ ys) set x =
      contains-set_insert_all ys (set_insert order y set) x
      ∙ ap (λ b. contains order ys x || b) (contains-set_insert y set x)
      ∙ moved (contains order ys x) (same order x y) (contains order set x)

  -- A set has a value once.
  abbrev pub IsUnique : List A → Type 0
  IsUnique [] = Unit
  IsUnique (x ∷ xs) = (contains order xs x ≡ false) × IsUnique xs

  absent_below : (a : A) (xs : List A) → AllAbove a xs → contains order xs a ≡ false
  unfolding contains
  absent_below a [] h = refl
  absent_below a (x ∷ xs) h = rw (h.0, absent_below a xs h.1) refl

  pub IsSorted-IsUnique : (xs : List A) → IsSorted xs → IsUnique xs
  IsSorted-IsUnique [] h = tt
  IsSorted-IsUnique (x ∷ xs) h = (absent_below x xs h.0, IsSorted-IsUnique xs h.1)
