-- ===== src/Strings/Splitting.antt =====
-- src/hlib_string.cpp: `split` and `join` undo one another.
use hlib.Base.{
  ℕ, zero, suc, ◌+◌, ◌<◌, ◌≡◌, refl, ap, ◌∙◌, sym, Bool, true, false, not, ◌||◌, List, [], ◌∷◌,
  ◌++◌, Bytes, ◌==◌, Bool-cases, inl, inr, append_assoc, append-nil, arith, lt→ltb, length,
}
use hlib.Strings.Parts.{split_loop, split_at, join, is_empty_text, emplace_if}

emplace_or_true : (b : Bool) (x : Bytes) (xs : List Bytes) → emplace_if (b || true) x xs ≡ x ∷ xs
emplace_or_true true x xs = refl
emplace_or_true false x xs = refl

module _ (p : ℕ → Bool) (token : Bytes) (n : ℕ) where
  at_delimiter :
      (c : ℕ) (cs : Bytes)
      → p c ≡ true
      → split_loop p false token n (c ∷ cs) ≡ token ∷ split_loop p false [] (n + 1) cs
  unfolding split_loop
  at_delimiter c cs e = rw (e, split_loop) (emplace_or_true (not (is_empty_text token)) token _)

  at_other :
      (c : ℕ) (cs : Bytes)
      → p c ≡ false
      → split_loop p false token n (c ∷ cs) ≡ split_loop p false (token ++ c ∷ []) n cs
  unfolding split_loop
  at_other c cs e = rw (e, split_loop)

  at_end : 0 < n → split_loop p false token n [] ≡ token ∷ []
  unfolding split_loop
  at_end h = rw (lt→ltb 0 n h) (emplace_or_true (not (is_empty_text token)) token [])

at_end_text :
    (p : ℕ → Bool) (n c : ℕ) (cs : Bytes) → split_loop p false (c ∷ cs) n [] ≡ (c ∷ cs) ∷ []
unfolding split_loop
at_end_text p n c cs = refl

-- While a delimiter was read, there is one token more, at least.
split_loop-cons :
    (p : ℕ → Bool) (token : Bytes) (n : ℕ) (cs : Bytes)
    → 0 < n
    → (x : Bytes) × (xs : List Bytes) × (split_loop p false token n cs ≡ x ∷ xs)
split_loop-cons p token n [] h = (token, [], at_end p token n h)
split_loop-cons p token n (c ∷ cs) h = elim (Bool-cases (p c)) [
  | inl e ↦ (token, split_loop p false [] (n + 1) cs, at_delimiter p token n c cs e)
  | inr e ↦
      let (x, xs, f) = split_loop-cons p (token ++ c ∷ []) n cs h in
      (x, xs, at_other p token n c cs e ∙ f)
]

join-cons :
    (x y : Bytes) (ys : List Bytes) (s : Bytes) {v : List Bytes}
    → v ≡ y ∷ ys
    → join (x ∷ v) s ≡ x ++ (s ++ join v s)
unfolding join
join-cons x y ys s e = rw e

module _ (d : ℕ) where
  -- `[delimiter](char c) { return delimiter == c; }`
  abbrev is_d : ℕ → Bool
  is_d c = d == c

  is_d_eq : (c : ℕ) → is_d c ≡ true → d ≡ c
  is_d_eq c e = ground arith

  join-split_loop :
      (token : Bytes) (n : ℕ) (cs : Bytes)
      → join (split_loop is_d false token n cs) (d ∷ []) ≡ token ++ cs
  unfolding split_loop join
  join-split_loop [] zero [] = refl
  join-split_loop [] (suc n) [] = ap (λ v. join v (d ∷ [])) (at_end is_d [] (suc n) (omega arith))
  join-split_loop (t ∷ ts) n [] = sym (append-nil (t ∷ ts))
  join-split_loop token n (c ∷ cs) = elim (Bool-cases (is_d c)) [
    | inl e ↦
        let (x, xs, f) = split_loop-cons is_d [] (n + 1) cs (omega arith) in
        ap (λ v. join v (d ∷ [])) (at_delimiter is_d token n c cs e)
        ∙ join-cons token x xs (d ∷ []) f
        ∙ ap (λ r. token ++ d ∷ r) (join-split_loop [] (n + 1) cs)
        ∙ ap (λ b. token ++ b ∷ cs) (is_d_eq c e)
    | inr e ↦
        ap (λ v. join v (d ∷ [])) (at_other is_d token n c cs e)
        ∙ join-split_loop (token ++ c ∷ []) n cs
        ∙ append_assoc token (c ∷ []) cs
  ]

  join-split_at : (text : Bytes) → join (split_at text d false) (d ∷ []) ≡ text
  unfolding split_at join
  join-split_at [] = refl
  join-split_at (c ∷ cs) = join-split_loop [] 0 (c ∷ cs)

  -- The character does not occur in the text, or in any of the texts.
  abbrev Free : Bytes → Type 0
  Free [] = Unit
  Free (c ∷ cs) = (is_d c ≡ false) × Free cs

  abbrev AllFree : List Bytes → Type 0
  AllFree [] = Unit
  AllFree (x ∷ xs) = Free x × AllFree xs

  Free-prefix :
      (x : Bytes) (token : Bytes) (n : ℕ) (rest : Bytes)
      → Free x
      → split_loop is_d false token n (x ++ rest) ≡ split_loop is_d false (token ++ x) n rest
  Free-prefix [] token n rest h = ap (λ t. split_loop is_d false t n rest) (sym (append-nil token))
  Free-prefix (c ∷ cs) token n rest h =
      at_other is_d token n c (cs ++ rest) h.0
      ∙ Free-prefix cs (token ++ c ∷ []) n rest h.1
      ∙ ap (λ t. split_loop is_d false t n rest) (append_assoc token (c ∷ []) cs)

  split_loop-join :
      (n : ℕ) (x : Bytes) (xs : List Bytes)
      → AllFree (x ∷ xs)
      → 0 < n + length (join (x ∷ xs) (d ∷ []))
      → split_loop is_d false [] n (join (x ∷ xs) (d ∷ [])) ≡ x ∷ xs
  unfolding join
  split_loop-join n x [] h g =
      ap (split_loop is_d false [] n) (sym (append-nil x)) ∙ Free-prefix x [] n [] h.0 ∙ last x g
    where
      last : (x : Bytes) → 0 < n + length x → split_loop is_d false x n [] ≡ x ∷ []
      last [] g = at_end is_d [] n (omega (arith, g))
      last (c ∷ cs) g = at_end_text is_d n c cs
  split_loop-join n x (y ∷ ys) h g =
      Free-prefix x [] n (d ∷ join (y ∷ ys) (d ∷ [])) h.0
      ∙ at_delimiter is_d x n d (join (y ∷ ys) (d ∷ [])) (let e : is_d d ≡ true = ground arith in e)
      ∙ ap (λ v. x ∷ v) (split_loop-join (n + 1) y ys h.1 (omega arith))

  split_at-loop :
      (text : Bytes) → 0 < length text → split_at text d false ≡ split_loop is_d false [] 0 text
  unfolding split_at
  split_at-loop [] g = absurd (omega arith)
  split_at-loop (c ∷ cs) g = refl

  split_at-join :
      (texts : List Bytes)
      → AllFree texts
      → 0 < length (join texts (d ∷ []))
      → split_at (join texts (d ∷ [])) d false ≡ texts
  unfolding join
  split_at-join [] h g = absurd (omega (arith, g))
  split_at-join (x ∷ xs) h g =
      split_at-loop (join (x ∷ xs) (d ∷ [])) g ∙ split_loop-join 0 x xs h (omega (arith, g))

  -- Splitting a text at a character, with the empty parts kept, and joining the parts with that
  -- character gives the text back. Texts in which the character does not occur, joined with it to a
  -- text that is not empty, are what splitting that text at the character gives.
  pub split_and_join :
      (text : Bytes) (texts : List Bytes)
      → AllFree texts
      → 0 < length (join texts (d ∷ []))
      → (join (split_at text d false) (d ∷ []) ≡ text)
        × (split_at (join texts (d ∷ [])) d false ≡ texts)
  split_and_join text texts h g = (join-split_at text, split_at-join texts h g)
