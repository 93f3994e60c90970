-- ===== src/Uri/Preferring.antt =====
-- src/hlib_uri.cpp: the parts of a text that the expression of `uri_parse` prefers to take.
use hlib.Base.{
  ℕ, ◌≡◌, ◌≢◌, refl, ap, ◌∙◌, sym, none, some, [], ◌∷◌, ◌++◌, Bytes, codes, mem_byte, Bool-cases,
  Option-cases, inl, inr,
}
use hlib.Uri.{Match, span, take_scheme, take_authority, group_or, scheme_of, after_byte}
use hlib.Uri.Parsing.{Avoids, StopsAt, span-StopsAt, span_lem, matched}
use hlib.Uri.Cutting.{span-stop}

-- Each part is there if it can be, and is as long as it can be: a text that starts with a scheme and a
-- colon has that scheme; what starts with two slashes has an authority; and that ends at the end or where
-- a slash, a backslash, a question mark or a hash is.
pub record Prefers (string : Bytes) (m : Match) : Type 0 where
  pub takes_scheme :
      (c : ℕ) (cs rest : Bytes)
      → Avoids (codes ":\\/?#") (c ∷ cs)
      → string ≡ (c ∷ cs) ++ 58 ∷ rest
      → m.scheme ≡ some (c ∷ cs)
  pub takes_authority : m.authority ≡ none → (rest : Bytes) → m.path ≢ 47 ∷ 47 ∷ rest
  pub authority_ends : (xs : Bytes) → m.authority ≡ some xs → StopsAt (codes "\\/?#") m.path

take_scheme-front :
    (c : ℕ) (cs rest : Bytes)
    → Avoids (codes ":\\/?#") (c ∷ cs)
    → (take_scheme ((c ∷ cs) ++ 58 ∷ rest)).0 ≡ some (c ∷ cs)
unfolding take_scheme
take_scheme-front c cs rest h =
    ap (λ t. (group_or ((c ∷ cs) ++ 58 ∷ rest) (scheme_of t)).0)
      (span-stop (codes ":\\/?#") (c ∷ cs) (58 ∷ rest) h refl)

take_authority-StopsAt :
    (text xs : Bytes)
    → (take_authority text).0 ≡ some xs
    → StopsAt (codes "\\/?#") (take_authority text).1
unfolding take_authority
take_authority-StopsAt text xs h = elim (Option-cases (after_byte 47 text)) [
  | inl e ↦ absurd (cc (rw e at h))
  | inr (next, e) ↦ elim (Option-cases (after_byte 47 next)) [
    | inl f ↦ absurd (cc (rw (e, f) at h))
    | inr (rest, f) ↦ rw (e, f) (span-StopsAt (codes "\\/?#") rest)
  ]
]

-- The front of a text that is at one of the stops.
span-front : (stops others text : Bytes) → StopsAt stops text → StopsAt stops (span others text).0
unfolding span
span-front stops others [] h = tt
span-front stops others (c ∷ cs) h = elim (Bool-cases (mem_byte c others)) [
  | inl e ↦ rw e tt
  | inr e ↦ rw e h
]

-- Two slashes that a path starts with are there in the text.
two_slashes :
    (text rest : Bytes)
    → (span (codes "?#") text).0 ≡ 47 ∷ 47 ∷ rest
    → (more : Bytes) × (text ≡ 47 ∷ 47 ∷ more)
two_slashes text rest h =
    let whole = (span_lem (codes "?#") text).0 in
    (rest ++ (span (codes "?#") text).1, whole ∙ ap (λ t. t ++ (span (codes "?#") text).1) h)

take_authority-slashes :
    (text : Bytes) → (take_authority (47 ∷ 47 ∷ text)).0 ≡ some (span (codes "\\/?#") text).0
unfolding take_authority
take_authority-slashes text = refl

-- A text that has no authority is not taken apart.
take_authority-rest :
    (text : Bytes) → (take_authority text).0 ≡ none → (take_authority text).1 ≡ text
unfolding take_authority
take_authority-rest text h = elim (Option-cases (after_byte 47 text)) [
  | inl e ↦ rw e refl
  | inr (next, e) ↦ elim (Option-cases (after_byte 47 next)) [
    | inl f ↦ rw (e, f) refl
    | inr (rest, f) ↦ absurd (cc (rw (e, f) at h))
  ]
]

pub matched-Prefers : (string : Bytes) → Prefers string (matched string)
unfolding matched
matched-Prefers string =
    let text = (take_scheme string).1 in
    record {
      takes_scheme = λ c cs rest h e. ap (λ t. (take_scheme t).0) e ∙ take_scheme-front c cs rest h;
      takes_authority = λ nothing rest starts.
          let same = take_authority-rest text nothing in
          let (more, slashes) =
            two_slashes text rest (sym (ap (λ t. (span (codes "?#") t).0) same) ∙ starts) in
          cc (sym nothing ∙ ap (λ t. (take_authority t).0) slashes ∙ take_authority-slashes more);
      authority_ends = λ xs taken.
          span-front (codes "\\/?#") (codes "?#") (take_authority text).1
            (take_authority-StopsAt text xs taken);
    }
