-- ===== src/Uri/Parsing.antt =====
-- src/hlib_uri.cpp: how the expression of `uri_parse` takes a text apart.
use hlib.Base.{
  ℕ, ◌≡◌, refl, ap, ap₂, append_assoc, ◌∙◌, sym, Bool, true, false, Option, none, some, [], ◌∷◌,
  ◌++◌, Bytes, codes, ◌==◌, ==_iff, if◌then◌else◌, mem_byte, Bool-cases, Option-cases, inl, inr,
  throws, value, invalid_argument,
}
use mathlib.Core.Option.{some-injective}
use hlib.Uri.{
  Match, span, take_scheme, group_or, scheme_of, take_authority, take_query, take_fragment,
  after_byte, regex_match, has_zero, uri_parse, uri_of,
}

-- No byte is one of the stops.
abbrev pub Avoids : Bytes → Bytes → Type 0
Avoids stops [] = Unit
Avoids stops (c ∷ cs) = (mem_byte c stops ≡ false) × Avoids stops cs

abbrev pub AvoidsSome : Bytes → Option Bytes → Type 0
AvoidsSome stops none = Unit
AvoidsSome stops (some xs) = Avoids stops xs

pub span_lem :
    (stops xs : Bytes)
    → (xs ≡ (span stops xs).0 ++ (span stops xs).1) × Avoids stops (span stops xs).0
unfolding span
span_lem stops [] = (refl, tt)
span_lem stops (c ∷ cs) = elim (Bool-cases (mem_byte c stops)) [
  | inl e ↦ rw e (refl, tt)
  | inr e ↦ let (p, a) = span_lem stops cs in rw e (ap (λ t. c ∷ t) p, (e, a))
]

pub after_byte_lem : (b : ℕ) (xs : Bytes) {ys : Bytes} → after_byte b xs ≡ some ys → xs ≡ b ∷ ys
after_byte_lem b [] e = absurd (cc e)
after_byte_lem b (c ∷ cs) {ys} e = elim (Bool-cases (c == b)) [
  | inl h ↦ ap₂ (λ x xs. x ∷ xs) ((==_iff c b).0 h) (some-injective _ _ (rw h at e))
  | inr h ↦ absurd (cc (rw h at e))
]

-- The parts as they stand in the text, with what marks them.
abbrev pub scheme_part : Option Bytes → Bytes
scheme_part none = []
scheme_part (some xs) = xs ++ codes ":"

abbrev pub marked : Bytes → Option Bytes → Bytes
marked mark none = []
marked mark (some xs) = mark ++ xs

-- How a text is taken apart: its parts make up the text, and none holds a byte at which it should
-- have ended.
pub record Splits (string : Bytes) (m : Match) : Type 0 where
  pub parts :
      string
      ≡ scheme_part m.scheme
        ++ (marked (codes "//") m.authority
            ++ (m.path ++ (marked (codes "?") m.query ++ marked (codes "#") m.fragment)))
  pub scheme_avoids : AvoidsSome (codes ":\\/?#") m.scheme
  pub authority_avoids : AvoidsSome (codes "\\/?#") m.authority
  pub path_avoids : Avoids (codes "?#") m.path
  pub query_avoids : AvoidsSome (codes "#") m.query

-- One group: its part of the text, and what comes behind.
abbrev Taken : (Option Bytes → Bytes) → Bytes → Bytes → Option Bytes × Bytes → Type 0
Taken part stops text r = (text ≡ part r.0 ++ r.1) × AvoidsSome stops r.0

take_query-Taken : (text : Bytes) → Taken (marked (codes "?")) (codes "#") text (take_query text)
unfolding take_query
take_query-Taken text = elim (Option-cases (after_byte 63 text)) [
  | inl e ↦ rw e (refl, tt)
  | inr (rest, e) ↦
      let (p, a) = span_lem (codes "#") rest in
      rw e (after_byte_lem 63 text e ∙ ap (λ t. 63 ∷ t) p, a)
]

take_authority-Taken :
    (text : Bytes) → Taken (marked (codes "//")) (codes "\\/?#") text (take_authority text)
unfolding take_authority
take_authority-Taken text = elim (Option-cases (after_byte 47 text)) [
  | inl e ↦ rw e (refl, tt)
  | inr (next, e) ↦ elim (Option-cases (after_byte 47 next)) [
    | inl f ↦ rw (e, f) (refl, tt)
    | inr (rest, f) ↦
        let (p, a) = span_lem (codes "\\/?#") rest in
        rw (e, f)
          (
            after_byte_lem 47 text e
                ∙ ap (λ t. 47 ∷ t) (after_byte_lem 47 next f)
                ∙ ap (λ t. 47 ∷ 47 ∷ t) p,
            a,
          )
  ]
]

scheme_of-Taken :
    (text front rest : Bytes)
    → text ≡ front ++ rest
    → Avoids (codes ":\\/?#") front
    → Taken scheme_part (codes ":\\/?#") text (group_or text (scheme_of (front, rest)))
scheme_of-Taken text [] rest p a = (refl, tt)
scheme_of-Taken text (c ∷ cs) rest p a = elim (Option-cases (after_byte 58 rest)) [
  | inl e ↦ rw e (refl, tt)
  | inr (behind, e) ↦ rw e (
    p
        ∙ ap (λ t. (c ∷ cs) ++ t) (after_byte_lem 58 rest e)
        ∙ sym (append_assoc (c ∷ cs) (codes ":") behind),
    a,
  )
]

take_scheme-Taken : (text : Bytes) → Taken scheme_part (codes ":\\/?#") text (take_scheme text)
unfolding take_scheme
take_scheme-Taken text =
    let (p, a) = span_lem (codes ":\\/?#") text in
    scheme_of-Taken text (span (codes ":\\/?#") text).0 (span (codes ":\\/?#") text).1 p a

-- The text is at its end, or at one of the stops.
abbrev pub StopsAt : Bytes → Bytes → Type 0
StopsAt stops [] = Unit
StopsAt stops (c ∷ cs) = mem_byte c stops ≡ true

pub span-StopsAt : (stops xs : Bytes) → StopsAt stops (span stops xs).1
unfolding span
span-StopsAt stops [] = tt
span-StopsAt stops (c ∷ cs) = elim (Bool-cases (mem_byte c stops)) [
  | inl e ↦ rw e e
  | inr e ↦ rw e (span-StopsAt stops cs)
]

-- A byte that stops a path and starts no query stops a query.
no_query :
    (c : ℕ) (cs : Bytes)
    → mem_byte c (codes "?#") ≡ true
    → (c == 63) ≡ false
    → mem_byte c (codes "#") ≡ true
unfolding mem_byte
no_query c cs h e = rw e at h

take_query-StopsAt :
    (text : Bytes) → StopsAt (codes "?#") text → StopsAt (codes "#") (take_query text).1
unfolding take_query
take_query-StopsAt [] h = tt
take_query-StopsAt (c ∷ cs) h = elim (Bool-cases (c == 63)) [
  | inl e ↦ rw e (span-StopsAt (codes "#") cs)
  | inr e ↦ rw e (no_query c cs h e)
]

take_fragment-all :
    (text : Bytes) → StopsAt (codes "#") text → text ≡ marked (codes "#") (take_fragment text)
unfolding mem_byte
take_fragment-all [] h = refl
take_fragment-all (c ∷ cs) h = elim (Bool-cases (c == 35)) [
  | inl e ↦ rw e (ap (λ x. x ∷ cs) ((==_iff c 35).0 e))
  | inr e ↦ absurd (cc (rw e at h))
]

unfoldable pub matched : Bytes → Match
matched string =
    let s = take_scheme string in
    let a = take_authority s.1 in
    let p = span (codes "?#") a.1 in
    let q = take_query p.1 in
    record { scheme = s.0; authority = a.0; path = p.0; query = q.0; fragment = take_fragment q.1 }

pub matched-Splits : (string : Bytes) → Splits string (matched string)
unfolding matched
matched-Splits string =
    let s = take_scheme string in
    let a = take_authority s.1 in
    let p = span (codes "?#") a.1 in
    let (es, hs) = take_scheme-Taken string in
    let (ea, ha) = take_authority-Taken s.1 in
    let (ep, hp) = span_lem (codes "?#") a.1 in
    let (eq, hq) = take_query-Taken p.1 in
    let ef =
      take_fragment-all (take_query p.1).1
        (take_query-StopsAt p.1 (span-StopsAt (codes "?#") a.1)) in
    record {
      parts =
          es
          ∙ ap (λ t. scheme_part s.0 ++ t)
              (ea
                ∙ ap (λ t. marked (codes "//") a.0 ++ t)
                    (ep
                      ∙ ap (λ t. p.0 ++ t)
                          (eq ∙ ap (λ t. marked (codes "?") (take_query p.1).0 ++ t) ef)));
      scheme_avoids = hs;
      authority_avoids = ha;
      path_avoids = hp;
      query_avoids = hq;
    }

pub regex_match-matched :
    (string : Bytes)
    → regex_match string
      ≡ (if has_zero (matched string).fragment then none else some (matched string))
unfolding regex_match matched
regex_match-matched string = refl

pub uri_parse_of :
    (string : Bytes) (z : Bool) (m : Match)
    → regex_match string ≡ (if z then none else some m)
    → uri_parse string ≡ (if z then throws invalid_argument else value (uri_of m))
unfolding uri_parse
uri_parse_of string true m e = rw (e, uri_parse)
uri_parse_of string false m e = rw (e, uri_parse)
