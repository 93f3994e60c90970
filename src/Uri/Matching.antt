-- ===== src/Uri/Matching.antt =====
-- src/hlib_uri.cpp: the groups of the expression of `uri_parse` in the text of a URI.
use hlib.Base.{
  ◌≡◌, refl, ap, append_assoc, ◌∙◌, false, Option, some, [], ◌∷◌, ◌++◌, Bytes, codes, ◌==◌,
  mem_byte, arith,
}
use hlib.Uri.{
  Uri, Match, span, scheme_of, group_or, take_scheme, take_authority, take_query, take_fragment,
  has_zero,
}
use hlib.Uri.Parsing.{matched, Avoids, scheme_part, marked}
use hlib.Uri.Cutting.{HasNoZero, IsStopped, span-stop}
use hlib.Uri.Texts.{optional, authority_part}

pub take_scheme_lem :
    (scheme rest : Bytes)
    → Avoids (codes ":\\/?#") scheme
    → take_scheme (scheme_part (optional scheme) ++ (codes "//" ++ rest))
      ≡ (optional scheme, codes "//" ++ rest)
unfolding take_scheme span mem_byte
take_scheme_lem [] rest h = refl
take_scheme_lem (c ∷ cs) rest h =
    let text : Bytes = ((c ∷ cs) ++ codes ":") ++ (codes "//" ++ rest) in
    ap (λ t. group_or text (scheme_of t))
      (ap (span (codes ":\\/?#")) (append_assoc (c ∷ cs) (codes ":") (codes "//" ++ rest))
        ∙ span-stop (codes ":\\/?#") (c ∷ cs) (58 ∷ (codes "//" ++ rest)) h refl)

pub take_authority_lem :
    (authority rest : Bytes)
    → Avoids (codes "\\/?#") authority
    → IsStopped (codes "\\/?#") rest
    → take_authority (codes "//" ++ (authority ++ rest)) ≡ (some authority, rest)
unfolding take_authority
take_authority_lem authority rest h k =
    ap (λ t. group_or (codes "//" ++ (authority ++ rest)) (some t))
      (span-stop (codes "\\/?#") authority rest h k)

pub take_query_lem :
    (query fragment : Bytes)
    → Avoids (codes "#") query
    → take_query (marked (codes "?") (optional query) ++ marked (codes "#") (optional fragment))
      ≡ (optional query, marked (codes "#") (optional fragment))
unfolding take_query mem_byte
take_query_lem [] [] h = refl
take_query_lem [] (d ∷ ds) h = refl
take_query_lem (c ∷ cs) [] h =
    ap (λ t. group_or (63 ∷ ((c ∷ cs) ++ [])) (some t)) (span-stop (codes "#") (c ∷ cs) [] h tt)
take_query_lem (c ∷ cs) (d ∷ ds) h =
    ap (λ t. group_or (63 ∷ ((c ∷ cs) ++ 35 ∷ d ∷ ds)) (some t))
      (span-stop (codes "#") (c ∷ cs) (35 ∷ d ∷ ds) h refl)

pub tail-IsStopped :
    (query fragment : Bytes)
    → IsStopped
        (codes "?#")
        (marked (codes "?") (optional query) ++ marked (codes "#") (optional fragment))
unfolding mem_byte
tail-IsStopped [] [] = tt
tail-IsStopped [] (d ∷ ds) = refl
tail-IsStopped (c ∷ cs) fragment = refl

pub take_fragment_lem :
    (fragment : Bytes) → take_fragment (marked (codes "#") (optional fragment)) ≡ optional fragment
take_fragment_lem [] = refl
take_fragment_lem (d ∷ ds) = refl

mem_byte-HasNoZero : (xs : Bytes) → HasNoZero xs → mem_byte 0 xs ≡ false
unfolding mem_byte
mem_byte-HasNoZero [] h = refl
mem_byte-HasNoZero (c ∷ cs) h =
    rw (let e : (0 == c) ≡ false = ground (arith, h.0) in e, mem_byte-HasNoZero cs h.1) refl

pub has_zero_lem : (fragment : Bytes) → HasNoZero fragment → has_zero (optional fragment) ≡ false
has_zero_lem [] h = refl
has_zero_lem (c ∷ cs) h = mem_byte-HasNoZero (c ∷ cs) h

-- the groups of a printed URI
abbrev pub groups_of : Uri → Match
groups_of uri = record {
  scheme = optional uri.scheme;
  authority = some (authority_part uri);
  path = uri.path;
  query = optional uri.query;
  fragment = optional uri.fragment;
}

pub matched_of :
    (string a p q r : Bytes) (s u y f : Option Bytes) (w : Bytes)
    → take_scheme string ≡ (s, a)
    → take_authority a ≡ (u, p)
    → span (codes "?#") p ≡ (w, q)
    → take_query q ≡ (y, r)
    → take_fragment r ≡ f
    → matched string ≡ record { scheme = s; authority = u; path = w; query = y; fragment = f }
unfolding matched
matched_of string a p q r s u y f w e1 e2 e3 e4 e5 = rw (e1, e2, e3, e4, e5) refl
