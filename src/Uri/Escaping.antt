-- ===== src/Uri/Escaping.antt =====
-- src/hlib_uri.cpp: `uri_encoding_escape` and `uri_encoding_unescape`.
use hlib.Base.{
  ℕ, zero, suc, ◌+◌, ◌-◌, ◌*◌, ◌/◌, ◌%◌, ◌<◌, ◌≡◌, refl, ap, ap₂, ◌∙◌, sym, Bool, true, false, not,
  ◌&&◌, ◌||◌, none, some, [], ◌∷◌, ◌++◌, Bytes, codes, get_elem?, leb, ◌==◌, ==_iff, if◌then◌else◌,
  Bool-cases, inl, inr, arith,
}
use mathlib.Core.Path.{subst}
use hlib.Strings.Base64RoundTrip.{AreBytes}

-- `isalnum` in the locale "C"
abbrev pub is_alnum : ℕ → Bool
is_alnum c = (leb 48 c && leb c 57) || (leb 65 c && leb c 90) || (leb 97 c && leb c 122)

abbrev pub needs_escaping : ℕ → Bool
needs_escaping c = not (is_alnum c || c == 45 || c == 46 || c == 95 || c == 126)

-- `hdigit[n]` for n below 16
abbrev pub hdigit : ℕ → ℕ
hdigit n = elim (get_elem? (codes "0123456789ABCDEF") n) [ none ↦ 0 | some c ↦ c ]

unfoldable pub uri_encoding_escape : Bytes → Bytes
uri_encoding_escape [] = []
uri_encoding_escape (c ∷ cs) =
    let rest = uri_encoding_escape cs in
    if needs_escaping c then 37 ∷ hdigit (c / 16 % 16) ∷ hdigit (c % 16) ∷ rest else c ∷ rest

abbrev pub is_xdigit : ℕ → Bool
is_xdigit c = (leb 48 c && leb c 57) || (leb 65 c && leb c 70) || (leb 97 c && leb c 102)

-- The loop, with what the array `hex` holds up to its first zero byte. The code decodes the digits
-- to c and then appends the array instead of c.
unfoldable pub unescape_loop : Bytes → Bytes → Bytes
unescape_loop hex [] = []
unescape_loop hex (c ∷ []) = if c == 37 then [] else hex
unescape_loop hex (c ∷ d ∷ []) = elim (c == 37) [
  | true ↦ []
  | false ↦ hex ++ unescape_loop hex (d ∷ [])
]
unescape_loop hex (c ∷ d ∷ e ∷ cs) = elim (c == 37) [
  | true ↦
      let rest = unescape_loop (d ∷ e ∷ []) cs in
      if not (is_xdigit d) || not (is_xdigit e) then [] else d ∷ e ∷ rest
  | false ↦ hex ++ unescape_loop hex (d ∷ e ∷ cs)
]

unfoldable pub uri_encoding_unescape : Bytes → Bytes
unfolding unescape_loop
uri_encoding_unescape string = unescape_loop [] string

-- The decoding of RFC 3986 for upper case digits.
abbrev digit_of : ℕ → ℕ
digit_of c = if leb c 57 then c - 48 else c - 55

abbrev pub percent_decode : Bytes → Bytes
percent_decode [] = []
percent_decode (c ∷ []) = c ∷ []
percent_decode (c ∷ d ∷ []) = c ∷ d ∷ []
percent_decode (c ∷ d ∷ e ∷ cs) = elim (c == 37) [
  | true ↦ (digit_of d * 16 + digit_of e) ∷ percent_decode cs
  | false ↦ c ∷ percent_decode (d ∷ e ∷ cs)
]

digits_agree : ℕ → Bool
digits_agree zero = true
digits_agree (suc n) = (digit_of (hdigit n) == n) && digits_agree n

digits_agree_all : digits_agree 16 ≡ true
unfolding digits_agree
digits_agree_all = refl

both : (a b : Bool) → (a && b) ≡ true → (a ≡ true) × (b ≡ true)
both true b h = (refl, h)
both false b h = absurd (cc h)

below : (i n : ℕ) → i < suc n → (i == n) ≡ false → i < n
below i n h e = ground arith

digit_at : (n i : ℕ) → digits_agree n ≡ true → i < n → digit_of (hdigit i) ≡ i
unfolding digits_agree
digit_at zero i h g = absurd (omega arith)
digit_at (suc n) i h g =
    let (back, rest) = both (digit_of (hdigit n) == n) (digits_agree n) h in
    elim (Bool-cases (i == n)) [
      | inl e ↦ subst (λ k. digit_of (hdigit k) ≡ k) (sym ((==_iff i n).0 e)) ((==_iff _ n).0 back)
      | inr e ↦ digit_at n i rest (below i n g e)
    ]

percent_decode_plain :
    (c : ℕ) (xs : Bytes) → (c == 37) ≡ false → percent_decode (c ∷ xs) ≡ c ∷ percent_decode xs
percent_decode_plain c [] e = refl
percent_decode_plain c (d ∷ []) e = refl
percent_decode_plain c (d ∷ f ∷ xs) e = rw (e, percent_decode)

escaped_byte :
    (c : ℕ) → c < 256 → digit_of (hdigit (c / 16 % 16)) * 16 + digit_of (hdigit (c % 16)) ≡ c
escaped_byte c h =
    ap₂ (λ a b. a * 16 + b) (digit_at 16 (c / 16 % 16) digits_agree_all (omega arith))
      (digit_at 16 (c % 16) digits_agree_all (omega arith))
    ∙ omega arith

not_percent : (c : ℕ) → needs_escaping c ≡ false → (c == 37) ≡ false
not_percent c h = elim (Bool-cases (c == 37)) [
  | inl e ↦ absurd (cc (subst (λ k. needs_escaping k ≡ false) ((==_iff c 37).0 e) h))
  | inr e ↦ e
]

-- Percent-decoding as RFC 3986 defines it, applied to what `uri_encoding_escape` makes of bytes,
-- gives those bytes back.
pub percent_decode-escape :
    (bytes : Bytes) → AreBytes bytes → percent_decode (uri_encoding_escape bytes) ≡ bytes
unfolding uri_encoding_escape
percent_decode-escape [] h = refl
percent_decode-escape (c ∷ cs) h = elim (Bool-cases (needs_escaping c)) [
  | inl e ↦ rw e (ap₂ (λ x xs. x ∷ xs) (escaped_byte c h.0) (percent_decode-escape cs h.1))
  | inr e ↦ rw e (
      percent_decode_plain c (uri_encoding_escape cs) (not_percent c e)
      ∙ ap (λ xs. c ∷ xs) (percent_decode-escape cs h.1))
]

-- The text has no percent sign.
abbrev pub IsPlain : Bytes → Type 0
IsPlain [] = Unit
IsPlain (c ∷ cs) = ((c == 37) ≡ false) × IsPlain cs

unescape_loop-plain : (text : Bytes) → IsPlain text → unescape_loop [] text ≡ []
unfolding unescape_loop
unescape_loop-plain [] h = refl
unescape_loop-plain (c ∷ []) h = rw h.0
unescape_loop-plain (c ∷ d ∷ []) h = rw (h.0, unescape_loop) (unescape_loop-plain (d ∷ []) h.1)
unescape_loop-plain (c ∷ d ∷ e ∷ cs) h =
    rw (h.0, unescape_loop) (unescape_loop-plain (d ∷ e ∷ cs) h.1)

-- `uri_encoding_unescape` makes the empty text of every text without a percent sign, where the
-- decoding of RFC 3986 leaves such a text alone.
pub unescape_plain :
    (text : Bytes) → IsPlain text → (uri_encoding_unescape text ≡ []) × (percent_decode text ≡ text)
unfolding uri_encoding_unescape
unescape_plain text h = (unescape_loop-plain text h, decode_plain text h)
  where
    decode_plain : (text : Bytes) → IsPlain text → percent_decode text ≡ text
    decode_plain [] h = refl
    decode_plain (c ∷ cs) h =
        percent_decode_plain c cs h.0 ∙ ap (λ xs. c ∷ xs) (decode_plain cs h.1)
