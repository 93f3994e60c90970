-- ===== src/Strings/Trimming.antt =====
-- src/hlib_string.cpp: what `trim_left`, `trim_right` and `trim` take away, and what they leave.
use hlib.Base.{
  ◌-◌, ◌≤◌, ◌≡◌, refl, ap, ◌∙◌, sym, true, false, [], ◌∷◌, ◌++◌, Bytes, length, take, drop,
  Bool-cases, inl, inr, arith, mem_byte, length-append, take-append_length, length-drop,
}
use mathlib.Core.List.{reverse, reverse-append, reverse-reverse, reverse-cons}
use mathlib.Core.Path.{subst}
use hlib.Strings.Parts.{trim_left, trim_right, trim, leading}

-- All bytes are among the characters.
abbrev pub AllIn : Bytes → Bytes → Type 0
AllIn chars [] = Unit
AllIn chars (c ∷ cs) = (mem_byte c chars ≡ true) × AllIn chars cs

-- The text does not start with one of the characters, or end with one.
abbrev pub StartsKept : Bytes → Bytes → Type 0
StartsKept chars [] = Unit
StartsKept chars (c ∷ cs) = mem_byte c chars ≡ false

abbrev pub EndsKept : Bytes → Bytes → Type 0
EndsKept chars text = StartsKept chars (reverse text)

pub record Trims (chars text trimmed : Bytes) : Type 0 where
  pub left : Bytes
  pub right : Bytes
  pub parts : text ≡ left ++ (trimmed ++ right)
  pub left_in : AllIn chars left
  pub right_in : AllIn chars right
  pub starts : StartsKept chars trimmed
  pub ends : EndsKept chars trimmed

AllIn-append : (chars xs ys : Bytes) → AllIn chars xs → AllIn chars ys → AllIn chars (xs ++ ys)
AllIn-append chars [] ys h g = g
AllIn-append chars (x ∷ xs) ys h g = (h.0, AllIn-append chars xs ys h.1 g)

AllIn-reverse : (chars xs : Bytes) → AllIn chars xs → AllIn chars (reverse xs)
AllIn-reverse chars [] h = tt
AllIn-reverse chars (x ∷ xs) h =
    rw (reverse-cons x xs)
      (AllIn-append chars (reverse xs) (x ∷ []) (AllIn-reverse chars xs h.1) (h.0, tt))

module _ (chars : Bytes) where
  -- What `trim_left` takes.
  left_of : Bytes → Bytes
  left_of text = take (leading text chars) text

  trim_left_lem :
      (text : Bytes)
      → (text ≡ left_of text ++ trim_left text chars)
        × AllIn chars (left_of text)
        × StartsKept chars (trim_left text chars)
        × (trim_left text chars ≡ drop (leading text chars) text)
  unfolding left_of trim_left leading
  trim_left_lem [] = (refl, tt, tt, refl)
  trim_left_lem (c ∷ cs) = elim (Bool-cases (mem_byte c chars)) [
    | inl e ↦ let (p, a, s, d) = trim_left_lem cs in rw e (ap (λ t. c ∷ t) p, (e, a), s, d)
    | inr e ↦ rw e (refl, tt, e, refl)
  ]

  leading_le : (text : Bytes) → leading text chars ≤ length text
  unfolding leading
  leading_le [] = omega arith
  leading_le (c ∷ cs) = elim (Bool-cases (mem_byte c chars)) [
    | inl e ↦ rw e (omega (arith, leading_le cs))
    | inr e ↦ rw e (omega arith)
  ]

  -- What is left behind the cut of `trim_right`.
  right_of : Bytes → Bytes
  right_of text = reverse (left_of (reverse text))

  length-reversed : (xs : Bytes) → length (reverse xs) ≡ length xs
  length-reversed [] = refl
  length-reversed (x ∷ xs) =
      ap length (reverse-cons x xs)
      ∙ length-append (reverse xs) (x ∷ [])
      ∙ omega (arith, length-reversed xs)

  trim_right-cut :
      (text : Bytes)
      → let rest = trim_left (reverse text) chars in
        (text ≡ reverse rest ++ right_of text) × (trim_right text chars ≡ reverse rest)
  unfolding trim_right right_of
  trim_right-cut text =
      let (p, a, s, d) = trim_left_lem (reverse text) in
      let rest = trim_left (reverse text) chars in
      let parts : text ≡ reverse rest ++ reverse (left_of (reverse text)) =
        sym (reverse-reverse text) ∙ ap reverse p ∙ reverse-append (left_of (reverse text)) rest in
      let cut = length text - leading (reverse text) chars in
      let size : length (reverse rest) ≡ cut =
        length-reversed rest
        ∙ ap length d
        ∙ length-drop (leading (reverse text) chars) (reverse text)
        ∙ omega (arith, length-reversed text) in
      (
        parts,
        ap (take cut) parts
            ∙ take-append_length cut (reverse rest) (reverse (left_of (reverse text))) size,
      )

  trim_right_lem :
      (text : Bytes)
      → (text ≡ trim_right text chars ++ right_of text)
        × AllIn chars (right_of text)
        × EndsKept chars (trim_right text chars)
  unfolding right_of
  trim_right_lem text =
      let (p, a, s, d) = trim_left_lem (reverse text) in
      let (parts, cut) = trim_right-cut text in
      (
        parts ∙ ap (λ t. t ++ right_of text) (sym cut),
        AllIn-reverse chars (left_of (reverse text)) a,
        subst (λ t. StartsKept chars t)
            (sym (ap reverse cut ∙ reverse-reverse (trim_left (reverse text) chars))) s,
      )

StartsKept-prefix : (chars xs ys : Bytes) → StartsKept chars (xs ++ ys) → StartsKept chars xs
StartsKept-prefix chars [] ys h = tt
StartsKept-prefix chars (x ∷ xs) ys h = h

-- `trim(text, chars)` is the text without a front and a back that consist of the characters only,
-- and neither starts nor ends with one of them.
pub trim-Trims : (chars text : Bytes) → Trims chars text (trim text chars)
unfolding trim
trim-Trims chars text =
    let (p, a, s, d) = trim_left_lem chars text in
    let kept = trim_left text chars in
    let (q, b, e) = trim_right_lem chars kept in
    record {
      left = left_of chars text;
      right = right_of chars kept;
      parts = p ∙ ap (λ t. left_of chars text ++ t) q;
      left_in = a;
      right_in = b;
      starts =
          StartsKept-prefix chars (trim_right kept chars) (right_of chars kept)
            (subst (λ t. StartsKept chars t) q s);
      ends = e;
    }
