-- ===== src/Strings/Replacing.antt =====
-- src/hlib_string.cpp: what `replace` replaces.
use hlib.Base.{
  ℕ, ◌+◌, ◌≡◌, refl, ap, ◌∙◌, sym, some, [], ◌∷◌, ◌++◌, Bytes, length, take, drop, find, Found,
  find-Found, is_prefix_sound, Option-cases, inl, inr, arith, length-take, take-append-drop,
  drop-drop, drop-append_length,
}
use mathlib.Core.Path.{subst}
use hlib.Strings.Counting.{NowhereFrom, find-none, find_empty}
use hlib.Strings.Parts.{replace}

-- The text, in which the literal stands nowhere, or with the value in place of the literal where
-- that stands first.
pub data Replaced (text literal value : Bytes) : Bytes → Type 0 where
  nowhere : NowhereFrom text literal 0 → Replaced text literal value text
  at_first :
      (front back : Bytes)
      → text ≡ front ++ (literal ++ back)
      → Found text literal 0 (length front)
      → Replaced text literal value (front ++ (value ++ back))

module _ (text literal value : Bytes) where
  behind_literal :
      (at : ℕ) → Found text literal 0 at → drop at text ≡ literal ++ drop (at + length literal) text
  behind_literal at f =
      let (rest, e) = is_prefix_sound (drop at text) literal f.stands in
      e
      ∙ ap (λ t. literal ++ t)
          (sym (drop-append_length (length literal) literal rest refl)
            ∙ ap (drop (length literal)) (sym e)
            ∙ drop-drop (length literal) at text)

  Found-Replaced :
      (at : ℕ)
      → Found text literal 0 at
      → Replaced text literal value (take at text ++ (value ++ drop (at + length literal) text))
  Found-Replaced at f =
      at_first (take at text) (drop (at + length literal) text)
        (sym (take-append-drop at text) ∙ ap (λ t. take at text ++ t) (behind_literal at f))
        (subst (Found text literal 0) (sym size) f)
    where
      size : length (take at text) ≡ at
      size = omega (arith, length-take at text, f.within)

  replace-found :
      (at : ℕ)
      → find text literal 0 ≡ some at
      → Replaced text literal value (replace text literal value)
  unfolding replace
  replace-found at e = rw (e, replace) (Found-Replaced at (find-Found text literal 0 e))

-- `replace` puts the value in the place of the literal where that stands first in the text, and
-- leaves the text alone if it stands nowhere.
pub replace-Replaced :
    (text literal value : Bytes) → Replaced text literal value (replace text literal value)
unfolding replace
replace-Replaced text [] value = replace-found text [] value 0 (find_empty text)
replace-Replaced text (y ∷ ys) value = elim (Option-cases (find text (y ∷ ys) 0)) [
  | inl e ↦ rw (e, replace) (nowhere (find-none y ys text 0 e))
  | inr (at, e) ↦ replace-found text (y ∷ ys) value at e
]
