-- ===== src/SockAddr/Scanning.antt =====
-- src/hlib_sock_addr.cpp: what `parse` finds in a text that is put together.
use hlib.Base.{
  ◌⊎◌, ℕ, suc, ◌+◌, ◌<◌, ◌≡◌, refl, ap, ◌∙◌, false, none, some, [], ◌∷◌, ◌++◌, Bytes, length, drop,
  ◌==◌, ==_iff, Bool-cases, inl, inr, arith,
}
use hlib.Strings.Numeral.{digit_value}
use hlib.Strings.Digits.{IsNumeral}
use hlib.Uri.Cutting.{Lacks}
use hlib.SockAddr.{htons, count_char, rfind_char, rfind_pair}

pub htons-htons : (p : ℕ) → p < 65536 → htons (htons p) ≡ p
htons-htons p h = omega (arith, h)

pub htons-lt : (p : ℕ) → p < 65536 → htons p < 65536
htons-lt p h = omega (arith, h)

pub count_char-append :
    (xs ys : Bytes) (b : ℕ) → count_char (xs ++ ys) b ≡ count_char xs b + count_char ys b
unfolding count_char
count_char-append [] ys b = omega arith
count_char-append (x ∷ xs) ys b = elim (Bool-cases (x == b)) [
  | inl e ↦ rw e (ap suc (count_char-append xs ys b) ∙ omega arith)
  | inr e ↦ rw e (count_char-append xs ys b)
]

pub count_char-Lacks : (xs : Bytes) (b : ℕ) → Lacks b xs → count_char xs b ≡ 0
unfolding count_char
count_char-Lacks [] b h = refl
count_char-Lacks (x ∷ xs) b h = rw h.0 (count_char-Lacks xs b h.1)

pub Lacks-count_char : (xs : Bytes) (b : ℕ) → count_char xs b ≡ 0 → Lacks b xs
unfolding count_char
Lacks-count_char [] b h = tt
Lacks-count_char (x ∷ xs) b h = elim (Bool-cases (x == b)) [
  | inl e ↦ absurd (omega (arith, rw e at h))
  | inr e ↦ (e, Lacks-count_char xs b (rw e at h))
]

pub rfind_char-none : (b : ℕ) (xs : Bytes) → Lacks b xs → rfind_char b xs ≡ none
unfolding rfind_char
rfind_char-none b [] h = refl
rfind_char-none b (x ∷ xs) h = rw (rfind_char-none b xs h.1, h.0, rfind_char) refl

pub rfind_char-some :
    (b : ℕ) (xs ys : Bytes) → Lacks b ys → rfind_char b (xs ++ b ∷ ys) ≡ some (length xs)
unfolding rfind_char
rfind_char-some b [] ys h = rw (rfind_char-none b ys h, (==_iff b b).1 refl, rfind_char) refl
rfind_char-some b (x ∷ xs) ys h = rw (rfind_char-some b xs ys h, rfind_char) (ap some (omega arith))

pub rfind_pair-none : (a b : ℕ) (xs : Bytes) → Lacks a xs → rfind_pair a b xs ≡ none
unfolding rfind_pair
rfind_pair-none a b [] h = refl
rfind_pair-none a b (x ∷ []) h = refl
rfind_pair-none a b (x ∷ y ∷ ys) h = rw (rfind_pair-none a b (y ∷ ys) h.1, h.0, rfind_pair) refl

pub rfind_pair-some :
    (a b : ℕ) (xs ys : Bytes)
    → Lacks a (b ∷ ys)
    → rfind_pair a b (xs ++ a ∷ b ∷ ys) ≡ some (length xs)
unfolding rfind_pair
rfind_pair-some a b [] ys h =
    rw (rfind_pair-none a b (b ∷ ys) h, (==_iff a a).1 refl, (==_iff b b).1 refl, rfind_pair) refl
rfind_pair-some a b (x ∷ xs) ys h =
    rw (rfind_pair-some a b xs ys h, rfind_pair) (ap some (omega arith))

digit_range : (c : ℕ) → digit_value c < 10 → (47 < c) × (c < 58)
unfolding digit_value
digit_range c h = (ground arith, ground arith)

differs : (b c : ℕ) → (b < 48) ⊎ (57 < b) → 47 < c → c < 58 → (c == b) ≡ false
differs b c o h k = ground arith

pub digits-Lacks : (b : ℕ) (xs : Bytes) → (b < 48) ⊎ (57 < b) → IsNumeral 10 xs → Lacks b xs
digits-Lacks b [] o h = tt
digits-Lacks b (c ∷ cs) o h =
    let (low, high) = digit_range c h.0 in (differs b c o low high, digits-Lacks b cs o h.1)

pub drop_behind : (xs : Bytes) (c : ℕ) (ys : Bytes) → drop (length xs + 1) (xs ++ c ∷ ys) ≡ ys
drop_behind [] c ys = refl
drop_behind (x ∷ xs) c ys =
    ap (λ n. drop n (x ∷ xs ++ c ∷ ys))
      (let e : suc (length xs) + 1 ≡ suc (length xs + 1) = omega arith in e)
    ∙ drop_behind xs c ys

pub drop_behind_two :
    (xs : Bytes) (c d : ℕ) (ys : Bytes) → drop (length xs + 2) (xs ++ c ∷ d ∷ ys) ≡ ys
drop_behind_two [] c d ys = refl
drop_behind_two (x ∷ xs) c d ys =
    ap (λ n. drop n (x ∷ xs ++ c ∷ d ∷ ys))
      (let e : suc (length xs) + 2 ≡ suc (length xs + 2) = omega arith in e)
    ∙ drop_behind_two xs c d ys
