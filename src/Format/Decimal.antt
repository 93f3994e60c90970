-- ===== src/Format/Decimal.antt =====
-- src/hlib_format.cpp: the numbers that formatted digits stand for.
use hlib.Base.{
  ℕ, zero, suc, ◌+◌, ◌*◌, ◌-◌, ◌/◌, ◌%◌, ◌^◌, ◌≤◌, ◌<◌, ◌≡◌, refl, ap, ◌∙◌, sym, true, false, [],
  ◌∷◌, ◌++◌, Bytes, length, length-append, length-replicate, replicate, ltb, pos, arith, Bool-cases,
  inl, inr, ◌⊎◌, ltb→lt, lt→ltb,
}
use mathlib.Core.Path.{subst}
use native.Mathlib.Nat.{add-mul, mul_assoc, pow-zero}
use native.Mathlib.Omega.{pow_step}
use hlib.Strings.Numeral.{digit_value}
use hlib.Strings.Digits.{IsNumeral, numeral}
use hlib.Format.{digits, decimal, padded}

IsNumeral-append :
    (b : ℕ) (xs ys : Bytes) → IsNumeral b xs → IsNumeral b ys → IsNumeral b (xs ++ ys)
IsNumeral-append b [] ys h k = k
IsNumeral-append b (x ∷ xs) ys h k = (h.0, IsNumeral-append b xs ys h.1 k)

shifted : (d b l m c : ℕ) → d * b ^ (l + 1) + (m * b + c) ≡ (d * b ^ l + m) * b + c
shifted d b l m c =
    ap (λ k. d * b ^ k + (m * b + c)) (let e : l + 1 ≡ suc l = omega arith in e)
    ∙ rw (pow_step b l, add-mul (d * b ^ l) m b, mul_assoc d (b ^ l) b) (omega arith)

-- One more digit behind the others.
numeral-append :
    (b : ℕ) (xs : Bytes) (c : ℕ) → numeral b (xs ++ c ∷ []) ≡ numeral b xs * b + digit_value c
numeral-append b [] c = rw (pow-zero b) (omega arith)
numeral-append b (x ∷ xs) c =
    rw (numeral-append b xs c, length-append xs (c ∷ []))
      (shifted (digit_value x) b (length xs) (numeral b xs) (digit_value c))

digit_of : (n : ℕ) → n < 10 → digit_value (48 + n) ≡ n
unfolding digit_value
digit_of n h = ground arith

last_digit : (n : ℕ) → digit_value (48 + n % 10) ≡ n % 10
last_digit n = digit_of (n % 10) (omega arith)

-- A text of decimal digits that stands for the number.
abbrev pub Shows : ℕ → Bytes → Type 0
Shows n text = IsNumeral 10 text × (numeral 10 text ≡ n)

digits_one : (fuel n : ℕ) → ltb n 10 ≡ true → digits (suc fuel) n ≡ (48 + n) ∷ []
digits_one fuel n e = rw (e, digits) refl

digits_more :
    (fuel n : ℕ)
    → ltb n 10 ≡ false
    → digits (suc fuel) n ≡ digits fuel (n / 10) ++ (48 + n % 10) ∷ []
digits_more fuel n e = rw (e, digits) refl

one-Shows : (n : ℕ) → n < 10 → Shows n ((48 + n) ∷ [])
one-Shows n l = ((omega (arith, digit_of n l), tt), rw (digit_of n l, pow-zero 10) (omega arith))

more-Shows : (n : ℕ) (xs : Bytes) → Shows (n / 10) xs → Shows n (xs ++ (48 + n % 10) ∷ [])
more-Shows n xs (a, v) = (
  IsNumeral-append 10 xs ((48 + n % 10) ∷ []) a (omega (arith, last_digit n), tt),
  numeral-append 10 xs (48 + n % 10) ∙ rw (v, last_digit n) (omega arith),
)

digits-Shows : (fuel n : ℕ) → n < fuel → Shows n (digits fuel n)
digits-Shows zero n h = absurd (omega arith)
digits-Shows (suc fuel) n h = elim (Bool-cases (ltb n 10)) [
  | inl e ↦ subst (Shows n) (sym (digits_one fuel n e)) (one-Shows n (ltb→lt n 10 e))
  | inr e ↦
      subst (Shows n) (sym (digits_more fuel n e))
        (more-Shows n (digits fuel (n / 10)) (digits-Shows fuel (n / 10) (ground (arith, e))))
]

pub decimal-Shows : (n : ℕ) → Shows n (decimal n)
unfolding decimal
decimal-Shows n = digits-Shows (suc n) n (omega arith)

zeros-Shows : (k n : ℕ) (text : Bytes) → Shows n text → Shows n (replicate k 48 ++ text)
zeros-Shows zero n text h = h
zeros-Shows (suc k) n text h =
    let (a, v) = zeros-Shows k n text h in
    ((omega (arith, digit_of 0 (omega arith)), a), rw (digit_of 0 (omega arith), v) (omega arith))

pub padded-Shows : (width n : ℕ) → Shows n (padded width (pos n))
unfolding padded
padded-Shows width n = zeros-Shows (width - length (decimal n)) n (decimal n) (decimal-Shows n)

-- How many digits there are.
digits-length : (fuel k n : ℕ) → n < fuel → n < 10 ^ suc k → length (digits fuel n) ≤ suc k
digits-length zero k n h l = absurd (omega arith)
digits-length (suc fuel) zero n h l =
    subst (λ t. length t ≤ 1) (sym (digits_one fuel n (lt→ltb n 10 (omega (arith, l)))))
      (omega arith)
digits-length (suc fuel) (suc k) n h l = elim (Bool-cases (ltb n 10)) [
  | inl e ↦ subst (λ t. length t ≤ suc (suc k)) (sym (digits_one fuel n e)) (omega arith)
  | inr e ↦
      let less : n / 10 < fuel = ground (arith, e) in
      let small : n / 10 < 10 ^ suc k = omega (arith, l, pow_step 10 (suc k)) in
      subst (λ t. length t ≤ suc (suc k)) (sym (digits_more fuel n e))
        (omega (
          arith,
          length-append (digits fuel (n / 10)) ((48 + n % 10) ∷ []),
          digits-length fuel k (n / 10) less small,
        ))
]

pub length-padded : (k n : ℕ) → n < 10 ^ suc k → length (padded (suc k) (pos n)) ≡ suc k
unfolding padded decimal
length-padded k n l = omega (
  arith,
  length-append (replicate (suc k - length (decimal n)) 48) (decimal n),
  length-replicate {A = ℕ} (suc k - length (decimal n)) 48,
  digits-length (suc n) k n (omega arith) l,
)

-- There is no zero in front of a number that is not zero.
digits-fewest : (fuel n : ℕ) → n < fuel → 0 < n → 10 ^ length (digits fuel n) ≤ 10 * n
digits-fewest zero n h l = absurd (omega arith)
digits-fewest (suc fuel) n h l = elim (Bool-cases (ltb n 10)) [
  | inl e ↦ subst (λ t. 10 ^ length t ≤ 10 * n) (sym (digits_one fuel n e)) (omega (arith, l))
  | inr e ↦
      let less : n / 10 < fuel = ground (arith, e) in
      let some_left : 0 < n / 10 = ground (arith, e) in
      let ds = digits fuel (n / 10) in
      subst (λ t. 10 ^ length t ≤ 10 * n) (sym (digits_more fuel n e))
        (subst (λ k. 10 ^ k ≤ 10 * n)
          (let e : suc (length ds) ≡ length (ds ++ (48 + n % 10) ∷ []) =
              omega (arith, length-append ds ((48 + n % 10) ∷ [])) in
            e)
          (omega (arith, pow_step 10 (length ds), digits-fewest fuel (n / 10) less some_left)))
]

-- A padded number has the width, or more digits and no zero in front.
pub padded-fewest :
    (width n : ℕ)
    → (length (padded width (pos n)) ≡ width)
      ⊎ ((width < length (padded width (pos n)))
          × ((n ≡ 0) ⊎ (10 ^ length (padded width (pos n)) ≤ 10 * n)))
unfolding padded decimal
padded-fewest width n = elim (Bool-cases (ltb width (length (decimal n)))) [
  | inr e ↦ inl (ground (arith, size))
  | inl e ↦ inr (
    ground (arith, size),
    elim (Bool-cases (ltb 0 n)) [
      | inr z ↦ inl (ground (arith, z))
      | inl z ↦ inr (
          subst (λ k. 10 ^ k ≤ 10 * n)
            (let same : length (decimal n) ≡ length (padded width (pos n)) =
                ground (arith, size, e) in
              same)
            (digits-fewest (suc n) n (omega arith) (ground (arith, z))))
    ],
  )
]
  where
    size : length (padded width (pos n)) ≡ width - length (decimal n) + length (decimal n)
    size = omega (
      arith,
      length-append (replicate (width - length (decimal n)) 48) (decimal n),
      length-replicate {A = ℕ} (width - length (decimal n)) 48,
    )
