-- ===== src/Strings/Digits.antt =====
-- src/hlib_string.cpp: the number that a text of digits is converted to.
use hlib.Base.{
  lt→ltb, ℕ, suc, ◌+◌, ◌*◌, ◌^◌, ◌≤◌, ◌<◌, ◌≡◌, refl, ap, ◌∙◌, Bool, true, false, ◌||◌, some, [],
  ◌∷◌, Bytes, length, ltb, ◌==◌, arith, Bool-cases, inl, inr,
}
use mathlib.Core.Path.{subst}
use native.Mathlib.Nat.{add-mul, mul_assoc, pow-zero}
use native.Mathlib.Omega.{pow_step}
use hlib.Strings.Numeral.{
  Scan, scan, is_space, digit_value, c_str, skip_spaces, read_sign, read_base, scan_digits,
  after_sign, hex_prefix, scan_in,
}

-- A text of digits in the base.
abbrev pub IsNumeral : ℕ → Bytes → Type 0
IsNumeral base [] = Unit
IsNumeral base (c ∷ cs) = (digit_value c < base) × IsNumeral base cs

-- The number that the digits stand for, by the weights of their places.
abbrev pub numeral : ℕ → Bytes → ℕ
numeral base [] = 0
numeral base (c ∷ cs) = digit_value c * base ^ length cs + numeral base cs

weights : (n b d l m : ℕ) → (n * b + d) * b ^ l + m ≡ n * b ^ suc l + (d * b ^ l + m)
weights n b d l m =
    rw (pow_step b l, add-mul (n * b) d (b ^ l), mul_assoc n b (b ^ l)) (omega arith)

scan_digits-numeral :
    (base n : ℕ) (cs : Bytes)
    → IsNumeral base cs
    → scan_digits base n cs ≡ (n * base ^ length cs + numeral base cs, [])
unfolding scan_digits
scan_digits-numeral base n [] h = ap (λ k. (k, [])) (rw (pow-zero base) (omega arith))
scan_digits-numeral base n (c ∷ cs) h =
    rw (lt→ltb (digit_value c) base h.0, scan_digits-numeral base (n * base + digit_value c) cs h.1)
      (ap (λ k. (k, [])) (weights n base (digit_value c) (length cs) (numeral base cs)))

-- No digit is a byte that means something else to the scanner.
pub digit_ranges : (c : ℕ) → digit_value c < 36 → (47 < c) × (c < 123)
unfolding digit_value
digit_ranges c h = (ground arith, ground arith)

c_str-numeral : (base : ℕ) (cs : Bytes) → base ≤ 36 → IsNumeral base cs → c_str cs ≡ cs
unfolding c_str
c_str-numeral base [] b h = refl
c_str-numeral base (c ∷ cs) b h =
    let r = digit_ranges c (omega (arith, h.0)) in
    rw (let z : (c == 0) ≡ false = ground (arith, r.0) in z, c_str-numeral base cs b h.1)

no_hex_mark : (d : ℕ) → digit_value d < 16 → (d == 120 || d == 88) ≡ false
unfolding digit_value
no_hex_mark d h = ground arith

hex_prefix-numeral : (cs : Bytes) → IsNumeral 16 cs → hex_prefix cs ≡ false
hex_prefix-numeral [] h = refl
hex_prefix-numeral (c ∷ []) h = refl
hex_prefix-numeral (c ∷ d ∷ cs) h = elim (Bool-cases (c == 48)) [
  | inl e ↦ rw (e, no_hex_mark d h.1.0)
  | inr e ↦ rw e
]

c_str-minus : (cs : Bytes) → c_str cs ≡ cs → c_str (45 ∷ cs) ≡ 45 ∷ cs
unfolding c_str
c_str-minus cs e = ap (λ t. 45 ∷ t) e

minus_sign : (cs : Bytes) → read_sign (skip_spaces (45 ∷ cs)) ≡ (true, cs)
unfolding skip_spaces
minus_sign cs = refl

module _ (base : ℕ) (lowest : 2 ≤ base) (highest : base ≤ 36) where
  read_base-numeral : (cs : Bytes) → IsNumeral base cs → read_base base cs ≡ (base, cs)
  read_base-numeral cs h = elim (Bool-cases (base == 16)) [
    | inl e ↦ rw (
      let z : (base == 0) ≡ false = ground (arith, lowest) in z,
      e,
      hex_prefix-numeral cs (subst (λ b. IsNumeral b cs) (sixteen e) h),
    )
    | inr e ↦ rw (let z : (base == 0) ≡ false = ground (arith, lowest) in z, e)
  ]
    where
      sixteen : (base == 16) ≡ true → base ≡ 16
      sixteen e = ground arith

  scan_in-numeral :
      (text : Bytes) (negative : Bool) (c : ℕ) (cs : Bytes)
      → IsNumeral base (c ∷ cs)
      → scan_in text negative (base, c ∷ cs)
        ≡ record { negative = negative; magnitude = numeral base (c ∷ cs); rest = [] }
  scan_in-numeral text negative c cs h =
      rw (lt→ltb (digit_value c) base h.0, scan_digits-numeral base 0 (c ∷ cs) h)
        (ap (λ n. record { negative = negative; magnitude = n; rest = [] }) (omega arith))

  -- the part of a scan behind the sign
  after_sign-numeral :
      (text : Bytes) (negative : Bool) (c : ℕ) (cs : Bytes)
      → IsNumeral base (c ∷ cs)
      → after_sign text base (negative, c ∷ cs)
        ≡ record { negative = negative; magnitude = numeral base (c ∷ cs); rest = [] }
  after_sign-numeral text negative c cs h =
      ap (scan_in text negative) (read_base-numeral (c ∷ cs) h)
      ∙ scan_in-numeral text negative c cs h

  no_sign :
      (c : ℕ) (cs : Bytes)
      → digit_value c < base
      → read_sign (skip_spaces (c ∷ cs)) ≡ (false, c ∷ cs)
  unfolding skip_spaces
  no_sign c cs h =
      let r = digit_ranges c (omega (arith, h, highest)) in
      rw (let z : is_space c ≡ false = ground (arith, r.0) in z) (
        rw (
          let z : (c == 45) ≡ false = ground (arith, r.0) in z,
          let z : (c == 43) ≡ false = ground (arith, r.0) in z,
        ))

  known_base :
      (text : Bytes) {s : Scan}
      → c_str text ≡ text
      → after_sign text base (read_sign (skip_spaces text)) ≡ s
      → scan text base ≡ some s
  unfolding scan
  known_base text e f =
      rw
        (
          e,
          let z : (base == 1) ≡ false = ground (arith, lowest) in z,
          let z : ltb 36 base ≡ false = ground (arith, highest) in z,
        )
        (ap some f)

  pub scan-numeral :
      (c : ℕ) (cs : Bytes)
      → IsNumeral base (c ∷ cs)
      → scan (c ∷ cs) base
        ≡ some (record { negative = false; magnitude = numeral base (c ∷ cs); rest = [] })
  scan-numeral c cs h =
      known_base (c ∷ cs) (c_str-numeral base (c ∷ cs) highest h) (
        ap (after_sign (c ∷ cs) base) (no_sign c cs h.0) ∙ after_sign-numeral (c ∷ cs) false c cs h)

  pub scan-minus :
      (c : ℕ) (cs : Bytes)
      → IsNumeral base (c ∷ cs)
      → scan (45 ∷ c ∷ cs) base
        ≡ some (record { negative = true; magnitude = numeral base (c ∷ cs); rest = [] })
  scan-minus c cs h =
      known_base (45 ∷ c ∷ cs) (c_str-minus (c ∷ cs) (c_str-numeral base (c ∷ cs) highest h)) (
        ap (after_sign (45 ∷ c ∷ cs) base) (minus_sign (c ∷ cs))
        ∙ after_sign-numeral (45 ∷ c ∷ cs) true c cs h)
