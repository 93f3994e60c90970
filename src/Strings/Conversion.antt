-- ===== src/Strings/Conversion.antt =====
-- src/hlib_string.cpp: what the conversions to integers return for a text of digits, how their two
-- forms agree, and the ranges of their results.
use hlib.Base.{
  ℕ, zero, suc, ◌+◌, ◌-◌, ◌*◌, ◌^◌, ◌%◌, ◌≤◌, ◌<◌, ◌≡◌, refl, ap, ◌∙◌, sym, Bool, true, false, not,
  ◌&&◌, ◌||◌, Option, none, some, List, [], ◌∷◌, Bytes, length, ltb, leb, ◌==◌, if◌then◌else◌, ℤ,
  pos, negsuc, Return, value, throws, invalid_argument, range_error, InRange, arith, Bool-cases,
  Option-cases, ◌⊎◌, inl, inr,
}
use mathlib.Core.Option.{some-injective}
use hlib.Strings.Integers.{
  empty_or_space, has_rest, equals, stob, stob_nothrow, to_integer, to_integer_nothrow, stoi8,
  stoi16, stoi32, stoi64, stoui8, stoui16, stoui32, stoui64, stoi8_nothrow, stoi16_nothrow,
  stoi32_nothrow, stoi64_nothrow, stoui8_nothrow, stoui16_nothrow, stoui32_nothrow, stoui64_nothrow,
  outside_signed, outside_unsigned, rejects_int8, rejects_int16, rejects_int32, rejects_int64,
  rejects_uint8, rejects_uint16, rejects_uint32, rejects_uint64,
}
use hlib.Strings.Numeral.{Parsed, Scan, scan, strtol, strtoul, to_long, long_of, to_unsigned_long}

-- What a call that may throw returns.
abbrev pub returned : {A : Type 0} → Return A → Option A
returned (value a) = some a
returned (throws e) = none

module _ {A : Type 0} (parse : Bytes → ℕ → Option (Parsed A)) (rejects : Parsed A → Bool) where
  agrees :
      (text : Bytes) (base : ℕ)
      → to_integer_nothrow parse rejects text base ≡ returned (to_integer parse rejects text base)
  unfolding to_integer_nothrow to_integer
  agrees text base = elim (Bool-cases (empty_or_space text)) [
    | inl e ↦ rw e
    | inr e ↦ elim (Option-cases (parse text base)) [
      | inl n ↦ rw (e, n)
      | inr (p, m) ↦ elim (Bool-cases (has_rest p.rest)) [
        | inl r ↦ rw (e, m, r)
        | inr r ↦ elim (Bool-cases (rejects p)) [
          | inl j ↦ rw (e, m, r, j)
          | inr j ↦ rw (e, m, r, j)
        ]
      ]
    ]
  ]

-- The two forms of every conversion.
pub record Agree (text : Bytes) (base : ℕ) : Type 0 where
  pub bool : stob_nothrow text ≡ returned (stob text)
  pub int8 : stoi8_nothrow text base ≡ returned (stoi8 text base)
  pub int16 : stoi16_nothrow text base ≡ returned (stoi16 text base)
  pub int32 : stoi32_nothrow text base ≡ returned (stoi32 text base)
  pub int64 : stoi64_nothrow text base ≡ returned (stoi64 text base)
  pub uint8 : stoui8_nothrow text base ≡ returned (stoui8 text base)
  pub uint16 : stoui16_nothrow text base ≡ returned (stoui16 text base)
  pub uint32 : stoui32_nothrow text base ≡ returned (stoui32 text base)
  pub uint64 : stoui64_nothrow text base ≡ returned (stoui64 text base)

-- For every text and base, the form of each conversion without exceptions returns a value exactly
-- if the form that throws returns that value.
pub stoi-Agree : (text : Bytes) (base : ℕ) → Agree text base
unfolding stob_nothrow stob stoi8_nothrow stoi8 stoi16_nothrow stoi16 stoi32_nothrow stoi32
    stoi64_nothrow stoi64 stoui8_nothrow stoui8 stoui16_nothrow stoui16 stoui32_nothrow stoui32
    stoui64_nothrow stoui64
stoi-Agree text base = record {
  bool = elim (Bool-cases (equals (hlib.Base.codes "true") text)) [
    | inl e ↦ rw e
    | inr e ↦ elim (Bool-cases (equals (hlib.Base.codes "false") text)) [
      | inl f ↦ rw (e, f)
      | inr f ↦ rw (e, f)
    ]
  ];
  int8 = agrees strtol rejects_int8 text base;
  int16 = agrees strtol rejects_int16 text base;
  int32 = agrees strtol rejects_int32 text base;
  int64 = agrees strtol rejects_int64 text base;
  uint8 = agrees strtoul rejects_uint8 text base;
  uint16 = agrees strtoul rejects_uint16 text base;
  uint32 = agrees strtoul rejects_uint32 text base;
  uint64 = agrees strtoul rejects_uint64 text base;
}

-- A result, if there is one, has the property.
abbrev pub AllSome : {A : Type 0} → (A → Type 0) → Option A → Type 0
AllSome P none = Unit
AllSome P (some a) = P a

module _ {A : Type 0} (P : A → Type 0) (parse : Bytes → ℕ → Option (Parsed A))
    (rejects : Parsed A → Bool) (text : Bytes) (base : ℕ) where
  within :
      ((p : Parsed A) → parse text base ≡ some p → rejects p ≡ false → P p.result)
      → AllSome P (to_integer_nothrow parse rejects text base)
  unfolding to_integer_nothrow
  within h = elim (Bool-cases (empty_or_space text)) [
    | inl e ↦ rw e tt
    | inr e ↦ elim (Option-cases (parse text base)) [
      | inl n ↦ rw (e, n) tt
      | inr (p, m) ↦ elim (Bool-cases (has_rest p.rest || rejects p)) [
        | inl r ↦ rw (e, m, r) tt
        | inr r ↦ rw (e, m, r) (h p m (not_rejected (has_rest p.rest) r))
      ]
    ]
  ]
    where
      not_rejected : (b : Bool) {c : Bool} → (b || c) ≡ false → c ≡ false
      not_rejected true e = absurd (cc e)
      not_rejected false e = e

outside-InRange : (w : ℕ) (r : ℤ) → outside_signed w r ≡ false → InRange w r
outside-InRange w (pos n) h = ground arith
outside-InRange w (negsuc n) h = ground arith

outside-lt : (w n : ℕ) → outside_unsigned w n ≡ false → n < 2 ^ w
outside-lt w n h = ground arith

long_of-InRange : (s : Scan) → InRange 64 (to_long s).result
long_of-InRange s = by_sign s.negative s.magnitude s.rest
  where
    by_sign : (b : Bool) (n : ℕ) (rest : Bytes) → InRange 64 (long_of b n rest).result
    by_sign true zero rest = omega arith
    by_sign true (suc n) rest = elim (Bool-cases (ltb n (2 ^ 63))) [
      | inl h ↦ rw h (ground arith)
      | inr h ↦ rw h (ground arith)
    ]
    by_sign false n rest = elim (Bool-cases (ltb n (2 ^ 63))) [
      | inl h ↦ rw h (ground arith)
      | inr h ↦ rw h (ground arith)
    ]

strtol-InRange :
    (text : Bytes) (base : ℕ) (p : Parsed ℤ) → strtol text base ≡ some p → InRange 64 p.result
unfolding strtol
strtol-InRange text base p h = elim (Option-cases (scan text base)) [
  | inl e ↦ absurd (cc (rw e at h))
  | inr (s, e) ↦ rw (some-injective _ _ (rw e at h)) at (long_of-InRange s)
]

strtoul-lt :
    (text : Bytes) (base : ℕ) (p : Parsed ℕ) → strtoul text base ≡ some p → p.result < 2 ^ 64
unfolding strtoul
strtoul-lt text base p h = elim (Option-cases (scan text base)) [
  | inl e ↦ absurd (cc (rw e at h))
  | inr (s, e) ↦ rw (some-injective _ _ (rw e at h)) at (by_size s)
]
  where
    by_size : (s : Scan) → (to_unsigned_long s).result < 2 ^ 64
    by_size s = elim (Bool-cases (ltb s.magnitude (2 ^ 64))) [
      | inl h ↦ elim (Bool-cases s.negative) [
        | inl n ↦ rw (h, n) (omega arith)
        | inr n ↦ rw (h, n) (ground arith)
      ]
      | inr h ↦ rw h (omega arith)
    ]

-- The results of the conversions that return one.
pub record InRanges (text : Bytes) (base : ℕ) : Type 0 where
  pub int8 : AllSome (InRange 8) (stoi8_nothrow text base)
  pub int16 : AllSome (InRange 16) (stoi16_nothrow text base)
  pub int32 : AllSome (InRange 32) (stoi32_nothrow text base)
  pub int64 : AllSome (InRange 64) (stoi64_nothrow text base)
  pub uint8 : AllSome (λ r. r < 2 ^ 8) (stoui8_nothrow text base)
  pub uint16 : AllSome (λ r. r < 2 ^ 16) (stoui16_nothrow text base)
  pub uint32 : AllSome (λ r. r < 2 ^ 32) (stoui32_nothrow text base)
  pub uint64 : AllSome (λ r. r < 2 ^ 64) (stoui64_nothrow text base)

-- For every text and base, each conversion that returns a number returns one that its type can
-- hold: none is cut by the conversion from long.
pub stoi-InRanges : (text : Bytes) (base : ℕ) → InRanges text base
unfolding stoi8_nothrow stoi16_nothrow stoi32_nothrow stoi64_nothrow stoui8_nothrow stoui16_nothrow
    stoui32_nothrow stoui64_nothrow
stoi-InRanges text base = record {
  int8 = within (InRange 8) strtol rejects_int8 text base (λ p m r. outside-InRange 8 p.result r);
  int16 =
      within (InRange 16) strtol rejects_int16 text base (λ p m r. outside-InRange 16 p.result r);
  int32 =
      within (InRange 32) strtol rejects_int32 text base
        (λ p m r. outside-InRange 32 p.result (either_false _ _ r));
  int64 =
      within (InRange 64) strtol rejects_int64 text base (λ p m r. strtol-InRange text base p m);
  uint8 =
      within (λ r. r < 2 ^ 8) strtoul rejects_uint8 text base (λ p m r. outside-lt 8 p.result r);
  uint16 =
      within (λ r. r < 2 ^ 16) strtoul rejects_uint16 text base (λ p m r. outside-lt 16 p.result r);
  uint32 =
      within (λ r. r < 2 ^ 32) strtoul rejects_uint32 text base
        (λ p m r. outside-lt 32 p.result (either_false _ _ r));
  uint64 =
      within (λ r. r < 2 ^ 64) strtoul rejects_uint64 text base (λ p m r. strtoul-lt text base p m);
}
  where
    either_false : (a b : Bool) → (a || b) ≡ false → a ≡ false
    either_false true b e = absurd (cc e)
    either_false false b e = refl
