-- ===== src/Strings/Reading.antt =====
-- src/hlib_string.cpp: what each conversion to an integer makes of a text of digits, with and
-- without a minus.
use hlib.Base.{
  ℕ, zero, suc, ◌-◌, ◌^◌, ◌%◌, ◌≤◌, ◌<◌, ◌≡◌, refl, ◌∙◌, Bool, true, false, ◌&&◌, ◌||◌, Option,
  none, some, [], ◌∷◌, Bytes, ltb, leb, if◌then◌else◌, ℤ, pos, negsuc, arith, Bool-cases, inl, inr,
}
use hlib.Strings.Digits.{IsNumeral, numeral, scan-numeral, scan-minus, digit_ranges}
use hlib.Strings.Integers.{
  to_integer_nothrow, checked_nothrow, stoi8_nothrow, stoi16_nothrow, stoi32_nothrow,
  stoi64_nothrow, stoui8_nothrow, stoui16_nothrow, stoui32_nothrow, stoui64_nothrow, rejects_int8,
  rejects_int16, rejects_int32, rejects_int64, rejects_uint8, rejects_uint16, rejects_uint32,
  rejects_uint64,
}
use hlib.Strings.Numeral.{Parsed, strtol, strtoul, long_of, to_unsigned_long, is_space}

abbrev pub opposite : ℕ → ℤ
opposite zero = pos 0
opposite (suc n) = negsuc n

-- What a signed type of w bits makes of n, and of n behind a minus.
abbrev pub as_signed : ℕ → ℕ → Option ℤ
as_signed w n = if ltb n (2 ^ (w - 1)) then some (pos n) else none

abbrev pub as_negative : ℕ → ℕ → Option ℤ
as_negative w n = if leb n (2 ^ (w - 1)) then some (opposite n) else none

-- What an unsigned type of w bits makes of n, and of n behind a minus: the minus negates in 64
-- bits.
abbrev pub as_unsigned : ℕ → ℕ → Option ℕ
as_unsigned w n = if ltb n (2 ^ w) then some n else none

abbrev pub as_negated : ℕ → ℕ → Option ℕ
as_negated w n =
    if ltb n (2 ^ 64) && ltb ((2 ^ 64 - n) % 2 ^ 64) (2 ^ w)
    then some ((2 ^ 64 - n) % 2 ^ 64)
    else none

-- A parsed number of which nothing is left.
abbrev whole : {A : Type 0} → A → Bool → Parsed A
whole r e = record { result = r; rest = []; erange = e }

-- The condition on the number is the range of the signed type of w bits.
record Bounds (w : ℕ) (rejects : Parsed ℤ → Bool) : Type 0 where
  narrow : 2 ^ (w - 1) ≤ 2 ^ 63
  some_room : 0 < 2 ^ (w - 1)
  at_pos : (n : ℕ) → n < 2 ^ 63 → rejects (whole (pos n) false) ≡ leb (2 ^ (w - 1)) n
  at_negsuc : (n : ℕ) → n < 2 ^ 63 → rejects (whole (negsuc n) false) ≡ leb (2 ^ (w - 1)) n
  at_max : rejects (whole (pos (2 ^ 63 - 1)) true) ≡ true
  at_min : rejects (whole (negsuc (2 ^ 63 - 1)) true) ≡ true

module _ {w : ℕ} {rejects : Parsed ℤ → Bool} (b : Bounds w rejects) where
  plus : (n : ℕ) → checked_nothrow strtol rejects (some (long_of false n [])) ≡ as_signed w n
  plus n = elim (Bool-cases (ltb n (2 ^ 63))) [
    | inl h ↦ rw (h, b.at_pos n (ground arith)) (ground arith)
    | inr h ↦ rw (h, b.at_max) (ground (arith, b.narrow))
  ]

  minus : (n : ℕ) → checked_nothrow strtol rejects (some (long_of true n [])) ≡ as_negative w n
  minus zero = rw (b.at_pos 0 (omega arith)) (ground (arith, b.some_room))
  minus (suc n) = elim (Bool-cases (ltb n (2 ^ 63))) [
    | inl h ↦ rw (h, b.at_negsuc n (ground arith)) (ground arith)
    | inr h ↦ rw (h, b.at_min) (ground (arith, b.narrow))
  ]

-- The condition on the number is the range of the unsigned type of w bits.
record UnsignedBounds (w : ℕ) (rejects : Parsed ℕ → Bool) : Type 0 where
  narrow : 2 ^ w ≤ 2 ^ 64
  at_value : (n : ℕ) → n < 2 ^ 64 → rejects (whole n false) ≡ leb (2 ^ w) n
  at_max : rejects (whole (2 ^ 64 - 1) true) ≡ true

module _ {w : ℕ} {rejects : Parsed ℕ → Bool} (b : UnsignedBounds w rejects) where
  unsigned_plus :
      (n : ℕ)
      → checked_nothrow strtoul rejects
          (some (to_unsigned_long (record { negative = false; magnitude = n; rest = [] })))
        ≡ as_unsigned w n
  unsigned_plus n = elim (Bool-cases (ltb n (2 ^ 64))) [
    | inl h ↦ rw (h, b.at_value n (ground arith)) (ground arith)
    | inr h ↦ rw (h, b.at_max) (ground (arith, b.narrow))
  ]

  unsigned_minus :
      (n : ℕ)
      → checked_nothrow strtoul rejects
          (some (to_unsigned_long (record { negative = true; magnitude = n; rest = [] })))
        ≡ as_negated w n
  unsigned_minus n = elim (Bool-cases (ltb n (2 ^ 64))) [
    | inl h ↦ rw (h, b.at_value ((2 ^ 64 - n) % 2 ^ 64) (omega arith)) (ground arith)
    | inr h ↦ rw (h, b.at_max)
  ]

and_false : (b : Bool) → (b && false) ≡ false
and_false true = refl
and_false false = refl

or-and_false : (a b : Bool) → (a || (b && false)) ≡ a
or-and_false true b = refl
or-and_false false b = and_false b

bounds8 : Bounds 8 rejects_int8
bounds8 = record {
  narrow = omega arith;
  some_room = omega arith;
  at_pos = λ n h. refl;
  at_negsuc = λ n h. refl;
  at_max = refl;
  at_min = refl;
}

bounds16 : Bounds 16 rejects_int16
bounds16 = record {
  narrow = omega arith;
  some_room = omega arith;
  at_pos = λ n h. refl;
  at_negsuc = λ n h. refl;
  at_max = refl;
  at_min = refl;
}

bounds32 : Bounds 32 rejects_int32
bounds32 = record {
  narrow = omega arith;
  some_room = omega arith;
  at_pos = λ n h. or-and_false _ _;
  at_negsuc = λ n h. or-and_false _ _;
  at_max = refl;
  at_min = refl;
}

bounds64 : Bounds 64 rejects_int64
bounds64 = record {
  narrow = omega arith;
  some_room = omega arith;
  at_pos = λ n h. and_false _ ∙ ground arith;
  at_negsuc = λ n h. and_false _ ∙ ground arith;
  at_max = refl;
  at_min = refl;
}

unsigned_bounds8 : UnsignedBounds 8 rejects_uint8
unsigned_bounds8 = record { narrow = omega arith; at_value = λ n h. refl; at_max = refl }

unsigned_bounds16 : UnsignedBounds 16 rejects_uint16
unsigned_bounds16 = record { narrow = omega arith; at_value = λ n h. refl; at_max = refl }

unsigned_bounds32 : UnsignedBounds 32 rejects_uint32
unsigned_bounds32 = record {
  narrow = omega arith;
  at_value = λ n h. or-and_false _ _;
  at_max = refl;
}

unsigned_bounds64 : UnsignedBounds 64 rejects_uint64
unsigned_bounds64 = record {
  narrow = omega arith;
  at_value = λ n h. and_false _ ∙ ground arith;
  at_max = refl;
}

-- What the conversions make of the text, which stands for n, and of the text behind a minus.
pub record Reads (text : Bytes) (base n : ℕ) : Type 0 where
  pub int8 : stoi8_nothrow text base ≡ as_signed 8 n
  pub int16 : stoi16_nothrow text base ≡ as_signed 16 n
  pub int32 : stoi32_nothrow text base ≡ as_signed 32 n
  pub int64 : stoi64_nothrow text base ≡ as_signed 64 n
  pub minus_int8 : stoi8_nothrow (45 ∷ text) base ≡ as_negative 8 n
  pub minus_int16 : stoi16_nothrow (45 ∷ text) base ≡ as_negative 16 n
  pub minus_int32 : stoi32_nothrow (45 ∷ text) base ≡ as_negative 32 n
  pub minus_int64 : stoi64_nothrow (45 ∷ text) base ≡ as_negative 64 n
  pub uint8 : stoui8_nothrow text base ≡ as_unsigned 8 n
  pub uint16 : stoui16_nothrow text base ≡ as_unsigned 16 n
  pub uint32 : stoui32_nothrow text base ≡ as_unsigned 32 n
  pub uint64 : stoui64_nothrow text base ≡ as_unsigned 64 n
  pub minus_uint8 : stoui8_nothrow (45 ∷ text) base ≡ as_negated 8 n
  pub minus_uint16 : stoui16_nothrow (45 ∷ text) base ≡ as_negated 16 n
  pub minus_uint32 : stoui32_nothrow (45 ∷ text) base ≡ as_negated 32 n
  pub minus_uint64 : stoui64_nothrow (45 ∷ text) base ≡ as_negated 64 n

module _ {A : Type 0} (parse : Bytes → ℕ → Option (Parsed A)) (rejects : Parsed A → Bool) where
  checked_after :
      (c : ℕ) (cs : Bytes) (base : ℕ) {p : Option (Parsed A)} {r : Option A}
      → is_space c ≡ false
      → parse (c ∷ cs) base ≡ p
      → checked_nothrow parse rejects p ≡ r
      → to_integer_nothrow parse rejects (c ∷ cs) base ≡ r
  unfolding to_integer_nothrow
  checked_after c cs base e f g = rw (e, f) g

module _ (base : ℕ) (lowest : 2 ≤ base) (highest : base ≤ 36) (c : ℕ) (cs : Bytes)
    (h : IsNumeral base (c ∷ cs)) where
  strtol-plus : strtol (c ∷ cs) base ≡ some (long_of false (numeral base (c ∷ cs)) [])
  unfolding strtol
  strtol-plus = rw (scan-numeral base lowest highest c cs h)

  strtol-minus : strtol (45 ∷ c ∷ cs) base ≡ some (long_of true (numeral base (c ∷ cs)) [])
  unfolding strtol
  strtol-minus = rw (scan-minus base lowest highest c cs h)

  strtoul-plus :
      strtoul (c ∷ cs) base
      ≡ some (
          to_unsigned_long
            (record { negative = false; magnitude = numeral base (c ∷ cs); rest = [] }))
  unfolding strtoul
  strtoul-plus = rw (scan-numeral base lowest highest c cs h)

  strtoul-minus :
      strtoul (45 ∷ c ∷ cs) base
      ≡ some (
          to_unsigned_long
            (record { negative = true; magnitude = numeral base (c ∷ cs); rest = [] }))
  unfolding strtoul
  strtoul-minus = rw (scan-minus base lowest highest c cs h)

  no_space : is_space c ≡ false
  no_space = ground (arith, (digit_ranges c (omega (arith, h.0, highest))).0)

  -- In a base from 2 to 36, a text of digits of the base, at least one, is converted to the number
  -- that the digits stand for by their weights, if the type can hold it, and to nothing otherwise.
  -- The same digits behind a minus are converted by the signed conversions to the opposite number,
  -- if the type can hold it. The unsigned conversions take it too: they negate the number modulo
  -- 2^64, and return the result if the type can hold it and the number itself was below 2^64.
  pub stoi-Reads : Reads (c ∷ cs) base (numeral base (c ∷ cs))
  unfolding stoi8_nothrow stoi16_nothrow stoi32_nothrow stoi64_nothrow stoui8_nothrow
      stoui16_nothrow stoui32_nothrow stoui64_nothrow
  stoi-Reads =
      let n = numeral base (c ∷ cs) in
      record {
        int8 = checked_after strtol rejects_int8 c cs base no_space strtol-plus (plus bounds8 n);
        int16 = checked_after strtol rejects_int16 c cs base no_space strtol-plus (plus bounds16 n);
        int32 = checked_after strtol rejects_int32 c cs base no_space strtol-plus (plus bounds32 n);
        int64 = checked_after strtol rejects_int64 c cs base no_space strtol-plus (plus bounds64 n);
        minus_int8 =
            checked_after strtol rejects_int8 45 (c ∷ cs) base refl strtol-minus (minus bounds8 n);
        minus_int16 =
            checked_after strtol rejects_int16 45 (c ∷ cs) base refl strtol-minus
              (minus bounds16 n);
        minus_int32 =
            checked_after strtol rejects_int32 45 (c ∷ cs) base refl strtol-minus
              (minus bounds32 n);
        minus_int64 =
            checked_after strtol rejects_int64 45 (c ∷ cs) base refl strtol-minus
              (minus bounds64 n);
        uint8 =
            checked_after strtoul rejects_uint8 c cs base no_space strtoul-plus
              (unsigned_plus unsigned_bounds8 n);
        uint16 =
            checked_after strtoul rejects_uint16 c cs base no_space strtoul-plus
              (unsigned_plus unsigned_bounds16 n);
        uint32 =
            checked_after strtoul rejects_uint32 c cs base no_space strtoul-plus
              (unsigned_plus unsigned_bounds32 n);
        uint64 =
            checked_after strtoul rejects_uint64 c cs base no_space strtoul-plus
              (unsigned_plus unsigned_bounds64 n);
        minus_uint8 =
            checked_after strtoul rejects_uint8 45 (c ∷ cs) base refl strtoul-minus
              (unsigned_minus unsigned_bounds8 n);
        minus_uint16 =
            checked_after strtoul rejects_uint16 45 (c ∷ cs) base refl strtoul-minus
              (unsigned_minus unsigned_bounds16 n);
        minus_uint32 =
            checked_after strtoul rejects_uint32 45 (c ∷ cs) base refl strtoul-minus
              (unsigned_minus unsigned_bounds32 n);
        minus_uint64 =
            checked_after strtoul rejects_uint64 45 (c ∷ cs) base refl strtoul-minus
              (unsigned_minus unsigned_bounds64 n);
      }
