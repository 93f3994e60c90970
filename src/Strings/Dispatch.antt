-- ===== src/Strings/Dispatch.antt =====
-- include/hlib/string.hpp: the templates `string_to`, which choose a conversion by the type that is
-- asked for. An instance is chosen by a code for its type; the codes of the types that one template
-- accepts differ in the size alone.
use hlib.Base.{none, some, ◌∷◌, ℕ, ◌^◌, ◌<◌, ◌≡◌, Bool, Option, Bytes, ℤ, Return, InRange}
use hlib.Strings.Integers.{
  stob, stob_nothrow, stoi8, stoi16, stoi32, stoi64, stoui8, stoui16, stoui32, stoui64,
  stoi8_nothrow, stoi16_nothrow, stoi32_nothrow, stoi64_nothrow, stoui8_nothrow, stoui16_nothrow,
  stoui32_nothrow, stoui64_nothrow,
}
use hlib.Strings.Conversion.{returned, AllSome, stoi-Agree, stoi-InRanges}
use hlib.Strings.Reading.{as_signed, as_negative, as_unsigned, as_negated}

-- `sizeof(T)`
pub data Size : Type 0 where
  one two four eight : Size

-- The types of `string_to` but those of floating point.
pub data Target : Type 0 where
  boolean : Target
  signed_integral : Size → Target
  unsigned_integral : Size → Target

abbrev pub Value : Target → Type 0
Value boolean = Bool
Value (signed_integral size) = ℤ
Value (unsigned_integral size) = ℕ

-- `string_to<T>(value, base, std::nothrow)`; the one for bool has no base
unfoldable pub string_to_nothrow : (t : Target) → Bytes → ℕ → Option (Value t)
unfolding stob_nothrow stoi8_nothrow stoi16_nothrow stoi32_nothrow stoi64_nothrow stoui8_nothrow
    stoui16_nothrow stoui32_nothrow stoui64_nothrow
string_to_nothrow boolean value base = stob_nothrow value
string_to_nothrow (signed_integral one) value base = stoi8_nothrow value base
string_to_nothrow (signed_integral two) value base = stoi16_nothrow value base
string_to_nothrow (signed_integral four) value base = stoi32_nothrow value base
string_to_nothrow (signed_integral eight) value base = stoi64_nothrow value base
string_to_nothrow (unsigned_integral one) value base = stoui8_nothrow value base
string_to_nothrow (unsigned_integral two) value base = stoui16_nothrow value base
string_to_nothrow (unsigned_integral four) value base = stoui32_nothrow value base
string_to_nothrow (unsigned_integral eight) value base = stoui64_nothrow value base

-- `string_to<T>(value, base)`
unfoldable pub string_to : (t : Target) → Bytes → ℕ → Return (Value t)
unfolding stob stoi8 stoi16 stoi32 stoi64 stoui8 stoui16 stoui32 stoui64
string_to boolean value base = stob value
string_to (signed_integral one) value base = stoi8 value base
string_to (signed_integral two) value base = stoi16 value base
string_to (signed_integral four) value base = stoi32 value base
string_to (signed_integral eight) value base = stoi64 value base
string_to (unsigned_integral one) value base = stoui8 value base
string_to (unsigned_integral two) value base = stoui16 value base
string_to (unsigned_integral four) value base = stoui32 value base
string_to (unsigned_integral eight) value base = stoui64 value base

abbrev pub bits : Size → ℕ
bits one = 8
bits two = 16
bits four = 32
bits eight = 64

-- The values of the type that is asked for.
abbrev pub IsOf : (t : Target) → Value t → Type 0
IsOf boolean b = Unit
IsOf (signed_integral size) r = InRange (bits size) r
IsOf (unsigned_integral size) r = r < 2 ^ bits size

whatever_held : {A : Type 0} (o : Option A) → AllSome (λ a. Unit) o
whatever_held none = tt
whatever_held (some a) = tt

-- Whatever type `string_to` is asked for, the number that it returns is one of that type, and its
-- two forms return the same numbers.
pub string_to-IsOf :
    (t : Target) (text : Bytes) (base : ℕ)
    → AllSome (IsOf t) (string_to_nothrow t text base)
      × (string_to_nothrow t text base ≡ returned (string_to t text base))
unfolding string_to_nothrow string_to
string_to-IsOf boolean text base = (whatever_held (stob_nothrow text), (stoi-Agree text base).bool)
string_to-IsOf (signed_integral one) text base =
    ((stoi-InRanges text base).int8, (stoi-Agree text base).int8)
string_to-IsOf (signed_integral two) text base =
    ((stoi-InRanges text base).int16, (stoi-Agree text base).int16)
string_to-IsOf (signed_integral four) text base =
    ((stoi-InRanges text base).int32, (stoi-Agree text base).int32)
string_to-IsOf (signed_integral eight) text base =
    ((stoi-InRanges text base).int64, (stoi-Agree text base).int64)
string_to-IsOf (unsigned_integral one) text base =
    ((stoi-InRanges text base).uint8, (stoi-Agree text base).uint8)
string_to-IsOf (unsigned_integral two) text base =
    ((stoi-InRanges text base).uint16, (stoi-Agree text base).uint16)
string_to-IsOf (unsigned_integral four) text base =
    ((stoi-InRanges text base).uint32, (stoi-Agree text base).uint32)
string_to-IsOf (unsigned_integral eight) text base =
    ((stoi-InRanges text base).uint64, (stoi-Agree text base).uint64)

-- What both forms of `string_to` make of a text that stands for n, and of the text behind a minus,
-- for the integral types of a size.
pub record Converts (size : Size) (text : Bytes) (base n : ℕ) : Type 0 where
  pub signed : string_to_nothrow (signed_integral size) text base ≡ as_signed (bits size) n
  pub minus_signed :
      string_to_nothrow (signed_integral size) (45 ∷ text) base ≡ as_negative (bits size) n
  pub unsigned : string_to_nothrow (unsigned_integral size) text base ≡ as_unsigned (bits size) n
  pub minus_unsigned :
      string_to_nothrow (unsigned_integral size) (45 ∷ text) base ≡ as_negated (bits size) n
  pub signed_throws :
      returned (string_to (signed_integral size) text base) ≡ as_signed (bits size) n
  pub minus_signed_throws :
      returned (string_to (signed_integral size) (45 ∷ text) base) ≡ as_negative (bits size) n
  pub unsigned_throws :
      returned (string_to (unsigned_integral size) text base) ≡ as_unsigned (bits size) n
  pub minus_unsigned_throws :
      returned (string_to (unsigned_integral size) (45 ∷ text) base) ≡ as_negated (bits size) n
