-- ===== src/Serial.antt =====
-- include/hlib/serial.hpp: writing and reading scalars as bytes, in both byte orders. This file
-- holds the scalars and the memory that `transform` writes to and reads from. A float or double is
-- the pattern of bits that the source's union shows of it.
pub mod Be
pub mod Le
pub mod Fields
pub mod Memory
pub mod BeRoundTrip
pub mod LeRoundTrip
pub mod RoundTrip
pub mod Codec
mod Tests
use hlib.Base.{
  ℕ, zero, suc, ◌+◌, ◌-◌, ◌*◌, ◌/◌, ◌%◌, ◌^◌, ◌<◌, Bool, true, false, List, [], ◌∷◌, Option, none,
  some, ◌>>=◌, Bytes, ℤ, InRange, if◌then◌else◌, length,
}

-- The types that `transform` is specialised for, in the order of the source.
pub data ScalarType : Type 0 where
  bool int8 int16 int32 int64 uint8 uint16 uint32 uint64 float double : ScalarType

-- A value of one of them: a truth value, a signed number, an unsigned number or a pattern.
pub data Scalar : Type 0 where
  of_bool : Bool → Scalar
  of_int8 of_int16 of_int32 of_int64 : ℤ → Scalar
  of_uint8 of_uint16 of_uint32 of_uint64 : ℕ → Scalar
  of_float of_double : ℕ → Scalar

abbrev pub type_of : Scalar → ScalarType
type_of (of_bool v) = bool
type_of (of_int8 v) = int8
type_of (of_int16 v) = int16
type_of (of_int32 v) = int32
type_of (of_int64 v) = int64
type_of (of_uint8 v) = uint8
type_of (of_uint16 v) = uint16
type_of (of_uint32 v) = uint32
type_of (of_uint64 v) = uint64
type_of (of_float v) = float
type_of (of_double v) = double

-- `sizeof`
abbrev pub size_of : ScalarType → ℕ
size_of bool = 1
size_of int8 = 1
size_of int16 = 2
size_of int32 = 4
size_of int64 = 8
size_of uint8 = 1
size_of uint16 = 2
size_of uint32 = 4
size_of uint64 = 8
size_of float = 4
size_of double = 8

-- The values that the type can hold.
abbrev pub IsScalar : Scalar → Type 0
IsScalar (of_bool v) = Unit
IsScalar (of_int8 v) = InRange 8 v
IsScalar (of_int16 v) = InRange 16 v
IsScalar (of_int32 v) = InRange 32 v
IsScalar (of_int64 v) = InRange 64 v
IsScalar (of_uint8 v) = v < 2 ^ 8
IsScalar (of_uint16 v) = v < 2 ^ 16
IsScalar (of_uint32 v) = v < 2 ^ 32
IsScalar (of_uint64 v) = v < 2 ^ 64
IsScalar (of_float v) = v < 2 ^ 32
IsScalar (of_double v) = v < 2 ^ 64

-- `ptr[i] = v`; outside the memory it is a fault.
unfoldable pub poke : Bytes → ℕ → ℕ → Option Bytes
poke [] i v = none
poke (x ∷ xs) zero v = some (v ∷ xs)
poke (x ∷ xs) (suc i) v = poke xs i v >>= λ ys. some (x ∷ ys)

-- `ptr[0] = v0; ptr[1] = v1; …`
unfoldable pub stores : Bytes → ℕ → Bytes → Option Bytes
unfolding poke
stores m p [] = some m
stores m p (v ∷ vs) = poke m p v >>= λ m'. stores m' (p + 1) vs

-- The stores of a `transform`, and the pointer that it returns.
abbrev pub write : Bytes → ℕ → Bytes → Option (Bytes × ℕ)
write m p vs = stores m p vs >>= λ m'. some (m', p + length vs)

-- `(uint8_t)x`
abbrev pub low_byte : ℕ → ℕ
low_byte x = x % 256

abbrev pub shr : ℕ → ℕ → ℕ
shr x k = x / 2 ^ k

abbrev pub shl : ℕ → ℕ → ℕ
shl x k = x * 2 ^ k
