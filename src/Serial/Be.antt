-- ===== src/Serial/Be.antt =====
-- include/hlib/serial.hpp, namespace be: most significant byte first. A `transform` that writes
-- returns the memory and the pointer behind the bytes written; one that reads returns the value and
-- the pointer behind the bytes read.
use hlib.Base.{
  ℕ, ◌+◌, Bool, not, [], ◌∷◌, Option, none, some, ◌>>=◌, Bytes, ℤ, bit_or, shr_ℤ, to_uint8, signed,
  if◌then◌else◌, ◌==◌, get_elem?,
}
use hlib.Serial.{
  Scalar, ScalarType, of_bool, of_int8, of_int16, of_int32, of_int64, of_uint8, of_uint16,
  of_uint32, of_uint64, of_float, of_double, bool, int8, int16, int32, int64, uint8, uint16, uint32,
  uint64, float, double, write, low_byte, shr, shl,
}

unfoldable pub write_bool : Bytes → ℕ → Bool → Option (Bytes × ℕ)
write_bool m p v = write m p ((if v then 1 else 0) ∷ [])

unfoldable pub write_int8 : Bytes → ℕ → ℤ → Option (Bytes × ℕ)
write_int8 m p v = write m p (to_uint8 v ∷ [])

unfoldable pub write_int16 : Bytes → ℕ → ℤ → Option (Bytes × ℕ)
write_int16 m p v = write m p (to_uint8 (shr_ℤ v 8) ∷ to_uint8 (shr_ℤ v 0) ∷ [])

unfoldable pub write_int32 : Bytes → ℕ → ℤ → Option (Bytes × ℕ)
write_int32 m p v = write m p (
    to_uint8 (shr_ℤ v 24)
    ∷ to_uint8 (shr_ℤ v 16)
    ∷ to_uint8 (shr_ℤ v 8)
    ∷ to_uint8 (shr_ℤ v 0)
    ∷ [])

unfoldable pub write_int64 : Bytes → ℕ → ℤ → Option (Bytes × ℕ)
write_int64 m p v = write m p (
    to_uint8 (shr_ℤ v 56)
    ∷ to_uint8 (shr_ℤ v 48)
    ∷ to_uint8 (shr_ℤ v 40)
    ∷ to_uint8 (shr_ℤ v 32)
    ∷ to_uint8 (shr_ℤ v 24)
    ∷ to_uint8 (shr_ℤ v 16)
    ∷ to_uint8 (shr_ℤ v 8)
    ∷ to_uint8 (shr_ℤ v 0)
    ∷ [])

unfoldable pub write_uint8 : Bytes → ℕ → ℕ → Option (Bytes × ℕ)
write_uint8 m p v = write m p (v ∷ [])

unfoldable pub write_uint16 : Bytes → ℕ → ℕ → Option (Bytes × ℕ)
write_uint16 m p v = write m p (low_byte (shr v 8) ∷ low_byte (shr v 0) ∷ [])

unfoldable pub write_uint32 : Bytes → ℕ → ℕ → Option (Bytes × ℕ)
write_uint32 m p v =
    write m p
      (low_byte (shr v 24) ∷ low_byte (shr v 16) ∷ low_byte (shr v 8) ∷ low_byte (shr v 0) ∷ [])

unfoldable pub write_uint64 : Bytes → ℕ → ℕ → Option (Bytes × ℕ)
write_uint64 m p v = write m p (
    low_byte (shr v 56)
    ∷ low_byte (shr v 48)
    ∷ low_byte (shr v 40)
    ∷ low_byte (shr v 32)
    ∷ low_byte (shr v 24)
    ∷ low_byte (shr v 16)
    ∷ low_byte (shr v 8)
    ∷ low_byte (shr v 0)
    ∷ [])

unfoldable pub write_float : Bytes → ℕ → ℕ → Option (Bytes × ℕ)
unfolding write_uint32
write_float m p v = write_uint32 m p v

unfoldable pub write_double : Bytes → ℕ → ℕ → Option (Bytes × ℕ)
unfolding write_uint64
write_double m p v = write_uint64 m p v

-- The overloads of `transform` that write.
unfoldable pub transform : Bytes → ℕ → Scalar → Option (Bytes × ℕ)
unfolding write_bool write_int8 write_int16 write_int32 write_int64 write_uint8 write_uint16
    write_uint32 write_uint64 write_float write_double
transform m p (of_bool v) = write_bool m p v
transform m p (of_int8 v) = write_int8 m p v
transform m p (of_int16 v) = write_int16 m p v
transform m p (of_int32 v) = write_int32 m p v
transform m p (of_int64 v) = write_int64 m p v
transform m p (of_uint8 v) = write_uint8 m p v
transform m p (of_uint16 v) = write_uint16 m p v
transform m p (of_uint32 v) = write_uint32 m p v
transform m p (of_uint64 v) = write_uint64 m p v
transform m p (of_float v) = write_float m p v
transform m p (of_double v) = write_double m p v

-- The shifts and ors with which the bytes are put together.
abbrev pub join16 : ℕ → ℕ → ℕ
join16 b0 b1 = bit_or (shl b0 8) (shl b1 0)

abbrev pub join32 : ℕ → ℕ → ℕ → ℕ → ℕ
join32 b0 b1 b2 b3 = bit_or (bit_or (bit_or (shl b0 24) (shl b1 16)) (shl b2 8)) (shl b3 0)

abbrev pub join64 : ℕ → ℕ → ℕ → ℕ → ℕ → ℕ → ℕ → ℕ → ℕ
join64 b0 b1 b2 b3 b4 b5 b6 b7 =
    bit_or
      (bit_or
        (bit_or
          (bit_or (bit_or (bit_or (bit_or (shl b0 56) (shl b1 48)) (shl b2 40)) (shl b3 32))
            (shl b4 24))
          (shl b5 16))
        (shl b6 8))
      (shl b7 0)

unfoldable pub read_bool : Bytes → ℕ → Option (Bool × ℕ)
read_bool m p = do b0 ← get_elem? m (p + 0); some (not (b0 == 0), p + 1)

unfoldable pub read_int8 : Bytes → ℕ → Option (ℤ × ℕ)
read_int8 m p = do b0 ← get_elem? m (p + 0); some (signed 8 b0, p + 1)

unfoldable pub read_int16 : Bytes → ℕ → Option (ℤ × ℕ)
read_int16 m p = do
  b0 ← get_elem? m (p + 0)
  b1 ← get_elem? m (p + 1)
  some (signed 16 (join16 b0 b1), p + 2)

unfoldable pub read_int32 : Bytes → ℕ → Option (ℤ × ℕ)
read_int32 m p = do
  b0 ← get_elem? m (p + 0)
  b1 ← get_elem? m (p + 1)
  b2 ← get_elem? m (p + 2)
  b3 ← get_elem? m (p + 3)
  some (signed 32 (join32 b0 b1 b2 b3), p + 4)

unfoldable pub read_int64 : Bytes → ℕ → Option (ℤ × ℕ)
read_int64 m p = do
  b0 ← get_elem? m (p + 0)
  b1 ← get_elem? m (p + 1)
  b2 ← get_elem? m (p + 2)
  b3 ← get_elem? m (p + 3)
  b4 ← get_elem? m (p + 4)
  b5 ← get_elem? m (p + 5)
  b6 ← get_elem? m (p + 6)
  b7 ← get_elem? m (p + 7)
  some (signed 64 (join64 b0 b1 b2 b3 b4 b5 b6 b7), p + 8)

unfoldable pub read_uint8 : Bytes → ℕ → Option (ℕ × ℕ)
read_uint8 m p = do b0 ← get_elem? m (p + 0); some (b0, p + 1)

unfoldable pub read_uint16 : Bytes → ℕ → Option (ℕ × ℕ)
read_uint16 m p = do b0 ← get_elem? m (p + 0); b1 ← get_elem? m (p + 1); some (join16 b0 b1, p + 2)

unfoldable pub read_uint32 : Bytes → ℕ → Option (ℕ × ℕ)
read_uint32 m p = do
  b0 ← get_elem? m (p + 0)
  b1 ← get_elem? m (p + 1)
  b2 ← get_elem? m (p + 2)
  b3 ← get_elem? m (p + 3)
  some (join32 b0 b1 b2 b3, p + 4)

unfoldable pub read_uint64 : Bytes → ℕ → Option (ℕ × ℕ)
read_uint64 m p = do
  b0 ← get_elem? m (p + 0)
  b1 ← get_elem? m (p + 1)
  b2 ← get_elem? m (p + 2)
  b3 ← get_elem? m (p + 3)
  b4 ← get_elem? m (p + 4)
  b5 ← get_elem? m (p + 5)
  b6 ← get_elem? m (p + 6)
  b7 ← get_elem? m (p + 7)
  some (join64 b0 b1 b2 b3 b4 b5 b6 b7, p + 8)

unfoldable pub read_float : Bytes → ℕ → Option (ℕ × ℕ)
unfolding read_uint32
read_float m p = read_uint32 m p

unfoldable pub read_double : Bytes → ℕ → Option (ℕ × ℕ)
unfolding read_uint64
read_double m p = read_uint64 m p

abbrev tagged {ℓ} : {A : Type ℓ} → (A → Scalar) → Option (A × ℕ) → Option (Scalar × ℕ)
tagged c none = none
tagged c (some (v, q)) = some (c v, q)

-- The overloads of `transform` that read, and `to` with the pointer dropped.
unfoldable pub read : ScalarType → Bytes → ℕ → Option (Scalar × ℕ)
unfolding read_bool read_int8 read_int16 read_int32 read_int64 read_uint8 read_uint16 read_uint32
    read_uint64 read_float read_double
read bool m p = tagged of_bool (read_bool m p)
read int8 m p = tagged of_int8 (read_int8 m p)
read int16 m p = tagged of_int16 (read_int16 m p)
read int32 m p = tagged of_int32 (read_int32 m p)
read int64 m p = tagged of_int64 (read_int64 m p)
read uint8 m p = tagged of_uint8 (read_uint8 m p)
read uint16 m p = tagged of_uint16 (read_uint16 m p)
read uint32 m p = tagged of_uint32 (read_uint32 m p)
read uint64 m p = tagged of_uint64 (read_uint64 m p)
read float m p = tagged of_float (read_float m p)
read double m p = tagged of_double (read_double m p)
