-- ===== src/Serial/LeRoundTrip.antt =====
-- namespace le: what is written is read back.
use hlib.Base.{
  ℕ, ◌+◌, ◌^◌, ◌≤◌, ◌<◌, ◌≡◌, refl, ap, ◌∙◌, ◌⊎◌, [], ◌∷◌, some, ◌>>=◌, Bytes, length, get_elem?,
  arith, ℤ, pos, negsuc, signed, InRange, Bool, true, false, not, ◌==◌, if◌then◌else◌, shr_ℤ,
  to_uint8,
}
use hlib.Serial.{
  Scalar, of_bool, of_int8, of_int16, of_int32, of_int64, of_uint8, of_uint16, of_uint32, of_uint64,
  of_float, of_double, type_of, size_of, IsScalar, stores, low_byte, shr,
}
use hlib.Serial.Le.{
  transform, read, join16, join32, join64, read_bool, read_int8, read_int16, read_int32, read_int64,
  read_uint8, read_uint16, read_uint32, read_uint64,
}
use hlib.Serial.Fields.{
  le_join16, le_join32, le_join64, unsigned16, unsigned32, unsigned64, pattern_of, pattern_of-lt,
  byte16, byte32, byte64, signed_pattern16, signed_pattern32, signed_pattern64,
}
use hlib.Serial.Memory.{Holds, stores-Stored}

join16_bytes : (v : ℕ) → v < 2 ^ 16 → join16 (low_byte (shr v 0)) (low_byte (shr v 8)) ≡ v
join16_bytes v h =
    le_join16 (low_byte (shr v 0)) (low_byte (shr v 8)) (omega arith) (omega arith)
    ∙ omega (arith, unsigned16 v h)

signed-join16 :
    (v : ℤ) → InRange 16 v → signed 16 (join16 (to_uint8 (shr_ℤ v 0)) (to_uint8 (shr_ℤ v 8))) ≡ v
signed-join16 v h =
    let e = byte16 v h in
    rw (e.1, e.0)
      (ap (signed 16) (join16_bytes (pattern_of 16 v) ((pattern_of-lt v).1 h))
        ∙ signed_pattern16 v h)

join32_bytes :
    (v : ℕ)
    → v < 2 ^ 32
    → join32 (low_byte (shr v 0)) (low_byte (shr v 8)) (low_byte (shr v 16)) (low_byte (shr v 24))
      ≡ v
join32_bytes v h =
    le_join32 (low_byte (shr v 0)) (low_byte (shr v 8)) (low_byte (shr v 16)) (low_byte (shr v 24))
      (omega arith) (omega arith) (omega arith) (omega arith)
    ∙ omega (arith, unsigned32 v h)

signed-join32 :
    (v : ℤ)
    → InRange 32 v
    → signed 32 (
        join32
          (to_uint8 (shr_ℤ v 0))
          (to_uint8 (shr_ℤ v 8))
          (to_uint8 (shr_ℤ v 16))
          (to_uint8 (shr_ℤ v 24)))
      ≡ v
signed-join32 v h =
    let e = byte32 v h in
    rw (e.3, e.2, e.1, e.0)
      (ap (signed 32) (join32_bytes (pattern_of 32 v) ((pattern_of-lt v).2 h))
        ∙ signed_pattern32 v h)

join64_bytes :
    (v : ℕ)
    → v < 2 ^ 64
    → join64
        (low_byte (shr v 0))
        (low_byte (shr v 8))
        (low_byte (shr v 16))
        (low_byte (shr v 24))
        (low_byte (shr v 32))
        (low_byte (shr v 40))
        (low_byte (shr v 48))
        (low_byte (shr v 56))
      ≡ v
join64_bytes v h =
    le_join64 (low_byte (shr v 0)) (low_byte (shr v 8)) (low_byte (shr v 16)) (low_byte (shr v 24))
      (low_byte (shr v 32)) (low_byte (shr v 40)) (low_byte (shr v 48)) (low_byte (shr v 56))
      (omega arith) (omega arith) (omega arith) (omega arith) (omega arith) (omega arith)
      (omega arith) (omega arith)
    ∙ omega (arith, unsigned64 v h)

signed-join64 :
    (v : ℤ)
    → InRange 64 v
    → signed 64 (
        join64
          (to_uint8 (shr_ℤ v 0))
          (to_uint8 (shr_ℤ v 8))
          (to_uint8 (shr_ℤ v 16))
          (to_uint8 (shr_ℤ v 24))
          (to_uint8 (shr_ℤ v 32))
          (to_uint8 (shr_ℤ v 40))
          (to_uint8 (shr_ℤ v 48))
          (to_uint8 (shr_ℤ v 56)))
      ≡ v
signed-join64 v h =
    let e = byte64 v h in
    rw (e.7, e.6, e.5, e.4, e.3, e.2, e.1, e.0)
      (ap (signed 64) (join64_bytes (pattern_of 64 v) ((pattern_of-lt v).3 h))
        ∙ signed_pattern64 v h)

module _ (m' : Bytes) (p : ℕ) where
  cells8 :
      (b0 : ℕ)
      → Holds m' p (b0 ∷ [])
      → (read_uint8 m' p ≡ some (b0, p + 1))
        × (read_int8 m' p ≡ some (signed 8 b0, p + 1))
        × (read_bool m' p ≡ some (not (b0 == 0), p + 1))
  unfolding read_uint8 read_int8 read_bool
  cells8 b0 s = let e = s 0 (omega arith) in (rw e, rw e, rw e)

  cells16 :
      (b0 b1 : ℕ)
      → Holds m' p (b0 ∷ b1 ∷ [])
      → (read_uint16 m' p ≡ some (join16 b0 b1, p + 2))
        × (read_int16 m' p ≡ some (signed 16 (join16 b0 b1), p + 2))
  unfolding read_uint16 read_int16
  cells16 b0 b1 s =
      (rw (s 0 (omega arith), s 1 (omega arith)), rw (s 0 (omega arith), s 1 (omega arith)))

  cells32 :
      (b0 b1 b2 b3 : ℕ)
      → Holds m' p (b0 ∷ b1 ∷ b2 ∷ b3 ∷ [])
      → (read_uint32 m' p ≡ some (join32 b0 b1 b2 b3, p + 4))
        × (read_int32 m' p ≡ some (signed 32 (join32 b0 b1 b2 b3), p + 4))
  unfolding read_uint32 read_int32
  cells32 b0 b1 b2 b3 s = (
    rw (s 0 (omega arith), s 1 (omega arith), s 2 (omega arith), s 3 (omega arith)),
    rw (s 0 (omega arith), s 1 (omega arith), s 2 (omega arith), s 3 (omega arith)),
  )

  cells64 :
      (b0 b1 b2 b3 b4 b5 b6 b7 : ℕ)
      → Holds m' p (b0 ∷ b1 ∷ b2 ∷ b3 ∷ b4 ∷ b5 ∷ b6 ∷ b7 ∷ [])
      → (read_uint64 m' p ≡ some (join64 b0 b1 b2 b3 b4 b5 b6 b7, p + 8))
        × (read_int64 m' p ≡ some (signed 64 (join64 b0 b1 b2 b3 b4 b5 b6 b7), p + 8))
  unfolding read_uint64 read_int64
  cells64 b0 b1 b2 b3 b4 b5 b6 b7 s = (
    rw (
      s 0 (omega arith),
      s 1 (omega arith),
      s 2 (omega arith),
      s 3 (omega arith),
      s 4 (omega arith),
      s 5 (omega arith),
      s 6 (omega arith),
      s 7 (omega arith),
    ),
    rw (
      s 0 (omega arith),
      s 1 (omega arith),
      s 2 (omega arith),
      s 3 (omega arith),
      s 4 (omega arith),
      s 5 (omega arith),
      s 6 (omega arith),
      s 7 (omega arith),
    ),
  )

bool_back : (v : Bool) → not ((if v then 1 else 0) == 0) ≡ v
bool_back true = refl
bool_back false = refl

int8_back : (v : ℤ) → InRange 8 v → signed 8 (to_uint8 v) ≡ v
int8_back (pos n) h = ground arith
int8_back (negsuc n) h = ground arith

-- The bytes of a scalar, in the order in which they stand in memory.
abbrev pub encoded : Scalar → Bytes
encoded (of_bool v) = (if v then 1 else 0) ∷ []
encoded (of_int8 v) = to_uint8 v ∷ []
encoded (of_int16 v) = to_uint8 (shr_ℤ v 0) ∷ to_uint8 (shr_ℤ v 8) ∷ []
encoded (of_int32 v) =
    to_uint8 (shr_ℤ v 0) ∷ to_uint8 (shr_ℤ v 8) ∷ to_uint8 (shr_ℤ v 16) ∷ to_uint8 (shr_ℤ v 24) ∷ []
encoded (of_int64 v) =
    to_uint8 (shr_ℤ v 0)
    ∷ to_uint8 (shr_ℤ v 8)
    ∷ to_uint8 (shr_ℤ v 16)
    ∷ to_uint8 (shr_ℤ v 24)
    ∷ to_uint8 (shr_ℤ v 32)
    ∷ to_uint8 (shr_ℤ v 40)
    ∷ to_uint8 (shr_ℤ v 48)
    ∷ to_uint8 (shr_ℤ v 56)
    ∷ []
encoded (of_uint8 v) = v ∷ []
encoded (of_uint16 v) = low_byte (shr v 0) ∷ low_byte (shr v 8) ∷ []
encoded (of_uint32 v) =
    low_byte (shr v 0) ∷ low_byte (shr v 8) ∷ low_byte (shr v 16) ∷ low_byte (shr v 24) ∷ []
encoded (of_uint64 v) =
    low_byte (shr v 0)
    ∷ low_byte (shr v 8)
    ∷ low_byte (shr v 16)
    ∷ low_byte (shr v 24)
    ∷ low_byte (shr v 32)
    ∷ low_byte (shr v 40)
    ∷ low_byte (shr v 48)
    ∷ low_byte (shr v 56)
    ∷ []
encoded (of_float v) =
    low_byte (shr v 0) ∷ low_byte (shr v 8) ∷ low_byte (shr v 16) ∷ low_byte (shr v 24) ∷ []
encoded (of_double v) =
    low_byte (shr v 0)
    ∷ low_byte (shr v 8)
    ∷ low_byte (shr v 16)
    ∷ low_byte (shr v 24)
    ∷ low_byte (shr v 32)
    ∷ low_byte (shr v 40)
    ∷ low_byte (shr v 48)
    ∷ low_byte (shr v 56)
    ∷ []

pub length-encoded : (v : Scalar) → length (encoded v) ≡ size_of (type_of v)
length-encoded (of_bool v) = refl
length-encoded (of_int8 v) = refl
length-encoded (of_int16 v) = refl
length-encoded (of_int32 v) = refl
length-encoded (of_int64 v) = refl
length-encoded (of_uint8 v) = refl
length-encoded (of_uint16 v) = refl
length-encoded (of_uint32 v) = refl
length-encoded (of_uint64 v) = refl
length-encoded (of_float v) = refl
length-encoded (of_double v) = refl

pub transform-encoded :
    (m : Bytes) (p : ℕ) (v : Scalar)
    → transform m p v ≡ (stores m p (encoded v) >>= λ m'. some (m', p + size_of (type_of v)))
unfolding transform
transform-encoded m p (of_bool v) = refl
transform-encoded m p (of_int8 v) = refl
transform-encoded m p (of_int16 v) = refl
transform-encoded m p (of_int32 v) = refl
transform-encoded m p (of_int64 v) = refl
transform-encoded m p (of_uint8 v) = refl
transform-encoded m p (of_uint16 v) = refl
transform-encoded m p (of_uint32 v) = refl
transform-encoded m p (of_uint64 v) = refl
transform-encoded m p (of_float v) = refl
transform-encoded m p (of_double v) = refl

-- Where the bytes of a scalar stand, the `transform` of its type reads it.
pub read-encoded :
    (m : Bytes) (p : ℕ) (v : Scalar)
    → IsScalar v
    → Holds m p (encoded v)
    → read (type_of v) m p ≡ some (v, p + size_of (type_of v))
unfolding read
read-encoded m p (of_bool v) h s = rw ((cells8 m p (if v then 1 else 0) s).2, bool_back v)
read-encoded m p (of_int8 v) h s = rw ((cells8 m p (to_uint8 v) s).1, int8_back v h)
read-encoded m p (of_int16 v) h s = rw ((cells16 m p _ _ s).1, signed-join16 v h)
read-encoded m p (of_int32 v) h s = rw ((cells32 m p _ _ _ _ s).1, signed-join32 v h)
read-encoded m p (of_int64 v) h s = rw ((cells64 m p _ _ _ _ _ _ _ _ s).1, signed-join64 v h)
read-encoded m p (of_uint8 v) h s = rw (cells8 m p v s).0
read-encoded m p (of_uint16 v) h s = rw ((cells16 m p _ _ s).0, join16_bytes v h)
read-encoded m p (of_uint32 v) h s = rw ((cells32 m p _ _ _ _ s).0, join32_bytes v h)
read-encoded m p (of_uint64 v) h s = rw ((cells64 m p _ _ _ _ _ _ _ _ s).0, join64_bytes v h)
read-encoded m p (of_float v) h s = rw ((cells32 m p _ _ _ _ s).0, join32_bytes v h)
read-encoded m p (of_double v) h s = rw ((cells64 m p _ _ _ _ _ _ _ _ s).0, join64_bytes v h)

-- What it is to write the scalar at p in memory m and to read it back.
pub record RoundTrips (m : Bytes) (p : ℕ) (v : Scalar) : Type 0 where
  pub after : Bytes
  pub writes : transform m p v ≡ some (after, p + size_of (type_of v))
  pub reads : read (type_of v) after p ≡ some (v, p + size_of (type_of v))
  pub others : (j : ℕ) → (j < p) ⊎ (p + size_of (type_of v) ≤ j) → get_elem? after j ≡ get_elem? m j
  pub same_length : length after ≡ length m

pub le_transform-RoundTrips :
    (m : Bytes) (p : ℕ) (v : Scalar)
    → IsScalar v
    → p + size_of (type_of v) ≤ length m
    → RoundTrips m p v
le_transform-RoundTrips m p v h room =
    let (after, e, s) = stores-Stored m p (encoded v) (omega (arith, length-encoded v)) in
    record {
      after = after;
      writes = rw (transform-encoded m p v, e);
      reads = read-encoded after p v h s.cells;
      others = rw length-encoded at s.others;
      same_length = s.same_length;
    }
