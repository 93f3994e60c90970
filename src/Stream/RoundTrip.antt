-- ===== src/Stream/RoundTrip.antt =====
-- include/hlib/serial.hpp: scalars written to a sink one after the other, and read back from a
-- source over its bytes.
use hlib.Base.{
  ℕ, ◌+◌, ◌-◌, ◌≤◌, ◌<◌, ◌≡◌, refl, sym, ◌++◌, ◌^◌, true, some, leb, arith, length, List, [], ◌∷◌,
  Bytes, map, length-append, append_assoc, append-nil,
}
use hlib.Buffer.{Allocator, contents, bytes_at, add_size}
use hlib.Buffer.Contents.{length-contents}
use hlib.Buffer.Valid.{IsValid}
use hlib.Serial.{Scalar, ScalarType, type_of, size_of, IsScalar}
use hlib.Serial.Codec.{Codec}
use hlib.Serial.Memory.{Holds-append, stores_lem}
use hlib.Stream.{Sink, Source, available, consume}
use hlib.Stream.Deserializer.{deserialize, deserialize_all}
use hlib.Stream.Producing.{Ready, headroom-room}
use hlib.Stream.Serializer.{serialize, serialize_all, write_at}
use hlib.Stream.Streaming.{
  Appends, Appends-size, Ready-front, Ready-after, Appends-Appends, produced, written_sink,
  written-Appends, written, block_room,
}

size_of_pos : (t : ScalarType) → 0 < size_of t
size_of_pos ScalarType.bool = omega arith
size_of_pos ScalarType.int8 = omega arith
size_of_pos ScalarType.int16 = omega arith
size_of_pos ScalarType.int32 = omega arith
size_of_pos ScalarType.int64 = omega arith
size_of_pos ScalarType.uint8 = omega arith
size_of_pos ScalarType.uint16 = omega arith
size_of_pos ScalarType.uint32 = omega arith
size_of_pos ScalarType.uint64 = omega arith
size_of_pos ScalarType.float = omega arith
size_of_pos ScalarType.double = omega arith

module _ (c : Codec) where
  -- The bytes of the scalars, one after the other.
  abbrev pub encoded_all : List Scalar → Bytes
  encoded_all [] = []
  encoded_all (v ∷ vs) = c.encoded v ++ encoded_all vs

-- All scalars are values of their types.
abbrev pub AreScalars : List Scalar → Type 0
AreScalars [] = Unit
AreScalars (v ∷ vs) = IsScalar v × AreScalars vs

-- The sink is bounded, its buffer is valid, and there are room and memory for k bytes.
module _ (c : Codec) (a : Allocator) where
  write_at-written :
      (s : Sink) (v : Scalar) (r : Ready a s (length (c.encoded v))) (h : 0 < length (c.encoded v))
      → write_at c.transform (produced a s (c.encoded v) r h).after s.buffer.size v
        ≡ some (written_sink a s (c.encoded v) r h)
  unfolding write_at written_sink written
  write_at-written s v r h =
      let p = produced a s (c.encoded v) r h in
      rw (
        c.writes (bytes_at p.after.buffer.block) s.buffer.size v,
        stores_lem (bytes_at p.after.buffer.block) s.buffer.size (c.encoded v)
            (block_room a s (c.encoded v) r h),
      )

  serialize-Appends :
      (s : Sink) (v : Scalar)
      → Ready a s (length (c.encoded v))
      → Appends a s (c.encoded v) (serialize c.transform a s v)
  unfolding serialize
  serialize-Appends s v r =
      let h : 0 < length (c.encoded v) =
        omega (arith, c.encoded_length v, size_of_pos (type_of v)) in
      let p = produced a s (c.encoded v) r h in
      rw
        (
          headroom-room a s _ r,
          let t : leb (size_of (type_of v)) (s.maximum - s.buffer.size) ≡ true =
                ground (arith, r.room, c.encoded_length v) in
              t,
          sym (c.encoded_length v),
          p.returns,
          write_at-written s v r h,
        )
        (written-Appends a s (c.encoded v) r h)

  serialize_all-Appends :
      (s : Sink) (vs : List Scalar)
      → Ready a s (length (encoded_all c vs))
      → Appends a s (encoded_all c vs) (serialize_all c.transform a s vs)
  unfolding serialize_all
  serialize_all-Appends s [] r = record {
    after = s;
    returns = refl;
    valid = r.valid;
    same_maximum = refl;
    same_bound = refl;
    appended = sym (append-nil (contents s.buffer));
  }
  serialize_all-Appends s (v ∷ vs) r =
      let q = rw (length-append (c.encoded v) (encoded_all c vs)) at r in
      let first = serialize-Appends s v (Ready-front (length (encoded_all c vs)) q) in
      let rest = serialize_all-Appends first.after vs (Ready-after first q) in
      rw first.returns (Appends-Appends first rest)

  -- the source over the bytes, with the first n of them consumed
  abbrev source_at : Bytes → ℕ → Source
  source_at bytes n = record { bytes = bytes; progress = n }

  deserialize_encoded :
      (xs rest : Bytes) (v : Scalar)
      → IsScalar v
      → length xs + length (c.encoded v) < 2 ^ 64
      → deserialize c.read (source_at (xs ++ (c.encoded v ++ rest)) (length xs)) (type_of v)
        ≡ some (source_at (xs ++ (c.encoded v ++ rest)) (length (xs ++ c.encoded v)), v)
  unfolding deserialize available consume
  deserialize_encoded xs rest v i bound =
      let bytes = xs ++ (c.encoded v ++ rest) in
      let e : length bytes ≡ length xs + (size_of (type_of v) + length rest) = omega (
        arith,
        length-append xs (c.encoded v ++ rest),
        length-append (c.encoded v) rest,
        c.encoded_length v,
      ) in
      rw (
        let t : leb (length xs) (length bytes) ≡ true = ground (arith, e) in t,
        let t : leb (size_of (type_of v)) (length bytes - length xs) ≡ true = ground (arith, e) in
            t,
        let t : add_size (length xs) (size_of (type_of v)) ≡ length (xs ++ c.encoded v) =
              omega (arith, length-append xs (c.encoded v), c.encoded_length v, bound) in
            t,
        let t : leb (length (xs ++ c.encoded v)) (length bytes) ≡ true =
              ground (arith, e, length-append xs (c.encoded v), c.encoded_length v) in
            t,
        c.reads bytes (length xs) v i (Holds-append xs (c.encoded v) rest (length xs) refl),
      )

  deserialize_all_encoded :
      (xs rest : Bytes) (vs : List Scalar)
      → AreScalars vs
      → length xs + length (encoded_all c vs) < 2 ^ 64
      → deserialize_all c.read
          (source_at (xs ++ (encoded_all c vs ++ rest)) (length xs))
          (map type_of vs)
        ≡ some (source_at (xs ++ (encoded_all c vs ++ rest)) (length (xs ++ encoded_all c vs)), vs)
  unfolding deserialize_all
  deserialize_all_encoded xs rest [] i bound = rw (append-nil xs)
  deserialize_all_encoded xs rest (v ∷ vs) i bound =
      let e = c.encoded v in
      let es = encoded_all c vs in
      let l = length-append e es in
      rw (
        append_assoc e es rest,
        deserialize_encoded xs (es ++ rest) v i.0 (omega (arith, bound, l)),
        sym (append_assoc xs e (es ++ rest)),
        deserialize_all_encoded (xs ++ e) rest vs i.1 (omega (arith, bound, l, length-append xs e)),
        append_assoc xs e es,
      )

  deserialize_all_from :
      (bytes xs : Bytes) (n m : ℕ) (vs : List Scalar)
      → AreScalars vs
      → bytes ≡ xs ++ encoded_all c vs
      → length xs ≡ n
      → m ≡ n + length (encoded_all c vs)
      → m < 2 ^ 64
      → deserialize_all c.read (source_at bytes n) (map type_of vs) ≡ some (source_at bytes m, vs)
  deserialize_all_from bytes xs n m vs i e l k bound =
      rw (e, sym l, k, sym l, sym (length-append xs (encoded_all c vs)))
        (rw (append-nil (encoded_all c vs)) at
          (deserialize_all_encoded xs [] vs i (omega (arith, l, k, bound))))

-- Scalars that are written to a sink and read back from a source over its bytes.
pub record StreamRoundTrips (c : Codec) (a : Allocator) (s : Sink) (vs : List Scalar) : Type 0 where
  pub after : Sink
  pub writes : serialize_all c.transform a s vs ≡ some after
  pub valid : IsValid after.buffer
  pub size_fits : after.buffer.size ≤ after.maximum
  pub appended : contents after.buffer ≡ contents s.buffer ++ encoded_all c vs
  pub reads :
      deserialize_all c.read
        (record { bytes = contents after.buffer; progress = s.buffer.size })
        (map type_of vs)
      ≡ some (record { bytes = contents after.buffer; progress = after.buffer.size }, vs)

-- Scalars, values of their types, are written one after the other with the `Serializer` of either
-- byte order to a bounded sink over a valid buffer, where the bound is at most the buffer's maximum
-- and leaves room for their bytes, and `::realloc` grants requests up to the bound. All of them are
-- written, the sink stays valid and within its bound, its old contents stay in front, and the
-- `Deserializer` of the same byte order reads the same scalars back from a source over the contents
-- that starts where the old contents end, and ends at its end.
pub serialize-StreamRoundTrips :
    (c : Codec) (a : Allocator) (s : Sink) (vs : List Scalar)
    → Ready a s (length (encoded_all c vs))
    → AreScalars vs
    → StreamRoundTrips c a s vs
serialize-StreamRoundTrips c a s vs r i =
    let w = serialize_all-Appends c a s vs r in
    let size = Appends-size w r.valid in
    record {
      after = w.after;
      writes = w.returns;
      valid = w.valid;
      size_fits = omega (arith, size, r.room, w.same_maximum);
      appended = w.appended;
      reads =
          deserialize_all_from c a (contents w.after.buffer) (contents s.buffer) s.buffer.size
            w.after.buffer.size vs i w.appended (length-contents r.valid) size
            (omega (arith, size, r.room, r.fits, r.valid.maximum_fits));
    }
