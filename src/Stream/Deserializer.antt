-- ===== src/Stream/Deserializer.antt =====
-- include/hlib/serial.hpp: the classes `Deserializer` of both namespaces, over the `transform` that
-- reads a scalar.
use hlib.Base.{
  ℕ, zero, suc, ◌++◌, Option, none, some, ◌>>=◌, ◌>>◌, leb, ◌==◌, if◌then◌else◌, Bytes, List, [],
  ◌∷◌, get_elem?,
}
use hlib.Buffer.Capacity.{asserts}
use hlib.Serial.{Scalar, ScalarType, size_of}
use hlib.Stream.{Source, available, peek, consume, consume_bytes}

-- reading from memory, one of `Be.read` and `Le.read`
abbrev pub Reads : Type 0
Reads = ScalarType → Bytes → ℕ → Option (Scalar × ℕ)

module _ (read : Reads) where
  -- `transform(T& value)` for an arithmetic type
  unfoldable pub deserialize : Source → ScalarType → Option (Source × Scalar)
  deserialize s type = do
    n ← available s
    asserts (leb (size_of type) n)
    r ← consume s (size_of type)
    v ← read type s.bytes r.1
    some (r.0, v.0)

  unfoldable pub deserialize_all : Source → List ScalarType → Option (Source × List Scalar)
  deserialize_all s [] = some (s, [])
  deserialize_all s (type ∷ types) = do
    r ← deserialize s type
    rs ← deserialize_all r.0 types
    some (rs.0, r.1 ∷ rs.1)

-- `transform(T& value, size)` for a container: it is lengthened by the bytes that are read
unfoldable pub deserialize_bytes : Source → Bytes → ℕ → Option (Source × Bytes)
deserialize_bytes s held n = do
  m ← available s
  asserts (leb n m)
  r ← consume_bytes s n
  some (r.0, held ++ r.1)

-- the loop of `transform(char const*& value)`: the source behind the terminating zero
unfoldable pub skip_text : ℕ → Source → Option Source
skip_text zero s = none
skip_text (suc fuel) s = do
  r ← consume s 1
  c ← get_elem? s.bytes r.1
  if c == 0 then some r.0 else available r.0 >>= λ n. asserts (leb 1 n) >> skip_text fuel r.0

-- `transform(char const*& value)`: where the text starts, and the source behind it
unfoldable pub deserialize_text : ℕ → Source → Option (Source × ℕ)
unfolding skip_text
deserialize_text fuel s = do
  n ← available s
  asserts (leb 1 n)
  p ← peek s 1
  s' ← skip_text fuel s
  some (s', p)
