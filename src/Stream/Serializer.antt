-- ===== src/Stream/Serializer.antt =====
-- include/hlib/serial.hpp: the classes `Serializer` of both namespaces. They differ only in the
-- `transform` that writes a scalar, which is an argument here.
use hlib.Base.{ℕ, ◌++◌, Option, some, ◌>>=◌, ◌>>◌, leb, Bytes, length, List, [], ◌∷◌}
use hlib.Buffer.{Allocator, bytes_at}
use hlib.Buffer.Capacity.{asserts}
use hlib.Serial.{Scalar, type_of, size_of}
use hlib.Stream.{Sink, headroom, produce, produce_bytes}

-- writing in memory, one of `Be.transform` and `Le.transform`
abbrev pub Writes : Type 0
Writes = Bytes → ℕ → Scalar → Option (Bytes × ℕ)

module _ (transform : Writes) where
  unfoldable pub write_at : Sink → ℕ → Scalar → Option Sink
  write_at s p v = do
    m ← transform (bytes_at s.buffer.block) p v
    some (record s { buffer = record (s.buffer) { block = some m.0 } })

  -- `transform(T const& value)` for an arithmetic type
  unfoldable pub serialize : Allocator → Sink → Scalar → Option Sink
  unfolding write_at
  serialize a s v = do
    h ← headroom s
    asserts (leb (size_of (type_of v)) h)
    r ← produce a s (size_of (type_of v))
    p ← r.1
    write_at r.0 p v

  -- one value after the other
  unfoldable pub serialize_all : Allocator → Sink → List Scalar → Option Sink
  serialize_all a s [] = some s
  serialize_all a s (v ∷ vs) = serialize a s v >>= λ s'. serialize_all a s' vs

-- `transform(T const& value)` for a container
unfoldable pub serialize_bytes : Allocator → Sink → Bytes → Option Sink
serialize_bytes a s ys = do
  h ← headroom s
  asserts (leb (length ys) h)
  r ← produce_bytes a s ys
  some r.0

-- `transform(char const* value)`: the text up to its terminating zero, and the zero
unfoldable pub serialize_text : Allocator → Sink → Bytes → Option Sink
unfolding serialize_bytes
serialize_text a s text = serialize_bytes a s (text ++ (0 ∷ []))
