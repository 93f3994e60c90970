-- ===== src/Serial/Codec.antt =====
-- include/hlib/serial.hpp: what a byte order gives to the classes that write and read streams. Both
-- namespaces fill it.
use hlib.Base.{ℕ, ◌+◌, ◌≡◌, Option, some, ◌>>=◌, Bytes, length}
use hlib.Serial.{Scalar, ScalarType, type_of, size_of, IsScalar, stores}
use hlib.Serial.BeRoundTrip
use hlib.Serial.LeRoundTrip
use hlib.Serial.Memory.{Holds}

-- A pair of overload sets of `transform`, with the bytes that stand for a scalar.
pub record Codec : Type 0 where
  pub transform : Bytes → ℕ → Scalar → Option (Bytes × ℕ)
  pub read : ScalarType → Bytes → ℕ → Option (Scalar × ℕ)
  pub encoded : Scalar → Bytes
  pub encoded_length : (v : Scalar) → length (encoded v) ≡ size_of (type_of v)
  pub writes :
      (m : Bytes) (p : ℕ) (v : Scalar)
      → transform m p v ≡ (stores m p (encoded v) >>= λ m'. some (m', p + size_of (type_of v)))
  pub reads :
      (m : Bytes) (p : ℕ) (v : Scalar)
      → IsScalar v
      → Holds m p (encoded v)
      → read (type_of v) m p ≡ some (v, p + size_of (type_of v))

abbrev pub be : Codec
be = record {
  transform = hlib.Serial.Be.transform;
  read = hlib.Serial.Be.read;
  encoded = hlib.Serial.BeRoundTrip.encoded;
  encoded_length = hlib.Serial.BeRoundTrip.length-encoded;
  writes = hlib.Serial.BeRoundTrip.transform-encoded;
  reads = hlib.Serial.BeRoundTrip.read-encoded;
}

abbrev pub le : Codec
le = record {
  transform = hlib.Serial.Le.transform;
  read = hlib.Serial.Le.read;
  encoded = hlib.Serial.LeRoundTrip.encoded;
  encoded_length = hlib.Serial.LeRoundTrip.length-encoded;
  writes = hlib.Serial.LeRoundTrip.transform-encoded;
  reads = hlib.Serial.LeRoundTrip.read-encoded;
}
