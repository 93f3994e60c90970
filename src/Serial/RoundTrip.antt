-- ===== src/Serial/RoundTrip.antt =====
-- include/hlib/serial.hpp: `transform` in both byte orders.
use hlib.Base.{ℕ, ◌+◌, ◌≤◌, Bytes, length}
use hlib.Serial.{Scalar, IsScalar, size_of, type_of}
use hlib.Serial.BeRoundTrip
use hlib.Serial.LeRoundTrip

-- A scalar that its type can hold, written by `be::transform` or by `le::transform` where the memory
-- has room for it, is read back by the `transform` of its type in the same namespace. All return the
-- pointer behind the scalar, and no byte before or behind it changes.
pub transform-RoundTrips :
    (m : Bytes) (p : ℕ) (v : Scalar)
    → IsScalar v
    → p + size_of (type_of v) ≤ length m
    → BeRoundTrip.RoundTrips m p v × LeRoundTrip.RoundTrips m p v
transform-RoundTrips m p v h room = (
  BeRoundTrip.be_transform-RoundTrips m p v h room,
  LeRoundTrip.le_transform-RoundTrips m p v h room,
)
