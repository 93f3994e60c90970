-- ===== src/Serial/Fields.antt =====
-- The bytes of a number, and the number put together from its bytes, in either order.
use hlib.Base.{
  ℕ, ◌+◌, ◌-◌, ◌*◌, ◌^◌, ◌<◌, ◌≡◌, refl, arith, bit_or, bit_or_high, bit_or_low, ℤ, pos, negsuc,
  signed, shr_ℤ, to_uint8, InRange,
}
use hlib.Serial.{shr, low_byte}
use hlib.Serial.Be
use hlib.Serial.Le

-- One more field below those that are there.
or_below : (k a x x' y : ℕ) → x ≡ x' → x' ≡ a * 2 ^ k → y < 2 ^ k → bit_or x y ≡ x' + y
or_below k a x x' y e f h = rw (e, f) (bit_or_high k a y h)

-- One more field above those that are there.
or_above : (k b x x' : ℕ) → x ≡ x' → x' < 2 ^ k → bit_or x (b * 2 ^ k) ≡ b * 2 ^ k + x'
or_above k b x x' e h = rw e (bit_or_low k b x' h)

module _ (b0 b1 : ℕ) (h0 : b0 < 256) (h1 : b1 < 256) where
  pub be_join16 : Be.join16 b0 b1 ≡ b0 * 2 ^ 8 + b1 * 2 ^ 0
  be_join16 = or_below 8 (b0) _ (b0 * 2 ^ 8) (b1 * 2 ^ 0) (refl) (omega arith) (omega arith)

  pub le_join16 : Le.join16 b0 b1 ≡ b1 * 2 ^ 8 + (b0 * 2 ^ 0)
  le_join16 = or_above 8 b1 _ (b0 * 2 ^ 0) (refl) (omega arith)

module _ (b0 b1 b2 b3 : ℕ) (h0 : b0 < 256) (h1 : b1 < 256) (h2 : b2 < 256) (h3 : b3 < 256) where
  pub be_join32 : Be.join32 b0 b1 b2 b3 ≡ b0 * 2 ^ 24 + b1 * 2 ^ 16 + b2 * 2 ^ 8 + b3 * 2 ^ 0
  be_join32 =
      or_below 8 (b0 * 2 ^ 16 + b1 * 2 ^ 8 + b2) _ (b0 * 2 ^ 24 + b1 * 2 ^ 16 + b2 * 2 ^ 8)
        (b3 * 2 ^ 0)
        (or_below 16 (b0 * 2 ^ 8 + b1) _ (b0 * 2 ^ 24 + b1 * 2 ^ 16) (b2 * 2 ^ 8)
          (or_below 24 (b0) _ (b0 * 2 ^ 24) (b1 * 2 ^ 16) (refl) (omega arith) (omega arith))
          (omega arith) (omega arith))
        (omega arith) (omega arith)

  pub le_join32 : Le.join32 b0 b1 b2 b3 ≡ b3 * 2 ^ 24 + (b2 * 2 ^ 16 + (b1 * 2 ^ 8 + (b0 * 2 ^ 0)))
  le_join32 =
      or_above 24 b3 _ (b2 * 2 ^ 16 + (b1 * 2 ^ 8 + (b0 * 2 ^ 0)))
        (or_above 16 b2 _ (b1 * 2 ^ 8 + (b0 * 2 ^ 0))
          (or_above 8 b1 _ (b0 * 2 ^ 0) (refl) (omega arith)) (omega arith))
        (omega arith)

module _ (b0 b1 b2 b3 b4 b5 b6 b7 : ℕ) (h0 : b0 < 256) (h1 : b1 < 256) (h2 : b2 < 256)
    (h3 : b3 < 256) (h4 : b4 < 256) (h5 : b5 < 256) (h6 : b6 < 256) (h7 : b7 < 256) where
  pub be_join64 :
      Be.join64 b0 b1 b2 b3 b4 b5 b6 b7
      ≡ b0 * 2 ^ 56
        + b1 * 2 ^ 48
        + b2 * 2 ^ 40
        + b3 * 2 ^ 32
        + b4 * 2 ^ 24
        + b5 * 2 ^ 16
        + b6 * 2 ^ 8
        + b7 * 2 ^ 0
  be_join64 =
      or_below 8
        (b0 * 2 ^ 48 + b1 * 2 ^ 40 + b2 * 2 ^ 32 + b3 * 2 ^ 24 + b4 * 2 ^ 16 + b5 * 2 ^ 8 + b6) _
        (b0 * 2 ^ 56
          + b1 * 2 ^ 48
          + b2 * 2 ^ 40
          + b3 * 2 ^ 32
          + b4 * 2 ^ 24
          + b5 * 2 ^ 16
          + b6 * 2 ^ 8)
        (b7 * 2 ^ 0)
        (or_below 16 (b0 * 2 ^ 40 + b1 * 2 ^ 32 + b2 * 2 ^ 24 + b3 * 2 ^ 16 + b4 * 2 ^ 8 + b5) _
          (b0 * 2 ^ 56 + b1 * 2 ^ 48 + b2 * 2 ^ 40 + b3 * 2 ^ 32 + b4 * 2 ^ 24 + b5 * 2 ^ 16)
          (b6 * 2 ^ 8)
          (or_below 24 (b0 * 2 ^ 32 + b1 * 2 ^ 24 + b2 * 2 ^ 16 + b3 * 2 ^ 8 + b4) _
            (b0 * 2 ^ 56 + b1 * 2 ^ 48 + b2 * 2 ^ 40 + b3 * 2 ^ 32 + b4 * 2 ^ 24) (b5 * 2 ^ 16)
            (or_below 32 (b0 * 2 ^ 24 + b1 * 2 ^ 16 + b2 * 2 ^ 8 + b3) _
              (b0 * 2 ^ 56 + b1 * 2 ^ 48 + b2 * 2 ^ 40 + b3 * 2 ^ 32) (b4 * 2 ^ 24)
              (or_below 40 (b0 * 2 ^ 16 + b1 * 2 ^ 8 + b2) _
                (b0 * 2 ^ 56 + b1 * 2 ^ 48 + b2 * 2 ^ 40) (b3 * 2 ^ 32)
                (or_below 48 (b0 * 2 ^ 8 + b1) _ (b0 * 2 ^ 56 + b1 * 2 ^ 48) (b2 * 2 ^ 40)
                  (or_below 56 (b0) _ (b0 * 2 ^ 56) (b1 * 2 ^ 48) (refl) (omega arith)
                    (omega arith))
                  (omega arith) (omega arith))
                (omega arith) (omega arith))
              (omega arith) (omega arith))
            (omega arith) (omega arith))
          (omega arith) (omega arith))
        (omega arith) (omega arith)

  pub le_join64 :
      Le.join64 b0 b1 b2 b3 b4 b5 b6 b7
      ≡ b7 * 2 ^ 56
        + (b6 * 2 ^ 48
            + (b5 * 2 ^ 40
                + (b4 * 2 ^ 32 + (b3 * 2 ^ 24 + (b2 * 2 ^ 16 + (b1 * 2 ^ 8 + (b0 * 2 ^ 0)))))))
  le_join64 =
      or_above 56 b7 _
        (b6 * 2 ^ 48
          + (b5 * 2 ^ 40
              + (b4 * 2 ^ 32 + (b3 * 2 ^ 24 + (b2 * 2 ^ 16 + (b1 * 2 ^ 8 + (b0 * 2 ^ 0)))))))
        (or_above 48 b6 _
          (b5 * 2 ^ 40
            + (b4 * 2 ^ 32 + (b3 * 2 ^ 24 + (b2 * 2 ^ 16 + (b1 * 2 ^ 8 + (b0 * 2 ^ 0))))))
          (or_above 40 b5 _
            (b4 * 2 ^ 32 + (b3 * 2 ^ 24 + (b2 * 2 ^ 16 + (b1 * 2 ^ 8 + (b0 * 2 ^ 0)))))
            (or_above 32 b4 _ (b3 * 2 ^ 24 + (b2 * 2 ^ 16 + (b1 * 2 ^ 8 + (b0 * 2 ^ 0))))
              (or_above 24 b3 _ (b2 * 2 ^ 16 + (b1 * 2 ^ 8 + (b0 * 2 ^ 0)))
                (or_above 16 b2 _ (b1 * 2 ^ 8 + (b0 * 2 ^ 0))
                  (or_above 8 b1 _ (b0 * 2 ^ 0) (refl) (omega arith)) (omega arith))
                (omega arith))
              (omega arith))
            (omega arith))
          (omega arith))
        (omega arith)

-- The bytes of a number below the power of its width add up to it.

pub unsigned16 : (v : ℕ) → v < 2 ^ 16 → low_byte (shr v 8) * 2 ^ 8 + low_byte (shr v 0) * 2 ^ 0 ≡ v
unsigned16 v h = omega arith

pub unsigned32 :
    (v : ℕ)
    → v < 2 ^ 32
    → low_byte (shr v 24) * 2 ^ 24
        + low_byte (shr v 16) * 2 ^ 16
        + low_byte (shr v 8) * 2 ^ 8
        + low_byte (shr v 0) * 2 ^ 0
      ≡ v
unsigned32 v h = omega arith

pub unsigned64 :
    (v : ℕ)
    → v < 2 ^ 64
    → low_byte (shr v 56) * 2 ^ 56
        + low_byte (shr v 48) * 2 ^ 48
        + low_byte (shr v 40) * 2 ^ 40
        + low_byte (shr v 32) * 2 ^ 32
        + low_byte (shr v 24) * 2 ^ 24
        + low_byte (shr v 16) * 2 ^ 16
        + low_byte (shr v 8) * 2 ^ 8
        + low_byte (shr v 0) * 2 ^ 0
      ≡ v
unsigned64 v h = omega arith

-- The pattern of a signed number in w bits.
abbrev pub pattern_of : ℕ → ℤ → ℕ
pattern_of w (pos n) = n
pattern_of w (negsuc n) = 2 ^ w - 1 - n

pub signed_pattern8 : (v : ℤ) → InRange 8 v → signed 8 (pattern_of 8 v) ≡ v
signed_pattern8 (pos n) h = ground arith
signed_pattern8 (negsuc n) h = ground arith

pub signed_pattern16 : (v : ℤ) → InRange 16 v → signed 16 (pattern_of 16 v) ≡ v
signed_pattern16 (pos n) h = ground arith
signed_pattern16 (negsuc n) h = ground arith

pub signed_pattern32 : (v : ℤ) → InRange 32 v → signed 32 (pattern_of 32 v) ≡ v
signed_pattern32 (pos n) h = ground arith
signed_pattern32 (negsuc n) h = ground arith

pub signed_pattern64 : (v : ℤ) → InRange 64 v → signed 64 (pattern_of 64 v) ≡ v
signed_pattern64 (pos n) h = ground arith
signed_pattern64 (negsuc n) h = ground arith

-- A byte of a signed number is that byte of its pattern.
pub byte16 :
    (v : ℤ)
    → InRange 16 v
    → (to_uint8 (shr_ℤ v 8) ≡ low_byte (shr (pattern_of 16 v) 8))
      × (to_uint8 (shr_ℤ v 0) ≡ low_byte (shr (pattern_of 16 v) 0))
byte16 (pos n) h = omega arith
byte16 (negsuc n) h = omega arith

pub byte32 :
    (v : ℤ)
    → InRange 32 v
    → (to_uint8 (shr_ℤ v 24) ≡ low_byte (shr (pattern_of 32 v) 24))
      × (to_uint8 (shr_ℤ v 16) ≡ low_byte (shr (pattern_of 32 v) 16))
      × (to_uint8 (shr_ℤ v 8) ≡ low_byte (shr (pattern_of 32 v) 8))
      × (to_uint8 (shr_ℤ v 0) ≡ low_byte (shr (pattern_of 32 v) 0))
byte32 (pos n) h = omega arith
byte32 (negsuc n) h = omega arith

pub byte64 :
    (v : ℤ)
    → InRange 64 v
    → (to_uint8 (shr_ℤ v 56) ≡ low_byte (shr (pattern_of 64 v) 56))
      × (to_uint8 (shr_ℤ v 48) ≡ low_byte (shr (pattern_of 64 v) 48))
      × (to_uint8 (shr_ℤ v 40) ≡ low_byte (shr (pattern_of 64 v) 40))
      × (to_uint8 (shr_ℤ v 32) ≡ low_byte (shr (pattern_of 64 v) 32))
      × (to_uint8 (shr_ℤ v 24) ≡ low_byte (shr (pattern_of 64 v) 24))
      × (to_uint8 (shr_ℤ v 16) ≡ low_byte (shr (pattern_of 64 v) 16))
      × (to_uint8 (shr_ℤ v 8) ≡ low_byte (shr (pattern_of 64 v) 8))
      × (to_uint8 (shr_ℤ v 0) ≡ low_byte (shr (pattern_of 64 v) 0))
byte64 (pos n) h = omega arith
byte64 (negsuc n) h = omega arith

pub pattern_of-lt :
    (v : ℤ)
    → (InRange 8 v → pattern_of 8 v < 2 ^ 8)
      × (InRange 16 v → pattern_of 16 v < 2 ^ 16)
      × (InRange 32 v → pattern_of 32 v < 2 ^ 32)
      × (InRange 64 v → pattern_of 64 v < 2 ^ 64)
pattern_of-lt (pos n) = omega arith
pattern_of-lt (negsuc n) = omega arith
