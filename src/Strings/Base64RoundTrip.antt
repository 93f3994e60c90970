-- ===== src/Strings/Base64RoundTrip.antt =====
-- src/hlib_string.cpp: what `base64_encode` writes, `base64_decode` turns back.
use hlib.Base.{
  ℕ, zero, suc, ◌+◌, ◌*◌, ◌/◌, ◌%◌, ◌<◌, ◌≡◌, refl, ap, ap₂, ◌∙◌, sym, Bool, true, false, not, ◌&&◌,
  some, [], ◌∷◌, ◌++◌, Bytes, ◌==◌, bit_or, bit_or_high, ==_iff, arith, Bool-cases, inl, inr,
}
use mathlib.Core.Path.{subst}
use hlib.Strings.Base64.{
  encode_char, encode_bytes, decode_char, decode_bytes, decode2, decode3, decode4, first_char,
  second_char, third_char, fourth_char, second_byte, third_byte,
}

-- The table and its inverse agree below n, and the padding is not in the table.
table_agrees : ℕ → Bool
unfolding decode_char
table_agrees zero = true
table_agrees (suc n) =
    (decode_char (encode_char n) == n) && (not (encode_char n == 61) && table_agrees n)

table_agrees_all : table_agrees 64 ≡ true
unfolding table_agrees
table_agrees_all = refl

all_three : (a b c : Bool) → (a && (not b && c)) ≡ true → (a ≡ true) × (b ≡ false) × (c ≡ true)
all_three true false true h = (refl, refl, refl)
all_three true false false h = absurd (cc h)
all_three true true c h = absurd (cc h)
all_three false b c h = absurd (cc h)

-- The value of a character of the table is its place, and it is not the padding.
record InTable (i : ℕ) : Type 0 where
  back : decode_char (encode_char i) ≡ i
  not_padding : (encode_char i == 61) ≡ false

below : (i n : ℕ) → i < suc n → (i == n) ≡ false → i < n
below i n h e = ground arith

table_at : (n i : ℕ) → table_agrees n ≡ true → i < n → InTable i
unfolding table_agrees
table_at zero i h g = absurd (omega arith)
table_at (suc n) i h g =
    let (back, padding, rest) =
      all_three (decode_char (encode_char n) == n) (encode_char n == 61) (table_agrees n) h in
    elim (Bool-cases (i == n)) [
      | inl e ↦
          subst InTable (sym ((==_iff i n).0 e))
            (record { back = (==_iff _ n).0 back; not_padding = padding })
      | inr e ↦ table_at n i rest (below i n g e)
    ]

in_table : (i : ℕ) → i < 64 → InTable i
in_table i h = table_at 64 i table_agrees_all h

-- A group of characters from the table, decoded, as arithmetic on their places.
module _ (i0 i1 i2 i3 : ℕ) (h0 : i0 < 64) (h1 : i1 < 64) (h2 : i2 < 64) (h3 : i3 < 64) where
  decode2_lem : decode2 (encode_char i0) (encode_char i1) ≡ (i0 * 4 + i1 / 16 % 4) ∷ []
  unfolding decode2
  decode2_lem =
      rw
        ((in_table i0 h0).back, (in_table i1 h1).back, bit_or_high 2 i0 (i1 / 16 % 4) (omega arith))

  second_byte_lem :
      second_byte (decode_char (encode_char i1)) (decode_char (encode_char i2))
      ≡ i1 % 16 * 16 + i2 / 4 % 16
  second_byte_lem = rw (
    (in_table i1 h1).back,
    (in_table i2 h2).back,
    bit_or_high 4 (i1 % 16) (i2 / 4 % 16) (omega arith),
  )

  third_byte_lem :
      third_byte (decode_char (encode_char i2)) (decode_char (encode_char i3)) ≡ i2 % 4 * 64 + i3
  third_byte_lem =
      rw ((in_table i2 h2).back, (in_table i3 h3).back, bit_or_high 6 (i2 % 4) i3 (omega arith))

  decode3_lem :
      decode3 (encode_char i0) (encode_char i1) (encode_char i2)
      ≡ (i0 * 4 + i1 / 16 % 4) ∷ (i1 % 16 * 16 + i2 / 4 % 16) ∷ []
  unfolding decode3
  decode3_lem = ap₂ (λ xs x. xs ++ x ∷ []) decode2_lem second_byte_lem

  decode4_lem :
      decode4 (encode_char i0) (encode_char i1) (encode_char i2) (encode_char i3)
      ≡ (i0 * 4 + i1 / 16 % 4) ∷ (i1 % 16 * 16 + i2 / 4 % 16) ∷ (i2 % 4 * 64 + i3) ∷ []
  unfolding decode4
  decode4_lem = ap₂ (λ xs x. xs ++ x ∷ []) decode3_lem third_byte_lem

-- The bytes are bytes.
abbrev pub AreBytes : Bytes → Type 0
AreBytes [] = Unit
AreBytes (b ∷ bs) = (b < 256) × AreBytes bs

second_index : (b0 b1 : ℕ) → bit_or (b0 % 4 * 16) (b1 / 16 % 16) ≡ b0 % 4 * 16 + b1 / 16 % 16
second_index b0 b1 = bit_or_high 4 (b0 % 4) (b1 / 16 % 16) (omega arith)

third_index : (b1 b2 : ℕ) → bit_or (b1 % 16 * 4) (b2 / 64 % 4) ≡ b1 % 16 * 4 + b2 / 64 % 4
third_index b1 b2 = bit_or_high 2 (b1 % 16) (b2 / 64 % 4) (omega arith)

module _ (b0 b1 b2 : ℕ) (h0 : b0 < 256) (h1 : b1 < 256) (h2 : b2 < 256) where
  group3 :
      decode4 (first_char b0) (second_char b0 b1) (third_char b1 b2) (fourth_char b2)
      ≡ b0 ∷ b1 ∷ b2 ∷ []
  group3 =
      let e = second_index b0 b1 in
      let f = third_index b1 b2 in
      decode4_lem (b0 / 4 % 64) (bit_or (b0 % 4 * 16) (b1 / 16 % 16))
        (bit_or (b1 % 16 * 4) (b2 / 64 % 4)) (b2 % 64) (omega arith) (omega (arith, e))
        (omega (arith, f)) (omega arith)
      ∙ rw (e, f)
          (ap₂ (λ x ys. x ∷ ys) (omega arith)
            (ap₂ (λ x ys. x ∷ ys) (omega arith) (ap (λ x. x ∷ []) (omega arith))))

  group2 : decode3 (first_char b0) (second_char b0 b1) (encode_char (b1 % 16 * 4)) ≡ b0 ∷ b1 ∷ []
  group2 =
      let e = second_index b0 b1 in
      decode3_lem (b0 / 4 % 64) (bit_or (b0 % 4 * 16) (b1 / 16 % 16)) (b1 % 16 * 4) 0 (omega arith)
        (omega (arith, e)) (omega arith) (omega arith)
      ∙ rw e (ap₂ (λ x ys. x ∷ ys) (omega arith) (ap (λ x. x ∷ []) (omega arith)))

  group1 : decode2 (first_char b0) (encode_char (b0 % 4 * 16)) ≡ b0 ∷ []
  group1 =
      decode2_lem (b0 / 4 % 64) (b0 % 4 * 16) 0 0 (omega arith) (omega arith) (omega arith)
        (omega arith)
      ∙ ap (λ x. x ∷ []) (omega arith)

encode_bytes-cons : (b : ℕ) (bs : Bytes) → (c : ℕ) × (cs : Bytes) × (encode_bytes (b ∷ bs) ≡ c ∷ cs)
unfolding encode_bytes
encode_bytes-cons b [] = (_, _, refl)
encode_bytes-cons b (b1 ∷ []) = (_, _, refl)
encode_bytes-cons b (b1 ∷ b2 ∷ bs) = (_, _, refl)

decode_more :
    (c0 c1 c2 c3 c : ℕ) (cs xs ys : Bytes)
    → xs ≡ c ∷ cs
    → decode_bytes xs ≡ some ys
    → decode_bytes (c0 ∷ c1 ∷ c2 ∷ c3 ∷ xs) ≡ some (decode4 c0 c1 c2 c3 ++ ys)
unfolding decode_bytes
decode_more c0 c1 c2 c3 c cs xs ys e d = rw e (rw (rw e at d))

-- The last group, by its padding.
unpadded :
    (c0 c1 c2 c3 : ℕ)
    → (c3 == 61) ≡ false
    → decode_bytes (c0 ∷ c1 ∷ c2 ∷ c3 ∷ []) ≡ some (decode4 c0 c1 c2 c3)
unfolding decode_bytes
unpadded c0 c1 c2 c3 e = rw e

padded_once :
    (c0 c1 c2 : ℕ)
    → (c2 == 61) ≡ false
    → decode_bytes (c0 ∷ c1 ∷ c2 ∷ 61 ∷ []) ≡ some (decode3 c0 c1 c2)
unfolding decode_bytes
padded_once c0 c1 c2 e = rw e

padded_twice : (c0 c1 : ℕ) → decode_bytes (c0 ∷ c1 ∷ 61 ∷ 61 ∷ []) ≡ some (decode2 c0 c1)
unfolding decode_bytes
padded_twice c0 c1 = refl

-- Bytes, at least one, that are encoded are what the text decodes to.
pub decode_bytes-encode_bytes :
    (b : ℕ) (bs : Bytes) → AreBytes (b ∷ bs) → decode_bytes (encode_bytes (b ∷ bs)) ≡ some (b ∷ bs)
unfolding encode_bytes
decode_bytes-encode_bytes b0 [] h =
    padded_twice (first_char b0) (encode_char (b0 % 4 * 16))
    ∙ ap some (group1 b0 0 0 h.0 (omega arith) (omega arith))
decode_bytes-encode_bytes b0 (b1 ∷ []) h =
    padded_once (first_char b0) (second_char b0 b1) (encode_char (b1 % 16 * 4))
      (in_table (b1 % 16 * 4) (omega arith)).not_padding
    ∙ ap some (group2 b0 b1 0 h.0 h.1.0 (omega arith))
decode_bytes-encode_bytes b0 (b1 ∷ b2 ∷ []) h =
    unpadded (first_char b0) (second_char b0 b1) (third_char b1 b2) (fourth_char b2)
      (in_table (b2 % 64) (omega arith)).not_padding
    ∙ ap some (group3 b0 b1 b2 h.0 h.1.0 h.1.1.0)
decode_bytes-encode_bytes b0 (b1 ∷ b2 ∷ b3 ∷ bs) h =
    let (c, cs, e) = encode_bytes-cons b3 bs in
    decode_more (first_char b0) (second_char b0 b1) (third_char b1 b2) (fourth_char b2) c cs
      (encode_bytes (b3 ∷ bs)) (b3 ∷ bs) e (decode_bytes-encode_bytes b3 bs h.1.1.1)
    ∙ ap (λ ys. some (ys ++ (b3 ∷ bs))) (group3 b0 b1 b2 h.0 h.1.0 h.1.1.0)
