-- ===== src/Strings/Base64Buffer.antt =====
-- src/hlib_string.cpp: `base64_encode` and `base64_decode` on a buffer.
use hlib.Base.{
  ℕ, ◌+◌, ◌≤◌, ◌<◌, ◌≡◌, refl, ap, ◌∙◌, sym, ◌^◌, Bool, true, false, none, some, ◌>>=◌, ◌++◌, [],
  ◌∷◌, Bytes, length, take, drop, ◌==◌, if◌then◌else◌, arith, Bool-cases, inl, inr, append-nil,
  take_all,
}
use hlib.Buffer.{Allocator, Buffer, ReallocType, bytes_at, contents, add_size}
use hlib.Buffer.Capacity.{extend_by}
use hlib.Buffer.Contents.{length-contents}
use hlib.Buffer.Growth.{Denied}
use hlib.Buffer.Valid.{IsValid}
use hlib.Buffer.Writing.{
  extend_by-Extends, extend-extend_by, resize_within, with_written, store_lem, with_written-IsValid,
  contents-with_written, drop-with_written, overwritten,
}
use hlib.Strings.Base64.{
  encode_bytes, base64_encode_get_length, base64_encode, base64_decode_get_size, base64_decode,
  store, lengthen,
}
use hlib.Strings.Base64RoundTrip.{AreBytes, decode_bytes-encode_bytes}

-- The text has the length that is announced.
pub length-encode_bytes :
    (bytes : Bytes) → length (encode_bytes bytes) ≡ base64_encode_get_length (length bytes)
unfolding encode_bytes base64_encode_get_length
length-encode_bytes [] = refl
length-encode_bytes (b0 ∷ []) = refl
length-encode_bytes (b0 ∷ b1 ∷ []) = refl
length-encode_bytes (b0 ∷ b1 ∷ b2 ∷ bs) = omega (arith, length-encode_bytes bs)

-- The size that is added for a text is at least two bytes more than the bytes that the text stands
-- for.
pub decode_size-encode_bytes :
    (bytes : Bytes) → length bytes + 2 ≤ base64_decode_get_size (length (encode_bytes bytes))
unfolding base64_decode_get_size base64_encode_get_length
decode_size-encode_bytes bytes = omega (arith, length-encode_bytes bytes)

-- Bytes written behind the contents, and the size set.
module _ (a : Allocator) (b : Buffer) (ys : Bytes) (n : ℕ) (v : IsValid b) (more : 0 < n)
    (enough : length ys ≤ n) (room : b.size + n ≤ b.capacity) where
  lengthen-written :
      (store b b.size ys >>= λ b'. lengthen a b' n) ≡ some (with_written b ys n, true)
  lengthen-written = rw (
    store_lem b ys n v more enough room,
    let t : add_size b.size n ≡ b.size + n = omega (arith, room, v.capacity_fits, v.maximum_fits) in
        t,
    resize_within a (record b { block = some (overwritten (bytes_at b.block) b.size ys) })
        (b.size + n) written_valid (omega (arith, more)) room,
  )
    where
      w : IsValid (with_written b ys n)
      w = with_written-IsValid b ys n v more enough room

      written_valid : IsValid (record b { block = some (overwritten (bytes_at b.block) b.size ys) })
      written_valid = record {
        block_length = w.block_length;
        null_block = w.null_block;
        size_fits = v.size_fits;
        capacity_fits = v.capacity_fits;
        maximum_fits = v.maximum_fits;
      }

-- How `base64_encode` ends.
pub record Encodes (a : Allocator) (b : Buffer) (bytes : Bytes) : Type 0 where
  pub after : Buffer
  pub done : Bool
  pub returns : base64_encode a b bytes ≡ some (after, done)
  pub valid : IsValid after
  pub appended : done ≡ true → contents after ≡ contents b ++ encode_bytes bytes
  pub refused :
      done ≡ false
      → (contents after ≡ contents b)
        × Denied a b (b.size + base64_encode_get_length (length bytes))

module _ (a : Allocator) (b : Buffer) (bytes : Bytes) (v : IsValid b)
    (fits : b.size + base64_encode_get_length (length bytes) < 2 ^ 64) where
  abbrev n : ℕ
  n = base64_encode_get_length (length bytes)

  encode_extended :
      (more : 0 < n) (after : Buffer) (done : Bool)
      → extend_by ReallocType.grow a b n ≡ some (after, if done then some b.size else none)
      → IsValid after
      → contents after ≡ contents b
      → after.size ≡ b.size
      → (done ≡ true → b.size + n ≤ after.capacity)
      → (done ≡ false → Denied a b (b.size + n))
      → Encodes a b bytes
  unfolding base64_encode
  encode_extended more after true e w same size room denied =
      let r : after.size + n ≤ after.capacity = omega (arith, room refl, size) in
      let enough : length (encode_bytes bytes) ≤ n = omega (arith, length-encode_bytes bytes) in
      record {
        after = with_written after (encode_bytes bytes) n;
        done = true;
        returns =
            rw (let t : (n == 0) ≡ false = ground (arith, more) in t, e, sym size)
              (lengthen-written a after (encode_bytes bytes) n w more enough r);
        valid = with_written-IsValid after (encode_bytes bytes) n w more enough r;
        appended = λ _.
            sym (
              take_all (after.size + length (encode_bytes bytes))
                (contents (with_written after (encode_bytes bytes) n))
                (omega (
                  arith,
                  length-contents
                      (with_written-IsValid after (encode_bytes bytes) n w more enough r),
                  length-encode_bytes bytes,
                )))
            ∙ contents-with_written after (encode_bytes bytes) n w more enough r
            ∙ ap (λ xs. xs ++ encode_bytes bytes) same;
        refused = λ c. cc;
      }
  encode_extended more after false e w same size room denied = record {
    after = after;
    done = false;
    returns = rw (let t : (n == 0) ≡ false = ground (arith, more) in t, e);
    valid = w;
    appended = λ c. cc;
    refused = λ _. (same, denied refl);
  }

  -- `base64_encode` on a valid buffer, with less than 2^64 bytes in all, ends in a valid buffer. It
  -- returns true with the encoded text behind the old contents, or false with the contents as they
  -- were, and false only if the larger capacity is over the maximum or refused by `::realloc`.
  pub base64_encode-Encodes : Encodes a b bytes
  unfolding base64_encode
  base64_encode-Encodes = elim (Bool-cases (n == 0)) [
    | inl e ↦ record {
      after = b;
      done = true;
      returns = rw e;
      valid = v;
      appended = λ _.
          sym (append-nil (contents b))
          ∙ ap (λ xs. contents b ++ xs)
              (sym (no_bytes (encode_bytes bytes) (ground (arith, length-encode_bytes bytes))));
      refused = λ c. cc;
    }
    | inr e ↦
        let x = extend_by-Extends a b n v (ground arith) fits in
        encode_extended (ground arith) x.after x.done x.returns x.valid x.same_contents x.same_size
          x.has_room x.fails_only
  ]
    where
      no_bytes : (xs : Bytes) → length xs ≡ 0 → xs ≡ []
      no_bytes [] h = refl
      no_bytes (x ∷ xs) h = absurd (omega (arith, h))

-- How `base64_decode` ends for the text of some bytes.
pub record Decodes (a : Allocator) (b : Buffer) (bytes : Bytes) : Type 0 where
  pub after : Buffer
  pub returns : base64_decode a b (encode_bytes bytes) ≡ some (after, true)
  pub valid : IsValid after
  pub extended : Buffer
  pub extends :
      extend_by ReallocType.grow a b (base64_decode_get_size (length (encode_bytes bytes)))
      ≡ some (extended, some b.size)
  pub unwritten :
      drop (b.size + length bytes) (contents after)
      ≡ drop (b.size + length bytes) (take after.size (bytes_at extended.block))
  pub decoded : take (b.size + length bytes) (contents after) ≡ contents b ++ bytes
  pub size : after.size ≡ b.size + base64_decode_get_size (length (encode_bytes bytes))
  pub longer : b.size + length bytes + 2 ≤ after.size

module _ (a : Allocator) (b : Buffer) (byte : ℕ) (bytes : Bytes) (v : IsValid b)
    (are : AreBytes (byte ∷ bytes)) where
  abbrev text : Bytes
  text = encode_bytes (byte ∷ bytes)

  abbrev added : ℕ
  added = base64_decode_get_size (length text)

  decode_extended :
      (after : Buffer) (done : Bool)
      → extend_by ReallocType.grow a b added ≡ some (after, if done then some b.size else none)
      → IsValid after
      → contents after ≡ contents b
      → after.size ≡ b.size
      → (done ≡ true → b.size + added ≤ after.capacity)
      → done ≡ true
      → Decodes a b (byte ∷ bytes)
  unfolding base64_decode
  decode_extended after false e w same size room d = absurd (cc d)
  decode_extended after true e w same size room d =
      let ys = byte ∷ bytes in
      let over = decode_size-encode_bytes ys in
      let more : 0 < added = omega (arith, over) in
      let enough : length ys ≤ added = omega (arith, over) in
      let r : after.size + added ≤ after.capacity = omega (arith, room refl, size) in
      record {
        after = with_written after ys added;
        returns =
            rw
              (
                let t : (added == 0) ≡ false = ground (arith, more) in t,
                extend-extend_by a b added e,
                decode_bytes-encode_bytes byte bytes are,
                sym size,
              )
              (lengthen-written a after ys added w more enough r);
        valid = with_written-IsValid after ys added w more enough r;
        extended = after;
        extends = e;
        unwritten =
            let k : b.size + length ys ≡ after.size + length ys = omega (arith, size) in
            ap (λ k. drop k (contents (with_written after ys added))) k
            ∙ drop-with_written after ys added w more enough r
            ∙ ap (λ k. drop k (take (after.size + added) (bytes_at after.block))) (sym k);
        decoded =
            ap (λ k. take (k + length ys) (contents (with_written after ys added))) (sym size)
            ∙ contents-with_written after ys added w more enough r
            ∙ ap (λ xs. xs ++ ys) same;
        size = ap (λ k. k + added) size;
        longer = omega (arith, over, size);
      }

  -- `base64_decode` of the text that bytes, at least one, are encoded to, on a valid buffer whose
  -- maximum and memory allow the size that is added, returns true and ends in a valid buffer. Its
  -- contents are the old ones, the bytes, and at least two bytes more, since the size that is added
  -- depends on the length of the text only. Those are what the block held there when `extend` had
  -- made the room: nothing has written them.
  pub base64_decode-Decodes :
      b.size + added ≤ b.maximum → a.grants (b.size + added) ≡ true → Decodes a b (byte ∷ bytes)
  base64_decode-Decodes allowed granted =
      let over = decode_size-encode_bytes (byte ∷ bytes) in
      let x =
        extend_by-Extends a b added v (omega (arith, over))
          (omega (arith, allowed, v.maximum_fits)) in
      decode_extended x.after x.done x.returns x.valid x.same_contents x.same_size x.has_room
        (elim (Bool-cases x.done) [ inl e ↦ e | inr e ↦ absurd (not_denied (x.fails_only e)) ])
    where
      not_denied : ¬ Denied a b (b.size + added)
      not_denied (inl h) = omega (arith, allowed, h)
      not_denied (inr h) = cc (granted, h)
