-- ===== src/Stream/Texts.antt =====
-- include/hlib/serial.hpp: texts and containers written to a sink, and texts found in a source.
use hlib.Base.{
  ℕ, zero, suc, ◌+◌, ◌-◌, ◌≤◌, ◌<◌, ◌≡◌, ap, ◌∙◌, sym, ◌++◌, ◌^◌, true, false, some, leb, ◌==◌,
  arith, length, [], ◌∷◌, Bytes, get_elem?, length-append, append-nil, Option-cases, inl, inr,
}
use mathlib.Core.Path.{subst}
use hlib.Buffer.{Allocator, contents, add_size}
use hlib.Buffer.Contents.{length-contents}
use hlib.Buffer.Edit.{overwrite}
use hlib.Buffer.Valid.{IsValid}
use hlib.Serial.Memory.{Holds, Holds-append}
use hlib.Stream.{Sink, Source, produce_bytes, fill, available, peek, consume}
use hlib.Stream.Deserializer.{skip_text, deserialize_text}
use hlib.Stream.Producing.{Ready, headroom-room}
use hlib.Stream.Serializer.{serialize_bytes, serialize_text}
use hlib.Stream.Streaming.{
  Appends, Appends-size, produced, written_sink, written-Appends, written, block_room,
}

module _ (a : Allocator) (s : Sink) (ys : Bytes) (r : Ready a s (length ys))
    (h : 0 < length ys) where
  fill-written : fill (produced a s ys r h).after s.buffer.size ys ≡ some (written_sink a s ys r h)
  unfolding written_sink written overwrite
  fill-written =
      let p = produced a s ys r h in
      let room = block_room a s ys r h in
      elim (Option-cases p.after.buffer.block) [
        | inl e ↦ absurd (let l : s.buffer.size + length ys ≤ 0 = rw e at room in omega (arith, h))
        | inr (m, e) ↦
            let l : leb (s.buffer.size + length ys) (length m) ≡ true =
              ground (arith, let k : s.buffer.size + length ys ≤ length m = rw e at room in k) in
            rw (e, l)
      ]

  -- Bytes, at least one, written to a sink that is ready for them are appended to what it holds.
  pub serialize_bytes-Appends : Appends a s ys (serialize_bytes a s ys)
  unfolding serialize_bytes produce_bytes
  serialize_bytes-Appends =
      rw
        (
          headroom-room a s _ r,
          let t : leb (length ys) (s.maximum - s.buffer.size) ≡ true = ground (arith, r.room) in t,
          (produced a s ys r h).returns,
          fill-written,
        )
        (written-Appends a s ys r h)

-- The text has no zero byte.
abbrev pub IsText : Bytes → Type 0
IsText [] = Unit
IsText (c ∷ cs) = (0 < c) × IsText cs

-- the source over the bytes, with the first n of them consumed
abbrev source_at : Bytes → ℕ → Source
source_at bytes n = record { bytes = bytes; progress = n }

module _ (bytes : Bytes) (bound : length bytes < 2 ^ 64) where
  consume_one :
      (n : ℕ) → n < length bytes → consume (source_at bytes n) 1 ≡ some (source_at bytes (n + 1), n)
  unfolding consume
  consume_one n h = rw (
    let e : add_size n 1 ≡ n + 1 = omega arith in e,
    let t : leb (n + 1) (length bytes) ≡ true = ground arith in t,
  )

  available-some :
      (n : ℕ) → n ≤ length bytes → available (source_at bytes n) ≡ some (length bytes - n)
  unfolding available
  available-some n h = rw (let t : leb n (length bytes) ≡ true = ground arith in t)

  Holds-tail : (n c : ℕ) (cs : Bytes) → Holds bytes n (c ∷ cs) → Holds bytes (n + 1) cs
  Holds-tail n c cs h i g =
      ap (get_elem? bytes) (let z : n + 1 + i ≡ n + suc i = omega arith in z)
      ∙ h (suc i) (omega arith)

  peek_one : (n : ℕ) → n < length bytes → peek (source_at bytes n) 1 ≡ some n
  unfolding peek
  peek_one n h = rw (
    let e : add_size n 1 ≡ n + 1 = omega arith in e,
    let t : leb (n + 1) (length bytes) ≡ true = ground arith in t,
  )

  skip_text-stops :
      (fuel n : ℕ) (text : Bytes)
      → IsText text
      → Holds bytes n (text ++ (0 ∷ []))
      → n + length text < length bytes
      → length text < fuel
      → skip_text fuel (source_at bytes n) ≡ some (source_at bytes (n + length text + 1))
  unfolding skip_text
  skip_text-stops zero n text t h k f = absurd (omega arith)
  skip_text-stops (suc fuel) n [] t h k f =
      rw
        (
          consume_one n (omega arith),
          let e : get_elem? bytes n ≡ some 0 =
                ap (get_elem? bytes) (let z : n ≡ n + 0 = omega arith in z) ∙ h 0 (omega arith) in
              e,
        )
        (ap (λ m. some (source_at bytes m)) (omega arith))
  skip_text-stops (suc fuel) n (c ∷ text) t h k f =
      rw
        (
          consume_one n (omega arith),
          let e : get_elem? bytes n ≡ some c =
                ap (get_elem? bytes) (let z : n ≡ n + 0 = omega arith in z) ∙ h 0 (omega arith) in
              e,
        )
        (rw
          (
            let z : (c == 0) ≡ false = ground (arith, t.0) in z,
            available-some (n + 1) (omega arith),
            let z : leb 1 (length bytes - (n + 1)) ≡ true = ground arith in z,
            skip_text-stops fuel (n + 1) text t.1 (Holds-tail n c (text ++ (0 ∷ [])) h)
                (omega arith) (omega arith),
          )
          (ap (λ m. some (source_at bytes m)) (omega arith)))

  deserialize_text-stops :
      (fuel n m : ℕ) (xs text : Bytes)
      → IsText text
      → bytes ≡ xs ++ (text ++ (0 ∷ []))
      → length xs ≡ n
      → m ≡ n + length (text ++ (0 ∷ []))
      → length text < fuel
      → deserialize_text fuel (source_at bytes n) ≡ some (source_at bytes m, n)
  unfolding deserialize_text
  deserialize_text-stops fuel n m xs text t e l k f =
      let size : length bytes ≡ n + (length text + 1) =
        ap length e
        ∙ length-append xs (text ++ (0 ∷ []))
        ∙ omega (arith, length-append text (0 ∷ []), l) in
      let holds : Holds bytes n (text ++ (0 ∷ [])) =
        subst (λ b. Holds b n (text ++ (0 ∷ [])))
          (ap (λ ys. xs ++ ys) (append-nil (text ++ (0 ∷ []))) ∙ sym e)
          (Holds-append xs (text ++ (0 ∷ [])) [] n l) in
      rw (
        available-some n (omega (arith, size)),
        let z : leb 1 (length bytes - n) ≡ true = ground (arith, size) in z,
        peek_one n (omega (arith, size)),
        skip_text-stops fuel n text t holds (omega (arith, size)) f,
        let z : n + length text + 1 ≡ m = omega (arith, k, length-append text (0 ∷ [])) in z,
      )

-- A text written to a sink, and looked for in a source over its bytes.
pub record TextRoundTrips (a : Allocator) (s : Sink) (text : Bytes) (fuel : ℕ) : Type 0 where
  pub after : Sink
  pub writes : serialize_text a s text ≡ some after
  pub valid : IsValid after.buffer
  pub appended : contents after.buffer ≡ contents s.buffer ++ (text ++ (0 ∷ []))
  pub reads :
      deserialize_text fuel (record { bytes = contents after.buffer; progress = s.buffer.size })
      ≡ some (record { bytes = contents after.buffer; progress = after.buffer.size }, s.buffer.size)

-- A text without a zero byte, written with `Serializer` to a bounded sink over a valid buffer that
-- has room and memory for it and its terminating zero, is appended with the zero. `Deserializer`,
-- on a source over the contents from where the old contents end, finds the text there and stops
-- behind the zero, at the end, in at most one round of its loop more than the text has bytes.
pub serialize_text-TextRoundTrips :
    (a : Allocator) (s : Sink) (text : Bytes) (fuel : ℕ)
    → Ready a s (length (text ++ (0 ∷ [])))
    → IsText text
    → length text < fuel
    → TextRoundTrips a s text fuel
unfolding serialize_text
serialize_text-TextRoundTrips a s text fuel r t f =
    let w =
      serialize_bytes-Appends a s (text ++ (0 ∷ [])) r
        (omega (arith, length-append text (0 ∷ []))) in
    let size = Appends-size w r.valid in
    record {
      after = w.after;
      writes = w.returns;
      valid = w.valid;
      appended = w.appended;
      reads =
          deserialize_text-stops (contents w.after.buffer)
            (omega (arith, size, length-contents w.valid, r.room, r.fits, r.valid.maximum_fits))
            fuel s.buffer.size w.after.buffer.size (contents s.buffer) text t w.appended
            (length-contents r.valid) size f;
    }
