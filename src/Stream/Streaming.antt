-- ===== src/Stream/Streaming.antt =====
-- src/hlib_sink.cpp: bytes that are written where `produce` made room.
use hlib.Base.{
  ℕ, ◌+◌, ◌≤◌, ◌<◌, ◌≡◌, refl, ap, ◌∙◌, sym, ◌++◌, Option, some, arith, length, take, drop, Bytes,
  length-append, length-take, length-drop, append_assoc, take-append_length, take-take,
}
use hlib.Buffer.{Allocator, contents, bytes_at}
use hlib.Buffer.Contents.{length-contents}
use hlib.Buffer.Valid.{IsValid}
use hlib.Stream.{Sink}
use hlib.Stream.Producing.{Ready, Produces, produce-Produces}

-- Writing `ys` to the sink succeeds with result r.
pub record Appends (a : Allocator) (s : Sink) (ys : Bytes) (r : Option Sink) : Type 0 where
  pub after : Sink
  pub returns : r ≡ some after
  pub valid : IsValid after.buffer
  pub same_maximum : after.maximum ≡ s.maximum
  pub same_bound : after.buffer.maximum ≡ s.buffer.maximum
  pub appended : contents after.buffer ≡ contents s.buffer ++ ys

module _ {a : Allocator} {s : Sink} where
  pub Appends-size :
      {ys : Bytes} {r : Option Sink} (p : Appends a s ys r)
      → IsValid s.buffer
      → p.after.buffer.size ≡ s.buffer.size + length ys
  Appends-size {ys} p v = omega (
    arith,
    length-contents p.valid,
    length-contents v,
    let e : length (contents p.after.buffer) ≡ length (contents s.buffer ++ ys) =
          ap length p.appended in
        e,
    length-append (contents s.buffer) ys,
  )

  pub Ready-front : {n : ℕ} (m : ℕ) → Ready a s (n + m) → Ready a s n
  Ready-front m q = record {
    valid = q.valid;
    bounded = q.bounded;
    fits = q.fits;
    room = omega (arith, q.room);
    granted = q.granted;
  }

  -- What was ready for ys ++ zs is ready for zs after ys.
  pub Ready-after :
      {ys : Bytes} {n : ℕ} {r : Option Sink} (p : Appends a s ys r)
      → Ready a s (length ys + n)
      → Ready a p.after n
  Ready-after p q = record {
    valid = p.valid;
    bounded = omega (arith, q.bounded, p.same_maximum);
    fits = omega (arith, q.fits, p.same_maximum, p.same_bound);
    room = omega (arith, q.room, p.same_maximum, Appends-size p q.valid);
    granted = λ n h. q.granted n (omega (arith, h, p.same_maximum));
  }

  pub Appends-Appends :
      {ys zs : Bytes} {r r' : Option Sink} (p : Appends a s ys r)
      → Appends a p.after zs r'
      → Appends a s (ys ++ zs) r'
  Appends-Appends {ys} {zs} p q = record {
    after = q.after;
    returns = q.returns;
    valid = q.valid;
    same_maximum = q.same_maximum ∙ p.same_maximum;
    same_bound = q.same_bound ∙ p.same_bound;
    appended = q.appended ∙ ap (λ t. t ++ zs) p.appended ∙ append_assoc (contents s.buffer) ys zs;
  }

-- Bytes stored over the end of the block, where `produce` made room.
module _ (a : Allocator) (s : Sink) (ys : Bytes) (r : Ready a s (length ys))
    (h : 0 < length ys) where
  pub produced : Produces a s (length ys)
  produced = produce-Produces a s (length ys) r h

  unfoldable pub written : Bytes → Bytes
  written m = take s.buffer.size m ++ (ys ++ drop (s.buffer.size + length ys) m)

  unfoldable pub written_sink : Sink
  written_sink = record (produced.after) {
    buffer = record (produced.after.buffer) {
      block = some (written (bytes_at produced.after.buffer.block));
    };
  }

  pub block_room : s.buffer.size + length ys ≤ length (bytes_at produced.after.buffer.block)
  block_room = omega (arith, produced.size, produced.valid.size_fits, produced.valid.block_length)

  length-written :
      (m : Bytes) → s.buffer.size + length ys ≤ length m → length (written m) ≡ length m
  unfolding written
  length-written m g = omega (
    arith,
    length-append (take s.buffer.size m) (ys ++ drop (s.buffer.size + length ys) m),
    length-append ys (drop (s.buffer.size + length ys) m),
    length-take s.buffer.size m,
    length-drop (s.buffer.size + length ys) m,
  )

  take-written :
      (m : Bytes)
      → s.buffer.size + length ys ≤ length m
      → take (s.buffer.size + length ys) (written m) ≡ take s.buffer.size m ++ ys
  unfolding written
  take-written m g =
      ap (take (s.buffer.size + length ys))
        (sym (append_assoc (take s.buffer.size m) ys (drop (s.buffer.size + length ys) m)))
      ∙ take-append_length (s.buffer.size + length ys) (take s.buffer.size m ++ ys)
          (drop (s.buffer.size + length ys) m)
          (omega (arith, length-append (take s.buffer.size m) ys, length-take s.buffer.size m))

  pub written-Appends : Appends a s ys (some written_sink)
  unfolding written_sink
  written-Appends =
      let p = produced in
      let m = bytes_at p.after.buffer.block in
      record {
        after = written_sink;
        returns = refl;
        valid = record {
          block_length = length-written m block_room ∙ p.valid.block_length;
          null_block = λ z. absurd (omega (arith, z, h, p.size, p.valid.size_fits));
          size_fits = p.valid.size_fits;
          capacity_fits = p.valid.capacity_fits;
          maximum_fits = p.valid.maximum_fits;
        };
        same_maximum = p.same_maximum;
        same_bound = p.same_bound;
        appended =
            ap (λ n. take n (written m)) p.size
            ∙ take-written m block_room
            ∙ ap (λ t. t ++ ys)
                (sym (take-take s.buffer.size p.after.buffer.size m (omega (arith, p.size)))
                  ∙ p.same_contents);
      }
