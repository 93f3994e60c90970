-- ===== src/Stream/Producing.antt =====
-- src/hlib_sink.cpp: `produce` on a valid buffer.
use hlib.Base.{
  ℕ, ◌+◌, ◌-◌, ◌≤◌, ◌<◌, ◌≡◌, refl, ◌∙◌, sym, inl, inr, true, false, some, leb, ◌==◌, arith, take,
  min, take_all, Bool-cases,
}
use hlib.Buffer.{Allocator, ReallocType, contents, add_size}
use hlib.Buffer.Capacity.{resize_by, resize}
use hlib.Buffer.Contents.{length-contents}
use hlib.Buffer.Sizing.{Resizes, resize_by-Resizes}
use hlib.Buffer.Valid.{IsValid}
use hlib.Stream.{Sink, minimal_capacity, produce, headroom}

-- A bounded sink over a valid buffer, with room for k bytes more and memory for all that it may
-- ever hold.
pub record Ready (a : Allocator) (s : Sink) (k : ℕ) : Type 0 where
  pub valid : IsValid s.buffer
  pub bounded : 0 < s.maximum
  pub fits : s.maximum ≤ s.buffer.maximum
  pub room : s.buffer.size + k ≤ s.maximum
  pub granted : (n : ℕ) → n ≤ s.maximum → a.grants n ≡ true

-- What `produce` of k bytes leaves.
pub record Produces (a : Allocator) (s : Sink) (k : ℕ) : Type 0 where
  pub after : Sink
  pub returns : produce a s k ≡ some (after, some s.buffer.size)
  pub valid : IsValid after.buffer
  pub same_maximum : after.maximum ≡ s.maximum
  pub same_bound : after.buffer.maximum ≡ s.buffer.maximum
  pub size : after.buffer.size ≡ s.buffer.size + k
  pub same_contents : take s.buffer.size (contents after.buffer) ≡ contents s.buffer

module _ (a : Allocator) (s : Sink) (k : ℕ) (r : Ready a s k) where
  add_size-room : add_size s.buffer.size k ≡ s.buffer.size + k
  add_size-room = omega (arith, r.room, r.fits, r.valid.maximum_fits)

  pub headroom-room : headroom s ≡ some (s.maximum - s.buffer.size)
  unfolding headroom
  headroom-room = rw (
    let b : (minimal_capacity == s.maximum) ≡ false = ground (arith, r.bounded) in b,
    let t : leb s.buffer.size s.maximum ≡ true = ground (arith, r.room) in t,
  )

  resized :
      Resizes a s.buffer
        (s.buffer.size + k)
        (resize_by ReallocType.grow a s.buffer (s.buffer.size + k))
  resized = resize_by-Resizes a s.buffer (s.buffer.size + k) r.valid ReallocType.grow refl

  resized_done : 0 < k → resized.done ≡ true
  resized_done h = elim (Bool-cases resized.done) [
    | inl e ↦ e
    | inr e ↦ elim ((resized.fails_only e).0) [
      | inl over ↦ absurd (omega (arith, r.room, r.fits))
      | inr refused ↦ absurd (cc (r.granted (s.buffer.size + k) r.room))
    ]
  ]

  pub produce-Produces : 0 < k → Produces a s k
  unfolding produce resize
  produce-Produces h =
      let z = resized in
      let done = resized_done h in
      record {
        after = record s { buffer = z.after };
        returns = rw (
          add_size-room,
          let t : leb (s.buffer.size + k) s.maximum ≡ true = ground (arith, r.room) in t,
          let b : (minimal_capacity == s.maximum) ≡ false = ground (arith, r.bounded) in b,
          z.returns,
          z.points done (omega arith),
          let e : 0 + s.buffer.size ≡ s.buffer.size = omega arith in e,
        );
        valid = z.valid;
        same_maximum = refl;
        same_bound = z.same_maximum;
        size = sym (length-contents z.valid) ∙ z.resized done;
        same_contents =
            rw (let t : min (s.buffer.size + k) s.buffer.size ≡ s.buffer.size = omega arith in t) at
              z.kept_bytes done
            ∙ take_all s.buffer.size (contents s.buffer) (omega (arith, length-contents r.valid));
      }
