-- ===== src/Buffer/Sizing.antt =====
-- What `resize` and `shrink` leave of the contents, and what the moves do.
use hlib.Base.{
  ℕ, ◌≤◌, ◌<◌, ◌≡◌, refl, ap, ◌∙◌, sym, Bool, ◌⊎◌, inl, inr, true, false, [], Option, none, some,
  arith, length, take, min, ltb, leb, if◌then◌else◌, Bool-cases, Option-cases, ◌==◌, take-take,
}
use hlib.Buffer.{Allocator, Buffer, ReallocType, bytes_at, contents, install, is_shrink}
use hlib.Buffer.Capacity.{Pointer, offset_in, resize_by, reset, shrink, is_null}
use hlib.Buffer.Contents.{Grows, install-IsValid, realloc-Grows, length-contents}
use hlib.Buffer.Growth.{Denied, Reallocation, kept, refused, installed, realloc-Reallocation}
use hlib.Buffer.Trace.{with_size-IsValid, reset-IsValid}
use hlib.Buffer.Transfer.{move, move_assign}
use hlib.Buffer.Valid.{IsValid}

-- How a change of the size to n ends.
pub record Resizes (a : Allocator) (b : Buffer) (n : ℕ) (r : Option (Buffer × Pointer))
    : Type 0 where
  pub after : Buffer
  pub pointer : Pointer
  pub done : Bool
  pub returns : r ≡ some (after, pointer)
  pub valid : IsValid after
  pub same_maximum : after.maximum ≡ b.maximum
  pub resized : done ≡ true → length (contents after) ≡ n
  pub kept_bytes :
      done ≡ true → take (min n b.size) (contents after) ≡ take (min n b.size) (contents b)
  pub as_before : done ≡ false → after ≡ b
  pub fails_only : done ≡ false → Denied a b n × (b.capacity < n) × (pointer ≡ none)
  pub points : done ≡ true → 0 < n → pointer ≡ some 0

pub offset_in-some :
    (b : Buffer) (offset : ℕ) → IsValid b → 0 < b.capacity → offset_in b offset ≡ some offset
offset_in-some b offset v h = elim (Option-cases b.block) [
  | inl e ↦ absurd (let l : 0 ≡ b.capacity = rw e at v.block_length in omega arith)
  | inr (xs, e) ↦ rw e
]

module _ (a : Allocator) (b : Buffer) (n : ℕ) (v : IsValid b) where
  resized_with :
      (b' : Buffer)
      → IsValid b'
      → n ≤ b'.capacity
      → contents b' ≡ contents b
      → b'.size ≡ b.size
      → b'.maximum ≡ b.maximum
      → Resizes a b n (some (record b' { size = n }, offset_in b' 0))
  resized_with b' w room same size maximum = record {
    after = record b' { size = n };
    pointer = offset_in b' 0;
    done = true;
    returns = refl;
    valid = with_size-IsValid b' n w room;
    same_maximum = maximum;
    resized = λ _. length-contents (with_size-IsValid b' n w room);
    kept_bytes = λ _.
        take-take (min n b.size) n (bytes_at b'.block) (omega arith)
        ∙ sym (take-take (min n b.size) b'.size (bytes_at b'.block) (omega arith))
        ∙ ap (take (min n b.size)) same;
    as_before = λ c. cc;
    fails_only = λ c. cc;
    points = λ _ h. offset_in-some b' 0 w (omega arith);
  }

  resize_some-Resizes :
      (r : Buffer × Bool)
      → Grows a b n r
      → Resizes a b n
          (some (if r.1 then (record (r.0) { size = n }, offset_in r.0 0) else (r.0, none)))
  resize_some-Resizes (b', true) g =
      resized_with b' g.valid (g.has_room refl) g.same_contents g.same_size g.same_maximum
  resize_some-Resizes (b', false) g = record {
    after = b';
    pointer = none;
    done = false;
    returns = refl;
    valid = g.valid;
    same_maximum = g.same_maximum;
    resized = λ c. cc;
    kept_bytes = λ c. cc;
    as_before = λ _. g.unchanged refl;
    fails_only = λ _. ((g.fails_only refl).0, (g.fails_only refl).1, refl);
    points = λ c. cc;
  }

  -- `resize(n)` and `resizeZeroed(n)` of a valid buffer end in a valid buffer. On success the size
  -- is n, the bytes below both sizes are as they were, and the pointer is that of the data for n
  -- over 0. A failure leaves the buffer as it was, returns null, and comes only if n is over the
  -- capacity and over the maximum or refused by `::realloc`.
  pub resize_by-Resizes :
      (type : ReallocType) → is_shrink type ≡ false → Resizes a b n (resize_by type a b n)
  unfolding resize_by
  resize_by-Resizes type s =
      rw (let t : leb b.size b.capacity ≡ true = ground (arith, v.size_fits) in t)
        (elim (Bool-cases (ltb 0 n)) [
          | inl more ↦ rw more (resize_some-Resizes _ (realloc-Grows a b n type v s))
          | inr nothing ↦ rw nothing (resized_with b v (ground arith) refl refl refl)
        ])

-- How `shrink` ends.
pub record Shrinks (a : Allocator) (b : Buffer) (r : Option Buffer) : Type 0 where
  pub after : Buffer
  pub returns : r ≡ some after
  pub valid : IsValid after
  pub same_contents : contents after ≡ contents b
  pub tight : (after.capacity ≡ after.size) ⊎ ((after ≡ b) × (a.grants b.size ≡ false))

module _ (a : Allocator) (b : Buffer) (v : IsValid b) where
  reset-Shrinks : b.size ≡ 0 → Shrinks a b (some (reset b))
  unfolding reset
  reset-Shrinks e = record {
    after = reset b;
    returns = refl;
    valid = reset-IsValid b v;
    same_contents = rw e;
    tight = inl refl;
  }

  realloc-Shrinks : {r : Buffer × Bool} → Reallocation a b b.size true r → Shrinks a b (some r.0)
  realloc-Shrinks (kept e h s) = absurd (cc s)
  realloc-Shrinks (refused e d g) = rw e (record {
    after = b;
    returns = refl;
    valid = v;
    same_contents = refl;
    tight = inr (refl, denied d);
  })
    where
      denied : Denied a b b.size → a.grants b.size ≡ false
      denied (inl h) = absurd (omega (arith, v.size_fits, v.capacity_fits))
      denied (inr h) = h
  realloc-Shrinks (installed block e m x z g) = rw e (record {
    after = install b block b.size;
    returns = refl;
    valid = install-IsValid b block b.size v m x.measured z;
    same_contents =
        rw (let t : min b.size b.size ≡ b.size = omega arith in t)
          (x.kept b.size (omega (arith, v.size_fits, v.block_length)) (omega arith));
    tight = inl (omega arith);
  })

  -- `shrink` of a valid buffer ends in a valid buffer with the same contents. The capacity is then
  -- the size, unless `::realloc` refused the smaller block: then nothing has changed.
  pub shrink-Shrinks : Shrinks a b (shrink a b)
  unfolding shrink
  shrink-Shrinks = rw (let t : leb b.size b.capacity ≡ true = ground (arith, v.size_fits) in t) (
      if-Shrinks (is_null b.block) (λ e. reset-Shrinks (null_size e))
        (if-Shrinks (b.size == 0) (λ e. reset-Shrinks (ground arith))
          (realloc-Shrinks (realloc-Reallocation a b b.size ReallocType.shrink v))))
    where
      null_size : is_null b.block ≡ true → b.size ≡ 0
      null_size e = elim (Option-cases b.block) [
        | inl n ↦ let l : 0 ≡ b.capacity = rw n at v.block_length in omega (arith, v.size_fits)
        | inr (xs, m) ↦ cc (rw m at e)
      ]

      if-Shrinks :
          (t : Bool) {x y : Buffer}
          → (t ≡ true → Shrinks a b (some x))
          → Shrinks a b (some y)
          → Shrinks a b (some (if t then x else y))
      if-Shrinks true f g = f refl
      if-Shrinks false f g = g

-- `operator =(Buffer&& that)` between valid buffers leaves both valid: this one is what `that` was,
-- and `that` is empty, with no block and the maximum that it had.
pub move_assign_lem :
    (b that : Buffer)
    → IsValid b
    → IsValid that
    → IsValid (move_assign b that).0
      × IsValid (move_assign b that).1
      × ((move_assign b that).0 ≡ that)
      × ((move_assign b that).1 ≡ (move that).1)
      × (contents (move_assign b that).1 ≡ [])
unfolding move_assign move
move_assign_lem b that v w = (w, reset-IsValid that w, refl, refl, refl)
