-- ===== src/Buffer/Writing.antt =====
-- src/hlib_buffer.cpp: bytes that are written into the capacity that `extend` made, and that
-- `resize` then takes into the contents.
use hlib.Base.{
  ℕ, ◌+◌, ◌-◌, ◌≤◌, ◌<◌, ◌≡◌, refl, ap, ◌∙◌, sym, ◌^◌, Bool, true, false, none, some, ◌>>=◌, ◌++◌,
  Bytes, length, take, drop, leb, ltb, if◌then◌else◌, arith, length-append, length-take,
  length-drop, append_assoc, take-append_length, drop-append_length, drop-take, take-take,
  Option-cases, inl, inr, value,
}
use hlib.Buffer.{Allocator, Buffer, ReallocType, bytes_at, contents, add_size, realloc}
use hlib.Buffer.Capacity.{Pointer, extend_by, extend, resize, resize_by, or_bad_alloc, offset_in}
use hlib.Buffer.Contents.{Grows, realloc-Grows}
use hlib.Buffer.Edit.{overwrite, on_block}
use hlib.Buffer.Growth.{Denied, Reallocation, kept, refused, installed, realloc-Reallocation}
use hlib.Buffer.Sizing.{offset_in-some}
use hlib.Buffer.Valid.{IsValid}

-- The block m with ys written from p on.
abbrev pub overwritten : Bytes → ℕ → Bytes → Bytes
overwritten m p ys = take p m ++ (ys ++ drop (p + length ys) m)

module _ (m : Bytes) (p : ℕ) (ys : Bytes) (room : p + length ys ≤ length m) where
  pub overwrite_lem : overwrite p ys m ≡ some (overwritten m p ys)
  unfolding overwrite
  overwrite_lem = rw (let t : leb (p + length ys) (length m) ≡ true = ground (arith, room) in t)

  pub length-overwritten : length (overwritten m p ys) ≡ length m
  length-overwritten = omega (
    arith,
    room,
    length-append (take p m) (ys ++ drop (p + length ys) m),
    length-append ys (drop (p + length ys) m),
    length-take p m,
    length-drop (p + length ys) m,
  )

  pub take-overwritten : take (p + length ys) (overwritten m p ys) ≡ take p m ++ ys
  take-overwritten =
      ap (take (p + length ys)) (sym (append_assoc (take p m) ys (drop (p + length ys) m)))
      ∙ take-append_length (p + length ys) (take p m ++ ys) (drop (p + length ys) m)
          (omega (arith, room, length-append (take p m) ys, length-take p m))

  pub drop-overwritten : drop (p + length ys) (overwritten m p ys) ≡ drop (p + length ys) m
  drop-overwritten =
      ap (drop (p + length ys)) (sym (append_assoc (take p m) ys (drop (p + length ys) m)))
      ∙ drop-append_length (p + length ys) (take p m ++ ys) (drop (p + length ys) m)
          (omega (arith, room, length-append (take p m) ys, length-take p m))

-- How `extend` by n ends.
pub record Extends (a : Allocator) (b : Buffer) (n : ℕ) : Type 0 where
  pub after : Buffer
  pub done : Bool
  pub returns : extend_by ReallocType.grow a b n ≡ some (after, if done then some b.size else none)
  pub valid : IsValid after
  pub same_contents : contents after ≡ contents b
  pub same_size : after.size ≡ b.size
  pub same_maximum : after.maximum ≡ b.maximum
  pub has_room : done ≡ true → b.size + n ≤ after.capacity
  pub no_more_room : done ≡ true → b.capacity < b.size + n → after.capacity ≡ b.size + n
  pub fails_only : done ≡ false → Denied a b (b.size + n)

exact_capacity :
    {a : Allocator} {b : Buffer} {n : ℕ} {r : Buffer × Bool}
    → Reallocation a b n false r
    → r.1 ≡ true
    → b.capacity < n
    → r.0.capacity ≡ n
exact_capacity (kept e h s) done beyond = absurd (omega (arith, h, beyond))
exact_capacity (refused e d g) done beyond = absurd (cc (e, done))
exact_capacity (installed block e m x z g) done beyond = rw e refl

module _ (a : Allocator) (b : Buffer) (n : ℕ) (v : IsValid b) (more : 0 < n)
    (fits : b.size + n < 2 ^ 64) where
  extend_by-grown :
      (b' : Buffer) (done : Bool) {q : Pointer}
      → realloc a b (b.size + n) ReallocType.grow ≡ (b', done)
      → (if done then offset_in b' b'.size else none) ≡ q
      → extend_by ReallocType.grow a b n ≡ some (b', q)
  unfolding extend_by
  extend_by-grown b' done e f =
      rw
        (
          let t : leb b.size b.capacity ≡ true = ground (arith, v.size_fits) in t,
          let t : ltb 0 n ≡ true = ground (arith, more) in t,
          let t : add_size b.size n ≡ b.size + n = omega (arith, fits) in t,
          e,
        )
        (ap (λ p. some (b', p)) f)

  pointer_of :
      (b' : Buffer) (done : Bool)
      → Grows a b (b.size + n) (b', done)
      → (if done then offset_in b' b'.size else none) ≡ (if done then some b.size else none)
  pointer_of b' true g =
      offset_in-some b' b'.size g.valid (omega (arith, g.has_room refl, more)) ∙ ap some g.same_size
  pointer_of b' false g = refl

  -- `extend` by n over 0 of a valid buffer, with b.size + n below 2^64.
  pub extend_by-Extends : Extends a b n
  extend_by-Extends =
      let r = realloc a b (b.size + n) ReallocType.grow in
      let g = realloc-Grows a b (b.size + n) ReallocType.grow v refl in
      record {
        after = r.0;
        done = r.1;
        returns = extend_by-grown r.0 r.1 refl (pointer_of r.0 r.1 g);
        valid = g.valid;
        same_contents = g.same_contents;
        same_size = g.same_size;
        same_maximum = g.same_maximum;
        has_room = g.has_room;
        no_more_room = exact_capacity (realloc-Reallocation a b (b.size + n) ReallocType.grow v);
        fails_only = λ f. (g.fails_only f).0;
      }

pub extend-extend_by :
    (a : Allocator) (b : Buffer) (n : ℕ) {after : Buffer} {p : ℕ}
    → extend_by ReallocType.grow a b n ≡ some (after, some p)
    → extend a b n ≡ some (after, value (some p))
unfolding extend
extend-extend_by a b n e = ap (λ o. o >>= λ r. some (or_bad_alloc n r)) e

-- `resize` within the capacity only sets the size.
pub resize_by_within :
    (a : Allocator) (b : Buffer) (n : ℕ)
    → IsValid b
    → 0 < n
    → n ≤ b.capacity
    → resize_by ReallocType.grow a b n ≡ some (record b { size = n }, some 0)
unfolding resize_by realloc
resize_by_within a b n v more room =
    rw
      (
        let t : leb b.size b.capacity ≡ true = ground (arith, v.size_fits) in t,
        let t : ltb 0 n ≡ true = ground (arith, more) in t,
        let t : leb n b.capacity ≡ true = ground (arith, room) in t,
      )
      (ap (λ p. some (record b { size = n }, p)) (offset_in-some b 0 v (omega (arith, more, room))))

pub resize_within :
    (a : Allocator) (b : Buffer) (n : ℕ)
    → IsValid b
    → 0 < n
    → n ≤ b.capacity
    → resize a b n ≡ some (record b { size = n }, value (some 0))
unfolding resize
resize_within a b n v more room =
    ap (λ o. o >>= λ r. some (or_bad_alloc n r)) (resize_by_within a b n v more room)

-- A buffer with the bytes ys written behind its contents, and n bytes taken into them.
abbrev pub with_written : Buffer → Bytes → ℕ → Buffer
with_written b ys n = record b {
  block = some (overwritten (bytes_at b.block) b.size ys);
  size = b.size + n;
}

module _ (b : Buffer) (ys : Bytes) (n : ℕ) (v : IsValid b) (more : 0 < n) (enough : length ys ≤ n)
    (room : b.size + n ≤ b.capacity) where
  block_room : b.size + length ys ≤ length (bytes_at b.block)
  block_room = omega (arith, v.block_length, room, enough)

  pub store_lem :
      on_block b.block (overwrite b.size ys)
      ≡ some (some (overwritten (bytes_at b.block) b.size ys))
  store_lem = elim (Option-cases b.block) [
    | inl e ↦
        absurd (let l : 0 ≡ b.capacity = rw e at v.block_length in omega (arith, l, more, room))
    | inr (xs, e) ↦ rw (
      e,
      overwrite_lem xs b.size ys (let l : b.size + length ys ≤ length xs = rw e at block_room in l),
    )
  ]

  pub with_written-IsValid : IsValid (with_written b ys n)
  with_written-IsValid = record {
    block_length = length-overwritten (bytes_at b.block) b.size ys block_room ∙ v.block_length;
    null_block = λ z. absurd (omega (arith, z, more, room));
    size_fits = room;
    capacity_fits = v.capacity_fits;
    maximum_fits = v.maximum_fits;
  }

  -- The contents are the old ones and the bytes written, up to the place behind them.
  pub contents-with_written :
      take (b.size + length ys) (contents (with_written b ys n)) ≡ contents b ++ ys
  contents-with_written =
      take-take (b.size + length ys) (b.size + n) (overwritten (bytes_at b.block) b.size ys)
        (omega (arith, enough))
      ∙ take-overwritten (bytes_at b.block) b.size ys block_room

  -- Behind them the contents are what the block held there.
  pub drop-with_written :
      drop (b.size + length ys) (contents (with_written b ys n))
      ≡ drop (b.size + length ys) (take (b.size + n) (bytes_at b.block))
  drop-with_written =
      let m = bytes_at b.block in
      let k = b.size + length ys in
      drop-take k (b.size + n) (overwritten m b.size ys) (omega (arith, enough))
      ∙ ap (take (b.size + n - k)) (drop-overwritten m b.size ys block_room)
      ∙ sym (drop-take k (b.size + n) m (omega (arith, enough)))
