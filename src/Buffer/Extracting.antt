-- ===== src/Buffer/Extracting.antt =====
-- `copy` and `extract` between two buffers, and the moves, against operations on sequences.
use mathlib.Core.Path.{fun_ext}
use hlib.Base.{
  ℕ, ◌+◌, ◌-◌, ◌^◌, ◌≤◌, ◌<◌, ◌≡◌, refl, ap, ◌∙◌, sym, Bool, true, false, [], Option, none, some,
  arith, length, take, drop, inl, inr, length-take, length-drop, Bytes, leb, append-nil,
  if◌then◌else◌, Option-cases, ◌>>=◌, drop-nil, take-take, drop-take, find, Found, find-Found,
}
use hlib.Buffer.{Allocator, Buffer, bytes_at, contents, add_size, realloc, ReallocType}
use hlib.Buffer.Capacity.{clear}
use hlib.Buffer.Contents.{length-contents}
use hlib.Buffer.Edit.{
  insert_nothrow, make_room, memcpy, memmove, on_block, append_nothrow, assign_nothrow,
}
use hlib.Buffer.Erasing.{erase_at, erase-Erases}
use hlib.Buffer.Inserting.{Inserts, NoRoom, insert_nothrow-Inserts}
use hlib.Buffer.Trace.{with_size-IsValid}
use hlib.Buffer.Transfer.{from_offset, erase_if_done, extract, extract_found, extract_until}
use hlib.Buffer.Valid.{IsValid}

memcpy-take :
    (dst n : ℕ) (zs : Bytes)
    → n ≤ length zs
    → memcpy dst (some (take n zs)) n ≡ memcpy dst (some zs) n
memcpy-take dst n zs h = fun_ext λ xs. rw (
  let t : leb n (length (take n zs)) ≡ true = ground (arith, length-take n zs) in t,
  let t : leb n (length zs) ≡ true = ground arith in t,
  take-take n n zs (omega arith),
)

make_room-take :
    (b : Buffer) (o n : ℕ) (zs : Bytes)
    → n ≤ length zs
    → make_room b o (some (take n zs)) n ≡ make_room b o (some zs) n
unfolding make_room
make_room-take b o n zs h =
    ap
      (λ f. on_block b.block (λ xs. memmove (o + n) o (b.size - o) xs >>= f) >>= λ block.
        some (record b { block = block; size = add_size b.size n }, true))
      (memcpy-take o n zs h)

insert_nothrow-take :
    (a : Allocator) (b : Buffer) (o n : ℕ) (zs : Bytes)
    → n ≤ length zs
    → insert_nothrow a b o (some (take n zs)) n ≡ insert_nothrow a b o (some zs) n
unfolding insert_nothrow
insert_nothrow-take a b o n zs h =
    rw (make_room-take (realloc a b (add_size b.size n) ReallocType.grow).0 o n zs h)

-- the buffer that `assign` hands to `append`
abbrev pub emptied : Buffer → Buffer
emptied b = record b { size = 0 }

module _ (a : Allocator) (b : Buffer) (v : IsValid b) where
  assign_some-Inserts :
      (zs : Bytes) (n : ℕ)
      → n ≤ length zs
      → n < 2 ^ 64
      → Inserts (NoRoom a (emptied b) n) (emptied b) (take n zs) [] (assign_nothrow a b (some zs) n)
  unfolding assign_nothrow append_nothrow
  assign_some-Inserts zs n h k =
      let len : length (take n zs) ≡ n = omega (arith, length-take n zs) in
      rw (← insert_nothrow-take a (emptied b) 0 n zs h) (
        rw (let t : 0 + length (take n zs) ≡ n = omega (arith, len) in t, len, append-nil) at
          (insert_nothrow-Inserts a (emptied b) 0 (take n zs)
            (with_size-IsValid b 0 v (omega arith)) (omega arith) (omega (arith, len))))

  -- `assign` from a source with at least n bytes holds the first n, or nothing if it fails.
  pub assign-Inserts :
      (source : Option Bytes) (n : ℕ)
      → n ≤ length (bytes_at source)
      → n < 2 ^ 64
      → Inserts
          (NoRoom a (emptied b) n)
          (emptied b)
          (take n (bytes_at source))
          []
          (assign_nothrow a b source n)
  unfolding assign_nothrow append_nothrow insert_nothrow
  assign-Inserts (some zs) n h k = assign_some-Inserts zs n h k
  assign-Inserts none n h k = rw (let t : n ≡ 0 = omega arith in t) (record {
    after = emptied b;
    done = true;
    returns = rw (let t : leb 0 b.capacity ≡ true = ground arith in t);
    valid = with_size-IsValid b 0 v (omega arith);
    same_maximum = refl;
    holds = refl;
    fails_only = λ c. cc;
  })

-- How an extraction of n bytes at `offset` ends: the bytes have moved to the other buffer, or it
-- has failed, with this buffer as it was and the other one empty.
pub record Extracts (b buffer : Buffer) (offset n : ℕ) (a : Allocator)
    (r : Option (Buffer × Buffer × Bool)) : Type 0 where
  pub after : Buffer
  pub other : Buffer
  pub done : Bool
  pub returns : r ≡ some (after, other, done)
  pub valid : IsValid after
  pub other_valid : IsValid other
  pub left : contents after ≡ (if done then erase_at offset n (contents b) else contents b)
  pub taken : contents other ≡ (if done then take n (drop offset (contents b)) else [])
  pub fails_only : done ≡ false → NoRoom a (emptied buffer) n

bytes_at-from_offset :
    (block : Option Bytes) (offset : ℕ)
    → bytes_at (from_offset block offset) ≡ drop offset (bytes_at block)
bytes_at-from_offset none offset = sym (drop-nil offset)
bytes_at-from_offset (some xs) offset = refl

module _ (a : Allocator) (b buffer : Buffer) (offset n : ℕ) (v : IsValid b) (w : IsValid buffer)
    (inside : offset + n ≤ b.size) where
  -- the n bytes at the offset, in the block and in the contents
  same_bytes : take n (bytes_at (from_offset b.block offset)) ≡ take n (drop offset (contents b))
  same_bytes =
      ap (take n) (bytes_at-from_offset b.block offset)
      ∙ sym (take-take n (b.size - offset) (drop offset (bytes_at b.block)) (omega arith))
      ∙ ap (take n) (sym (drop-take offset b.size (bytes_at b.block) (omega arith)))

  enough : n ≤ length (bytes_at (from_offset b.block offset))
  enough = omega (
    arith,
    ap length (bytes_at-from_offset b.block offset),
    length-drop offset (bytes_at b.block),
    v.block_length,
    v.size_fits,
  )

  assigned :
      Inserts
        (NoRoom a (emptied buffer) n)
        (emptied buffer)
        (take n (drop offset (contents b)))
        []
        (assign_nothrow a buffer (from_offset b.block offset) n)
  assigned = rw same_bytes at (
      assign-Inserts a buffer w (from_offset b.block offset) n enough
        (omega (arith, v.size_fits, v.capacity_fits, v.maximum_fits)))

  erase_if_done-Extracts :
      {r : Option (Buffer × Bool)}
      → Inserts
          (NoRoom a (emptied buffer) n)
          (emptied buffer)
          (take n (drop offset (contents b)))
          []
          r
      → Extracts b buffer offset n a (r >>= erase_if_done b offset n)
  unfolding erase_if_done
  erase_if_done-Extracts i = rw i.returns (finish i.after i.done i.valid i.holds i.fails_only)
    where
      finish :
          (other : Buffer) (done : Bool)
          → IsValid other
          → contents other ≡ (if done then take n (drop offset (contents b)) else [])
          → (done ≡ false → NoRoom a (emptied buffer) n)
          → Extracts b buffer offset n a (erase_if_done b offset n (other, done))
      finish other true u h f =
          let e = erase-Erases b offset n v inside in
          record {
            after = e.after;
            other = other;
            done = true;
            returns = rw e.returns;
            valid = e.valid;
            other_valid = u;
            left = e.holds;
            taken = h;
            fails_only = f;
          }
      finish other false u h f = record {
        after = b;
        other = other;
        done = false;
        returns = refl;
        valid = v;
        other_valid = u;
        left = refl;
        taken = h;
        fails_only = f;
      }

  -- With the range inside this buffer, and both buffers valid, `extract` ends with both valid. It
  -- either moves the bytes of the range to the other buffer, in order, or it fails, for want of
  -- memory only, with this buffer's contents as they were and the other buffer empty.
  pub extract-Extracts : Extracts b buffer offset n a (extract a b offset n buffer)
  unfolding extract
  extract-Extracts =
      rw
        (let t : leb (add_size offset n) b.size ≡ true =
            ground (arith, v.size_fits, v.capacity_fits, v.maximum_fits) in
          t)
        (erase_if_done-Extracts assigned)

-- How the extraction up to a sentinel ends.
pub data ExtractsUntil (a : Allocator) (b buffer : Buffer) (offset : ℕ) (sentinel : Bytes)
    (include_sentinel : Bool) (r : Option (Buffer × Buffer × Bool)) : Type 0 where
  absent :
      find (contents b) sentinel offset ≡ none
      → r ≡ some (b, emptied buffer, true)
      → ExtractsUntil a b buffer offset sentinel include_sentinel r
  present :
      (at : ℕ)
      → Found (contents b) sentinel offset at
      → Extracts b buffer offset
          (if include_sentinel then at - offset + length sentinel else at - offset)
          a
          r
      → ExtractsUntil a b buffer offset sentinel include_sentinel r

module _ (a : Allocator) (b buffer : Buffer) (offset : ℕ) (sentinel : Bytes)
    (include_sentinel : Bool) (v : IsValid b) (w : IsValid buffer) (inside : offset ≤ b.size) where
  abbrev size_of : ℕ → ℕ
  size_of at = if include_sentinel then at - offset + length sentinel else at - offset

  Found-inside : (at : ℕ) → Found (contents b) sentinel offset at → offset + size_of at ≤ b.size
  Found-inside at f = ground (arith, f.not_before, f.within, length-contents v)

  extract_found-Extracts :
      (at : ℕ)
      → Found (contents b) sentinel offset at
      → Extracts b buffer offset
          (size_of at)
          a
          (extract_found a b offset sentinel include_sentinel buffer at)
  unfolding extract_found
  extract_found-Extracts at f =
      rw (let t : leb offset at ≡ true = ground (arith, f.not_before) in t) (
        erase_if_done-Extracts a b buffer offset (size_of at) v w (Found-inside at f)
          (assigned a b buffer offset (size_of at) v w (Found-inside at f)))

  -- With both buffers valid and the offset inside this one, the extraction up to a sentinel ends.
  -- If the sentinel is nowhere from the offset on, this buffer stays and the other one is emptied.
  -- If it is, the bytes up to its first place, with the sentinel if that is asked for, move to the
  -- other buffer as by `extract`.
  pub extract_until-ExtractsUntil :
      ExtractsUntil a b buffer offset sentinel include_sentinel
        (extract_until a b offset sentinel include_sentinel buffer)
  unfolding extract_until clear
  extract_until-ExtractsUntil =
      rw (let t : leb offset b.size ≡ true = ground arith in t)
        (elim (Option-cases (find (contents b) sentinel offset)) [
          | inl e ↦ absent e (rw e)
          | inr (at, e) ↦
              let f = find-Found (contents b) sentinel offset e in
              present at f (rw e (extract_found-Extracts at f))
        ])
