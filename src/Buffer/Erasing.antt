-- ===== src/Buffer/Erasing.antt =====
-- `erase` against removal from a sequence, and as the inverse of `insert`.
use hlib.Base.{
  ℕ, ◌+◌, ◌-◌, ◌^◌, ◌≤◌, ◌<◌, ◌≡◌, refl, ap, ap₂, ◌∙◌, sym, true, [], ◌++◌, Option, none, some,
  arith, length, take, drop, length-append, length-take, length-drop, Bytes, leb, append_assoc,
  ◌>>=◌, take-nil, drop-nil, take-append_length, drop-append_length, take-take, drop-take,
  take-append-drop,
}
use hlib.Buffer.{Allocator, Buffer, bytes_at, contents, add_size}
use hlib.Buffer.Contents.{length-contents}
use hlib.Buffer.Valid.{IsValid}
use hlib.Buffer.Edit.{insert_nothrow, memmove, on_block, erase}
use hlib.Buffer.Inserting.{Inserts-done, length-insert_at, insert_at, insert_nothrow-Inserts}
use hlib.Buffer.Sequences.{memmove_lem}

-- the sequence without the n elements at `offset`
abbrev pub erase_at : ℕ → ℕ → Bytes → Bytes
erase_at offset n xs = take offset xs ++ drop (offset + n) xs

pub record Erases (b : Buffer) (offset n : ℕ) (r : Option Buffer) : Type 0 where
  pub after : Buffer
  pub returns : r ≡ some after
  pub valid : IsValid after
  pub same_capacity : after.capacity ≡ b.capacity
  pub holds : contents after ≡ erase_at offset n (contents b)

module _ (xs : Bytes) (o n s : ℕ) (inside : o + n ≤ s) (fits : s ≤ length xs) where
  -- the block with the bytes [o + n, s) moved down to o
  moved_down : Bytes
  moved_down = take o xs ++ (take (s - (o + n)) (drop (o + n) xs) ++ drop (o + (s - (o + n))) xs)

  memmove_down : memmove o (o + n) (s - (o + n)) xs ≡ some moved_down
  unfolding moved_down
  memmove_down = memmove_lem o (o + n) (s - (o + n)) xs (omega arith) (omega arith)

  length-moved_down : length moved_down ≡ length xs
  unfolding moved_down
  length-moved_down = omega (
    arith,
    length-append (take o xs) (take (s - (o + n)) (drop (o + n) xs) ++ drop (o + (s - (o + n))) xs),
    length-append (take (s - (o + n)) (drop (o + n) xs)) (drop (o + (s - (o + n))) xs),
    length-take o xs,
    length-take (s - (o + n)) (drop (o + n) xs),
    length-drop (o + n) xs,
    length-drop (o + (s - (o + n))) xs,
  )

  take-moved_down : take (s - n) moved_down ≡ erase_at o n (take s xs)
  unfolding moved_down
  take-moved_down =
      ap (take (s - n)) (sym (append_assoc (take o xs) (take (s - (o + n)) (drop (o + n) xs)) _))
      ∙ take-append_length (s - n) (take o xs ++ take (s - (o + n)) (drop (o + n) xs)) _ (
          omega (
            arith,
            length-append (take o xs) (take (s - (o + n)) (drop (o + n) xs)),
            length-take o xs,
            length-take (s - (o + n)) (drop (o + n) xs),
            length-drop (o + n) xs,
          ))
      ∙ ap₂ ◌++◌ (sym (take-take o s xs (omega arith))) (sym (drop-take (o + n) s xs inside))

module _ (b : Buffer) (o n : ℕ) (v : IsValid b) (inside : o + n ≤ b.size) where
  erase_block :
      (block : Option Bytes)
      → length (bytes_at block) ≡ b.capacity
      → (b.capacity ≡ 0 → block ≡ none)
      → contents b ≡ take b.size (bytes_at block)
      → Erases b o n (
          on_block block (memmove o (o + n) (b.size - (o + n))) >>= λ block'.
          some (record b { block = block'; size = b.size - n }))
  erase_block none l z c = record {
    after = record b { block = none; size = b.size - n };
    returns = rw (memmove_down [] o n b.size inside (omega (arith, v.size_fits)));
    valid = record {
      block_length = l;
      null_block = λ _. refl;
      size_fits = omega (arith, v.size_fits);
      capacity_fits = v.capacity_fits;
      maximum_fits = v.maximum_fits;
    };
    same_capacity = refl;
    holds =
        take-nil (b.size - n)
        ∙ sym (
            ap (erase_at o n) (c ∙ take-nil b.size)
            ∙ ap₂ {B = Bytes} ◌++◌ (take-nil o) (drop-nil (o + n)));
  }
  erase_block (some xs) l z c = record {
    after = record b {
      block = some (moved_down xs o n b.size inside (omega (arith, v.size_fits)));
      size = b.size - n;
    };
    returns = rw (memmove_down xs o n b.size inside (omega (arith, v.size_fits)));
    valid = record {
      block_length = length-moved_down xs o n b.size inside (omega (arith, v.size_fits)) ∙ l;
      null_block = λ e. cc (z e);
      size_fits = omega (arith, v.size_fits);
      capacity_fits = v.capacity_fits;
      maximum_fits = v.maximum_fits;
    };
    same_capacity = refl;
    holds =
        take-moved_down xs o n b.size inside (omega (arith, v.size_fits))
        ∙ ap (erase_at o n) (sym c);
  }

  -- On a valid buffer `erase` of a range inside it succeeds, keeps the invariant and the capacity,
  -- and leaves the contents without that range.
  pub erase-Erases : Erases b o n (erase b o n)
  unfolding erase
  erase-Erases =
      rw
        (
          let t : leb (add_size o n) b.size ≡ true =
                ground (arith, v.size_fits, v.capacity_fits, v.maximum_fits) in
              t,
          let t : leb b.size b.capacity ≡ true = ground (arith, v.size_fits) in t,
        )
        (erase_block b.block v.block_length v.null_block refl)

erase_at-insert_at :
    (o : ℕ) (ys xs : Bytes) → o ≤ length xs → erase_at o (length ys) (insert_at o ys xs) ≡ xs
erase_at-insert_at o ys xs h =
    ap₂ ◌++◌ (take-append_length o (take o xs) _ (omega (arith, length-take o xs))) (
      ap (drop (o + length ys)) (sym (append_assoc (take o xs) ys (drop o xs)))
      ∙ drop-append_length (o + length ys) (take o xs ++ ys) (drop o xs)
          (omega (arith, length-append (take o xs) ys, length-take o xs)))
    ∙ take-append-drop o xs

-- `erase` undoes `insert`: on a valid buffer, with the offset inside it and a total size that
-- size_t can hold, once `insert` has returned true, erasing the same range succeeds and gives back
-- the old contents.
pub erase-insert :
    (a : Allocator) (b : Buffer) (offset : ℕ) (ys : Bytes) (b1 : Buffer)
    → IsValid b
    → offset ≤ b.size
    → b.size + length ys < 2 ^ 64
    → insert_nothrow a b offset (some ys) (length ys) ≡ some (b1, true)
    → (b2 : Buffer) × (erase b1 offset (length ys) ≡ some b2) × (contents b2 ≡ contents b)
erase-insert a b offset ys b1 v inside addressable e =
    let (valid, holds) =
      Inserts-done (insert_nothrow-Inserts a b offset ys v inside addressable) e in
    let within : offset ≤ length (contents b) = omega (arith, length-contents v) in
    let erased = erase-Erases b1 offset (length ys) valid (
      omega (
        arith,
        ap length holds,
        length-contents valid,
        length-insert_at offset ys (contents b) within,
      )) in
    (
      erased.after,
      erased.returns,
      erased.holds
          ∙ ap (erase_at offset (length ys)) holds
          ∙ erase_at-insert_at offset ys (contents b) within,
    )
