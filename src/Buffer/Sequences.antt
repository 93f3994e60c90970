-- ===== src/Buffer/Sequences.antt =====
-- The block moves of `insert` and `erase`, as operations on sequences.
use hlib.Base.{
  ℕ, ◌+◌, ◌-◌, ◌≤◌, ◌≡◌, ap, ap₂, ◌∙◌, sym, true, ◌++◌, some, arith, length, take, drop,
  length-append, length-take, length-drop, take-append, take-take, take_all, Bytes, leb,
  take-append_length, drop-append_length, drop-take, append_assoc, ◌>>=◌,
}
use hlib.Buffer.Edit.{overwrite, memmove, memcpy}

pub overwrite_lem :
    (dst : ℕ) (ys xs : Bytes)
    → dst + length ys ≤ length xs
    → overwrite dst ys xs ≡ some (take dst xs ++ (ys ++ drop (dst + length ys) xs))
unfolding overwrite
overwrite_lem dst ys xs h = ground arith

pub memmove_lem :
    (dst src n : ℕ) (xs : Bytes)
    → dst + n ≤ length xs
    → src + n ≤ length xs
    → memmove dst src n xs ≡ some (take dst xs ++ (take n (drop src xs) ++ drop (dst + n) xs))
unfolding memmove
memmove_lem dst src n xs h k =
    let len : length (take n (drop src xs)) ≡ n =
      omega (arith, length-take n (drop src xs), length-drop src xs) in
    rw (let t : leb (src + n) (length xs) ≡ true = ground arith in t) (
      overwrite_lem dst (take n (drop src xs)) xs (omega arith)
      ∙ ap (λ k. some (take dst xs ++ (take n (drop src xs) ++ drop (dst + k) xs))) len)

-- the block with its tail [o, s) moved up and `ys` put in its place
abbrev pub inserted : Bytes → Bytes → ℕ → ℕ → Bytes
inserted xs ys o s = take o xs ++ (ys ++ (take (s - o) (drop o xs) ++ drop (s + length ys) xs))

module _ (xs ys : Bytes) (o s : ℕ) (inside : o ≤ s) (room : s + length ys ≤ length xs) where
  moved_up : Bytes
  moved_up =
      take (o + length ys) xs ++ (take (s - o) (drop o xs) ++ drop (o + length ys + (s - o)) xs)

  take-moved_up : take o moved_up ≡ take o xs
  unfolding moved_up
  take-moved_up =
      take-append o (take (o + length ys) xs) _ (omega (arith, length-take (o + length ys) xs))
      ∙ take-take o (o + length ys) xs (omega arith)

  drop-moved_up :
      drop (o + length ys) moved_up ≡ take (s - o) (drop o xs) ++ drop (s + length ys) xs
  unfolding moved_up
  drop-moved_up =
      drop-append_length (o + length ys) (take (o + length ys) xs) _
        (omega (arith, length-take (o + length ys) xs))
      ∙ ap (λ k. take (s - o) (drop o xs) ++ drop k xs) (omega arith)

  length-moved_up : length moved_up ≡ length xs
  unfolding moved_up
  length-moved_up = omega (
    arith,
    length-append (take (o + length ys) xs)
        (take (s - o) (drop o xs) ++ drop (o + length ys + (s - o)) xs),
    length-append (take (s - o) (drop o xs)) (drop (o + length ys + (s - o)) xs),
    length-take (o + length ys) xs,
    length-take (s - o) (drop o xs),
    length-drop o xs,
    length-drop (o + length ys + (s - o)) xs,
  )

  pub insert_moves :
      (memmove (o + length ys) o (s - o) xs >>= memcpy o (some ys) (length ys))
      ≡ some (inserted xs ys o s)
  unfolding moved_up
  insert_moves =
      ap (λ m. m >>= memcpy o (some ys) (length ys))
        (memmove_lem (o + length ys) o (s - o) xs (omega arith) (omega arith))
      ∙ rw (let t : leb (length ys) (length ys) ≡ true = ground arith in t) (
          rw (take_all (length ys) ys (omega arith)) (
            overwrite_lem o ys moved_up (omega (arith, length-moved_up))
            ∙ ap₂ (λ u w. some (u ++ (ys ++ w))) take-moved_up drop-moved_up))

  pub length-inserted : length (inserted xs ys o s) ≡ length xs
  length-inserted = omega (
    arith,
    length-append (take o xs) (ys ++ (take (s - o) (drop o xs) ++ drop (s + length ys) xs)),
    length-append ys (take (s - o) (drop o xs) ++ drop (s + length ys) xs),
    length-append (take (s - o) (drop o xs)) (drop (s + length ys) xs),
    length-take o xs,
    length-take (s - o) (drop o xs),
    length-drop o xs,
    length-drop (s + length ys) xs,
  )

  -- Of the bytes in use, those from the offset on come after the new ones.
  pub take-inserted :
      take (s + length ys) (inserted xs ys o s) ≡ take o (take s xs) ++ (ys ++ drop o (take s xs))
  take-inserted =
      ap (take (s + length ys)) regroup
      ∙ take-append_length (s + length ys) (take o xs ++ (ys ++ take (s - o) (drop o xs)))
          (drop (s + length ys) xs)
          (omega (
            arith,
            length-append (take o xs) (ys ++ take (s - o) (drop o xs)),
            length-append ys (take (s - o) (drop o xs)),
            length-take o xs,
            length-take (s - o) (drop o xs),
            length-drop o xs,
          ))
      ∙ ap₂ (λ u w. u ++ (ys ++ w)) (sym (take-take o s xs inside)) (sym (drop-take o s xs inside))
    where
      regroup :
          inserted xs ys o s
          ≡ (take o xs ++ (ys ++ take (s - o) (drop o xs))) ++ drop (s + length ys) xs
      regroup = simp append_assoc
