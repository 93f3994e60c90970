-- ===== src/Buffer/Growth.antt =====
-- What `Buffer::realloc` does to a valid buffer.
use hlib.Base.{
  ℕ, zero, suc, ◌+◌, ◌-◌, ◌≤◌, ◌<◌, ◌≡◌, refl, ap, ◌∙◌, ◌⊎◌, inl, inr, Bool, true, false, not, ◌&&◌,
  ◌++◌, Option, none, some, arith, length, take, drop, replicate, length-append, length-take,
  length-drop, length-replicate, take-append, take-take, Bytes, ltb, leb, Bool-cases,
}
use hlib.Buffer.{
  Allocator, Buffer, ReallocType, bytes_at, residues, realloc_block, zero_from, is_shrink,
  is_zeroed, install, realloc_some, realloc, zeroed_or_not,
}
use hlib.Buffer.Valid.{IsValid}

length-residues : (a : Allocator) (i n : ℕ) → length (residues a i n) ≡ n
unfolding residues
length-residues a i zero = refl
length-residues a i (suc n) = ap suc (length-residues a (i + 1) n)

-- A new block has the length that was asked for, and starts with the old bytes.
pub record Extends (old : Bytes) (n : ℕ) (xs : Bytes) : Type 0 where
  pub measured : length xs ≡ n
  pub kept : (m : ℕ) → m ≤ length old → m ≤ n → take m xs ≡ take m old

extended-Extends :
    (a : Allocator) (old : Bytes) (n : ℕ)
    → Extends old n (take n old ++ residues a (length old) (n - length old))
extended-Extends a old n = record {
  measured = omega (
    arith,
    length-append (take n old) (residues a (length old) (n - length old)),
    length-take n old,
    length-residues a (length old) (n - length old),
  );
  kept = λ m h k.
      take-append m (take n old) (residues a (length old) (n - length old))
        (omega (arith, length-take n old))
      ∙ take-take m n old k;
}

realloc_block-cases :
    (a : Allocator) (block : Option Bytes) (n : ℕ)
    → (realloc_block a block n ≡ none) × (a.grants n ≡ false)
      ⊎ ((xs : Bytes) × (realloc_block a block n ≡ some xs) × Extends (bytes_at block) n xs)
unfolding realloc_block
realloc_block-cases a block n = elim (Bool-cases (a.grants n)) [
  | inl granted ↦ inr (_, rw granted, extended-Extends a (bytes_at block) n)
  | inr refused ↦ inl (rw refused, refused)
]

zero_from-Extends :
    (old xs : Bytes) (offset n : ℕ)
    → length old ≡ offset
    → offset ≤ n
    → Extends old n xs
    → Extends old n (zero_from offset (n - offset) xs)
zero_from-Extends old xs offset n h k e = record {
  measured = omega (
    arith,
    e.measured,
    length-append (take offset xs) (replicate (n - offset) 0 ++ drop (offset + (n - offset)) xs),
    length-append (replicate (n - offset) 0) (drop (offset + (n - offset)) xs),
    length-take offset xs,
    length-drop (offset + (n - offset)) xs,
    length-replicate {A = ℕ} (n - offset) 0,
  );
  kept = λ m p q.
      take-append m (take offset xs) (replicate (n - offset) 0 ++ drop (offset + (n - offset)) xs)
        (omega (arith, length-take offset xs, e.measured))
      ∙ take-take m offset xs (omega arith)
      ∙ e.kept m p q;
}

-- The three ways in which `realloc` ends: there is room already, nothing changes for want of it,
-- or the buffer gets another block.
-- Why a request for n bytes may fail.
abbrev pub Denied : Allocator → Buffer → ℕ → Type 0
Denied a b n = (b.maximum < n) ⊎ (a.grants n ≡ false)

pub data Reallocation (a : Allocator) (b : Buffer) (n : ℕ) (shrinking : Bool) (r : Buffer × Bool)
    : Type 0 where
  kept : r ≡ (b, true) → n ≤ b.capacity → shrinking ≡ false → Reallocation a b n shrinking r
  refused :
      r ≡ (b, false)
      → Denied a b n
      → (shrinking ≡ false → b.capacity < n)
      → Reallocation a b n shrinking r
  installed :
      (block : Option Bytes)
      → r ≡ (install b block n, true)
      → n ≤ b.maximum
      → Extends (bytes_at b.block) n (bytes_at block)
      → (n ≡ 0 → block ≡ none)
      → (shrinking ≡ false → b.capacity < n)
      → Reallocation a b n shrinking r

module _ (a : Allocator) (b : Buffer) (n : ℕ) (type : ReallocType) (v : IsValid b) where
  zeroed_or_not-Extends :
      (xs : Bytes)
      → Extends (bytes_at b.block) n xs
      → Extends (bytes_at b.block) n (zeroed_or_not b n type xs)
  unfolding zeroed_or_not
  zeroed_or_not-Extends xs e = elim (Bool-cases (is_zeroed type && ltb b.capacity n)) [
    | inl zeroed ↦
        rw zeroed
          (zero_from-Extends (bytes_at b.block) xs b.capacity n v.block_length (ground arith) e)
    | inr not_zeroed ↦ rw not_zeroed e
  ]

  realloc_some-Reallocation :
      0 < n
      → n ≤ b.maximum
      → (is_shrink type ≡ false → b.capacity < n)
      → Reallocation a b n (is_shrink type) (realloc_some a b n type)
  unfolding realloc_some
  realloc_some-Reallocation h k g = elim (realloc_block-cases a b.block n) [
    | inl (e, d) ↦ refused (rw (e, realloc_some)) (inr d) g
    | inr (xs, e, x) ↦
        installed (some (zeroed_or_not b n type xs)) (rw (e, realloc_some)) k
          (zeroed_or_not-Extends xs x) (λ z. absurd (omega arith)) g
  ]

  pub realloc-Reallocation : Reallocation a b n (is_shrink type) (realloc a b n type)
  unfolding realloc
  realloc-Reallocation = elim (Bool-cases (not (is_shrink type) && leb n b.capacity)) [
    | inl room ↦ rw room (kept refl (ground arith) (ground arith))
    | inr full ↦ rw full (elim (Bool-cases (ltb b.maximum n)) [
      | inl over ↦ rw over (refused refl (inl (ground arith)) (ground arith))
      | inr fits ↦ rw fits (elim (Bool-cases (ltb 0 n)) [
        | inl positive ↦
            rw positive (realloc_some-Reallocation (ground arith) (ground arith) (ground arith))
        | inr zero_ ↦ rw (let z : n ≡ 0 = ground arith in z) (
            installed none refl (omega arith)
              (record { measured = refl; kept = λ m p q. rw (let e : m ≡ 0 = omega arith in e) })
              (λ _. refl) (ground arith))
      ])
    ])
  ]
