-- ===== src/Buffer/Inserting.antt =====
-- `insert`, `append` and `assign` against insertion into a sequence.
use hlib.Base.{
  ℕ, ◌+◌, ◌^◌, ◌≤◌, ◌<◌, ◌≡◌, refl, ap, ◌∙◌, sym, inl, inr, Bool, true, false, [], ◌∷◌, ◌++◌,
  Option, some, arith, length, length-append, length-take, length-drop, take, drop, Bytes, leb,
  if◌then◌else◌, Bool-cases, Option-cases, ◌==◌, take-append-drop,
}
use hlib.Buffer.{Allocator, Buffer, ReallocType, contents, add_size}
use hlib.Buffer.Growth.{Denied}
use hlib.Buffer.Contents.{Grows, realloc-Grows}
use hlib.Buffer.Valid.{IsValid}
use hlib.Buffer.Edit.{make_room, insert_nothrow}
use hlib.Buffer.Sequences.{inserted, insert_moves, length-inserted, take-inserted}

-- the sequence with `ys` put in at `offset`
abbrev pub insert_at : ℕ → Bytes → Bytes → Bytes
insert_at offset ys xs = take offset xs ++ (ys ++ drop offset xs)

-- How a call that may want memory ends: with the new contents, or with the buffer as it was.
pub record Inserts (fails : Type 0) (b : Buffer) (new old : Bytes) (r : Option (Buffer × Bool))
    : Type 0 where
  pub after : Buffer
  pub done : Bool
  pub returns : r ≡ some (after, done)
  pub valid : IsValid after
  pub same_maximum : after.maximum ≡ b.maximum
  pub holds : contents after ≡ (if done then new else old)
  pub fails_only : done ≡ false → fails

module _ (b : Buffer) (offset : ℕ) (ys : Bytes) (v : IsValid b) (inside : offset ≤ b.size)
    (room : b.size + length ys ≤ b.capacity) (some_bytes : 0 < length ys) where
  fits : IsValid b → add_size b.size (length ys) ≡ b.size + length ys
  fits v' = omega (arith, v'.capacity_fits, v'.maximum_fits)

  made_room : Bytes → Buffer
  made_room xs = record b {
    block = some (inserted xs ys offset b.size);
    size = add_size b.size (length ys);
  }

  made_room-IsValid : (xs : Bytes) → b.block ≡ some xs → IsValid (made_room xs)
  unfolding made_room
  made_room-IsValid xs e =
      let l : length xs ≡ b.capacity = rw e at v.block_length in
      record {
        block_length = length-inserted xs ys offset b.size inside (omega arith) ∙ l;
        null_block = λ z. absurd (omega arith);
        size_fits = omega (arith, v.capacity_fits, v.maximum_fits);
        capacity_fits = v.capacity_fits;
        maximum_fits = v.maximum_fits;
      }

  make_room-Inserts :
      Inserts ⊥ b
        (insert_at offset ys (contents b))
        (contents b)
        (make_room b offset (some ys) (length ys))
  unfolding make_room made_room
  make_room-Inserts = elim (Option-cases b.block) [
    | inl e ↦ absurd (let l : 0 ≡ b.capacity = rw e at v.block_length in omega arith)
    | inr (xs, e) ↦
        let l : length xs ≡ b.capacity = rw e at v.block_length in
        record {
          after = made_room xs;
          done = true;
          returns = rw e (rw (insert_moves xs ys offset b.size inside (omega arith)));
          valid = made_room-IsValid xs e;
          same_maximum = refl;
          fails_only = λ c. cc;
          holds = rw e (
              ap (λ k. take k (inserted xs ys offset b.size)) (fits v)
              ∙ take-inserted xs ys offset b.size inside (omega arith));
        }
  ]

-- The facts of an `Inserts` carried from the buffer that `realloc` leaves to the one before it.
Inserts-transport :
    {a : Allocator} {b b1 : Buffer} {n : ℕ} {done1 : Bool} (fails : Type 0) (new : Bytes → Bytes)
    {r : Option (Buffer × Bool)}
    → Grows a b n (b1, done1)
    → Inserts ⊥ b1 (new (contents b1)) (contents b1) r
    → Inserts fails b (new (contents b)) (contents b) r
Inserts-transport fails new g s = record {
  after = s.after;
  done = s.done;
  returns = s.returns;
  valid = s.valid;
  same_maximum = s.same_maximum ∙ g.same_maximum;
  holds = rw g.same_contents at s.holds;
  fails_only = λ c. absurd (s.fails_only c);
}

insert_at_nil : (offset : ℕ) (ys xs : Bytes) → length ys ≡ 0 → insert_at offset ys xs ≡ xs
insert_at_nil offset [] xs h = take-append-drop offset xs
insert_at_nil offset (y ∷ ys) xs h = absurd (omega arith)

-- A request for a total of n bytes fails only if it is denied, and not if they fit already.
abbrev pub NoRoom : Allocator → Buffer → ℕ → Type 0
NoRoom a b n = Denied a b n × (b.capacity < n)

module _ (a : Allocator) (b : Buffer) (offset : ℕ) (ys : Bytes) (v : IsValid b)
    (inside : offset ≤ b.size) (addressable : b.size + length ys < 2 ^ 64) where
  abbrev total : ℕ
  total = b.size + length ys

  insert_some-Inserts :
      (r : Buffer × Bool)
      → Grows a b total r
      → 0 < length ys
      → Inserts
          (NoRoom a b total)
          b
          (insert_at offset ys (contents b))
          (contents b)
          (if r.1 then make_room r.0 offset (some ys) (length ys) else some (r.0, false))
  insert_some-Inserts (b1, true) g p =
      Inserts-transport (NoRoom a b total) (insert_at offset ys) g (
        make_room-Inserts b1 offset ys g.valid (omega (arith, g.same_size))
          (omega (arith, g.same_size, g.has_room refl)) p)
  insert_some-Inserts (b1, false) g p = record {
    after = b1;
    done = false;
    returns = refl;
    valid = g.valid;
    same_maximum = g.same_maximum;
    holds = g.same_contents;
    fails_only = λ _. g.fails_only refl;
  }

  -- On a valid buffer, with the offset inside it and a total size that size_t can hold, `insert`
  -- keeps the invariant and the maximum. Either it succeeds, and the given bytes stand at the
  -- offset with the old contents round them, or it fails with the contents as they were; and it
  -- fails only if the total is over the capacity, and over the maximum or refused by `::realloc`.
  pub insert_nothrow-Inserts :
      Inserts
        (NoRoom a b (b.size + length ys))
        b
        (insert_at offset ys (contents b))
        (contents b)
        (insert_nothrow a b offset (some ys) (length ys))
  unfolding insert_nothrow
  insert_nothrow-Inserts =
      rw
        (
          let t : leb offset b.size ≡ true = ground arith in t,
          let t : leb b.size b.capacity ≡ true = ground (arith, v.size_fits) in t,
        )
        (elim (Bool-cases (length ys == 0)) [
          | inl nothing ↦ rw nothing (record {
            after = b;
            done = true;
            returns = refl;
            valid = v;
            same_maximum = refl;
            holds = sym (insert_at_nil offset ys (contents b) (ground arith));
            fails_only = λ c. cc;
          })
          | inr more ↦ rw more (
              rw (let t : add_size b.size (length ys) ≡ total = omega arith in t) (
                insert_some-Inserts _ (realloc-Grows a b total ReallocType.grow v refl)
                  (ground arith)))
        ])

-- What an `Inserts` says where the call returned true.
pub Inserts-done :
    {fails : Type 0} {b b1 : Buffer} {new old : Bytes} {r : Option (Buffer × Bool)}
    → Inserts fails b new old r
    → r ≡ some (b1, true)
    → IsValid b1 × (contents b1 ≡ new)
Inserts-done {b1} i e =
    let same : i.after ≡ b1 = cc (i.returns, e) in
    let succeeded : i.done ≡ true = cc (i.returns, e) in
    (rw same at i.valid, ap contents (sym same) ∙ rw succeeded at i.holds)

pub length-insert_at :
    (offset : ℕ) (ys xs : Bytes)
    → offset ≤ length xs
    → length (insert_at offset ys xs) ≡ length xs + length ys
length-insert_at offset ys xs h = omega (
  arith,
  length-append (take offset xs) (ys ++ drop offset xs),
  length-append ys (drop offset xs),
  length-take offset xs,
  length-drop offset xs,
)
