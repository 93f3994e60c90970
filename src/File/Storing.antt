-- ===== src/File/Storing.antt =====
-- src/hlib_file.cpp: bytes that are stored in a buffer behind `extend`, and how a read ends then.
use hlib.Base.{
  ℕ, ◌+◌, ◌≤◌, ◌<◌, ◌^◌, ◌≡◌, refl, ap, ◌∙◌, sym, true, false, inl, inr, none, some, [], Bytes,
  length, take, drop, leb, arith, Bool-cases, Option-cases, take-append, take-take, length-take,
  take-append_length,
}
use hlib.Buffer.{Allocator, Buffer, ReallocType, bytes_at, contents, add_size}
use hlib.Buffer.Capacity.{extend_by}
use hlib.Buffer.Edit.{overwrite}
use hlib.Buffer.Valid.{IsValid}
use hlib.Buffer.Writing.{extend_by-Extends, resize_by_within, overwritten, overwrite_lem}
use hlib.File.{Transfer, moved, read_fd_into, store_at, take_in, read_fd_at}
use hlib.Result.{success_of}

-- A buffer that `extend` by n has made room in, beyond the capacity that it had.
pub record Grown (a : Allocator) (b : Buffer) (n : ℕ) : Type 0 where
  pub after : Buffer
  pub returns : extend_by ReallocType.grow a b n ≡ some (after, some b.size)
  pub valid : IsValid after
  pub same_contents : contents after ≡ contents b
  pub same_size : after.size ≡ b.size
  pub same_maximum : after.maximum ≡ b.maximum
  pub exact : after.capacity ≡ b.size + n

pub extend-Grown :
    (a : Allocator) (b : Buffer) (n : ℕ)
    → IsValid b
    → 0 < n
    → b.size + n ≤ b.maximum
    → b.capacity < b.size + n
    → a.grants (b.size + n) ≡ true
    → Grown a b n
extend-Grown a b n v more fits beyond granted =
    let x = extend_by-Extends a b n v more (omega (arith, v.maximum_fits, fits)) in
    elim (Bool-cases x.done) [
      | inl done ↦ record {
        after = x.after;
        returns = rw done at x.returns;
        valid = x.valid;
        same_contents = x.same_contents;
        same_size = x.same_size;
        same_maximum = x.same_maximum;
        exact = x.no_more_room done beyond;
      }
      | inr refused ↦ elim (x.fails_only refused) [
        | inl over ↦ absurd (omega (arith, over, fits))
        | inr denied ↦ absurd (cc (denied, granted))
      ]
    ]

-- A buffer with another block of the same length.
pub with_block-IsValid :
    (b : Buffer) (m : Bytes)
    → IsValid b
    → 0 < b.capacity
    → length m ≡ b.capacity
    → IsValid (record b { block = some m })
with_block-IsValid b m v some_room l = record {
  block_length = l;
  null_block = λ z. absurd (omega (arith, z, some_room));
  size_fits = v.size_fits;
  capacity_fits = v.capacity_fits;
  maximum_fits = v.maximum_fits;
}

module _ {W : Type 0} (read_call : ℕ → W → Transfer × W) (a : Allocator) (n : ℕ) (b : Buffer)
    (w next : W) where
  -- What a read into a grown buffer does, if its bytes can be stored.
  pub read_fd_into-stored :
      (g : Grown a b n) (ys m : Bytes)
      → read_call n w ≡ (moved ys, next)
      → store_at g.after b.size ys ≡ some (record (g.after) { block = some m })
      → IsValid (record (g.after) { block = some m })
      → 0 < g.after.size + length ys
      → g.after.size + length ys ≤ g.after.capacity
      → read_fd_into read_call a n b w
        ≡ some (
          success_of (length ys),
          record (g.after) { block = some m; size = g.after.size + length ys },
          next,
        )
  unfolding read_fd_into
  read_fd_into-stored g ys m call stored valid more room =
      rw
        (
          g.returns,
          call,
          stored,
          let t : add_size g.after.size (length ys) ≡ g.after.size + length ys =
                omega (arith, room, valid.capacity_fits, valid.maximum_fits) in
              t,
          resize_by_within a (record (g.after) { block = some m }) (g.after.size + length ys) valid
              more room,
          read_fd_at,
          take_in,
        )
        (ap
          (λ t. some (
            success_of (length ys),
            record (g.after) { block = some m; size = g.after.size + length ys },
            t.1,
          ))
          call)

  -- A read that cannot be stored leaves the block.
  pub read_fd_into-outside :
      (g : Grown a b n) (ys : Bytes)
      → read_call n w ≡ (moved ys, next)
      → store_at g.after b.size ys ≡ none
      → read_fd_into read_call a n b w ≡ none
  unfolding read_fd_into
  read_fd_into-outside g ys call outside = rw (g.returns, call, outside, read_fd_at) refl

-- A block that bytes can be stored in, and one that they cannot.
module _ (b : Buffer) (p : ℕ) (ys : Bytes) (v : IsValid b) (some_room : 0 < b.capacity) where
  pub store_at_lem :
      p + b.size + length ys ≤ b.capacity
      → store_at b p ys
        ≡ some (record b { block = some (overwritten (bytes_at b.block) (p + b.size) ys) })
  store_at_lem room =
      rw
        (let t : add_size p b.size ≡ p + b.size =
            omega (arith, room, v.capacity_fits, v.maximum_fits) in
          t)
        (elim (Option-cases b.block) [
          | inl e ↦
              absurd
                (let l : 0 ≡ b.capacity = rw e at v.block_length in omega (arith, l, some_room))
          | inr (xs, e) ↦
              let l : length xs ≡ b.capacity = rw e at v.block_length in
              rw (e, overwrite_lem xs (p + b.size) ys (omega (arith, l, room))) refl
        ])

  pub store_at-outside :
      p + b.size < 2 ^ 64 → b.capacity < p + b.size + length ys → store_at b p ys ≡ none
  unfolding overwrite
  store_at-outside fits beyond =
      rw (let t : add_size p b.size ≡ p + b.size = omega (arith, fits) in t)
        (elim (Option-cases b.block) [
          | inl e ↦
              absurd
                (let l : 0 ≡ b.capacity = rw e at v.block_length in omega (arith, l, some_room))
          | inr (xs, e) ↦
              let l : length xs ≡ b.capacity = rw e at v.block_length in
              rw
                (
                  e,
                  let t : leb (p + b.size + length ys) (length xs) ≡ false =
                        ground (arith, l, beyond) in
                      t,
                )
                refl
        ])

-- Bytes written in front of the block, and taken from it.
pub take-overwritten_front :
    (m : Bytes) (p q : ℕ) (ys : Bytes) → p ≡ 0 → q ≡ length ys → take q (overwritten m p ys) ≡ ys
take-overwritten_front m p q ys e l =
    rw e (take-append_length q ys (drop (0 + length ys) m) (sym l))

-- Nothing written behind the bytes that are taken.
pub take-overwritten_behind :
    (m : Bytes) (p q : ℕ) → q ≤ p → p ≤ length m → take q (overwritten m p []) ≡ take q m
take-overwritten_behind m p q h l =
    take-append q (take p m) (drop (p + 0) m) (omega (arith, length-take p m, h, l))
    ∙ take-take q p m h
