-- ===== src/Buffer.antt =====
-- src/hlib_buffer.cpp and include/hlib/buffer.hpp: the growable byte buffer. This file holds its
-- state and `Buffer::realloc`, through which every change of capacity goes.
-- A block of the C library's heap is the list of its bytes, and a null pointer is `none`. What
-- `::realloc` does is up to the argument of type `Allocator`.
pub mod Capacity
pub mod Edit
pub mod Transfer
pub mod Pooled
pub mod Growth
pub mod Contents
pub mod Inserting
pub mod Erasing
pub mod Trace
pub mod Extracting
pub mod Sizing
pub mod Writing
mod Tests
pub mod Sequences
pub mod Valid
use hlib.Base.{
  ℕ, zero, suc, ◌+◌, ◌-◌, ◌%◌, ◌^◌, min, Bool, true, false, not, ◌&&◌, List, [], ◌∷◌, ◌++◌, Option,
  none, some, ltb, leb, if◌then◌else◌, Bytes, length, take, drop, replicate,
}

-- Whether a request for n bytes is granted, and what a byte that nothing has written holds.
pub record Allocator : Type 0 where
  pub grants : ℕ → Bool
  pub residue : ℕ → ℕ

-- `class Buffer`
pub record Buffer : Type 0 where
  pub block : Option Bytes
  pub maximum : ℕ
  pub capacity : ℕ
  pub size : ℕ

pub data ReallocType : Type 0 where
  shrink grow grow_zeroed : ReallocType

-- `size_t` addition
abbrev pub add_size : ℕ → ℕ → ℕ
add_size a b = (a + b) % 2 ^ 64

abbrev pub infinite_capacity : ℕ
infinite_capacity = 2 ^ 64 - 1

-- `Buffer() = default`
abbrev pub empty_buffer : Buffer
empty_buffer = record { block = none; maximum = infinite_capacity; capacity = 0; size = 0 }

-- The bytes behind a pointer; there are none behind a null pointer.
abbrev pub bytes_at : Option Bytes → Bytes
bytes_at none = []
bytes_at (some xs) = xs

-- What the buffer holds, oldest byte first.
abbrev pub contents : Buffer → Bytes
contents b = take b.size (bytes_at b.block)

-- n bytes that nothing has written, from index i on
unfoldable pub residues : Allocator → ℕ → ℕ → Bytes
residues a i zero = []
residues a i (suc n) = a.residue i ∷ residues a (i + 1) n

-- `::realloc(data, n)`: a longer or shorter block that starts with the old bytes, or null.
pub realloc_block : Allocator → Option Bytes → ℕ → Option Bytes
realloc_block a block n =
    let old = bytes_at block in
    if a.grants n then some (take n old ++ residues a (length old) (n - length old)) else none

-- `memset(ptr + offset, 0, n)`
abbrev pub zero_from : ℕ → ℕ → Bytes → Bytes
zero_from offset n xs = take offset xs ++ (replicate n 0 ++ drop (offset + n) xs)

abbrev is_shrink : ReallocType → Bool
is_shrink ReallocType.shrink = true
is_shrink _ = false

abbrev is_zeroed : ReallocType → Bool
is_zeroed ReallocType.grow_zeroed = true
is_zeroed _ = false

-- the end of `Buffer::realloc`
abbrev pub install : Buffer → Option Bytes → ℕ → Buffer
install b block n = record b { block = block; capacity = n; size = min b.size n }

-- the new block, of n bytes, once `GrowZeroed` has cleared what lies past the old capacity
pub zeroed_or_not : Buffer → ℕ → ReallocType → Bytes → Bytes
zeroed_or_not b n type xs =
    if is_zeroed type && ltb b.capacity n then zero_from b.capacity (n - b.capacity) xs else xs

-- the part of `Buffer::realloc` under `capacity > 0`
pub realloc_some : Allocator → Buffer → ℕ → ReallocType → Buffer × Bool
realloc_some a b n type = elim (realloc_block a b.block n) [
  | none ↦ (b, false)
  | some xs ↦ (install b (some (zeroed_or_not b n type xs)) n, true)
]

-- `Buffer::realloc`
unfoldable pub realloc : Allocator → Buffer → ℕ → ReallocType → Buffer × Bool
unfolding realloc_some realloc_block residues zeroed_or_not
realloc a b n type =
    if not (is_shrink type) && leb n b.capacity
    then (b, true)
    else if ltb b.maximum n
    then (b, false)
    else if ltb 0 n
    then realloc_some a b n type
    else (install b none n, true)
