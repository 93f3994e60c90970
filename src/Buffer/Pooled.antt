-- ===== src/Buffer/Pooled.antt =====
-- include/hlib/buffer.hpp: `BufferAllocator<T>`, which hands out the end of a buffer to a
-- container. The element's size is an argument.
use hlib.Base.{
  leb, ◌≤◌, ap, ◌∙◌, inl, inr, Bool-cases, ltb→lt, ℕ, ◌+◌, ◌<◌, ◌≡◌, arith, refl, Bool, true, false,
  ◌-◌, ◌*◌, ◌/◌, ◌%◌, ◌^◌, Option, none, some, ltb, ◌==◌, ◌&&◌, not, if◌then◌else◌, bad_alloc,
  Return, value, throws, Bytes, ◌>>=◌, ◌>>◌,
}
use mathlib.Core.Option.{some-injective}
use mathlib.Core.Path.{subst}
use hlib.Buffer.{Allocator, Buffer, ReallocType, add_size}
use hlib.Buffer.Capacity.{Pointer, asserts, resize, resize_by, or_bad_alloc, is_null}
use hlib.Buffer.Sizing.{resize_by-Resizes}
use hlib.Buffer.Valid.{IsValid}
use hlib.Buffer.Writing.{resize_within}

-- `class BufferAllocator`; `base` is `m_size`, the size of the buffer when it was made.
pub record BufferAllocator : Type 0 where
  pub buffer : Buffer
  pub base : ℕ

unfoldable pub make_allocator : Buffer → BufferAllocator
make_allocator b = record { buffer = b; base = b.size }

abbrev shift : ℕ → Return Pointer → Return Pointer
shift base (value none) = value none
shift base (value (some p)) = value (some (p + base))
shift base (throws e) = throws e

-- `allocate(size)`, for elements of `width` bytes
unfoldable pub allocate :
    Allocator → ℕ → BufferAllocator → ℕ → Option (BufferAllocator × Return Pointer)
allocate a width s n = if ltb ((2 ^ 64 - 1) / width) n then some (s, throws bad_alloc) else (do
  (b, p) ← resize a s.buffer (add_size s.base (n * width % 2 ^ 64))
  some (record s { buffer = b }, shift s.base p))

-- `m_buffer.data() + m_size == ptr`: a null pointer is that only of a buffer without a block, behind
-- which nothing is counted
abbrev pub starts_at : BufferAllocator → Pointer → Bool
starts_at s none = is_null s.buffer.block && s.base == 0
starts_at s (some p) = not (is_null s.buffer.block) && s.base == p

-- what the call of `resize` leaves, whose exceptions do not get out of a function marked noexcept
abbrev pub resized_in : BufferAllocator → Buffer × Return Pointer → Option BufferAllocator
resized_in s (b, value p) = some (record s { buffer = b })
resized_in s (b, throws e) = none

-- `deallocate(ptr, size)`
unfoldable pub deallocate : Allocator → BufferAllocator → Pointer → ℕ → Option BufferAllocator
deallocate a s p n = do
  asserts (starts_at s p)
  asserts (s.buffer.size == add_size s.base n)
  resize a s.buffer s.base >>= resized_in s

-- A successful `resize` has the size that was asked for, and returns the start of the block.
resize_done :
    (a : Allocator) (b : Buffer) (n : ℕ) {b' : Buffer} {p : ℕ}
    → resize a b n ≡ some (b', value (some p))
    → (b'.size ≡ n) × (p ≡ 0) × (is_null b'.block ≡ false)
unfolding resize resize_by
resize_done a b n e = ground arith

-- A successful `resize` of a valid buffer leaves it valid.
resize-IsValid :
    (a : Allocator) (b : Buffer) (n : ℕ) {b' : Buffer} {r : Return Pointer}
    → IsValid b
    → resize a b n ≡ some (b', r)
    → IsValid b'
unfolding resize
resize-IsValid a b n {b'} {r} v e =
    let x = resize_by-Resizes a b n v ReallocType.grow refl in
    subst IsValid
      (same x.pointer x.after ∙ ap (λ q. q.0) (some-injective _ _ (rw (x.returns) at e))) x.valid
  where
    same : (p : Pointer) (after : Buffer) → after ≡ (or_bad_alloc n (after, p)).0
    same none after = refl
    same (some p) after = refl

-- `resize` of a buffer with a block, within its capacity.
resize_down :
    (a : Allocator) (b : Buffer) (n : ℕ)
    → IsValid b
    → is_null b.block ≡ false
    → n ≤ b.capacity
    → resize a b n ≡ some (record b { size = n }, value (some 0))
unfolding resize resize_by
resize_down a b n v full room = elim (Bool-cases (ltb 0 n)) [
  | inl more ↦ resize_within a b n v (ltb→lt 0 n more) room
  | inr nothing ↦
      rw
        (
          let t : leb b.size b.capacity ≡ true = ground (arith, v.size_fits) in t,
          nothing,
          at_front b.block full,
        )
        refl
]
  where
    at_front :
        (o : Option Bytes)
        → is_null o ≡ false
        → (let front : Pointer = elim o [ none ↦ none | some _ ↦ some 0 ] in front) ≡ some 0
    at_front none h = absurd (cc h)
    at_front (some xs) h = refl

-- What `allocate` hands out starts at the allocator's base, and the buffer then ends
-- `n * width` bytes further on.
record Handed (width : ℕ) (s : BufferAllocator) (n : ℕ) (s' : BufferAllocator) (p : ℕ)
    : Type 0 where
  same_base : s'.base ≡ s.base
  start : p ≡ s.base
  size : s'.buffer.size ≡ s.base + n * width
  full : is_null s'.buffer.block ≡ false
  valid : IsValid s'.buffer

allocate-Handed :
    (a : Allocator) (width : ℕ) (s : BufferAllocator) (n : ℕ) {s' : BufferAllocator} {p : ℕ}
    → IsValid s.buffer
    → s.base + n * width < 2 ^ 64
    → allocate a width s n ≡ some (s', value (some p))
    → Handed width s n s' p
unfolding allocate
allocate-Handed a width s n {s'} {p} v fits e =
    handed_out (resize a s.buffer _)
      (λ b' p' f. from_base b' p' (resize_done a s.buffer _ f) (resize-IsValid a s.buffer _ v f))
      (unguarded (ltb ((2 ^ 64 - 1) / width) n) e)
  where
    from_base :
        (b' : Buffer) (p' : ℕ)
        → (b'.size ≡ add_size s.base (n * width % 2 ^ 64)) × (p' ≡ 0) × (is_null b'.block ≡ false)
        → IsValid b'
        → Handed width s n (record s { buffer = b' }) (p' + s.base)
    from_base b' p' (size, start, full) w = record {
      same_base = refl;
      start = omega (arith, start);
      size = omega (arith, size, fits);
      full = full;
      valid = w;
    }

    handed_out :
        (r : Option (Buffer × Return Pointer))
        → ((b' : Buffer) (p' : ℕ)
            → r ≡ some (b', value (some p'))
            → Handed width s n (record s { buffer = b' }) (p' + s.base))
        → ◌>>=◌ {B = BufferAllocator × Return Pointer} r
            (λ q. some (record s { buffer = q.0 }, shift s.base q.1))
          ≡ some (s', value (some p))
        → Handed width s n s' p
    handed_out none known h = absurd (cc h)
    handed_out (some (b', value none)) known h = absurd (cc h)
    handed_out (some (b', throws x)) known h = absurd (cc h)
    handed_out (some (b', value (some p'))) known h =
        let same_allocator : record s { buffer = b' } ≡ s' = cc h in
        let same_place : p' + s.base ≡ p = cc h in
        subst (λ t. Handed width s n t p) same_allocator
          (subst (Handed width s n (record s { buffer = b' })) same_place (known b' p' refl))

    unguarded :
        {r : Option (BufferAllocator × Return Pointer)} (g : Bool)
        → if◌then◌else◌ {A = Option (BufferAllocator × Return Pointer)} g
            (some (s, throws bad_alloc))
            r
          ≡ some (s', value (some p))
        → r ≡ some (s', value (some p))
    unguarded true h = absurd (cc h)
    unguarded false h = h

-- How `deallocate` ends that is given what `allocate` has just handed out.
pub data Deallocates (a : Allocator) (width n : ℕ) (s' : BufferAllocator) (p : ℕ) : Type 0 where
  frees :
      n * width ≡ n
      → deallocate a s' (some p) n
        ≡ some (record s' { buffer = record (s'.buffer) { size = s'.base } })
      → Deallocates a width n s' p
  faults : n < n * width → deallocate a s' (some p) n ≡ none → Deallocates a width n s' p

-- `deallocate` compares the buffer's size with a count of elements, not of bytes. Given the block that
-- `allocate` has just handed out, with nothing done to the buffer since, it takes the buffer back to
-- the size at which it was when the allocator was made, if the elements have one byte or there are
-- none; for wider elements it fails its assertion. The buffer is valid, and the block's end is a size
-- that size_t can hold.
pub allocate-Deallocates :
    (a : Allocator) (width : ℕ) (s : BufferAllocator) (n : ℕ) (s' : BufferAllocator) (p : ℕ)
    → 0 < width
    → IsValid s.buffer
    → s.base + n * width < 2 ^ 64
    → allocate a width s n ≡ some (s', value (some p))
    → Deallocates a width n s' p
unfolding deallocate
allocate-Deallocates a width s n s' p some_width v fits e =
    let h = allocate-Handed a width s n v fits e in
    let wider : n ≤ n * width = grind arith in
    let here : (s'.base == p) ≡ true = ground (arith, h.same_base, h.start) in
    elim (Bool-cases (s'.buffer.size == add_size s'.base n)) [
      | inl same ↦ frees (ground (arith, same, h.size, h.same_base, fits, wider)) (
          rw
            (
              h.full,
              here,
              same,
              resize_down a s'.buffer s'.base h.valid h.full
                  (omega (arith, h.valid.size_fits, h.size, h.same_base)),
            )
            refl)
      | inr other ↦
          faults (ground (arith, other, h.size, h.same_base, fits, wider))
            (rw (h.full, here, other) refl)
    ]
