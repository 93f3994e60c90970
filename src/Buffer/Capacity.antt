-- ===== src/Buffer/Capacity.antt =====
-- src/hlib_buffer.cpp: the operations that change the capacity or the size.
-- A call that returns a pointer returns its offset in the block, or `none` for null. The result is
-- `none` where an assertion fails.
use hlib.Base.{
  ℕ, Bool, true, false, Option, none, some, ltb, leb, ◌==◌, if◌then◌else◌, bad_alloc, Return, value,
  throws, ◌>>=◌, ◌>>◌,
}
use hlib.Buffer.{Allocator, Buffer, ReallocType, add_size, realloc}

abbrev pub Pointer : Type 0
Pointer = Option ℕ

-- `assert(condition)`
abbrev pub asserts : Bool → Option (Unit {0})
asserts true = some tt
asserts false = none

-- `m_data + offset`
abbrev pub offset_in : Buffer → ℕ → Pointer
offset_in b offset = elim b.block [ none ↦ none | some _ ↦ some offset ]

unfoldable pub reset : Buffer → Buffer
reset b = record b { block = none; capacity = 0; size = 0 }

unfoldable pub clear : Buffer → Buffer
clear b = record b { size = 0 }

abbrev pub is_null {ℓ} : {A : Type ℓ} → Option A → Bool
is_null none = true
is_null (some _) = false

unfoldable pub shrink : Allocator → Buffer → Option Buffer
unfolding reset
shrink a b = do
  asserts (leb b.size b.capacity)
  some (
      if is_null b.block
      then reset b
      else if b.size == 0
      then reset b
      else (realloc a b b.size ReallocType.shrink).0)

-- the body that `reserve` and `reserveZeroed` share
unfoldable pub reserve_by : ReallocType → Allocator → Buffer → ℕ → Option (Buffer × Pointer)
reserve_by type a b n = do
  asserts (leb b.size b.capacity)
  let (b', done) = realloc a b n type
  some (b', if done then offset_in b' 0 else none)

-- the body that `extend` and `extendZeroed` share
unfoldable pub extend_by : ReallocType → Allocator → Buffer → ℕ → Option (Buffer × Pointer)
extend_by type a b n = do
  asserts (leb b.size b.capacity)
  let (b', done) = if ltb 0 n then realloc a b (add_size b.size n) type else (b, true)
  some (b', if done then offset_in b' b'.size else none)

-- the body that `resize` and `resizeZeroed` share
unfoldable pub resize_by : ReallocType → Allocator → Buffer → ℕ → Option (Buffer × Pointer)
resize_by type a b n = do
  asserts (leb b.size b.capacity)
  let (b', done) = if ltb 0 n then realloc a b n type else (b, true)
  some (if done then (record b' { size = n }, offset_in b' 0) else (b', none))

-- the calls without `std::nothrow`: a null result for a positive argument throws
abbrev pub or_bad_alloc : ℕ → Buffer × Pointer → Buffer × Return Pointer
or_bad_alloc n (b, none) = (b, if ltb 0 n then throws bad_alloc else value none)
or_bad_alloc n (b, some p) = (b, value (some p))

unfoldable pub reserve : Allocator → Buffer → ℕ → Option (Buffer × Return Pointer)
unfolding reserve_by
reserve a b n = do r ← reserve_by ReallocType.grow a b n; some (or_bad_alloc n r)

unfoldable pub reserve_zeroed : Allocator → Buffer → ℕ → Option (Buffer × Return Pointer)
unfolding reserve_by
reserve_zeroed a b n = do r ← reserve_by ReallocType.grow_zeroed a b n; some (or_bad_alloc n r)

unfoldable pub extend : Allocator → Buffer → ℕ → Option (Buffer × Return Pointer)
unfolding extend_by
extend a b n = do r ← extend_by ReallocType.grow a b n; some (or_bad_alloc n r)

unfoldable pub extend_zeroed : Allocator → Buffer → ℕ → Option (Buffer × Return Pointer)
unfolding extend_by
extend_zeroed a b n = do r ← extend_by ReallocType.grow_zeroed a b n; some (or_bad_alloc n r)

unfoldable pub resize : Allocator → Buffer → ℕ → Option (Buffer × Return Pointer)
unfolding resize_by
resize a b n = do r ← resize_by ReallocType.grow a b n; some (or_bad_alloc n r)

unfoldable pub resize_zeroed : Allocator → Buffer → ℕ → Option (Buffer × Return Pointer)
unfolding resize_by
resize_zeroed a b n = do r ← resize_by ReallocType.grow_zeroed a b n; some (or_bad_alloc n r)
