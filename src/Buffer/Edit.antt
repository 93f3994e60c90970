-- ===== src/Buffer/Edit.antt =====
-- src/hlib_buffer.cpp: insert, append, assign and erase. The bytes that a call copies from are a
-- value: they are the caller's, outside the buffer's own block.
use hlib.Base.{
  ℕ, ◌+◌, ◌-◌, Bool, true, false, [], ◌++◌, Option, none, some, leb, ◌==◌, if◌then◌else◌, Bytes,
  length, take, drop, bad_alloc, Return, value, throws, ◌>>=◌, ◌>>◌,
}
use hlib.Buffer.{Allocator, Buffer, ReallocType, add_size, realloc}
use hlib.Buffer.Capacity.{asserts}

-- `memcpy(ptr + dst, ys, length ys)`; outside the block it is a fault.
unfoldable pub overwrite : ℕ → Bytes → Bytes → Option Bytes
overwrite dst ys xs =
    if leb (dst + length ys) (length xs)
    then some (take dst xs ++ (ys ++ drop (dst + length ys) xs))
    else none

-- `memmove(ptr + dst, ptr + src, n)` within one block
unfoldable pub memmove : ℕ → ℕ → ℕ → Bytes → Option Bytes
unfolding overwrite
memmove dst src n xs =
    if leb (src + n) (length xs) then overwrite dst (take n (drop src xs)) xs else none

-- A null pointer stands for a block of no bytes: a length of 0 is the only one that is no fault.
abbrev pub on_block : Option Bytes → (Bytes → Option Bytes) → Option (Option Bytes)
on_block none f = f [] >>= λ _. some none
on_block (some xs) f = do ys ← f xs; some (some ys)

-- `memcpy(ptr + dst, data, n)` with fewer than n bytes at `data` is a fault.
abbrev pub memcpy : ℕ → Option Bytes → ℕ → Bytes → Option Bytes
memcpy dst none n xs = some xs
memcpy dst (some ys) n xs = if leb n (length ys) then overwrite dst (take n ys) xs else none

-- the end of `insert`, with enough capacity: the tail moves, and the bytes are copied in
unfoldable pub make_room : Buffer → ℕ → Option Bytes → ℕ → Option (Buffer × Bool)
make_room b offset source n = do
  block ←
      on_block b.block
        (λ xs. memmove (offset + n) offset (b.size - offset) xs >>= memcpy offset source n)
  some (record b { block = block; size = add_size b.size n }, true)

-- `insert(offset, data, size, std::nothrow)`; a null `data` makes room and copies nothing.
unfoldable pub insert_nothrow : Allocator → Buffer → ℕ → Option Bytes → ℕ → Option (Buffer × Bool)
unfolding make_room
insert_nothrow a b offset source n = do
  asserts (leb offset b.size)
  asserts (leb b.size b.capacity)
  let (b', done) = realloc a b (add_size b.size n) ReallocType.grow
  if n == 0 then some (b, true) else if done then make_room b' offset source n else some (b', false)

-- the calls without `std::nothrow`
abbrev pub or_throw : Buffer × Bool → Buffer × Return (Unit {0})
or_throw (b, true) = (b, value tt)
or_throw (b, false) = (b, throws bad_alloc)

unfoldable pub insert :
    Allocator → Buffer → ℕ → Option Bytes → ℕ → Option (Buffer × Return (Unit {0}))
unfolding insert_nothrow
insert a b offset source n = do r ← insert_nothrow a b offset source n; some (or_throw r)

unfoldable pub append_nothrow : Allocator → Buffer → Option Bytes → ℕ → Option (Buffer × Bool)
append_nothrow a b source n = insert_nothrow a b b.size source n

unfoldable pub append : Allocator → Buffer → Option Bytes → ℕ → Option (Buffer × Return (Unit {0}))
unfolding append_nothrow
append a b source n = do r ← append_nothrow a b source n; some (or_throw r)

unfoldable pub assign_nothrow : Allocator → Buffer → Option Bytes → ℕ → Option (Buffer × Bool)
unfolding append_nothrow
assign_nothrow a b source n = append_nothrow a (record b { size = 0 }) source n

unfoldable pub assign : Allocator → Buffer → Option Bytes → ℕ → Option (Buffer × Return (Unit {0}))
unfolding assign_nothrow
assign a b source n = do r ← assign_nothrow a b source n; some (or_throw r)

unfoldable pub erase : Buffer → ℕ → ℕ → Option Buffer
erase b offset n = do
  asserts (leb (add_size offset n) b.size)
  asserts (leb b.size b.capacity)
  block ← on_block b.block (memmove offset (offset + n) (b.size - (offset + n)))
  some (record b { block = block; size = b.size - n })
