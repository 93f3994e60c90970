-- ===== src/Buffer/Transfer.antt =====
-- src/hlib_buffer.cpp: constructors, moves, copies and extractions. A call between two buffers has
-- two different buffers.
use hlib.Base.{
  ℕ, ◌+◌, ◌-◌, Bool, true, false, Option, none, some, leb, if◌then◌else◌, min, Bytes, length, drop,
  take, out_of_range, bad_alloc, Return, value, throws, ◌>>=◌, ◌>>◌, find, get_elem?,
}
use hlib.Buffer.{Allocator, Buffer, add_size, bytes_at, empty_buffer}
use hlib.Buffer.Capacity.{Pointer, asserts, offset_in, reset, clear, reserve}
use hlib.Buffer.Edit.{assign_nothrow, assign, erase, or_throw}

-- `Buffer(reservation, maximum)` and `Buffer(reservation)`
unfoldable pub with_reservation : Allocator → ℕ → ℕ → Option (Buffer × Return Pointer)
with_reservation a reservation maximum =
    reserve a (record empty_buffer { maximum = maximum }) (min reservation maximum)

-- `Buffer(data, size)`, which the constructors from texts come down to
unfoldable pub from_bytes : Allocator → Option Bytes → ℕ → Option (Buffer × Return (Unit {0}))
from_bytes a source n = assign a empty_buffer source n

-- `Buffer(Buffer&& that)`: the new buffer, and what is left in `that`
unfoldable pub move : Buffer → Buffer × Buffer
move that = (that, record that { block = none; capacity = 0; size = 0 })

-- `operator =(Buffer&& that)`
unfoldable pub move_assign : Buffer → Buffer → Buffer × Buffer
unfolding reset
move_assign b that =
    let b0 = record (reset b) { maximum = that.maximum } in
    (
      record b0 { block = that.block; capacity = that.capacity; size = that.size },
      record that { block = b0.block; capacity = b0.capacity; size = b0.size },
    )

-- `get(index)`
unfoldable pub get : Buffer → ℕ → Return Pointer
get b index = if leb b.capacity index then throws out_of_range else value (offset_in b index)

-- `at(index)`; behind a valid pointer there is a byte
unfoldable pub at : Buffer → ℕ → Return (Option ℕ)
unfolding get
at b index = elim (get b index) [
  | value p ↦ value (p >>= λ i. get_elem? (bytes_at b.block) i)
  | throws e ↦ throws e
]

-- `copy(buffer, std::nothrow)`: what it does to the other buffer
unfoldable pub copy_all : Allocator → Buffer → Buffer → Option (Buffer × Bool)
copy_all a b buffer = assign_nothrow a buffer b.block b.size

abbrev pub from_offset : Option Bytes → ℕ → Option Bytes
from_offset none offset = none
from_offset (some xs) offset = some (drop offset xs)

-- `copy(offset, size, buffer, std::nothrow)`
unfoldable pub copy : Allocator → Buffer → ℕ → ℕ → Buffer → Option (Buffer × Bool)
copy a b offset n buffer = do
  asserts (leb (add_size offset n) b.size)
  assign_nothrow a buffer (from_offset b.block offset) n

-- the end of both extractions, on the result of `buffer.assign`
unfoldable pub erase_if_done : Buffer → ℕ → ℕ → Buffer × Bool → Option (Buffer × Buffer × Bool)
erase_if_done b offset n (buffer, true) = do b' ← erase b offset n; some (b', buffer, true)
erase_if_done b offset n (buffer, false) = some (b, buffer, false)

-- `extract(offset, size, buffer, std::nothrow)`: this buffer, the other one and the result
unfoldable pub extract : Allocator → Buffer → ℕ → ℕ → Buffer → Option (Buffer × Buffer × Bool)
unfolding erase_if_done
extract a b offset n buffer = do
  asserts (leb (add_size offset n) b.size)
  r ← assign_nothrow a buffer (from_offset b.block offset) n
  erase_if_done b offset n r

-- the branch of `extract(offset, sentinel, …)` that found the sentinel at `position`
unfoldable pub extract_found :
    Allocator → Buffer → ℕ → Bytes → Bool → Buffer → ℕ → Option (Buffer × Buffer × Bool)
unfolding erase_if_done
extract_found a b offset sentinel include_sentinel buffer position = do
  asserts (leb offset position)
  let n = if include_sentinel then position - offset + length sentinel else position - offset
  r ← assign_nothrow a buffer (from_offset b.block offset) n
  erase_if_done b offset n r

-- `extract(offset, sentinel, include_sentinel, buffer, std::nothrow)`
unfoldable pub extract_until :
    Allocator → Buffer → ℕ → Bytes → Bool → Buffer → Option (Buffer × Buffer × Bool)
unfolding extract_found clear
extract_until a b offset sentinel include_sentinel buffer = do
  asserts (leb offset b.size)
  elim (find (take b.size (bytes_at b.block)) sentinel offset) [
    | none ↦ some (b, clear buffer, true)
    | some position ↦ extract_found a b offset sentinel include_sentinel buffer position
  ]

-- The same calls without `std::nothrow`, and those that return a new buffer.

unfoldable pub copy_all_or_throw : Allocator → Buffer → Buffer → Option (Buffer × Return (Unit {0}))
unfolding copy_all
copy_all_or_throw a b buffer = do r ← copy_all a b buffer; some (or_throw r)

unfoldable pub copied_all : Allocator → Buffer → Option (Buffer × Return (Unit {0}))
unfolding from_bytes
copied_all a b = from_bytes a b.block b.size

unfoldable pub copy_or_throw :
    Allocator → Buffer → ℕ → ℕ → Buffer → Option (Buffer × Return (Unit {0}))
unfolding copy
copy_or_throw a b offset n buffer = do r ← copy a b offset n buffer; some (or_throw r)

unfoldable pub copied : Allocator → Buffer → ℕ → ℕ → Option (Buffer × Return (Unit {0}))
unfolding copy_or_throw
copied a b offset n = copy_or_throw a b offset n empty_buffer

abbrev extracted_or_throw : Buffer × Buffer × Bool → Buffer × Buffer × Return (Unit {0})
extracted_or_throw (b, buffer, done) = (b, buffer, if done then value tt else throws bad_alloc)

unfoldable pub extract_or_throw :
    Allocator → Buffer → ℕ → ℕ → Buffer → Option (Buffer × Buffer × Return (Unit {0}))
unfolding extract
extract_or_throw a b offset n buffer = do
  r ← extract a b offset n buffer
  some (extracted_or_throw r)

unfoldable pub extracted : Allocator → Buffer → ℕ → ℕ → Option (Buffer × Buffer × Return (Unit {0}))
unfolding extract_or_throw
extracted a b offset n = extract_or_throw a b offset n empty_buffer

unfoldable pub extract_until_or_throw :
    Allocator → Buffer → ℕ → Bytes → Bool → Buffer → Option (Buffer × Buffer × Return (Unit {0}))
unfolding extract_until
extract_until_or_throw a b offset sentinel include_sentinel buffer = do
  r ← extract_until a b offset sentinel include_sentinel buffer
  some (extracted_or_throw r)

unfoldable pub extracted_until :
    Allocator → Buffer → ℕ → Bytes → Bool → Option (Buffer × Buffer × Return (Unit {0}))
unfolding extract_until_or_throw
extracted_until a b offset sentinel include_sentinel =
    extract_until_or_throw a b offset sentinel include_sentinel empty_buffer
