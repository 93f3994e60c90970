-- ===== src/File.antt =====
-- src/hlib_file.cpp: reading from and writing to descriptors and C streams, through a buffer, and the
-- types of files by their extension. The calls of the system act on a world in W and are arguments.
pub mod Storing
pub mod Collecting
mod Tests
use hlib.Base.{
  ℕ, zero, suc, ◌+◌, ◌-◌, min, Bool, true, false, Option, none, some, ◌>>=◌, ◌>>◌, List, [], ◌∷◌,
  ltb, leb, ◌==◌, ◌^◌, if◌then◌else◌, Bytes, length, take, drop, codes,
}
use hlib.Buffer.{Allocator, Buffer, ReallocType, bytes_at, contents, add_size, empty_buffer}
use hlib.Buffer.Capacity.{Pointer, asserts, extend_by, resize_by}
use hlib.Buffer.Edit.{overwrite, on_block}
use hlib.Result.{Result, success_of, failure_of, named, from_exception}
use hlib.Strings.Parts.{trim_left}

-- What `errno` tells of: a buffer that cannot grow, or a call of the system.
pub data Cause : Type 0 where
  no_memory : Cause
  call_error : ℕ → Cause

-- How `::read` and `::write` end: with the bytes, or with an error.
pub data Transfer : Type 0 where
  failed : ℕ → Transfer
  moved : Bytes → Transfer

-- `make_system_error(errno)`
abbrev pub system_error : {T : Type 0} → Cause → Result Cause T
system_error cause = from_exception (named cause)

-- `ptr + buffer.size()`, with the bytes that the system stores there; `none` is a place outside the
-- block
abbrev pub store_at : Buffer → ℕ → Bytes → Option Buffer
store_at b p ys = do
  block ← on_block b.block (overwrite (add_size p b.size) ys)
  some (record b { block = block })

-- the call of `resize` behind the bytes that came in
abbrev pub take_in : Allocator → Buffer → ℕ → Option (Buffer × Pointer)
take_in a b count = resize_by ReallocType.grow a b (add_size b.size count)

module _ {W : Type 0} (read_call : ℕ → W → Transfer × W) where
  -- `read(fd, data, size, std::nothrow)`, with the bytes that it stores
  unfoldable pub read_fd : ℕ → W → Result Cause Bytes × W
  read_fd n world =
      let (done, after) = read_call n world in
      elim done [
        | failed e ↦ (system_error (call_error e), after)
        | moved ys ↦ (success_of ys, after)
      ]

  -- the part of `read(fd, buffer, size, std::nothrow)` behind the call of `extend`
  abbrev pub read_fd_at : Allocator → ℕ → Buffer → ℕ → W → Option (Result Cause ℕ × Buffer × W)
  read_fd_at a n b p world =
      let (done, after) = read_call n world in
      elim done [
        | failed e ↦ some (system_error (call_error e), b, after)
        | moved ys ↦ do
          stored ← store_at b p ys
          (taken, ptr) ← take_in a stored (length ys)
          some (elim ptr [
            | none ↦ (system_error no_memory, taken, after)
            | some q ↦ (success_of (length ys), taken, after)
          ])
      ]

  -- `read(fd, buffer, size, std::nothrow)`
  unfoldable pub read_fd_into : Allocator → ℕ → Buffer → W → Option (Result Cause ℕ × Buffer × W)
  read_fd_into a n b world = do
    (extended, ptr) ← extend_by ReallocType.grow a b n
    elim ptr [
      | none ↦ some (system_error no_memory, extended, world)
      | some p ↦ read_fd_at a n extended p world
    ]

  -- The loop of `read(fd, batch_size, std::nothrow)`; `none` is also a loop that is not over when the
  -- fuel is.
  unfoldable pub read_fd_loop : ℕ → Allocator → ℕ → Buffer → W → Option (Result Cause Buffer × W)
  read_fd_loop zero a n b world = none
  read_fd_loop (suc fuel) a n b world = do
    (result, after, next) ← read_fd_into a n b world
    elim result [
      | failure_of error ↦ some (failure_of error, next)
      | success_of count ↦ elim (ltb 0 count) [
        | true ↦ read_fd_loop fuel a n after next
        | false ↦ some (success_of after, next)
      ]
    ]

  -- `read(fd, batch_size, std::nothrow)`
  unfoldable pub read_fd_all : ℕ → Allocator → ℕ → W → Option (Result Cause Buffer × W)
  unfolding read_fd_loop
  read_fd_all fuel a n world = do asserts (ltb 0 n); read_fd_loop fuel a n empty_buffer world

-- How `fread` and `fwrite` end: with the bytes that were moved, and with the error that `ferror` then
-- tells of.
pub record StreamTransfer : Type 0 where
  pub bytes : Bytes
  pub error : Option ℕ

abbrev stream_result : {T : Type 0} → T → Option ℕ → Result Cause T
stream_result t none = success_of t
stream_result t (some e) = system_error (call_error e)

module _ {W : Type 0} (fread : ℕ → W → StreamTransfer × W) where
  -- `read(file, data, size, std::nothrow)`, with the bytes that it stores
  unfoldable pub read_stream : ℕ → W → Result Cause Bytes × W
  read_stream n world =
      let (done, after) = fread n world in (stream_result done.bytes done.error, after)

  -- the part of `read(file, buffer, size, std::nothrow)` behind the call of `extend`
  abbrev pub read_stream_at : Allocator → ℕ → Buffer → ℕ → W → Option (Result Cause ℕ × Buffer × W)
  read_stream_at a n b p world =
      let (done, after) = fread n world in
      do
        stored ← store_at b p done.bytes
        (taken, ptr) ← take_in a stored (length done.bytes)
        some (elim ptr [
          | none ↦ (system_error no_memory, taken, after)
          | some q ↦ (stream_result (length done.bytes) done.error, taken, after)
        ])

  -- `read(file, buffer, size, std::nothrow)`
  unfoldable pub read_stream_into :
      Allocator → ℕ → Buffer → W → Option (Result Cause ℕ × Buffer × W)
  read_stream_into a n b world = do
    (extended, ptr) ← extend_by ReallocType.grow a b n
    elim ptr [
      | none ↦ some (system_error no_memory, extended, world)
      | some p ↦ read_stream_at a n extended p world
    ]

  -- The loop of `read(file, batch_size, std::nothrow)`, with `feof(file)`.
  unfoldable pub read_stream_loop :
      (W → Bool) → ℕ → Allocator → ℕ → Buffer → W → Option (Result Cause Buffer × W)
  read_stream_loop feof zero a n b world = none
  read_stream_loop feof (suc fuel) a n b world = do
    (result, after, next) ← read_stream_into a n b world
    elim result [
      | failure_of error ↦ some (failure_of error, next)
      | success_of count ↦ elim (feof next) [
        | true ↦ some (success_of after, next)
        | false ↦ read_stream_loop feof fuel a n after next
      ]
    ]

  unfoldable pub read_stream_all :
      (W → Bool) → ℕ → Allocator → ℕ → W → Option (Result Cause Buffer × W)
  unfolding read_stream_loop
  read_stream_all feof fuel a n world = do
    asserts (ltb 0 n)
    read_stream_loop feof fuel a n empty_buffer world

-- `buffer.size() - offset`, which wraps at 2^64
abbrev pub left_behind : Buffer → ℕ → ℕ
left_behind b offset = if leb offset b.size then b.size - offset else 2 ^ 64 + b.size - offset

-- the bytes that a write passes on; `none` if they are not all in the block
abbrev pub bytes_from : Buffer → ℕ → ℕ → Option Bytes
bytes_from b offset n =
    let block = bytes_at b.block in
    if leb (offset + n) (length block) then some (take n (drop offset block)) else none

module _ {W : Type 0} where
  -- `write(file, buffer, offset, size, std::nothrow)`, with the offset that it leaves
  unfoldable pub write_stream_from :
      (Bytes → W → StreamTransfer × W) → Buffer → ℕ → ℕ → W → Option (Result Cause ℕ × ℕ × W)
  write_stream_from fwrite b offset size world = do
    bytes ← bytes_from b offset (min size (left_behind b offset))
    let (done, after) = fwrite bytes world
    let count = length done.bytes
    some (stream_result count done.error, add_size offset count, after)

  -- `write(file, buffer, std::nothrow)`
  unfoldable pub write_stream :
      (Bytes → W → StreamTransfer × W) → Buffer → W → Option (Result Cause ℕ × W)
  unfolding write_stream_from
  write_stream fwrite b world = do
    (result, offset, after) ← write_stream_from fwrite b 0 b.size world
    some (result, after)

  -- `write(fd, buffer, offset, size, std::nothrow)`, which calls `::write`
  unfoldable pub write_fd_from :
      (Bytes → W → Transfer × W) → Buffer → ℕ → ℕ → W → Option (Result Cause ℕ × ℕ × W)
  write_fd_from write_call b offset size world = do
    bytes ← bytes_from b offset (min size (left_behind b offset))
    let (done, after) = write_call bytes world
    some (elim done [
      | failed e ↦ (system_error (call_error e), offset, after)
      | moved ys ↦ (success_of (length ys), add_size offset (length ys), after)
    ])

-- `table` of `get_mime_type_from_extension`
abbrev mime_types : List (Bytes × Bytes)
mime_types =
    (codes "txt", codes "text/plain")
    ∷ (codes "htm", codes "text/html")
    ∷ (codes "html", codes "text/html")
    ∷ (codes "js", codes "text/javascript")
    ∷ (codes "xml", codes "text/xml")
    ∷ (codes "json", codes "application/json")
    ∷ (codes "pdf", codes "application/pdf")
    ∷ (codes "png", codes "image/png")
    ∷ (codes "jpg", codes "image/jpeg")
    ∷ (codes "jpeg", codes "image/jpeg")
    ∷ (codes "webp", codes "image/webp")
    ∷ (codes "gif", codes "image/gif")
    ∷ (codes "bmp", codes "image/bmp")
    ∷ []

abbrev equal_bytes : Bytes → Bytes → Bool
equal_bytes [] [] = true
equal_bytes [] (y ∷ ys) = false
equal_bytes (x ∷ xs) [] = false
equal_bytes (x ∷ xs) (y ∷ ys) = if x == y then equal_bytes xs ys else false

abbrev lookup_type : Bytes → List (Bytes × Bytes) → Bytes → Bytes
lookup_type extension [] other = other
lookup_type extension ((key, type) ∷ table) other =
    let rest = lookup_type extension table other in if equal_bytes key extension then type else rest

unfoldable pub get_mime_type_from_extension : Bytes → Bytes → Bytes
get_mime_type_from_extension extension default_mime_type =
    lookup_type (trim_left extension (codes ".")) mime_types default_mime_type
