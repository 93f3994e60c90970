-- ===== src/File/Collecting.antt =====
-- src/hlib_file.cpp: what the loop of reads from a descriptor collects. `extend` returns the place
-- behind the contents, and the size is added to it once more: the first read is stored in front,
-- and the second one too far behind.
use hlib.Base.{
  ℕ, suc, ◌+◌, ◌-◌, ◌≤◌, ◌<◌, ◌^◌, ◌≡◌, refl, ap, ◌∙◌, true, ◌⊎◌, inl, inr, none, some, [], ◌>>=◌,
  Bytes, length, take, ltb, arith,
}
use hlib.Buffer.{Allocator, Buffer, ReallocType, bytes_at, contents, empty_buffer}
use hlib.Buffer.Capacity.{extend_by}
use hlib.Buffer.Contents.{empty_buffer-IsValid}
use hlib.Buffer.Trace.{with_size-IsValid}
use hlib.Buffer.Valid.{IsValid}
use hlib.Buffer.Writing.{overwritten, length-overwritten}
use hlib.File.{Transfer, moved, read_fd_into, read_fd_loop, read_fd_all}
use hlib.Result.{success_of}
use hlib.File.Storing.{
  Grown, extend-Grown, with_block-IsValid, read_fd_into-stored, read_fd_into-outside, store_at_lem,
  store_at-outside, take-overwritten_front, take-overwritten_behind,
}

-- The loop after a read that returned some bytes, and after one that returned none.
module _ {W : Type 0} (read_call : ℕ → W → Transfer × W) (a : Allocator) (n : ℕ) (b after : Buffer)
    (w next : W) (fuel : ℕ) where
  goes_on :
      (count : ℕ)
      → 0 < count
      → read_fd_into read_call a n b w ≡ some (success_of count, after, next)
      → read_fd_loop read_call (suc fuel) a n b w ≡ read_fd_loop read_call fuel a n after next
  unfolding read_fd_loop
  goes_on count some_bytes e =
      let t : ltb 0 count ≡ true = ground (arith, some_bytes) in rw (e, ◌>>=◌) (rw t refl)

  stops :
      read_fd_into read_call a n b w ≡ some (success_of 0, after, next)
      → read_fd_loop read_call (suc fuel) a n b w ≡ some (success_of after, next)
  unfolding read_fd_loop
  stops e = rw e refl

  breaks : read_fd_into read_call a n b w ≡ none → read_fd_loop read_call (suc fuel) a n b w ≡ none
  unfolding read_fd_loop
  breaks e = rw e refl

-- How `read(fd, n)` ends whose first two reads return ys and more: with the bytes of a file that they
-- are, or with the second read, which has no fuel, and whose bytes end beyond the block that `extend` has
-- made.
pub data Collects {W : Type 0} (read_call : ℕ → W → Transfer × W) (a : Allocator) (n : ℕ)
    (ys more : Bytes) (w middle last : W) (fuel : ℕ) : Type 0 where
  finishes :
      (b : Buffer)
      → more ≡ []
      → read_fd_all read_call (suc (suc fuel)) a n w ≡ some (success_of b, last)
      → IsValid b
      → contents b ≡ ys
      → Collects read_call a n ys more w middle last fuel
  leaves_block :
      (b extended : Buffer)
      → n < length ys + length more
      → read_fd_into read_call a n empty_buffer w ≡ some (success_of (length ys), b, middle)
      → contents b ≡ ys
      → extend_by ReallocType.grow a b n ≡ some (extended, some b.size)
      → length (bytes_at extended.block) < b.size + extended.size + length more
      → read_fd_into read_call a n b middle ≡ none
      → read_fd_all read_call (suc (suc fuel)) a n w ≡ none
      → Collects read_call a n ys more w middle last fuel

module _ {W : Type 0} (read_call : ℕ → W → Transfer × W) (a : Allocator) (n : ℕ) (ys more : Bytes)
    (w middle last : W) (some_bytes : 0 < length ys) (small : length ys ≤ n) (fits : n + n < 2 ^ 64)
    (granted : a.grants n ≡ true) (granted_again : a.grants (length ys + n) ≡ true)
    (first : read_call n w ≡ (moved ys, middle))
    (second : read_call n middle ≡ (moved more, last)) where
  first_extended : Grown a empty_buffer n
  first_extended =
      extend-Grown a empty_buffer n empty_buffer-IsValid (omega (arith, some_bytes, small))
        (omega (arith, fits)) (omega (arith, some_bytes, small))
        (rw (let t : empty_buffer.size + n ≡ n = omega arith in t) granted)

  -- What the first batch leaves: its bytes, in a block with room for n.
  record First : Type 0 where
    after : Buffer
    returns :
        read_fd_into read_call a n empty_buffer w ≡ some (success_of (length ys), after, middle)
    valid : IsValid after
    collected : contents after ≡ ys
    size : after.size ≡ length ys
    capacity : after.capacity ≡ n
    maximum : after.maximum ≡ 2 ^ 64 - 1

  first_read : First
  first_read =
      let g = first_extended in
      let size : g.after.size ≡ 0 = g.same_size in
      let capacity : g.after.capacity ≡ n = omega (arith, g.exact) in
      let some_room : 0 < g.after.capacity = omega (arith, capacity, some_bytes, small) in
      let room : 0 + g.after.size + length ys ≤ g.after.capacity =
        omega (arith, size, capacity, small) in
      let m = overwritten (bytes_at g.after.block) (0 + g.after.size) ys in
      let stored : IsValid (record (g.after) { block = some m }) =
        with_block-IsValid g.after m g.valid some_room (
          length-overwritten (bytes_at g.after.block) (0 + g.after.size) ys
            (omega (arith, g.valid.block_length, room))
          ∙ g.valid.block_length) in
      record {
        after = record (g.after) { block = some m; size = g.after.size + length ys };
        returns =
            read_fd_into-stored read_call a n empty_buffer w middle g ys m first
              (store_at_lem g.after 0 ys g.valid some_room room) stored (omega (arith, some_bytes))
              (omega (arith, room))
            ∙ refl;
        valid =
            with_size-IsValid (record (g.after) { block = some m }) (g.after.size + length ys)
              stored (omega (arith, room));
        collected =
            take-overwritten_front (bytes_at g.after.block) (0 + g.after.size)
              (g.after.size + length ys) ys (omega (arith, size)) (omega (arith, size));
        size = omega (arith, size);
        capacity = capacity;
        maximum = g.same_maximum;
      }

  second_extended : (f : First) → Grown a (f.after) n
  second_extended f =
      extend-Grown a f.after n f.valid (omega (arith, some_bytes, small))
        (omega (arith, fits, f.size, f.maximum, small))
        (omega (arith, f.size, f.capacity, some_bytes)) (rw (f.size) granted_again)

  -- The end behind the first batch: the buffer is finished.
  record Finished (f : First) : Type 0 where
    after : Buffer
    returns : read_fd_into read_call a n (f.after) middle ≡ some (success_of 0, after, last)
    valid : IsValid after
    collected : contents after ≡ ys

  last_read : (f : First) → more ≡ [] → Finished f
  last_read f is_end =
      let g = second_extended f in
      let size : g.after.size ≡ length ys = g.same_size ∙ f.size in
      let capacity : g.after.capacity ≡ length ys + n = omega (arith, g.exact, f.size) in
      let p = f.after.size + g.after.size in
      let room : p + 0 ≤ g.after.capacity = omega (arith, size, f.size, capacity, small) in
      let m = overwritten (bytes_at g.after.block) p [] in
      let stored : IsValid (record (g.after) { block = some m }) =
        with_block-IsValid g.after m g.valid (omega (arith, capacity, some_bytes)) (
          length-overwritten (bytes_at g.after.block) p []
            (omega (arith, g.valid.block_length, room))
          ∙ g.valid.block_length) in
      record {
        after = record (g.after) { block = some m; size = g.after.size + 0 };
        returns =
            read_fd_into-stored read_call a n (f.after) middle last g [] m (rw is_end at second)
              (store_at_lem g.after (f.after.size) [] g.valid (omega (arith, capacity, some_bytes))
                room)
              stored (omega (arith, size, some_bytes)) (omega (arith, size, capacity));
        valid =
            with_size-IsValid (record (g.after) { block = some m }) (g.after.size + 0) stored
              (omega (arith, size, capacity));
        collected =
            take-overwritten_behind (bytes_at g.after.block) p (g.after.size + 0) (omega arith)
              (omega (arith, room, g.valid.block_length))
            ∙ ap (λ k. take k (bytes_at g.after.block))
                (let t : g.after.size + 0 ≡ g.after.size = omega arith in t)
            ∙ g.same_contents
            ∙ f.collected;
      }

  second_read :
      (f : First) → n < length ys + length more → read_fd_into read_call a n (f.after) middle ≡ none
  second_read f over =
      let g = second_extended f in
      let size : g.after.size ≡ length ys = g.same_size ∙ f.size in
      let capacity : g.after.capacity ≡ length ys + n = omega (arith, g.exact, f.size) in
      read_fd_into-outside read_call a n (f.after) middle last g more second (
        store_at-outside g.after (f.after.size) more g.valid (omega (arith, capacity, some_bytes))
          (omega (arith, size, f.size, fits, small)) (omega (arith, size, f.size, capacity, over)))

  -- A descriptor that yields a first batch of 1 to n bytes, and then the end of the file, is read by
  -- `read(fd, n)` into a valid buffer with just these bytes; two reads are enough. If the first two
  -- batches have more than n bytes together, the first is collected, and the place at which the second
  -- is stored ends beyond the block that `extend` made: that read is a fault, and so is the whole,
  -- whatever number of reads is left. The memory is granted, and 2 n is below 2^64.
  pub read_fd_all-Collects :
      (fuel : ℕ)
      → (more ≡ []) ⊎ (n < length ys + length more)
      → Collects read_call a n ys more w middle last fuel
  unfolding read_fd_all
  read_fd_all-Collects fuel second_batch =
      let positive : ltb 0 n ≡ true = ground (arith, some_bytes, small) in
      let f = first_read in
      let begin =
        goes_on read_call a n empty_buffer (f.after) w middle (suc fuel) (length ys) some_bytes
          f.returns in
      elim second_batch [
        | inl is_end ↦
            let done = last_read f is_end in
            finishes (done.after) is_end
              (rw positive
                (begin ∙ stops read_call a n (f.after) (done.after) middle last fuel done.returns))
              (done.valid) (done.collected)
        | inr over ↦
            let g = second_extended f in
            let beyond : length (bytes_at g.after.block)
                < f.after.size + g.after.size + length more =
              omega (arith, g.valid.block_length, g.same_size, g.exact, f.size, over) in
            leaves_block (f.after) (g.after) over f.returns f.collected g.returns beyond
              (second_read f over)
              (rw positive (
                begin
                ∙ breaks read_call a n (f.after) (f.after) middle last fuel (second_read f over)))
      ]
