-- ===== src/Buffer/Valid.antt =====
-- The representation invariant of the buffer.
use hlib.Base.{◌^◌, ◌≤◌, ◌<◌, ◌≡◌, none, length}
use hlib.Buffer.{Buffer, bytes_at}

-- The block has `capacity` bytes, and is null exactly if there are none; the size fits the
-- capacity, and the capacity the maximum.
pub record IsValid (b : Buffer) : Type 0 where
  pub block_length : length (bytes_at b.block) ≡ b.capacity
  pub null_block : b.capacity ≡ 0 → b.block ≡ none
  pub size_fits : b.size ≤ b.capacity
  pub capacity_fits : b.capacity ≤ b.maximum
  pub maximum_fits : b.maximum < 2 ^ 64
