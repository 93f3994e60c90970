-- ===== src/DescriptorIo/Filling.antt =====
-- src/hlib_fdio.cpp: bytes that are stored in the room that a sink made.
use hlib.Base.{
  ℕ, ◌+◌, ◌≤◌, ◌<◌, ◌≡◌, refl, ap, ◌∙◌, sym, arith, some, ◌++◌, Bytes, length, value, Option-cases,
  inl, inr, take-take,
}
use hlib.Buffer.{Allocator, Buffer, bytes_at, contents}
use hlib.Buffer.Capacity.{resize}
use hlib.Buffer.Valid.{IsValid}
use hlib.Buffer.Writing.{
  overwritten, overwrite_lem, length-overwritten, take-overwritten, resize_within,
}
use hlib.File.Storing.{with_block-IsValid}
use hlib.Stream.{Sink, fill}
use hlib.Stream.Producing.{Ready, Produces}

-- Bytes that are stored in the room for k that `produce` made, and the size that is set to them.
module _ (a : Allocator) (s : Sink) (k : ℕ) (r : Ready a s k) (z : Produces a s k) (ys : Bytes)
    (some_bytes : 0 < length ys) (small : length ys ≤ k) where
  abbrev pub size : ℕ
  size = s.buffer.size + length ys

  abbrev pub block : Bytes
  block = overwritten (bytes_at z.after.buffer.block) s.buffer.size ys

  abbrev pub filled : Buffer
  filled = record (z.after.buffer) { block = some block }

  abbrev pub taken : Sink
  taken = record (z.after) { buffer = record filled { size = size } }

  room : size ≤ length (bytes_at z.after.buffer.block)
  room = omega (arith, small, z.size, z.valid.size_fits, z.valid.block_length)

  pub fill_lem : fill z.after s.buffer.size ys ≡ some (record (z.after) { buffer = filled })
  fill_lem = elim (Option-cases z.after.buffer.block) [
    | inl e ↦ absurd (
        let l : 0 ≡ z.after.buffer.capacity = rw e at z.valid.block_length in
        omega (arith, z.size, z.valid.size_fits, some_bytes, small))
    | inr (xs, e) ↦
        rw (e, overwrite_lem xs s.buffer.size ys (let l : size ≤ length xs = rw e at room in l))
          refl
  ]

  filled-IsValid : IsValid filled
  filled-IsValid =
      with_block-IsValid z.after.buffer block z.valid
        (omega (arith, z.size, z.valid.size_fits, some_bytes, small))
        (length-overwritten (bytes_at z.after.buffer.block) s.buffer.size ys room
          ∙ z.valid.block_length)

  pub resize_lem : resize a filled size ≡ some (record filled { size = size }, value (some 0))
  resize_lem =
      resize_within a filled size filled-IsValid (omega (arith, some_bytes))
        (omega (arith, small, z.size, z.valid.size_fits))

  pub taken-IsValid : IsValid taken.buffer
  taken-IsValid = record {
    block_length = filled-IsValid.block_length;
    null_block = filled-IsValid.null_block;
    size_fits = omega (arith, small, z.size, z.valid.size_fits);
    capacity_fits = filled-IsValid.capacity_fits;
    maximum_fits = filled-IsValid.maximum_fits;
  }

  pub taken-contents : contents taken.buffer ≡ contents s.buffer ++ ys
  taken-contents =
      take-overwritten (bytes_at z.after.buffer.block) s.buffer.size ys room
      ∙ ap (λ xs. xs ++ ys)
          (sym (
              take-take s.buffer.size z.after.buffer.size (bytes_at z.after.buffer.block)
                (omega (arith, z.size)))
            ∙ z.same_contents)
