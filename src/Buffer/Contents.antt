-- ===== src/Buffer/Contents.antt =====
-- What `realloc`, and the calls on the capacity, leave of the contents and of the invariant.
use hlib.Base.{
  ℕ, ◌≤◌, ◌<◌, ◌≡◌, refl, Bool, true, false, Option, none, arith, length, length-take, min, Bytes,
}
use hlib.Buffer.{
  Allocator, Buffer, ReallocType, bytes_at, contents, is_shrink, install, realloc, empty_buffer,
}
use hlib.Buffer.Growth.{Denied, Reallocation, kept, refused, installed, realloc-Reallocation}
use hlib.Buffer.Valid.{IsValid}

pub empty_buffer-IsValid : IsValid empty_buffer
empty_buffer-IsValid = record {
  block_length = refl;
  null_block = λ _. refl;
  size_fits = omega arith;
  capacity_fits = omega arith;
  maximum_fits = omega arith;
}

pub install-IsValid :
    (b : Buffer) (block : Option Bytes) (n : ℕ)
    → IsValid b
    → n ≤ b.maximum
    → length (bytes_at block) ≡ n
    → (n ≡ 0 → block ≡ none)
    → IsValid (install b block n)
install-IsValid b block n v m l z = record {
  block_length = l;
  null_block = z;
  size_fits = omega arith;
  capacity_fits = m;
  maximum_fits = v.maximum_fits;
}

Reallocation-IsValid :
    {a : Allocator} {b : Buffer} {n : ℕ} {s : Bool} {r : Buffer × Bool}
    → IsValid b
    → Reallocation a b n s r
    → IsValid r.0
Reallocation-IsValid v (kept e h s) = rw e v
Reallocation-IsValid v (refused e d g) = rw e v
Reallocation-IsValid {b} {n} v (installed block e m x z g) =
    rw e (install-IsValid b block n v m x.measured z)

-- `Buffer::realloc` leaves a valid buffer valid, whatever capacity and kind of change it is asked
-- for.
pub realloc-IsValid :
    (a : Allocator) (b : Buffer) (n : ℕ) (type : ReallocType)
    → IsValid b
    → IsValid (realloc a b n type).0
realloc-IsValid a b n type v = Reallocation-IsValid v (realloc-Reallocation a b n type v)

-- What a growing `realloc` leaves alone, and what its result says.
pub record Grows (a : Allocator) (b : Buffer) (n : ℕ) (r : Buffer × Bool) : Type 0 where
  pub valid : IsValid r.0
  pub same_contents : contents r.0 ≡ contents b
  pub same_size : r.0.size ≡ b.size
  pub same_maximum : r.0.maximum ≡ b.maximum
  pub has_room : r.1 ≡ true → n ≤ r.0.capacity
  pub unchanged : r.1 ≡ false → r.0 ≡ b
  pub fails_only : r.1 ≡ false → Denied a b n × (b.capacity < n)

Reallocation-Grows :
    {a : Allocator} {b : Buffer} {n : ℕ} {r : Buffer × Bool}
    → IsValid b
    → Reallocation a b n false r
    → Grows a b n r
Reallocation-Grows {b} v (kept e h s) = rw e (record {
  valid = v;
  same_contents = refl;
  same_size = refl;
  same_maximum = refl;
  has_room = λ _. h;
  unchanged = λ _. refl;
  fails_only = λ c. cc;
})
Reallocation-Grows {b} v (refused e d g) = rw e (record {
  valid = v;
  same_contents = refl;
  same_size = refl;
  same_maximum = refl;
  has_room = λ c. cc;
  unchanged = λ _. refl;
  fails_only = λ _. (d, g refl);
})
Reallocation-Grows {b} {n} v (installed block e m x z g) =
    let wider = g refl in
    rw e (record {
      valid = install-IsValid b block n v m x.measured z;
      same_contents =
          rw (let s : min b.size n ≡ b.size = omega arith in s)
            (x.kept b.size (omega arith) (omega arith));
      same_size = omega arith;
      same_maximum = refl;
      has_room = λ _. omega arith;
      unchanged = λ c. cc;
      fails_only = λ c. cc;
    })

pub realloc-Grows :
    (a : Allocator) (b : Buffer) (n : ℕ) (type : ReallocType)
    → IsValid b
    → is_shrink type ≡ false
    → Grows a b n (realloc a b n type)
realloc-Grows a b n type v s = Reallocation-Grows v (rw s at (realloc-Reallocation a b n type v))

pub length-contents : {b : Buffer} → IsValid b → length (contents b) ≡ b.size
length-contents {b} v = omega (arith, length-take b.size (bytes_at b.block))
