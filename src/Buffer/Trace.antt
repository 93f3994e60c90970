-- ===== src/Buffer/Trace.antt =====
-- Sequences of calls on one buffer. Each call comes with the allocator that answers it.
use hlib.Base.{
  ℕ, ◌+◌, ◌^◌, ◌≤◌, ◌<◌, ◌≡◌, refl, Bool, true, false, List, [], ◌∷◌, Option, none, some, arith,
  length, Bytes, ltb, leb, if◌then◌else◌, Bool-cases, ◌>>=◌, ◌==◌, inl, inr,
}
use hlib.Buffer.{Allocator, Buffer, ReallocType, is_shrink}
use hlib.Buffer.Capacity.{
  Pointer, reset, clear, shrink, reserve_by, extend_by, resize_by, offset_in, is_null,
}
use hlib.Buffer.Contents.{Grows, realloc-IsValid, realloc-Grows}
use hlib.Buffer.Edit.{insert_nothrow, append_nothrow, assign_nothrow, erase}
use hlib.Buffer.Erasing.{Erases, erase-Erases}
use hlib.Buffer.Inserting.{Inserts, insert_nothrow-Inserts}
use hlib.Buffer.Valid.{IsValid}

-- A call, with its arguments.
pub data Call : Type 0 where
  resetting clearing shrinking : Call
  reserving extending resizing : ReallocType → ℕ → Call
  inserting : ℕ → Bytes → Call
  appending assigning : Bytes → Call
  erasing : ℕ → ℕ → Call

abbrev state_of {ℓ} : {A : Type ℓ} → Option (Buffer × A) → Option Buffer
state_of none = none
state_of (some (b, _)) = some b

-- The buffer after a call.
pub call : Allocator → Call → Buffer → Option Buffer
call a resetting b = some (reset b)
call a clearing b = some (clear b)
call a shrinking b = shrink a b
call a (reserving type n) b = state_of (reserve_by type a b n)
call a (extending type n) b = state_of (extend_by type a b n)
call a (resizing type n) b = state_of (resize_by type a b n)
call a (inserting offset ys) b = state_of (insert_nothrow a b offset (some ys) (length ys))
call a (appending ys) b = state_of (append_nothrow a b (some ys) (length ys))
call a (assigning ys) b = state_of (assign_nothrow a b (some ys) (length ys))
call a (erasing offset n) b = erase b offset n

-- What the caller has to see to. The sources call the calls on the capacity with `Grow` or
-- `GrowZeroed` only.
abbrev pub Allowed : Call → Buffer → Type 0
Allowed (reserving type n) b = is_shrink type ≡ false
Allowed (extending type n) b = is_shrink type ≡ false
Allowed (resizing type n) b = is_shrink type ≡ false
Allowed (inserting offset ys) b = (offset ≤ b.size) × (b.size + length ys < 2 ^ 64)
Allowed (appending ys) b = b.size + length ys < 2 ^ 64
Allowed (assigning ys) b = length ys < 2 ^ 64
Allowed (erasing offset n) b = offset + n ≤ b.size
Allowed _ b = Unit

-- The call ends, with no failed assertion and no access outside the block, in a valid buffer.
abbrev pub EndsValid : Option Buffer → Type 0
EndsValid none = ⊥
EndsValid (some b) = IsValid b

pub reset-IsValid : (b : Buffer) → IsValid b → IsValid (reset b)
unfolding reset
reset-IsValid b v = record {
  block_length = refl;
  null_block = λ _. refl;
  size_fits = omega arith;
  capacity_fits = omega arith;
  maximum_fits = v.maximum_fits;
}

pub with_size-IsValid :
    (b : Buffer) (n : ℕ) → IsValid b → n ≤ b.capacity → IsValid (record b { size = n })
with_size-IsValid b n v h = record {
  block_length = v.block_length;
  null_block = v.null_block;
  size_fits = h;
  capacity_fits = v.capacity_fits;
  maximum_fits = v.maximum_fits;
}

if-IsValid : (t : Bool) {x y : Buffer} → IsValid x → IsValid y → IsValid (if t then x else y)
if-IsValid true vx vy = vx
if-IsValid false vx vy = vy

module _ (a : Allocator) (b : Buffer) (v : IsValid b) where
  size_asserted : leb b.size b.capacity ≡ true
  size_asserted = ground (arith, v.size_fits)

  shrink-EndsValid : EndsValid (shrink a b)
  unfolding shrink
  shrink-EndsValid = rw size_asserted (
      if-IsValid (is_null b.block) (reset-IsValid b v) (
        if-IsValid (b.size == 0) (reset-IsValid b v)
          (realloc-IsValid a b b.size ReallocType.shrink v)))

  reserve_by-EndsValid : (type : ReallocType) (n : ℕ) → EndsValid (state_of (reserve_by type a b n))
  unfolding reserve_by
  reserve_by-EndsValid type n = rw size_asserted (realloc-IsValid a b n type v)

  extend_by-EndsValid : (type : ReallocType) (n : ℕ) → EndsValid (state_of (extend_by type a b n))
  unfolding extend_by
  extend_by-EndsValid type n = rw size_asserted (elim (Bool-cases (ltb 0 n)) [
    | inl more ↦ rw more (realloc-IsValid a b _ type v)
    | inr nothing ↦ rw nothing v
  ])

  resized : ℕ → Buffer × Bool → Buffer × Pointer
  resized n r = if r.1 then (record (r.0) { size = n }, offset_in r.0 0) else (r.0, none)

  resize_some-IsValid : (n : ℕ) (r : Buffer × Bool) → Grows a b n r → IsValid (resized n r).0
  unfolding resized
  resize_some-IsValid n (b', true) g = with_size-IsValid b' n g.valid (g.has_room refl)
  resize_some-IsValid n (b', false) g = g.valid

  resize_by-EndsValid :
      (type : ReallocType) (n : ℕ)
      → is_shrink type ≡ false
      → EndsValid (state_of (resize_by type a b n))
  unfolding resize_by resized
  resize_by-EndsValid type n s = rw size_asserted (elim (Bool-cases (ltb 0 n)) [
    | inl more ↦ rw more (resize_some-IsValid n _ (realloc-Grows a b n type v s))
    | inr nothing ↦ rw nothing (with_size-IsValid b n v (ground arith))
  ])

Inserts-EndsValid :
    {fails : Type 0} {b : Buffer} {new old : Bytes} {r : Option (Buffer × Bool)}
    → Inserts fails b new old r
    → EndsValid (state_of r)
Inserts-EndsValid i = rw i.returns i.valid

Erases-EndsValid : {b : Buffer} {o n : ℕ} {r : Option Buffer} → Erases b o n r → EndsValid r
Erases-EndsValid i = rw i.returns i.valid

pub call-EndsValid :
    (a : Allocator) (c : Call) (b : Buffer) → IsValid b → Allowed c b → EndsValid (call a c b)
unfolding call clear append_nothrow assign_nothrow
call-EndsValid a resetting b v h = reset-IsValid b v
call-EndsValid a clearing b v h = with_size-IsValid b 0 v (omega arith)
call-EndsValid a shrinking b v h = shrink-EndsValid a b v
call-EndsValid a (reserving type n) b v h = reserve_by-EndsValid a b v type n
call-EndsValid a (extending type n) b v h = extend_by-EndsValid a b v type n
call-EndsValid a (resizing type n) b v h = resize_by-EndsValid a b v type n h
call-EndsValid a (inserting offset ys) b v h =
    Inserts-EndsValid (insert_nothrow-Inserts a b offset ys v h.0 h.1)
call-EndsValid a (appending ys) b v h =
    Inserts-EndsValid (insert_nothrow-Inserts a b b.size ys v (omega arith) h)
call-EndsValid a (assigning ys) b v h = Inserts-EndsValid (
    insert_nothrow-Inserts a (record b { size = 0 }) 0 ys (with_size-IsValid b 0 v (omega arith))
      (omega arith) (omega arith))
call-EndsValid a (erasing offset n) b v h = Erases-EndsValid (erase-Erases b offset n v h)

-- Calls one after the other; the run stops at the first fault.
pub run : List (Allocator × Call) → Buffer → Option Buffer
unfolding call
run [] b = some b
run ((a, c) ∷ rest) b = call a c b >>= run rest

-- Each call of the run is allowed in the state that it meets.
abbrev pub AllAllowed : List (Allocator × Call) → Buffer → Type 0
AllAllowed [] b = Unit
AllAllowed ((a, c) ∷ rest) b =
    Allowed c b × ((b' : Buffer) → call a c b ≡ some b' → AllAllowed rest b')

-- Any sequence of calls of which each is allowed in the state that it meets (a range or offset
-- inside the buffer, a total size that size_t can hold) runs from a valid buffer to its end,
-- whatever the allocator answers: no assertion fails, no block is left, and the buffer is valid.
pub run-EndsValid :
    (calls : List (Allocator × Call)) (b : Buffer)
    → IsValid b
    → AllAllowed calls b
    → EndsValid (run calls b)
unfolding run
run-EndsValid [] b v h = v
run-EndsValid ((a, c) ∷ rest) b v h =
    continue (call a c b) refl (call-EndsValid a c b v h.0)
      (λ b' e ends. run-EndsValid rest b' ends (h.1 b' e))
  where
    continue :
        (r : Option Buffer)
        → call a c b ≡ r
        → EndsValid r
        → ((b' : Buffer) → call a c b ≡ some b' → IsValid b' → EndsValid (run rest b'))
        → EndsValid (r >>= run rest)
    continue none e ends later = ends
    continue (some b') e ends later = later b' e ends
