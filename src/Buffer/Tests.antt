-- ===== src/Buffer/Tests.antt =====
-- The buffer at concrete inputs.
use hlib.Base.{
  ◌≡◌, refl, true, false, List, [], ◌∷◌, none, some, bad_alloc, out_of_range, throws, find, ◌++◌,
  arith, leb, codes, value,
}
use hlib.Buffer.{empty_buffer, Allocator, Buffer, ReallocType, realloc, residues}
use hlib.Buffer.Capacity.{
  reserve, reserve_zeroed, extend, extend_zeroed, resize, resize_zeroed, clear,
}
use hlib.Buffer.Edit.{
  assign_nothrow, insert, assign, append, insert_nothrow, append_nothrow, erase, overwrite, memmove,
}
use hlib.Buffer.Extracting.{Extracts, ExtractsUntil, extract-Extracts, extract_until-ExtractsUntil}
use hlib.Buffer.Inserting.{Inserts, NoRoom, insert_nothrow-Inserts}
use hlib.Buffer.Pooled.{
  BufferAllocator, make_allocator, allocate, deallocate, Deallocates, allocate-Deallocates,
}
use hlib.Buffer.Trace.{Call, EndsValid, resizing, shrinking, run, run-EndsValid}
use hlib.Buffer.Transfer.{
  with_reservation, from_bytes, get, at, copy_all_or_throw, copied_all, copied, extracted,
  extracted_until, extract, extract_until,
}
use hlib.Buffer.Valid.{IsValid}

-- grants every request below 100 bytes; what nothing has written holds 170
abbrev small_heap : Allocator
small_heap = record { grants = λ n. leb n 100; residue = λ i. 170 }

abbrev hello : Buffer
hello = record { block = some (codes "hello!!!"); maximum = 64; capacity = 8; size = 5 }

abbrev spare : Buffer
spare = record { block = none; maximum = 64; capacity = 0; size = 0 }

hello-IsValid : IsValid hello
hello-IsValid = record {
  block_length = refl;
  null_block = λ z. absurd (omega (arith, z));
  size_fits = omega arith;
  capacity_fits = omega arith;
  maximum_fits = omega arith;
}

spare-IsValid : IsValid spare
spare-IsValid = record {
  block_length = refl;
  null_block = λ _. refl;
  size_fits = omega arith;
  capacity_fits = omega arith;
  maximum_fits = omega arith;
}

insert_hello :
    insert_nothrow small_heap hello 2 (some (codes "XXXX")) 4
    ≡ some (record { block = some (codes "heXXXXllo"); maximum = 64; capacity = 9; size = 9 }, true)
unfolding insert_nothrow overwrite memmove realloc
insert_hello = refl

append_over_maximum :
    append_nothrow small_heap (record hello { maximum = 8 }) (some (codes "1234")) 4
    ≡ some (record hello { maximum = 8 }, false)
unfolding append_nothrow insert_nothrow overwrite memmove realloc
append_over_maximum = refl

-- Only a new capacity is cleared: bytes that the block still holds come back.
stale_bytes :
    resize_zeroed small_heap (clear hello) 10
    ≡ some (
      record {
        block = some (codes "hello!!!" ++ (0 ∷ 0 ∷ []));
        maximum = 64;
        capacity = 10;
        size = 10;
      },
      value (some 0),
    )
unfolding resize_zeroed clear realloc
stale_bytes = refl

insert_nothrow-Inserts_example :
    Inserts
      (NoRoom small_heap hello 9)
      hello
      (codes "heXXXXllo")
      (codes "hello")
      (insert_nothrow small_heap hello 2 (some (codes "XXXX")) 4)
insert_nothrow-Inserts_example =
    insert_nothrow-Inserts small_heap hello 2 (codes "XXXX") hello-IsValid (omega arith)
      (omega arith)

extract-Extracts_example : Extracts hello spare 1 3 small_heap (extract small_heap hello 1 3 spare)
extract-Extracts_example =
    extract-Extracts small_heap hello spare 1 3 hello-IsValid spare-IsValid (omega arith)

extract_until-ExtractsUntil_example :
    ExtractsUntil small_heap hello spare 0
      (codes "ll")
      true
      (extract_until small_heap hello 0 (codes "ll") true spare)
extract_until-ExtractsUntil_example =
    extract_until-ExtractsUntil small_heap hello spare 0 (codes "ll") true hello-IsValid
      spare-IsValid (omega arith)

abbrev script : List (Allocator × Call)
script = (small_heap, resizing ReallocType.grow 12) ∷ (small_heap, shrinking) ∷ []

run-EndsValid_example : EndsValid (run script hello)
run-EndsValid_example = run-EndsValid script hello hello-IsValid (refl, λ b e. (tt, λ c f. tt))

-- the allocator after three elements of four bytes
abbrev three_elements : BufferAllocator
three_elements = record {
  buffer = record {
    block = some (residues small_heap 0 12);
    maximum = 64;
    capacity = 12;
    size = 12;
  };
  base = 0;
}

allocated : allocate small_heap 4 (make_allocator spare) 3 ≡ some (three_elements, value (some 0))
unfolding allocate make_allocator resize realloc residues
allocated = refl

allocate-Deallocates_example : Deallocates small_heap 4 3 three_elements 0
unfolding make_allocator
allocate-Deallocates_example =
    allocate-Deallocates small_heap 4 (make_allocator spare) 3 three_elements 0 (omega arith)
      spare-IsValid (omega arith) allocated

-- the assertions hold again of a count that does not stand for what was handed out
three_after_twelve :
    deallocate small_heap three_elements (some 0) 12
    ≡ some (record three_elements { buffer = record (three_elements.buffer) { size = 0 } })
unfolding deallocate resize
three_after_twelve = refl

abbrev full_heap : Allocator
full_heap = record { grants = λ n. false; residue = λ i. 170 }

abbrev copy_of_ell : Buffer
copy_of_ell = record empty_buffer { block = some (codes "ell"); capacity = 3; size = 3 }

calls_on_the_capacity :
    (reserve small_heap hello 6 ≡ some (hello, value (some 0)))
    × (reserve_zeroed full_heap hello 9 ≡ some (hello, throws bad_alloc))
    × (extend small_heap hello 3 ≡ some (hello, value (some 5)))
    × (extend_zeroed full_heap hello 4 ≡ some (hello, throws bad_alloc))
    × (resize small_heap hello 2 ≡ some (record hello { size = 2 }, value (some 0)))
unfolding reserve reserve_zeroed extend extend_zeroed resize realloc
calls_on_the_capacity = (refl, refl, refl, refl, refl)

constructors :
    (with_reservation full_heap 0 64 ≡ some (spare, value none))
    × (from_bytes small_heap (some (codes "ell")) 3 ≡ some (copy_of_ell, value tt))
unfolding with_reservation from_bytes reserve assign assign_nothrow append_nothrow insert_nothrow
    overwrite memmove realloc
constructors = (refl, refl)

reads :
    (get hello 8 ≡ throws out_of_range)
    × (at hello 4 ≡ value (some b'o'))
    × (at hello 9 ≡ throws out_of_range)
unfolding get at
reads = (refl, refl, refl)

insertions :
    (insert full_heap hello 0 (some (codes "abcd")) 4 ≡ some (hello, throws bad_alloc))
    × (append small_heap hello (some (codes "ab")) 2
        ≡ some (record hello { block = some (codes "helloab!"); size = 7 }, value tt))
    × (assign small_heap hello (some (codes "ab")) 2
        ≡ some (record hello { block = some (codes "abllo!!!"); size = 2 }, value tt))
unfolding insert append assign assign_nothrow append_nothrow insert_nothrow overwrite memmove
    realloc
insertions = (refl, refl, refl)

copies :
    (copy_all_or_throw full_heap hello spare ≡ some (spare, throws bad_alloc))
    × (copied_all full_heap hello ≡ some (empty_buffer, throws bad_alloc))
    × (copied small_heap hello 1 3 ≡ some (copy_of_ell, value tt))
unfolding copy_all_or_throw copied_all copied assign assign_nothrow append_nothrow insert_nothrow
    overwrite memmove realloc
copies = (refl, refl, refl)

extractions :
    (extracted small_heap hello 1 3
      ≡ some (record hello { block = some (codes "hollo!!!"); size = 2 }, copy_of_ell, value tt))
    × (extracted_until small_heap hello 1 (codes "lo") false
        ≡ some (
          record hello { block = some (codes "hlolo!!!"); size = 3 },
          record copy_of_ell { block = some (codes "el"); capacity = 2; size = 2 },
          value tt,
        ))
unfolding extracted extracted_until erase find assign_nothrow append_nothrow insert_nothrow
    overwrite memmove realloc
extractions = (refl, refl)

null_pointer : deallocate small_heap (make_allocator spare) none 0 ≡ some (make_allocator spare)
unfolding deallocate make_allocator resize
null_pointer = refl
