-- ===== src/Strings/Tests.antt =====
-- src/hlib_string.cpp at concrete inputs.
use hlib.Base.{
  ℕ, ◌≡◌, refl, true, false, none, some, ◌∷◌, [], codes, arith, pos, negsuc, invalid_argument,
  range_error, value, throws,
}
use hlib.Buffer.{Allocator, Buffer, realloc, residues, contents}
use hlib.Buffer.Capacity
use hlib.Buffer.Edit
use hlib.Buffer.Valid.{IsValid}
use hlib.Strings.Base64.{
  base64_encoded, base64_encode, encode_bytes, base64_decode, base64_decoded, decode_bytes,
  base64_encode_get_length, base64_decode_get_size,
}
use hlib.Strings.Base64Buffer.{Encodes, base64_encode-Encodes, Decodes, base64_decode-Decodes}
use hlib.Strings.Conversion.{InRanges, stoi-InRanges}
use hlib.Strings.Counting.{Occurrences, count-Occurrences, count_diverges}
use hlib.Strings.Integers.{stoi8, stoi16, stoui8, stoui64, stoi64, stoi64_nothrow, stof}
use hlib.Strings.Numeral.{Parsed, strtol, strtoul}
use hlib.Strings.Parts.{
  iequals, starts_with, ends_with, contains, count, to_upper, to_lower, split_at, fill_left,
  fill_right, join, replace,
}
use hlib.Strings.Reading.{Reads, stoi-Reads}
use hlib.Strings.Splitting.{split_and_join}

hexadecimal : stoi16 (codes "-0x1F") 0 ≡ value (negsuc 30)
unfolding stoi16
hexadecimal = refl

octal_and_rest : stoi64 (codes "0778") 0 ≡ throws invalid_argument
unfolding stoi64
octal_and_rest = refl

out_of_bounds : stoi8 (codes "128") 10 ≡ throws range_error
unfolding stoi8
out_of_bounds = refl

lowest : stoi8 (codes "-128") 10 ≡ value (negsuc 127)
unfolding stoi8
lowest = refl

no_such_base : stoi64_nothrow (codes "12") 37 ≡ none
unfolding stoi64_nothrow
no_such_base = refl

-- A minus in front of an unsigned number is taken, and negates modulo 2^64.
minus_one : stoui64 (codes "-1") 10 ≡ value 18446744073709551615
unfolding stoui64
minus_one = refl

minus_becomes_one : stoui8 (codes "-18446744073709551615") 10 ≡ value 1
unfolding stoui8
minus_becomes_one = refl

-- A text that starts with a zero byte is the number 0.
zero_byte : stoi64_nothrow (0 ∷ codes "abc") 10 ≡ some (pos 0)
unfolding stoi64_nothrow
zero_byte = refl

-- errno is not cleared: a number that is read well is refused after an earlier error.
stale_errno :
    stof {F = ℕ} (λ text. record { result = 7; rest = []; erange = false }) true (codes "7")
    ≡ (throws range_error, true)
unfolding stof
stale_errno = refl

cases_ignored : iequals (codes "HeLLo") (codes "hEllO") ≡ true
unfolding iequals
cases_ignored = refl

at_the_ends : starts_with (codes "hello") (codes "he") ≡ ends_with (codes "hello") (codes "llo")
unfolding starts_with ends_with
at_the_ends = refl

inside : contains (codes "hello") (codes "lo") ≡ true
unfolding contains
inside = refl

no_overlap : count 9 (codes "aaaaa") (codes "aa") ≡ some 2
unfolding count
no_overlap = refl

upper_and_lower : to_upper (codes "aZ9") ≡ to_upper (to_lower (codes "aZ9"))
unfolding to_upper to_lower
upper_and_lower = refl

filled : fill_left (codes "7") 3 48 ≡ codes "007"
unfolding fill_left
filled = refl

filled_not_cut : fill_right (codes "long") 2 32 ≡ codes "long"
unfolding fill_right
filled_not_cut = refl

replaced : replace (codes "a-b-c") (codes "-") (codes "+") ≡ codes "a+b-c"
unfolding replace
replaced = refl

split_kept : split_at (codes ",a,,") 44 false ≡ [] ∷ codes "a" ∷ [] ∷ [] ∷ []
unfolding split_at
split_kept = refl

split_filtered : split_at (codes ",a,,") 44 true ≡ codes "a" ∷ []
unfolding split_at
split_filtered = refl

stoi-InRanges_example : InRanges (codes "300") 10
stoi-InRanges_example = stoi-InRanges (codes "300") 10

stoi-Reads_example : Reads (codes "fF") 16 255
unfolding hlib.Strings.Numeral.digit_value
stoi-Reads_example =
    stoi-Reads 16 (omega arith) (omega arith) 102 (70 ∷ []) (omega arith, (omega arith, tt))

split_and_join_example :
    (join (split_at (codes ",a,,b") 44 false) (codes ",") ≡ codes ",a,,b")
    × (split_at (join (codes "a" ∷ [] ∷ codes "b" ∷ []) (codes ",")) 44 false
        ≡ codes "a" ∷ [] ∷ codes "b" ∷ [])
unfolding join
split_and_join_example =
    split_and_join 44 (codes ",a,,b") (codes "a" ∷ [] ∷ codes "b" ∷ [])
      ((refl, tt), (tt, ((refl, tt), tt))) (omega arith)

count-Occurrences_example :
    (n : ℕ) × (count 6 (codes "aaaaa") (codes "aa") ≡ some n)
    × Occurrences (codes "aaaaa") (codes "aa") 0 n
count-Occurrences_example = count-Occurrences 97 (97 ∷ []) (codes "aaaaa")

count_diverges_example : count 1000 (codes "abc") [] ≡ none
count_diverges_example = count_diverges 1000 (codes "abc")

abbrev generous : Allocator
generous = record { grants = λ n. true; residue = λ i. 170 }

abbrev prefix : Buffer
prefix = record { block = some (codes "id="); maximum = 64; capacity = 3; size = 3 }

prefix-IsValid : IsValid prefix
prefix-IsValid = record {
  block_length = refl;
  null_block = λ z. absurd (omega (arith, z));
  size_fits = omega arith;
  capacity_fits = omega arith;
  maximum_fits = omega arith;
}

encoded_text : base64_encoded generous (codes "Hello") ≡ some (codes "SGVsbG8=")
unfolding base64_encoded base64_encode encode_bytes base64_encode_get_length
    hlib.Buffer.Capacity.extend_by hlib.Buffer.Capacity.resize hlib.Buffer.Edit.overwrite realloc
encoded_text = refl

-- Five bytes are decoded, and three more are left as the allocator gave them.
decoded_text :
    base64_decoded generous (codes "SGVsbG8=")
    ≡ some (record {
      block = some (72 ∷ 101 ∷ 108 ∷ 108 ∷ 111 ∷ 170 ∷ 170 ∷ 170 ∷ []);
      maximum = 18446744073709551615;
      capacity = 8;
      size = 8;
    })
unfolding base64_decoded base64_decode decode_bytes base64_decode_get_size
    hlib.Buffer.Capacity.extend hlib.Buffer.Capacity.resize hlib.Buffer.Edit.overwrite realloc
decoded_text = refl

-- The text of no bytes fails an assertion.
decoded_nothing : base64_decoded generous [] ≡ none
unfolding base64_decoded base64_decode decode_bytes base64_decode_get_size
    hlib.Buffer.Capacity.extend realloc
decoded_nothing = refl

base64_encode-Encodes_example : Encodes generous prefix (codes "Hello")
unfolding base64_encode_get_length
base64_encode-Encodes_example =
    base64_encode-Encodes generous prefix (codes "Hello") prefix-IsValid (omega arith)

base64_decode-Decodes_example : Decodes generous prefix (codes "Hello")
unfolding base64_decode_get_size encode_bytes
base64_decode-Decodes_example =
    base64_decode-Decodes generous prefix 72 (codes "ello") prefix-IsValid
      (omega arith, (omega arith, (omega arith, (omega arith, (omega arith, tt))))) (omega arith)
      refl
