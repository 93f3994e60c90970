-- ===== src/Strings/Base64.antt =====
-- src/hlib_string.cpp: `base64_encode` and `base64_decode`.
use hlib.Base.{
  ℕ, ◌+◌, ◌-◌, ◌*◌, ◌/◌, ◌%◌, Bool, true, false, not, ◌&&◌, Option, none, some, ◌>>=◌, [], ◌∷◌,
  ◌++◌, Bytes, length, get_elem?, codes, leb, ◌==◌, if◌then◌else◌, bit_or, Return, value, throws,
}
use hlib.Buffer.{Allocator, Buffer, ReallocType, add_size, empty_buffer, contents}
use hlib.Buffer.Capacity.{Pointer, extend_by, extend, resize}
use hlib.Buffer.Edit.{overwrite, on_block}

abbrev pub encode_table : Bytes
encode_table = codes "ABCDEFGHIJKLMNOPQRSTUVWXYZabcdefghijklmnopqrstuvwxyz0123456789+/"

-- `encode_table[i]`; a place outside the table, which the code never reads, is 0 here.
abbrev pub encode_char : ℕ → ℕ
encode_char i = elim (get_elem? encode_table i) [ none ↦ 0 | some c ↦ c ]

unfoldable pub base64_encode_get_length : ℕ → ℕ
base64_encode_get_length size = ((size + 2) / 3) * 4

-- The characters that are written for a group of three bytes: `(b & 0xfc) >> 2` is `b / 4`, and the
-- masks of the other terms are remainders.
abbrev pub first_char : ℕ → ℕ
first_char b0 = encode_char (b0 / 4 % 64)

abbrev pub second_char : ℕ → ℕ → ℕ
second_char b0 b1 = encode_char (bit_or (b0 % 4 * 16) (b1 / 16 % 16))

abbrev pub third_char : ℕ → ℕ → ℕ
third_char b1 b2 = encode_char (bit_or (b1 % 16 * 4) (b2 / 64 % 4))

abbrev pub fourth_char : ℕ → ℕ
fourth_char b2 = encode_char (b2 % 64)

-- What the loop and the switch behind it write, in order.
unfoldable pub encode_bytes : Bytes → Bytes
encode_bytes [] = []
encode_bytes (b0 ∷ []) = first_char b0 ∷ encode_char (b0 % 4 * 16) ∷ 61 ∷ 61 ∷ []
encode_bytes (b0 ∷ b1 ∷ []) =
    first_char b0 ∷ second_char b0 b1 ∷ encode_char (b1 % 16 * 4) ∷ 61 ∷ []
encode_bytes (b0 ∷ b1 ∷ b2 ∷ bs) =
    first_char b0 ∷ second_char b0 b1 ∷ third_char b1 b2 ∷ fourth_char b2 ∷ encode_bytes bs

-- a call that throws out of a function marked noexcept ends the program
abbrev pub no_throw {ℓ} : {A : Type ℓ} → Buffer × Return A → Option (Buffer × A)
no_throw (b, value p) = some (b, p)
no_throw (b, throws e) = none

abbrev pub store : Buffer → ℕ → Bytes → Option Buffer
store b p ys = on_block b.block (overwrite p ys) >>= λ block. some (record b { block = block })

-- the end of both functions: `buffer.resize(buffer.size() + n); return true;`
abbrev pub lengthen : Allocator → Buffer → ℕ → Option (Buffer × Bool)
lengthen a b n = resize a b (add_size b.size n) >>= no_throw >>= λ r. some (r.0, true)

abbrev pub encode_into : Allocator → Bytes → ℕ → Buffer × Pointer → Option (Buffer × Bool)
encode_into a bytes n (b, none) = some (b, false)
encode_into a bytes n (b, some p) = store b p (encode_bytes bytes) >>= λ b'. lengthen a b' n

-- `base64_encode(buffer, data, size)`: the text is appended to the buffer.
unfoldable pub base64_encode : Allocator → Buffer → Bytes → Option (Buffer × Bool)
base64_encode a b bytes =
    let n = base64_encode_get_length (length bytes) in
    if n == 0 then some (b, true) else extend_by ReallocType.grow a b n >>= encode_into a bytes n

-- `base64_encode(data, size)`
unfoldable pub base64_encoded : Allocator → Bytes → Option Bytes
base64_encoded a bytes = base64_encode a empty_buffer bytes >>= λ r. some (contents r.0)

unfoldable pub base64_decode_get_size : ℕ → ℕ
base64_decode_get_size n = 3 * (n / 4) + 2

unfoldable pub decode_char : ℕ → ℕ
decode_char c =
    if leb 65 c && leb c 90
    then c - 65
    else if leb 97 c && leb c 122
    then c - 97 + 26
    else if leb 48 c && leb c 57
    then c - 48 + 52
    else if c == 43
    then 62
    else 63

-- The bytes that are written for a group, from the values of its characters.
abbrev pub first_byte : ℕ → ℕ → ℕ
first_byte d0 d1 = bit_or (d0 * 4) (d1 / 16 % 4)

abbrev pub second_byte : ℕ → ℕ → ℕ
second_byte d1 d2 = bit_or (d1 % 16 * 16) (d2 / 4 % 16)

abbrev pub third_byte : ℕ → ℕ → ℕ
third_byte d2 d3 = bit_or (d2 % 4 * 64) d3

unfoldable pub decode2 : ℕ → ℕ → Bytes
unfolding decode_char
decode2 c0 c1 = first_byte (decode_char c0) (decode_char c1) ∷ []

unfoldable pub decode3 : ℕ → ℕ → ℕ → Bytes
unfolding decode2
decode3 c0 c1 c2 = decode2 c0 c1 ++ second_byte (decode_char c1) (decode_char c2) ∷ []

unfoldable pub decode4 : ℕ → ℕ → ℕ → ℕ → Bytes
unfolding decode3
decode4 c0 c1 c2 c3 = decode3 c0 c1 c2 ++ third_byte (decode_char c2) (decode_char c3) ∷ []

-- What the loop and the switch behind it write, in order. The assertion of the default case fails
-- where no character or one is left.
unfoldable pub decode_bytes : Bytes → Option Bytes
unfolding decode4
decode_bytes [] = none
decode_bytes (c0 ∷ []) = none
decode_bytes (c0 ∷ c1 ∷ []) = some []
decode_bytes (c0 ∷ c1 ∷ c2 ∷ []) = some (decode3 c0 c1 c2)
decode_bytes (c0 ∷ c1 ∷ c2 ∷ c3 ∷ []) =
    if not (c3 == 61)
    then some (decode4 c0 c1 c2 c3)
    else if not (c2 == 61)
    then some (decode3 c0 c1 c2)
    else some (decode2 c0 c1)
decode_bytes (c0 ∷ c1 ∷ c2 ∷ c3 ∷ c4 ∷ cs) = do
  rest ← decode_bytes (c4 ∷ cs)
  some (decode4 c0 c1 c2 c3 ++ rest)

abbrev pub decode_into : Allocator → Bytes → ℕ → Buffer × Pointer → Option (Buffer × Bool)
decode_into a text n (b, none) = some (b, false)
decode_into a text n (b, some p) = do ys ← decode_bytes text; b' ← store b p ys; lengthen a b' n

-- `base64_decode(buffer, data, length)`: the size that is added does not depend on how many bytes
-- were written.
unfoldable pub base64_decode : Allocator → Buffer → Bytes → Option (Buffer × Bool)
base64_decode a b text =
    let n = base64_decode_get_size (length text) in
    if n == 0 then some (b, true) else extend a b n >>= no_throw >>= decode_into a text n

-- `base64_decode(string)`
unfoldable pub base64_decoded : Allocator → Bytes → Option Buffer
base64_decoded a text = base64_decode a empty_buffer text >>= λ r. some r.0
