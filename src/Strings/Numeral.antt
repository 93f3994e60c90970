-- ===== src/Strings/Numeral.antt =====
-- What src/hlib_string.cpp calls of the C library to read an integer: `isspace`, `strtol`,
-- `strtoul` and their long long relatives, with 64 bits in a long, as the C standard defines them.
use hlib.Base.{
  ℕ, zero, suc, ◌+◌, ◌-◌, ◌*◌, ◌^◌, ◌%◌, Bool, true, false, not, ◌&&◌, ◌||◌, Option, none, some, [],
  ◌∷◌, Bytes, ltb, leb, ◌==◌, if◌then◌else◌, ℤ, pos, negsuc,
}

abbrev pub is_space : ℕ → Bool
is_space c = c == 32 || (leb 9 c && leb c 13)

-- `value.c_str()` as a C function reads it: up to the first zero byte
unfoldable pub c_str : Bytes → Bytes
c_str [] = []
c_str (c ∷ cs) = let rest = c_str cs in if c == 0 then [] else c ∷ rest

unfoldable pub skip_spaces : Bytes → Bytes
skip_spaces [] = []
skip_spaces (c ∷ cs) = let rest = skip_spaces cs in if is_space c then rest else c ∷ cs

-- The value of a digit or letter; 36, which is a digit in no base, for any other byte.
unfoldable pub digit_value : ℕ → ℕ
digit_value c =
    if leb 48 c && leb c 57
    then c - 48
    else if leb 65 c && leb c 90
    then c - 55
    else if leb 97 c && leb c 122
    then c - 87
    else 36

-- The longest sequence of digits, added to what was read before, and what is behind it.
unfoldable pub scan_digits : ℕ → ℕ → Bytes → ℕ × Bytes
scan_digits base n [] = (n, [])
scan_digits base n (c ∷ cs) =
    let rest = scan_digits base (n * base + digit_value c) cs in
    if ltb (digit_value c) base then rest else (n, c ∷ cs)

abbrev pub starts_with_digit : ℕ → Bytes → Bool
starts_with_digit base [] = false
starts_with_digit base (c ∷ cs) = ltb (digit_value c) base

-- the optional sign: whether it is a minus, and what follows
abbrev pub read_sign : Bytes → Bool × Bytes
read_sign [] = (false, [])
read_sign (c ∷ cs) =
    if c == 45 then (true, cs) else if c == 43 then (false, cs) else (false, c ∷ cs)

-- whether `0x` and a hexadecimal digit come next
abbrev pub hex_prefix : Bytes → Bool
hex_prefix (c ∷ d ∷ cs) = c == 48 && (d == 120 || d == 88) && starts_with_digit 16 cs
hex_prefix _ = false

abbrev pub starts_with_zero : Bytes → Bool
starts_with_zero [] = false
starts_with_zero (c ∷ cs) = c == 48

abbrev pub drop_two : Bytes → Bytes
drop_two (c ∷ d ∷ cs) = cs
drop_two _ = []

-- the base that is meant, and the digits in it
abbrev pub read_base : ℕ → Bytes → ℕ × Bytes
read_base base cs =
    if (base == 0 || base == 16) && hex_prefix cs
    then (16, drop_two cs)
    else if not (base == 0)
    then (base, cs)
    else if starts_with_zero cs
    then (8, cs)
    else (10, cs)

pub record Scan : Type 0 where
  pub negative : Bool
  pub magnitude : ℕ
  pub rest : Bytes

-- the digits once the base is known; without any the text is not consumed
abbrev pub scan_in : Bytes → Bool → ℕ × Bytes → Scan
scan_in text negative (base, cs) =
    let scanned = scan_digits base 0 cs in
    if starts_with_digit base cs
    then record { negative = negative; magnitude = scanned.0; rest = scanned.1 }
    else record { negative = false; magnitude = 0; rest = text }

abbrev pub after_sign : Bytes → ℕ → Bool × Bytes → Scan
after_sign text base (negative, cs) = scan_in text negative (read_base base cs)

-- The number that a text starts with, before it is cut to a type. No number is read in a base that
-- does not exist: the pointer to the rest stays null.
unfoldable pub scan : Bytes → ℕ → Option Scan
unfolding c_str skip_spaces scan_digits digit_value
scan value base =
    let text = c_str value in
    if base == 1 || ltb 36 base
    then none
    else some (after_sign text base (read_sign (skip_spaces text)))

-- The result of a call, what `*pos` points at, and whether errno is set to ERANGE.
pub record Parsed (A : Type 0) : Type 0 where
  pub result : A
  pub rest : Bytes
  pub erange : Bool

abbrev pub long_of : Bool → ℕ → Bytes → Parsed ℤ
long_of true zero rest = record { result = pos 0; rest = rest; erange = false }
long_of true (suc n) rest =
    if ltb n (2 ^ 63)
    then record { result = negsuc n; rest = rest; erange = false }
    else record { result = negsuc (2 ^ 63 - 1); rest = rest; erange = true }
long_of false n rest =
    if ltb n (2 ^ 63)
    then record { result = pos n; rest = rest; erange = false }
    else record { result = pos (2 ^ 63 - 1); rest = rest; erange = true }

abbrev pub to_long : Scan → Parsed ℤ
to_long s = long_of s.negative s.magnitude s.rest

-- A minus negates in the unsigned type.
abbrev pub to_unsigned_long : Scan → Parsed ℕ
to_unsigned_long s =
    if ltb s.magnitude (2 ^ 64)
    then record {
      result = if s.negative then (2 ^ 64 - s.magnitude) % 2 ^ 64 else s.magnitude;
      rest = s.rest;
      erange = false;
    }
    else record { result = 2 ^ 64 - 1; rest = s.rest; erange = true }

abbrev on_scan : {A : Type 0} → (Scan → Parsed A) → Option Scan → Option (Parsed A)
on_scan f none = none
on_scan f (some s) = some (f s)

-- `strtol` and `strtoll`
unfoldable pub strtol : Bytes → ℕ → Option (Parsed ℤ)
unfolding scan
strtol value base = on_scan to_long (scan value base)

-- `strtoul` and `strtoull`
unfoldable pub strtoul : Bytes → ℕ → Option (Parsed ℕ)
unfolding scan
strtoul value base = on_scan to_unsigned_long (scan value base)
