-- ===== src/Strings/Integers.antt =====
-- src/hlib_string.cpp: `stob`, `stoi8` to `stoui64`, and `stof32` and `stof64`, each in its two
-- forms. The form with `std::nothrow` returns an optional. The argument `base` is not negative
-- here.
use hlib.Base.{
  ℕ, ◌-◌, ◌^◌, Bool, true, false, ◌&&◌, ◌||◌, Option, none, some, [], ◌∷◌, Bytes, codes, leb, ◌==◌,
  if◌then◌else◌, ℤ, pos, negsuc, Return, value, throws, invalid_argument, range_error,
}
use hlib.Strings.Numeral.{Parsed, is_space, strtol, strtoul}

-- `string == string`
unfoldable pub equals : Bytes → Bytes → Bool
equals [] [] = true
equals (x ∷ xs) (y ∷ ys) = x == y && equals xs ys
equals _ _ = false

-- `stob(value, std::nothrow)`
unfoldable pub stob_nothrow : Bytes → Option Bool
unfolding equals
stob_nothrow text =
    if equals (codes "true") text
    then some true
    else if equals (codes "false") text
    then some false
    else none

unfoldable pub stob : Bytes → Return Bool
unfolding equals
stob text =
    if equals (codes "true") text
    then value true
    else if equals (codes "false") text
    then value false
    else throws invalid_argument

-- `true == value.empty() || isspace(value.front())`
abbrev pub empty_or_space : Bytes → Bool
empty_or_space [] = true
empty_or_space (c ∷ cs) = is_space c

-- `nullptr == pos || 0 != *pos` for a pointer that is not null
abbrev pub has_rest : Bytes → Bool
has_rest [] = false
has_rest (c ∷ cs) = true

-- `r < numeric_limits::min() || r > numeric_limits::max()` for the signed type of w bits
abbrev pub outside_signed : ℕ → ℤ → Bool
outside_signed w (pos n) = leb (2 ^ (w - 1)) n
outside_signed w (negsuc n) = leb (2 ^ (w - 1)) n

-- the same for the unsigned type of w bits
abbrev pub outside_unsigned : ℕ → ℕ → Bool
outside_unsigned w n = leb (2 ^ w) n

-- `LONG_MIN == r || LONG_MAX == r`
abbrev pub is_extreme : ℤ → Bool
is_extreme (pos n) = n == 2 ^ 63 - 1
is_extreme (negsuc n) = n == 2 ^ 63 - 1

module _ {A : Type 0} (parse : Bytes → ℕ → Option (Parsed A)) (rejects : Parsed A → Bool) where
  abbrev pub checked_nothrow : Option (Parsed A) → Option A
  checked_nothrow none = none
  checked_nothrow (some p) = if has_rest p.rest || rejects p then none else some p.result

  -- the body of the forms without exceptions; `rejects` is the condition on the number
  unfoldable pub to_integer_nothrow : Bytes → ℕ → Option A
  to_integer_nothrow text base =
      if empty_or_space text then none else checked_nothrow (parse text base)

  abbrev checked : Option (Parsed A) → Return A
  checked none = throws invalid_argument
  checked (some p) =
      if has_rest p.rest
      then throws invalid_argument
      else if rejects p
      then throws range_error
      else value p.result

  -- the body of the forms that throw
  unfoldable pub to_integer : Bytes → ℕ → Return A
  to_integer text base =
      if empty_or_space text then throws invalid_argument else checked (parse text base)

-- the conditions on the number, one for each type
abbrev pub rejects_int8 : Parsed ℤ → Bool
rejects_int8 p = outside_signed 8 p.result

abbrev pub rejects_int16 : Parsed ℤ → Bool
rejects_int16 p = outside_signed 16 p.result

abbrev pub rejects_int32 : Parsed ℤ → Bool
rejects_int32 p = outside_signed 32 p.result || (is_extreme p.result && p.erange)

abbrev pub rejects_int64 : Parsed ℤ → Bool
rejects_int64 p = is_extreme p.result && p.erange

abbrev pub rejects_uint8 : Parsed ℕ → Bool
rejects_uint8 p = outside_unsigned 8 p.result

abbrev pub rejects_uint16 : Parsed ℕ → Bool
rejects_uint16 p = outside_unsigned 16 p.result

abbrev pub rejects_uint32 : Parsed ℕ → Bool
rejects_uint32 p = outside_unsigned 32 p.result || (p.result == 2 ^ 64 - 1 && p.erange)

abbrev pub rejects_uint64 : Parsed ℕ → Bool
rejects_uint64 p = p.result == 2 ^ 64 - 1 && p.erange

unfoldable pub stoi8_nothrow : Bytes → ℕ → Option ℤ
unfolding strtol to_integer_nothrow
stoi8_nothrow = to_integer_nothrow strtol rejects_int8

unfoldable pub stoi8 : Bytes → ℕ → Return ℤ
unfolding strtol to_integer
stoi8 = to_integer strtol rejects_int8

unfoldable pub stoi16_nothrow : Bytes → ℕ → Option ℤ
unfolding strtol to_integer_nothrow
stoi16_nothrow = to_integer_nothrow strtol rejects_int16

unfoldable pub stoi16 : Bytes → ℕ → Return ℤ
unfolding strtol to_integer
stoi16 = to_integer strtol rejects_int16

unfoldable pub stoi32_nothrow : Bytes → ℕ → Option ℤ
unfolding strtol to_integer_nothrow
stoi32_nothrow = to_integer_nothrow strtol rejects_int32

unfoldable pub stoi32 : Bytes → ℕ → Return ℤ
unfolding strtol to_integer
stoi32 = to_integer strtol rejects_int32

unfoldable pub stoi64_nothrow : Bytes → ℕ → Option ℤ
unfolding strtol to_integer_nothrow
stoi64_nothrow = to_integer_nothrow strtol rejects_int64

unfoldable pub stoi64 : Bytes → ℕ → Return ℤ
unfolding strtol to_integer
stoi64 = to_integer strtol rejects_int64

unfoldable pub stoui8_nothrow : Bytes → ℕ → Option ℕ
unfolding strtoul to_integer_nothrow
stoui8_nothrow = to_integer_nothrow strtoul rejects_uint8

unfoldable pub stoui8 : Bytes → ℕ → Return ℕ
unfolding strtoul to_integer
stoui8 = to_integer strtoul rejects_uint8

unfoldable pub stoui16_nothrow : Bytes → ℕ → Option ℕ
unfolding strtoul to_integer_nothrow
stoui16_nothrow = to_integer_nothrow strtoul rejects_uint16

unfoldable pub stoui16 : Bytes → ℕ → Return ℕ
unfolding strtoul to_integer
stoui16 = to_integer strtoul rejects_uint16

unfoldable pub stoui32_nothrow : Bytes → ℕ → Option ℕ
unfolding strtoul to_integer_nothrow
stoui32_nothrow = to_integer_nothrow strtoul rejects_uint32

unfoldable pub stoui32 : Bytes → ℕ → Return ℕ
unfolding strtoul to_integer
stoui32 = to_integer strtoul rejects_uint32

unfoldable pub stoui64_nothrow : Bytes → ℕ → Option ℕ
unfolding strtoul to_integer_nothrow
stoui64_nothrow = to_integer_nothrow strtoul rejects_uint64

unfoldable pub stoui64 : Bytes → ℕ → Return ℕ
unfolding strtoul to_integer
stoui64 = to_integer strtoul rejects_uint64

-- `strtof` and `strtod`: the number, what `*pos` points at, and whether errno is set to ERANGE.
-- The functions below read errno without clearing it first, so it is an argument and a result.
module _ {F : Type 0} (strtof : Bytes → Parsed F) where
  -- `stof32(value, std::nothrow)` and `stof64(value, std::nothrow)`
  unfoldable pub stof_nothrow : Bool → Bytes → Option F × Bool
  stof_nothrow erange text =
      if empty_or_space text
      then (none, erange)
      else let p = strtof text in
        let erange' = erange || p.erange in
        (if has_rest p.rest || erange' then none else some p.result, erange')

  -- `stof32(value)` and `stof64(value)`
  unfoldable pub stof : Bool → Bytes → Return F × Bool
  stof erange text =
      if empty_or_space text
      then (throws invalid_argument, erange)
      else let p = strtof text in
        let erange' = erange || p.erange in
        (
          if has_rest p.rest
              then throws invalid_argument
              else if erange'
              then throws range_error
              else value p.result,
          erange',
        )
