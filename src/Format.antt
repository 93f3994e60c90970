-- ===== src/Format.antt =====
-- src/hlib_format.cpp: the texts that `format` makes and `format_to` appends, for the conversions of
-- numbers that the library asks `vsnprintf` for.
pub mod Decimal
pub mod Reading
use hlib.Base.{
  ℕ, zero, suc, ◌+◌, ◌-◌, ◌/◌, ◌%◌, Bool, true, false, [], ◌∷◌, ◌++◌, Bytes, length, replicate, ltb,
  ℤ, pos, negsuc,
}

-- the decimal digits of a number, with one round for each digit
abbrev pub digits : ℕ → ℕ → Bytes
digits zero n = []
digits (suc fuel) n = elim (ltb n 10) [
  | true ↦ (48 + n) ∷ []
  | false ↦ digits fuel (n / 10) ++ (48 + n % 10) ∷ []
]

-- `%u`
unfoldable pub decimal : ℕ → Bytes
decimal n = digits (suc n) n

-- as many zeros as the text is too short
abbrev pub zeros : ℕ → Bytes → Bytes
zeros width text = replicate (width - length text) 48

-- `%02ld`, `%03ld` and the like
unfoldable pub padded : ℕ → ℤ → Bytes
unfolding decimal
padded width (pos n) = zeros width (decimal n) ++ decimal n
padded width (negsuc n) = 45 ∷ (zeros (width - 1) (decimal (suc n)) ++ decimal (suc n))

-- `format_to(string, ...)`, with the text that `vsnprintf` makes
abbrev pub format_to : Bytes → Bytes → Bytes
format_to string formatted = string ++ formatted
