-- ===== src/Strings/Parts.antt =====
-- src/hlib_string.cpp: comparing, searching, trimming, splitting, filling, joining and replacing.
use hlib.Base.{
  ℕ, zero, suc, ◌+◌, ◌-◌, max, Bool, true, false, not, ◌&&◌, ◌||◌, Option, none, some, List, [],
  ◌∷◌, ◌++◌, Bytes, length, take, drop, replicate, ltb, leb, ◌==◌, if◌then◌else◌, find, mem_byte,
}
use mathlib.Core.List.{reverse}
use hlib.Strings.Integers.{equals}

-- `std::tolower` and `std::toupper` in the locale "C"
abbrev pub lower : ℕ → ℕ
lower c = if leb 65 c && leb c 90 then c + 32 else c

abbrev pub upper : ℕ → ℕ
upper c = if leb 97 c && leb c 122 then c - 32 else c

iequals_loop : Bytes → Bytes → Bool
iequals_loop (x ∷ xs) (y ∷ ys) = lower x == lower y && iequals_loop xs ys
iequals_loop _ _ = true

unfoldable pub iequals : Bytes → Bytes → Bool
unfolding iequals_loop
iequals lhs rhs = if not (length lhs == length rhs) then false else iequals_loop lhs rhs

unfoldable pub starts_with : Bytes → Bytes → Bool
unfolding equals
starts_with string substring =
    if ltb (length string) (length substring)
    then false
    else equals (take (length substring) string) substring

unfoldable pub ends_with : Bytes → Bytes → Bool
unfolding equals
ends_with string substring =
    if ltb (length string) (length substring)
    then false
    else equals (take (length substring) (drop (length string - length substring) string)) substring

unfoldable pub contains : Bytes → Bytes → Bool
unfolding find
contains string substring = elim (find string substring 0) [ none ↦ false | some _ ↦ true ]

-- The loop of both `count`s, on fuel: a character is counted as the text of it alone.
unfoldable pub count_from : ℕ → Bytes → Bytes → ℕ → ℕ → Option ℕ
count_from zero string substring pos count = none
count_from (suc fuel) string substring pos count = elim (find string substring pos) [
  | none ↦ some count
  | some p ↦ count_from fuel string substring (p + length substring) (count + 1)
]

unfoldable pub count : ℕ → Bytes → Bytes → Option ℕ
unfolding count_from find
count fuel string substring = count_from fuel string substring 0 0

unfoldable pub to_upper : Bytes → Bytes
to_upper [] = []
to_upper (c ∷ cs) = upper c ∷ to_upper cs

unfoldable pub to_lower : Bytes → Bytes
to_lower [] = []
to_lower (c ∷ cs) = lower c ∷ to_lower cs

-- `string.erase(0, string.find_first_not_of(chars))`
unfoldable pub trim_left : Bytes → Bytes → Bytes
unfolding mem_byte
trim_left [] chars = []
trim_left (c ∷ cs) chars =
    let rest = trim_left cs chars in if mem_byte c chars then rest else c ∷ cs

-- how many bytes from the front are among the characters
unfoldable pub leading : Bytes → Bytes → ℕ
unfolding mem_byte
leading [] chars = 0
leading (c ∷ cs) chars = let n = leading cs chars in if mem_byte c chars then suc n else 0

unfoldable pub trim_right : Bytes → Bytes → Bytes
unfolding leading
trim_right string chars = take (length string - leading (reverse string) chars) string

unfoldable pub trim : Bytes → Bytes → Bytes
unfolding trim_left trim_right
trim string chars = trim_right (trim_left string chars) chars

abbrev pub is_empty_text : Bytes → Bool
is_empty_text [] = true
is_empty_text (c ∷ cs) = false

abbrev pub emplace_if : Bool → Bytes → List Bytes → List Bytes
emplace_if b token tokens = if b then token ∷ tokens else tokens

module _ (is_delimiter : ℕ → Bool) (filter_empty : Bool) where
  -- The loop of `split` from a position on, with the token and the count so far: the tokens that
  -- are still to come. A token that was moved from is empty.
  unfoldable pub split_loop : Bytes → ℕ → Bytes → List Bytes
  split_loop token count [] =
      emplace_if (not (is_empty_text token) || (ltb 0 count && not filter_empty)) token []
  split_loop token count (c ∷ cs) = elim (is_delimiter c) [
    | true ↦
        emplace_if (not (is_empty_text token) || not filter_empty) token
          (split_loop [] (count + 1) cs)
    | false ↦ split_loop (token ++ c ∷ []) count cs
  ]

  unfoldable pub split : Bytes → List Bytes
  unfolding split_loop
  split string = if is_empty_text string then [] else split_loop [] 0 string

-- `split(string, delimiter, filter_empty)`
unfoldable pub split_at : Bytes → ℕ → Bool → List Bytes
unfolding split
split_at string delimiter filter_empty = split (λ c. delimiter == c) filter_empty string

unfoldable pub fill_left : Bytes → ℕ → ℕ → Bytes
fill_left string n c = replicate (max (length string) n - length string) c ++ string

unfoldable pub fill_right : Bytes → ℕ → ℕ → Bytes
fill_right string n c = string ++ replicate (max (length string) n - length string) c

unfoldable pub join : List Bytes → Bytes → Bytes
join [] separator = []
join (x ∷ []) separator = x
join (x ∷ y ∷ ys) separator = x ++ (separator ++ join (y ∷ ys) separator)

-- `replace`: the first occurrence only
unfoldable pub replace : Bytes → Bytes → Bytes → Bytes
unfolding find
replace string literal value = elim (find string literal 0) [
  | none ↦ string
  | some p ↦ take p string ++ (value ++ drop (p + length literal) string)
]
