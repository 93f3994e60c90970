-- ===== src/Base/Find.antt =====
-- `std::string::find` and its relatives, as the standard defines them.
use Prim.Native.Nat.{ℕ, zero, suc, ◌+◌}
use mathlib.Core.Bool.{Bool, true, false, ◌&&◌, ◌||◌}
use mathlib.Core.List.{[], ◌∷◌}
use mathlib.Core.Option.{Option, none, some}
use hlib.Base.Order.{◌==◌, if◌then◌else◌}
use hlib.Base.Seq.{Bytes}

-- whether the second sequence stands at the start of the first
unfoldable pub is_prefix : Bytes → Bytes → Bool
is_prefix xs [] = true
is_prefix [] (y ∷ ys) = false
is_prefix (x ∷ xs) (y ∷ ys) = x == y && is_prefix xs ys

-- the first place at which the pattern stands, counted from i
unfoldable pub find_at : Bytes → Bytes → ℕ → Option ℕ
unfolding is_prefix
find_at [] pattern_bytes i = if is_prefix [] pattern_bytes then some i else none
find_at (x ∷ xs) pattern_bytes i =
    if is_prefix (x ∷ xs) pattern_bytes then some i else find_at xs pattern_bytes (i + 1)

-- `string.find(substring, pos)`; `none` is npos. Past the end nothing is found.
unfoldable pub find : Bytes → Bytes → ℕ → Option ℕ
unfolding find_at
find xs pattern_bytes zero = find_at xs pattern_bytes 0
find [] pattern_bytes (suc pos) = none
find (x ∷ xs) pattern_bytes (suc pos) = elim (find xs pattern_bytes pos) [
  | none ↦ none
  | some i ↦ some (i + 1)
]

unfoldable pub mem_byte : ℕ → Bytes → Bool
mem_byte c [] = false
mem_byte c (x ∷ xs) = c == x || mem_byte c xs
