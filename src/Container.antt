-- ===== src/Container.antt =====
-- include/hlib/container.hpp: functions on containers. A container is the list of its values in the
-- order in which it is run through, and an associative one the list of its pairs of a key and a
-- value, where a key has one pair. `std::set` is the sorted list of its values.
pub mod Sorted
pub mod Sets
mod Tests
use hlib.Base.{
  ℕ, Bool, true, false, not, ◌&&◌, ◌||◌, Option, none, some, List, [], ◌∷◌, ◌++◌, length,
  if◌then◌else◌, ◌≡◌,
}

-- The order of the values: `std::less`.
pub record Less (A : Type 0) : Type 0 where
  pub less : A → A → Bool
  pub irreflexive : (a : A) → less a a ≡ false
  pub transitive : (a b c : A) → less a b ≡ true → less b c ≡ true → less a c ≡ true
  pub total : (a b : A) → less a b ≡ false → less b a ≡ false → a ≡ b

-- `get_size(container)`, by its own size or by the distance of its ends
abbrev pub get_size : {A : Type 0} → List A → ℕ
get_size container = length container

module _ {A : Type 0} (order : Less A) where
  -- whether neither is less than the other
  abbrev pub same : A → A → Bool
  same a b = not (order.less a b) && not (order.less b a)

  -- `contains(container, value)` in a sequence: `std::find`
  unfoldable pub contains : List A → A → Bool
  contains [] value = false
  contains (x ∷ xs) value = same value x || contains xs value

  -- `set.insert(value)`
  unfoldable pub set_insert : A → List A → List A
  set_insert value [] = value ∷ []
  set_insert value (x ∷ xs) =
      let rest = set_insert value xs in
      if order.less value x then value ∷ x ∷ xs else if order.less x value then x ∷ rest else x ∷ xs

  -- `set.insert(first, last)`
  unfoldable pub set_insert_all : List A → List A → List A
  unfolding set_insert
  set_insert_all [] set = set
  set_insert_all (x ∷ xs) set = set_insert_all xs (set_insert x set)

  -- `set.erase(value)`
  unfoldable pub set_erase : A → List A → List A
  set_erase value [] = []
  set_erase value (x ∷ xs) =
      let rest = set_erase value xs in if same value x then rest else x ∷ rest

  unfoldable pub make_union : List A → List A → List A
  unfolding set_insert_all
  make_union lhs rhs = set_insert_all rhs (set_insert_all lhs [])

  -- the loop of `make_intersection` over `rhs`, for a container with `push_back`
  unfoldable pub intersection_loop : List A → List A → List A
  unfolding contains set_erase
  intersection_loop set [] = []
  intersection_loop set (value ∷ rhs) =
      let taken = intersection_loop (set_erase value set) rhs in
      let passed = intersection_loop set rhs in if contains set value then value ∷ taken else passed

  unfoldable pub make_intersection : List A → List A → List A
  unfolding set_insert_all intersection_loop
  make_intersection lhs rhs = intersection_loop (set_insert_all lhs []) rhs

  -- a loop of `make_complement`: the values that the other set lacks go to the result
  unfoldable pub complement_loop : List A → List A → List A → List A
  unfolding contains set_insert
  complement_loop other [] result = result
  complement_loop other (value ∷ values) result =
      complement_loop other values
        (if contains other value then result else set_insert value result)

  unfoldable pub make_complement : List A → List A → List A
  unfolding set_insert_all complement_loop
  make_complement lhs rhs =
      let lhs_set = set_insert_all lhs [] in
      let rhs_set = set_insert_all rhs [] in
      complement_loop lhs_set rhs (complement_loop rhs_set lhs [])

-- `for_each(container, function)`, where the function changes a value
abbrev pub for_each : {A : Type 0} → List A → (A → A) → List A
for_each [] function = []
for_each (x ∷ xs) function = function x ∷ for_each xs function

module _ {K V : Type 0} (equal_keys : K → K → Bool) where
  -- `container.find(key)`
  unfoldable pub find_pair : List (K × V) → K → Option V
  find_pair [] key = none
  find_pair ((k, v) ∷ container) key =
      let rest = find_pair container key in if equal_keys key k then some v else rest

  -- `contains(container, key)`
  unfoldable pub contains_key : List (K × V) → K → Bool
  unfolding find_pair
  contains_key container key = elim (find_pair container key) [ none ↦ false | some v ↦ true ]

  -- `contains(container, value)` of an associative container, where the value is a pair
  unfoldable pub contains_pair : (V → V → Bool) → List (K × V) → K × V → Bool
  unfolding find_pair
  contains_pair equal_values container (key, value) = elim (find_pair container key) [
    | none ↦ false
    | some v ↦ equal_values v value
  ]

  unfoldable pub find_or_default : List (K × V) → K → V → V
  unfolding find_pair
  find_or_default container key default_value = elim (find_pair container key) [
    | none ↦ default_value
    | some v ↦ v
  ]

  -- the assignment to the value of a pair that is there
  unfoldable pub assign_value : List (K × V) → K → V → List (K × V)
  assign_value [] key value = []
  assign_value ((k, v) ∷ container) key value =
      let rest = assign_value container key value in
      if equal_keys key k then (k, value) ∷ container else (k, v) ∷ rest

  -- `replace(container, key, value)`: the container, and the value that the result refers to. For a
  -- key that was not there this is what the end of the container refers to, which is a fault.
  unfoldable pub replace_value : List (K × V) → K → V → List (K × V) × Option V
  unfolding find_pair assign_value
  replace_value container key value = elim (find_pair container key) [
    | none ↦ (container ++ (key, value) ∷ [], none)
    | some v ↦ (assign_value container key value, some value)
  ]
