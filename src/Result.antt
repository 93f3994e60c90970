-- ===== src/Result.antt =====
-- include/hlib/result.hpp, with include/hlib/error.hpp and src/hlib_error.cpp: results that are a
-- value or an error. A callback acts on a world in W, and can throw.
pub mod Chaining
pub mod Throwing
mod Tests
use hlib.Base.{Bool, true, false, not, ◌==◌, Option, none, some, ◌>>=◌, [], ◌∷◌, Bytes}

-- The exceptions that are derived from std::exception: those of the program, known by names in X, and
-- the logic_error and the bad_variant_access that the functions below throw.
pub data Exception (X : Type 0) : Type 0 where
  named : X → Exception X
  no_exception bad_variant_access : Exception X

-- `class Error`, by the exception that it points to
pub record Error (X : Type 0) : Type 0 where
  pub exception : Option (Exception X)

-- What is thrown: an exception, or an `Error` itself, which is not derived from std::exception.
pub data Thrown (X : Type 0) : Type 0 where
  standard : Exception X → Thrown X
  thrown_error : Error X → Thrown X

-- How a call ends.
pub data Ending (X A : Type 0) : Type 0 where
  returns : A → Ending X A
  throws_object : Thrown X → Ending X A
  terminates : Ending X A

-- `std::variant<T, Error>`, by its index
pub data Result (X T : Type 0) : Type 0 where
  success_of : T → Result X T
  failure_of : Error X → Result X T

abbrev same_bool : Bool → Bool → Bool
same_bool true b = b
same_bool false b = not b

module _ {X : Type 0} where
  -- `Error()` and `Error(ptr)`, which is also what the constructors from an exception make
  abbrev pub no_error : Error X
  no_error = record { exception = none }

  abbrev pub error_of : Exception X → Error X
  error_of e = record { exception = some e }

  -- `Error::empty()`
  unfoldable pub is_unset : Error X → Bool
  is_unset error = elim error.exception [ none ↦ true | some e ↦ false ]

  -- `error == is_set` and `error != is_set`
  unfoldable pub is_set_as : Bool → Error X → Bool
  unfolding is_unset
  is_set_as is_set error = not (same_bool (is_unset error) is_set)

  unfoldable pub is_not_set_as : Bool → Error X → Bool
  unfolding is_unset
  is_not_set_as is_set error = same_bool (is_unset error) is_set

  -- `Error::code()`, given how a system_error is told from other exceptions and what its code is;
  -- `none` is the code without an error
  unfoldable pub code : {Code : Type 0} → (Exception X → Option Code) → Error X → Option Code
  code system_code error = error.exception >>= system_code

  -- `Error::what()`
  unfoldable pub what : (Exception X → Bytes) → Error X → Bytes
  what text error = elim error.exception [ none ↦ [] | some e ↦ text e ]

  -- `Error::toss()` and `toss_error(error)`
  unfoldable pub toss : {A : Type 0} → Error X → Ending X A
  toss error = elim error.exception [
    | none ↦ throws_object (standard no_exception)
    | some e ↦ throws_object (standard e)
  ]

module _ {X T : Type 0} where
  -- `Result(value)`, `Result(error)`, `Result(ptr)` and `Result(exception)`; an assignment makes the
  -- same
  abbrev pub from_value : T → Result X T
  from_value value = success_of value

  abbrev pub from_error : Error X → Result X T
  from_error error = failure_of error

  abbrev pub from_exception : Exception X → Result X T
  from_exception e = failure_of (error_of e)

  unfoldable pub success : Result X T → Bool
  success (success_of value) = true
  success (failure_of error) = false

  unfoldable pub failure : Result X T → Bool
  failure (success_of value) = false
  failure (failure_of error) = true

  -- `result == success` and `result != success`
  unfoldable pub equals_bool : Result X T → Bool → Bool
  unfolding success
  equals_bool result b = same_bool (success result) b

  unfoldable pub differs_bool : Result X T → Bool → Bool
  unfolding success
  differs_bool result b = not (same_bool (success result) b)

  -- `result.value()`, `*result` and `result.error()`: `std::get`
  unfoldable pub get_value : Result X T → Ending X T
  get_value (success_of value) = returns value
  get_value (failure_of error) = throws_object (standard bad_variant_access)

  unfoldable pub get_error : Result X T → Ending X (Error X)
  get_error (success_of value) = throws_object (standard bad_variant_access)
  get_error (failure_of error) = returns error

module _ {X W T : Type 0} where
  -- `result.then(on_success)`
  unfoldable pub and_then :
      {S : Type 0}
      → Result X T
      → (T → W → Ending X (Result X S) × W)
      → W
      → Ending X (Result X S) × W
  and_then (success_of value) on_success world = on_success value world
  and_then (failure_of error) on_success world = (returns (failure_of error), world)

  abbrev pub keep_result : Result X T → Ending X Unit × W → Ending X (Result X T) × W
  keep_result result (returns u, world) = (returns result, world)
  keep_result result (throws_object o, world) = (throws_object o, world)
  keep_result result (terminates, world) = (terminates, world)

  -- `result.otherwise(on_error)`
  unfoldable pub otherwise :
      Result X T → (Error X → W → Ending X Unit × W) → W → Ending X (Result X T) × W
  otherwise (success_of value) on_error world = (returns (success_of value), world)
  otherwise (failure_of error) on_error world =
      keep_result (failure_of error) (on_error error world)

  abbrev pub terminate_after : Ending X Unit × W → Ending X T × W
  terminate_after (returns u, world) = (terminates, world)
  terminate_after (throws_object o, world) = (throws_object o, world)
  terminate_after (terminates, world) = (terminates, world)

  -- `check(result, on_error)` with a function that returns nothing
  unfoldable pub check : Result X T → (Error X → W → Ending X Unit × W) → W → Ending X T × W
  check (success_of value) on_error world = (returns value, world)
  check (failure_of error) on_error world = terminate_after (on_error error world)

  -- `check(result, on_error)` with a function that returns a value instead
  unfoldable pub check_or : Result X T → (Error X → W → Ending X T × W) → W → Ending X T × W
  check_or (success_of value) on_error world = (returns value, world)
  check_or (failure_of error) on_error world = on_error error world

  -- `success_or_throw(result)`
  unfoldable pub success_or_throw : Result X T → W → Ending X T × W
  unfolding check
  success_or_throw result world =
      check result (λ error w. (throws_object (thrown_error error), w)) world

  -- `attempt(func, args...)`: the handler takes what is derived from std::exception
  abbrev pub attempted : Ending X T × W → Ending X (Result X T) × W
  attempted (returns value, world) = (returns (success_of value), world)
  attempted (throws_object (standard e), world) = (returns (from_exception e), world)
  attempted (throws_object (thrown_error e), world) = (throws_object (thrown_error e), world)
  attempted (terminates, world) = (terminates, world)

  unfoldable pub attempt : (W → Ending X T × W) → W → Ending X (Result X T) × W
  attempt func world = attempted (func world)

-- `set_error(error)` and `set_error(error, default_value)`: the world is the variable
abbrev pub set_error : {X : Type 0} → Error X → Error X → Ending X Unit × Error X
set_error e variable = (returns tt, e)

abbrev pub set_error_or : {X T : Type 0} → T → Error X → Error X → Ending X T × Error X
set_error_or default_value e variable = (returns default_value, e)
