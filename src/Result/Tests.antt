-- ===== src/Result/Tests.antt =====
-- include/hlib/result.hpp at concrete inputs. The world counts the calls.
use hlib.Base.{ℕ, ◌+◌, ◌≡◌, refl, true, false, none, some, [], ◌∷◌, ◌++◌, codes}
use hlib.Result.{
  named, no_exception, Error, standard, Ending, returns, throws_object, terminates, Result,
  success_of, failure_of, error_of, no_error, is_set_as, is_not_set_as, code, what, toss, success,
  failure, equals_bool, differs_bool, get_value, get_error, and_then, otherwise, keep_result, check,
  check_or, success_or_throw, attempt, set_error_or,
}
use hlib.Result.Chaining.{chained, chain, finished, chain-finished}
use hlib.Result.Throwing.{check_tossing, escaped, attempt-success_or_throw}

abbrev failed : Result ℕ ℕ
failed = failure_of (error_of (named 4))

abbrev succeeded : Result ℕ ℕ
succeeded = success_of 3

abbrev step : ℕ → ℕ → Ending ℕ (Result ℕ ℕ) × ℕ
step value world = (returns (success_of (value + 1)), world + 1)

abbrev fail : ℕ → ℕ → Ending ℕ (Result ℕ ℕ) × ℕ
fail value world = (returns failed, world + 1)

abbrev log : Error ℕ → ℕ → Ending ℕ Unit × ℕ
log error world = (returns tt, world + 100)

stopped :
    finished (chain (step ∷ fail ∷ step ∷ step ∷ []) (returns (success_of 1), 0)) log
    ≡ (returns failed, 102)
unfolding and_then otherwise
stopped = refl

is_failure : (success failed ≡ false) × (failure failed ≡ true)
unfolding success failure
is_failure = (refl, refl)

compared : (equals_bool failed false ≡ true) × (differs_bool failed false ≡ false)
unfolding equals_bool differs_bool
compared = (refl, refl)

accessed : (get_error failed ≡ returns (error_of (named 4))) × (get_value succeeded ≡ returns 3)
unfolding get_error get_value
accessed = (refl, refl)

unset : (is_set_as true (no_error {X = ℕ}) ≡ false) × (is_not_set_as true (no_error {X = ℕ}) ≡ true)
unfolding is_set_as is_not_set_as
unset = (refl, refl)

nothing_to_toss : toss {X = ℕ} {A = ℕ} no_error ≡ throws_object (standard no_exception)
unfolding toss
nothing_to_toss = refl

no_code :
    (code {X = ℕ} {Code = ℕ} (λ e. some 5) no_error ≡ none)
    × (what {X = ℕ} (λ e. codes "x") (error_of (named 1)) ≡ codes "x")
unfolding code what
no_code = (refl, refl)

checked : check failed log 0 ≡ (terminates, 100)
unfolding check
checked = refl

set : check_or failed (set_error_or 9) no_error ≡ (returns 9, error_of (named 4))
unfolding check_or
set = refl

chain-finished_example :
    (finished (chain ((fail ∷ []) ++ (step ∷ [])) (returns (success_of 1), 0)) log
      ≡ keep_result failed (log (error_of (named 4)) 1))
    × ((result : Result ℕ ℕ) (f g : ℕ → ℕ → Ending ℕ (Result ℕ ℕ) × ℕ) (w : ℕ)
        → chained (and_then result f w) g ≡ and_then result (λ value v. chained (f value v) g) w)
unfolding and_then
chain-finished_example =
    chain-finished (fail ∷ []) (step ∷ []) (returns (success_of 1), 0) (error_of (named 4)) 1 log
      refl

attempt-success_or_throw_example :
    (attempt {W = ℕ} (check_tossing failed) 0 ≡ (returns failed, 0))
    × (attempt {W = ℕ} (success_or_throw failed) 0 ≡ (escaped failed, 0))
attempt-success_or_throw_example = attempt-success_or_throw (named 4) failed 0 refl
