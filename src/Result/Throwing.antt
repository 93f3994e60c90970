-- ===== src/Result/Throwing.antt =====
-- include/hlib/result.hpp: between results and exceptions.
use hlib.Base.{◌≡◌, refl}
use hlib.Result.{
  Exception, thrown_error, Ending, returns, throws_object, Result, success_of, failure_of, error_of,
  toss, check_or, success_or_throw, attempt,
}

module _ {X T : Type 0} where
  -- A result of `attempt`: the error of a failure points to an exception.
  abbrev pub PointsTo : Exception X → Result X T → Type 0
  PointsTo e (success_of value) = Unit
  PointsTo e (failure_of error) = error ≡ error_of e

  -- how `attempt` of `success_or_throw` ends: a failure is thrown as an `Error`, which is not caught
  abbrev pub escaped : Result X T → Ending X (Result X T)
  escaped (success_of value) = returns (success_of value)
  escaped (failure_of error) = throws_object (thrown_error error)

module _ {X W T : Type 0} where
  -- `check` with a function that tosses the error
  abbrev pub check_tossing : Result X T → W → Ending X T × W
  check_tossing result world = check_or result (λ error w. (toss error, w)) world

  -- `attempt` makes of the exception that `toss` throws for an error that points to one the same
  -- result again, but the `Error` that `success_or_throw` throws for a failure goes through `attempt`
  -- uncaught.
  pub attempt-success_or_throw :
      (e : Exception X) (result : Result X T) (world : W)
      → PointsTo e result
      → (attempt (check_tossing result) world ≡ (returns result, world))
        × (attempt (success_or_throw result) world ≡ (escaped result, world))
  unfolding attempt check_or toss success_or_throw
  attempt-success_or_throw e (success_of value) world h = (refl, refl)
  attempt-success_or_throw e (failure_of error) world h = rw h (refl, refl)
