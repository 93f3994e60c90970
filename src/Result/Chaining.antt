-- ===== src/Result/Chaining.antt =====
-- include/hlib/result.hpp: chains of `then`, and `otherwise` at their end.
use hlib.Base.{◌≡◌, refl, ap, ◌∙◌, List, [], ◌∷◌, ◌++◌}
use hlib.Result.{
  Error, Ending, returns, throws_object, terminates, Result, success_of, failure_of, and_then,
  otherwise, keep_result,
}

module _ {X W : Type 0} where
  -- A call of `then` on what an expression returns.
  abbrev pub chained :
      {S T : Type 0}
      → Ending X (Result X S) × W
      → (S → W → Ending X (Result X T) × W)
      → Ending X (Result X T) × W
  chained (returns result, world) on_success = and_then result on_success world
  chained (throws_object o, world) on_success = (throws_object o, world)
  chained (terminates, world) on_success = (terminates, world)

  -- `....then(step).then(step)...` for all steps
  abbrev pub chain :
      {T : Type 0}
      → List (T → W → Ending X (Result X T) × W)
      → Ending X (Result X T) × W
      → Ending X (Result X T) × W
  chain [] s = s
  chain (step ∷ steps) s = chain steps (chained s step)

  -- `....otherwise(on_error)` behind an expression
  abbrev pub finished :
      {T : Type 0}
      → Ending X (Result X T) × W
      → (Error X → W → Ending X Unit × W)
      → Ending X (Result X T) × W
  finished (returns result, world) on_error = otherwise result on_error world
  finished (throws_object o, world) on_error = (throws_object o, world)
  finished (terminates, world) on_error = (terminates, world)

  then_assoc :
      {S T R : Type 0} (result : Result X S) (f : S → W → Ending X (Result X T) × W)
      (g : T → W → Ending X (Result X R) × W) (world : W)
      → chained (and_then result f world) g
        ≡ and_then result (λ value w. chained (f value w) g) world
  unfolding and_then
  then_assoc (success_of value) f g world = refl
  then_assoc (failure_of error) f g world = refl

  chain_failed :
      {T : Type 0} (steps : List (T → W → Ending X (Result X T) × W)) (error : Error X) (world : W)
      → chain steps (returns (failure_of error), world) ≡ (returns (failure_of error), world)
  unfolding and_then
  chain_failed [] error world = refl
  chain_failed (step ∷ steps) error world = chain_failed steps error world

  chain-append :
      {T : Type 0} (fs gs : List (T → W → Ending X (Result X T) × W))
      (s : Ending X (Result X T) × W)
      → chain (fs ++ gs) s ≡ chain gs (chain fs s)
  chain-append [] gs s = refl
  chain-append (f ∷ fs) gs s = chain-append fs gs (chained s f)

  finished_failed :
      {T : Type 0} (error : Error X) (world : W) (on_error : Error X → W → Ending X Unit × W)
      → finished {T = T} (returns (failure_of error), world) on_error
        ≡ keep_result (failure_of error) (on_error error world)
  unfolding otherwise
  finished_failed error world on_error = refl

  -- In a chain of `then` that fails after some steps, no further step is called: whatever steps
  -- follow, the chain ends as it did, and `otherwise` behind it calls its function once, with the
  -- error of that failure. How the calls of `then` are nested does not matter.
  pub chain-finished :
      {T : Type 0} (fs gs : List (T → W → Ending X (Result X T) × W))
      (s : Ending X (Result X T) × W) (error : Error X) (world : W)
      (on_error : Error X → W → Ending X Unit × W)
      → chain fs s ≡ (returns (failure_of error), world)
      → (finished (chain (fs ++ gs) s) on_error
          ≡ keep_result (failure_of error) (on_error error world))
        × ((result : Result X T) (f g : T → W → Ending X (Result X T) × W) (w : W)
            → chained (and_then result f w) g
              ≡ and_then result (λ value v. chained (f value v) g) w)
  chain-finished fs gs s error world on_error e = (
    ap (λ t. finished t on_error)
          (chain-append fs gs s ∙ ap (chain gs) e ∙ chain_failed gs error world)
        ∙ finished_failed error world on_error,
    then_assoc,
  )
