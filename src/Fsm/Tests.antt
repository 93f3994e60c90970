-- ===== src/Fsm/Tests.antt =====
-- include/hlib/fsm.hpp at concrete inputs.
use hlib.Base.{◌≡◌, refl, true, false, none, some, List, [], ◌∷◌, ℕ, ◌+◌, ℤ, pos, negsuc, arith}
use hlib.Fsm.{
  Transition, make_fsm, apply_all, apply, combine, reset, find_key, emplace_all, emplace,
}
use hlib.Fsm.Running.{Steps, make_fsm-Steps}

-- A door: 0 is closed, 1 open, 2 locked; event 0 opens, 1 closes, 2 locks. The world counts calls.
abbrev door : List (Transition ℕ ℕ)
door =
    record {
      from = pos 0;
      event = pos 0;
      to = pos 1;
      callback = some (λ from event to arg world. world + arg);
    }
    ∷ record { from = pos 1; event = pos 1; to = pos 0; callback = none }
    ∷ record { from = pos 0; event = pos 2; to = pos 2; callback = none }
    ∷ record { from = pos 0; event = pos 0; to = pos 2; callback = none }
    ∷ []

abbrev events : List (ℤ × ℕ)
events = (pos 0, 5) ∷ (pos 2, 7) ∷ (pos 1, 9) ∷ []

door_run :
    (apply_all (make_fsm (pos 0) door none (some (λ state event world. world + 100))) events 0).1
    ≡ (true ∷ false ∷ true ∷ [], 105)
unfolding apply_all apply make_fsm combine find_key emplace_all emplace
door_run = refl

door_initial : (reset (make_fsm {Data = ℕ} {World = ℕ} (pos 0) door none none)).state ≡ pos 0
unfolding reset make_fsm
door_initial = refl

-- A state of -1 has the same key for every event.
negative_keys : combine (negsuc 0) (pos 1) ≡ combine (negsuc 0) (pos 2)
unfolding combine
negative_keys = refl

make_fsm-Steps_example :
    let r = apply_all (make_fsm (pos 0) door none none) events 0 in
    Steps door none none (pos 0) 0 events r.1.0 r.0.state r.1.1
make_fsm-Steps_example =
    make_fsm-Steps (pos 0) door none none
      (
        (omega arith, (omega arith, omega arith)),
        (
          (omega arith, (omega arith, omega arith)),
          (
            (omega arith, (omega arith, omega arith)),
            ((omega arith, (omega arith, omega arith)), tt),
          ),
        ),
      )
      events 0 (omega arith) (omega arith, (omega arith, (omega arith, tt)))
