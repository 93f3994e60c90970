-- ===== src/Fsm/Running.antt =====
-- include/hlib/fsm.hpp: a machine that is given events, against the list of its transitions.
use hlib.Base.{
  ◌≡◌, ◌∙◌, Bool, true, false, Option, none, some, List, [], ◌∷◌, ℤ, Option-cases, inl, inr,
}
use hlib.Fsm.{
  Transition, TransitionCallback, InvalidTransitionCallback, Fsm, make_fsm, find_key, combine,
  emplace_all, apply, apply_all, call, call_invalid,
}
use hlib.Fsm.Keys.{
  IsCode, AreCodes, first_transition, find_key-first_transition, first_transition-IsCode,
}

module _ {Data World : Type 0} (ts : List (Transition Data World))
    (on_before : Option (TransitionCallback Data World))
    (on_invalid : Option (InvalidTransitionCallback Data World)) where
  -- What a machine with these transitions and callbacks does with events, from a state and a world
  -- to a state and a world, and what it returns for each.
  pub data Steps : ℤ → World → List (ℤ × Data) → List Bool → ℤ → World → Type 0 where
    ends : {state : ℤ} {world : World} → Steps state world [] [] state world
    takes :
        {state event to last : ℤ} {world end : World} {arg : Data}
        {callback : Option (TransitionCallback Data World)} {events : List (ℤ × Data)}
        {results : List Bool}
        → first_transition ts state event ≡ some (to, callback)
        → Steps to
            (call callback state event to arg (call on_before state event to arg world))
            events
            results
            last
            end
        → Steps state world ((event, arg) ∷ events) (true ∷ results) last end
    refuses :
        {state event last : ℤ} {world end : World} {arg : Data} {events : List (ℤ × Data)}
        {results : List Bool}
        → first_transition ts state event ≡ none
        → Steps state (call_invalid on_invalid state event world) events results last end
        → Steps state world ((event, arg) ∷ events) (false ∷ results) last end

-- All enumerators of the events have at most 32 bits and are not negative.
abbrev pub EventsAreCodes : {Data : Type 0} → List (ℤ × Data) → Type 0
EventsAreCodes [] = Unit
EventsAreCodes ((event, arg) ∷ events) = IsCode event × EventsAreCodes events

module _ {Data World : Type 0} (initial : ℤ) (ts : List (Transition Data World))
    (on_before : Option (TransitionCallback Data World))
    (on_invalid : Option (InvalidTransitionCallback Data World)) (codes : AreCodes ts) where
  -- the machine in a state
  abbrev in_state : ℤ → Fsm Data World
  in_state state = record {
    initial = initial;
    state = state;
    transitions = emplace_all [] ts;
    on_before_transition = on_before;
    on_invalid_transition = on_invalid;
  }

  apply_refused :
      (state event : ℤ) (arg : Data) (world : World)
      → find_key (combine state event) (emplace_all [] ts) ≡ none
      → apply (in_state state) event arg world
        ≡ (in_state state, (false, call_invalid on_invalid state event world))
  unfolding apply
  apply_refused state event arg world e = rw (e, apply)

  apply_taken :
      (state event to : ℤ) (arg : Data) (callback : Option (TransitionCallback Data World))
      (world : World)
      → find_key (combine state event) (emplace_all [] ts) ≡ some (to, callback)
      → apply (in_state state) event arg world ≡ (
        in_state to,
        (true, call callback state event to arg (call on_before state event to arg world)),
      )
  unfolding apply
  apply_taken state event to arg callback world e = rw (e, apply)

  apply_all-Steps :
      (state : ℤ) (events : List (ℤ × Data)) (world : World)
      → IsCode state
      → EventsAreCodes events
      → let r = apply_all (in_state state) events world in
        Steps ts on_before on_invalid state world events r.1.0 r.0.state r.1.1
  unfolding apply_all
  apply_all-Steps state [] world h g = ends
  apply_all-Steps state ((event, arg) ∷ events) world h g =
      let found = find_key-first_transition state event ts h g.0 codes in
      elim (Option-cases (first_transition ts state event)) [
        | inl e ↦
            rw (apply_refused state event arg world (found ∙ e), apply_all)
              (refuses e
                (apply_all-Steps state events (call_invalid on_invalid state event world) h g.1))
        | inr ((to, callback), e) ↦
            rw (apply_taken state event to arg callback world (found ∙ e), apply_all)
              (takes e (
                apply_all-Steps to events
                  (call callback state event to arg (call on_before state event to arg world))
                  (first_transition-IsCode state event ts codes e) g.1))
      ]

  -- A machine that is made of transitions and callbacks, and given events one after the other, does
  -- with each what the first transition of the list for its state and the event says: it calls the
  -- callback for all transitions, then that of the transition, goes to its target and returns true.
  -- Without such a transition it calls the callback for invalid transitions, stays, and returns
  -- false. The states and events, and those of the transitions, are numbers of at most 32 bits that
  -- are not negative.
  pub make_fsm-Steps :
      (events : List (ℤ × Data)) (world : World)
      → IsCode initial
      → EventsAreCodes events
      → let r = apply_all (make_fsm initial ts on_before on_invalid) events world in
        Steps ts on_before on_invalid initial world events r.1.0 r.0.state r.1.1
  unfolding make_fsm
  make_fsm-Steps events world h g = apply_all-Steps initial events world h g
