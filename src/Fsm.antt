-- ===== src/Fsm.antt =====
-- include/hlib/fsm.hpp: the state machine. An enumerator is its number. A callback changes a world
-- that the machine does not look at; a callback that calls the machine that calls it is left out.
pub mod Keys
pub mod Running
mod Tests
use hlib.Base.{
  ℕ, ◌+◌, ◌-◌, ◌*◌, ◌%◌, ◌^◌, ◌<◌, Bool, true, false, ◌&&◌, Option, none, some, List, [], ◌∷◌, ◌++◌,
  ◌==◌, if◌then◌else◌, ℤ, pos, negsuc, bit_or,
}

-- `static_cast<std::uint64_t>(value)` of an enumerator
abbrev pub to_uint64 : ℤ → ℕ
to_uint64 (pos n) = n % 2 ^ 64
to_uint64 (negsuc n) = 2 ^ 64 - 1 - n % 2 ^ 64

unfoldable pub combine : ℤ → ℤ → ℕ
combine state event = bit_or (to_uint64 state) (to_uint64 event * 2 ^ 32 % 2 ^ 64)

abbrev pub call_invalid : {World : Type 0} → Option (ℤ → ℤ → World → World) → ℤ → ℤ → World → World
call_invalid none state event world = world
call_invalid (some f) state event world = f state event world

module _ (Data World : Type 0) where
  -- `TransitionCallback` and `InvalidTransitionCallback`
  abbrev pub TransitionCallback : Type 0
  TransitionCallback = ℤ → ℤ → ℤ → Data → World → World

  abbrev pub InvalidTransitionCallback : Type 0
  InvalidTransitionCallback = ℤ → ℤ → World → World

  pub record Transition : Type 0 where
    pub from : ℤ
    pub event : ℤ
    pub to : ℤ
    pub callback : Option TransitionCallback

  -- `m_transitions`: what stands under a key
  abbrev pub Table : Type 0
  Table = List (ℕ × (ℤ × Option TransitionCallback))

  pub record Fsm : Type 0 where
    pub initial : ℤ
    pub state : ℤ
    pub transitions : Table
    pub on_before_transition : Option TransitionCallback
    pub on_invalid_transition : Option InvalidTransitionCallback

module _ {Data World : Type 0} where
  -- `m_transitions.find(key)`
  unfoldable pub find_key :
      ℕ → Table Data World → Option (ℤ × Option (TransitionCallback Data World))
  find_key key [] = none
  find_key key ((k, v) ∷ table) = let rest = find_key key table in if key == k then some v else rest

  -- `m_transitions.emplace(key, value)`: a key that is there keeps its value.
  unfoldable pub emplace :
      ℕ → ℤ × Option (TransitionCallback Data World) → Table Data World → Table Data World
  unfolding find_key
  emplace key v table = elim (find_key key table) [ none ↦ table ++ (key, v) ∷ [] | some _ ↦ table ]

  -- the loop of the constructor
  unfoldable pub emplace_all : Table Data World → List (Transition Data World) → Table Data World
  emplace_all table [] = table
  emplace_all table (t ∷ ts) =
      emplace_all (emplace (combine t.from t.event) (t.to, t.callback) table) ts

  -- `FSM(initial, transitions, on_before_transition, on_invalid_transition)`; the other
  -- constructors leave a callback out.
  unfoldable pub make_fsm :
      ℤ
      → List (Transition Data World)
      → Option (TransitionCallback Data World)
      → Option (InvalidTransitionCallback Data World)
      → Fsm Data World
  make_fsm initial transitions on_before on_invalid = record {
    initial = initial;
    state = initial;
    transitions = emplace_all [] transitions;
    on_before_transition = on_before;
    on_invalid_transition = on_invalid;
  }

  unfoldable pub reset : Fsm Data World → Fsm Data World
  reset fsm = record fsm { state = fsm.initial }

  abbrev pub call : Option (TransitionCallback Data World) → ℤ → ℤ → ℤ → Data → World → World
  call none from event to arg world = world
  call (some f) from event to arg world = f from event to arg world

  -- `apply(event, arg)`
  unfoldable pub apply : Fsm Data World → ℤ → Data → World → Fsm Data World × (Bool × World)
  apply fsm event arg world = elim (find_key (combine fsm.state event) fsm.transitions) [
    | none ↦ (fsm, (false, call_invalid fsm.on_invalid_transition fsm.state event world))
    | some (to, callback) ↦ (
      record fsm { state = to },
      (
        true,
        call callback fsm.state event to arg
            (call fsm.on_before_transition fsm.state event to arg world),
      ),
    )
  ]

  -- one event after the other: the results, and the world at the end
  unfoldable pub apply_all :
      Fsm Data World → List (ℤ × Data) → World → Fsm Data World × (List Bool × World)
  apply_all fsm [] world = (fsm, ([], world))
  apply_all fsm ((event, arg) ∷ events) world =
      let (fsm', (done, world')) = apply fsm event arg world in
      let (end, (results, last)) = apply_all fsm' events world' in (end, (done ∷ results, last))
