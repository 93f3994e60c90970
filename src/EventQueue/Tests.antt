-- ===== src/EventQueue/Tests.antt =====
-- src/hlib_event_queue.cpp at concrete inputs.
use hlib.Base.{arith, ℕ, zero, suc, ◌+◌, ◌≡◌, refl, none, some, List, [], ◌∷◌, true}
use hlib.EventQueue.{History, pushes, round, new_queue, happen_all, on_timer}
use hlib.EventQueue.Liveness.{Serves, happen_all-Serves}
use hlib.EventQueue.Order.{EndsInOrder, happen_all-EndsInOrder}

-- A callback named n adds n to the world, and pushes the callback below it.
abbrev countdown : ℕ → ℕ → ℕ × List ℕ
countdown zero world = (world, [])
countdown (suc n) world = (world + suc n, n ∷ [])

abbrev start : History countdown
start = record { now = new_queue; world = 0; called = []; pushed = [] }

drained :
    happen_all countdown (pushes 2 ∷ pushes 7 ∷ round ∷ round ∷ round ∷ []) start
    ≡ some (record {
      now = record { queue = 6 ∷ 0 ∷ []; timer_set = true };
      world = 10;
      called = 2 ∷ 7 ∷ 1 ∷ [];
      pushed = 2 ∷ 7 ∷ 1 ∷ 6 ∷ 0 ∷ [];
    })
unfolding happen_all
drained = refl

-- The front of an empty queue is never to be taken.
empty_front : on_timer countdown new_queue 0 ≡ none
unfolding on_timer
empty_front = refl

happen_all-EndsInOrder_example :
    EndsInOrder countdown
      (happen_all countdown (pushes 2 ∷ round ∷ round ∷ round ∷ round ∷ []) start)
happen_all-EndsInOrder_example =
    happen_all-EndsInOrder countdown (pushes 2 ∷ round ∷ round ∷ round ∷ round ∷ []) start
      (record { armed = refl; order = refl })

abbrev waiting : History countdown
waiting = record {
  now = record { queue = 3 ∷ 5 ∷ 8 ∷ []; timer_set = true };
  world = 0;
  called = [];
  pushed = 3 ∷ 5 ∷ 8 ∷ [];
}

happen_all-Serves_example :
    Serves countdown waiting
      (3 ∷ 5 ∷ [])
      (happen_all countdown (round ∷ pushes 9 ∷ round ∷ []) waiting)
happen_all-Serves_example =
    happen_all-Serves countdown (round ∷ pushes 9 ∷ round ∷ []) waiting (3 ∷ 5 ∷ []) (8 ∷ [])
      (record { armed = refl; order = refl }) refl (omega arith)
