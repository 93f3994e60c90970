-- ===== src/EventLoop/Tests.antt =====
-- src/hlib_event_loop.cpp with a small epoll: an interest list, and the events that it is to report.
use hlib.Base.{
  ℕ, ◌≡◌, refl, true, false, Option, none, some, [], ◌∷◌, ◌==◌, pos, Bool-cases, ◌+ℤ◌, inl, inr,
}
use hlib.EventLoop.{
  Callback, interrupts, calls, EventLoop, assign_entry, interrupted, deadlocked, dispatch, to_msec,
}
use hlib.EventLoop.Dispatching.{EndsFree, dispatch-EndsFree}
use hlib.EventLoop.Interrupting.{dispatch-interrupted, served, no_round, a_round}
use hlib.EventLoop.Kernel.{Events, no_events, event}
use hlib.EventLoop.Registered.{
  adding, apply_operation, Handles, IsConsistent, apply_operation-Handles,
}
use hlib.EventLoop.Sample.{World, small_epoll}

abbrev readable : Events
readable = record no_events { reads = true }

abbrev pipe_only : ℕ → Option (Callback ℕ)
pipe_only = assign_entry 3 (some interrupts) (λ k. none)

abbrev loop : EventLoop ℕ
loop = record { interrupt = false; callbacks = pipe_only }

-- an event on a descriptor that nothing watches any more, and one on the pipe
abbrev world : World
world = record {
  watched = assign_entry 3 (some readable) (λ k. none);
  waits = event 5 readable ∷ event 3 readable ∷ [];
  output = [];
}

abbrev idle : ℕ → ℕ → Events → EventLoop ℕ → World → Option (EventLoop ℕ × World)
idle c fd events loop world = some (loop, world)

-- no other thread
abbrev alone : EventLoop ℕ → World → EventLoop ℕ × World
alone this w = (this, w)

loop-IsConsistent : IsConsistent small_epoll loop world
loop-IsConsistent k = elim (Bool-cases (k == 3)) [ inl e ↦ rw e refl | inr e ↦ rw e refl ]

interrupts_loop :
    dispatch small_epoll idle alone 3 none loop world
    ≡ some (interrupted, record loop { interrupt = true }, record world { waits = [] })
unfolding dispatch
interrupts_loop = refl

-- Another thread removes the descriptor of an event between the wait and the lock: the lock is kept when
-- the map has no callback, and then locked again.
abbrev emptied : EventLoop ℕ
emptied = record { interrupt = false; callbacks = λ k. none }

abbrev removes : EventLoop ℕ → World → EventLoop ℕ × World
removes this w = (emptied, w)

abbrev two_events : World
two_events = record world {
  watched = assign_entry 3 (some readable) (λ k. none);
  waits = event 3 readable ∷ event 3 readable ∷ [];
}

locks_twice :
    dispatch small_epoll idle removes 3 none loop two_events
    ≡ some (deadlocked, emptied, record two_events { waits = [] })
unfolding dispatch
locks_twice = refl

half_second : to_msec (record { tv_sec = pos 2; tv_nsec = pos 500000000 }) ≡ pos 2500
unfolding to_msec ◌+ℤ◌
half_second = refl

-- Another thread adds a descriptor in each wait.
abbrev adds_six : EventLoop ℕ → World → EventLoop ℕ × World
adds_six this w = (
  record this { callbacks = assign_entry 6 (some (calls 1)) this.callbacks },
  record w { watched = assign_entry 6 (some readable) w.watched },
)

dispatch-EndsFree_example :
    EndsFree small_epoll (dispatch small_epoll idle adds_six 3 none loop world)
dispatch-EndsFree_example =
    dispatch-EndsFree small_epoll idle (λ c fd events this w h. h) adds_six
      (λ this w h k. elim (Bool-cases (k == 6)) [ inl e ↦ rw e refl | inr e ↦ rw e (h k) ])
      (λ this w fd h. elim (Bool-cases (fd == 6)) [ inl e ↦ rw e refl | inr e ↦ rw e h ]) 3 none
      loop world loop-IsConsistent

apply_operation-Handles_example :
    Handles small_epoll
      (adding (some 5) readable (calls 1))
      loop
      world
      (apply_operation small_epoll (adding (some 5) readable (calls 1)) loop world)
apply_operation-Handles_example =
    apply_operation-Handles small_epoll loop world loop-IsConsistent
      (adding (some 5) readable (calls 1))

-- a descriptor with a callback beside the pipe, whose event comes first
abbrev busy : EventLoop ℕ
busy = record loop { callbacks = assign_entry 5 (some (calls 1)) pipe_only }

abbrev busy_world : World
busy_world = record world {
  watched = assign_entry 5 (some readable) (assign_entry 3 (some readable) (λ k. none));
}

abbrev pipe_next : World
pipe_next = record busy_world { waits = event 3 readable ∷ [] }

dispatch-interrupted_example :
    dispatch small_epoll idle alone 3 none busy busy_world
    ≡ some (interrupted, record busy { interrupt = true }, record busy_world { waits = [] })
dispatch-interrupted_example =
    dispatch-interrupted small_epoll idle alone 0 none 1 busy busy busy_world pipe_next
      (a_round (served {fd = 5} {events = readable} {callback = calls 1} refl refl refl refl)
        no_round)
      (record {
        fd = 3;
        events = readable;
        runs = refl;
        reports = refl;
        own = refl;
        readable = refl;
        received = refl;
      })
