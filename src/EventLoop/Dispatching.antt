-- ===== src/EventLoop/Dispatching.antt =====
-- src/hlib_event_loop.cpp: the loop of `dispatch`, which keeps its lock when it finds no callback.
use hlib.Base.{
  ℕ, zero, suc, ◌≡◌, ◌≢◌, refl, ap, ◌∙◌, sym, Bool, false, Option, none, some, Bool-cases, inl, inr,
  ltb_ℤ, ℤ, pos,
}
use hlib.Buffer.Capacity.{is_null}
use hlib.EventLoop.{
  Callback, interrupts, calls, EventLoop, Dispatched, deadlocked, run_callback, timeout_at, go_on,
  serve, after_wait, dispatch_loop, dispatch,
}
use hlib.EventLoop.Kernel.{Events, Epoll, Waited, by_signal, timed_out, wait_error, event}
use hlib.EventLoop.Registered.{IsConsistent}
use hlib.Time.{Timespec}

module _ {W C : Type 0} (epoll : Epoll W) where
  -- A call of a callback, if it returns, leaves the loop consistent.
  abbrev pub ConsistentIfAny : Option (EventLoop C × W) → Type 0
  ConsistentIfAny none = Unit {0}
  ConsistentIfAny (some (loop, world)) = IsConsistent epoll loop world

  -- How a loop ends that does not deadlock.
  abbrev pub EndsFree : Option (Dispatched × EventLoop C × W) → Type 0
  EndsFree none = Unit {0}
  EndsFree (some (ended, loop, world)) = (ended ≢ deadlocked) × IsConsistent epoll loop world

module _ {W C : Type 0} (epoll : Epoll W)
    (call : C → ℕ → Events → EventLoop C → W → Option (EventLoop C × W))
    (calls_keep : (c : C) (fd : ℕ) (events : Events) (loop : EventLoop C) (world : W)
      → IsConsistent epoll loop world
      → ConsistentIfAny epoll (call c fd events loop world)) where
  run_callback-Consistent :
      (callback : Callback C) (fd : ℕ) (events : Events) (loop : EventLoop C) (world : W)
      → IsConsistent epoll loop world
      → ConsistentIfAny epoll (run_callback epoll call callback fd events loop world)
  run_callback-Consistent (calls c) fd events loop world h = calls_keep c fd events loop world h
  run_callback-Consistent interrupts fd events loop world h = elim (Bool-cases events.reads) [
    | inr quiet ↦ rw quiet tt
    | inl reads ↦ rw reads (elim (Bool-cases (epoll.read_pipe world).0) [
      | inr nothing ↦ rw nothing tt
      | inl received ↦ rw received (λ k. h k ∙ ap is_null (sym (epoll.pipe_read world k)))
    ])
  ]

  started-Consistent :
      (end : Option Timespec) (loop : EventLoop C) (world : W)
      → IsConsistent epoll loop world
      → IsConsistent epoll loop (timeout_at epoll call end world).1
  started-Consistent none loop world h k = h k
  started-Consistent (some end) loop world h k = h k ∙ ap is_null (sym (epoll.told world k))

  waited-Consistent :
      (end : Option Timespec) (loop : EventLoop C) (world : W)
      → IsConsistent epoll loop world
      → (let started = timeout_at epoll call end world in
          IsConsistent epoll loop (epoll.epoll_wait (started.0) (started.1)).1)
  waited-Consistent end loop world h k =
      started-Consistent end loop world h k
      ∙ ap is_null (
          sym (
            epoll.waited (timeout_at epoll call end world).0 (timeout_at epoll call end world).1 k))

  go_on-EndsFree :
      (result : Option (EventLoop C × W))
      (rest : Bool → EventLoop C → W → Option (Dispatched × EventLoop C × W))
      → ConsistentIfAny epoll result
      → ((after : EventLoop C) (next : W)
          → IsConsistent epoll after next
          → EndsFree epoll (rest false after next))
      → EndsFree epoll (go_on epoll call result rest)
  go_on-EndsFree none rest h goes_on = tt
  go_on-EndsFree (some (called, after)) rest h goes_on = goes_on called after h

  -- An event of a descriptor that epoll watches has a callback.
  serve-EndsFree :
      (entry : Option (Callback C)) (fd : ℕ) (events : Events) (loop : EventLoop C) (world : W)
      (rest : Bool → EventLoop C → W → Option (Dispatched × EventLoop C × W))
      → IsConsistent epoll loop world
      → is_null entry ≡ false
      → ((after : EventLoop C) (next : W)
          → IsConsistent epoll after next
          → EndsFree epoll (rest false after next))
      → EndsFree epoll (serve epoll call entry fd events loop world rest)
  unfolding serve
  serve-EndsFree none fd events loop world rest h found goes_on = absurd (cc found)
  serve-EndsFree (some callback) fd events loop world rest h found goes_on =
      go_on-EndsFree (run_callback epoll call callback fd events loop world) rest
        (run_callback-Consistent callback fd events loop world h) goes_on

  after_wait-EndsFree :
      (timeout : ℤ) (loop : EventLoop C) (waited : Waited) (world : W)
      (rest : Bool → EventLoop C → W → Option (Dispatched × EventLoop C × W))
      → IsConsistent epoll loop world
      → ((fd : ℕ) (events : Events)
          → waited ≡ event fd events
          → is_null (loop.callbacks fd) ≡ false)
      → ((after : EventLoop C) (next : W)
          → IsConsistent epoll after next
          → EndsFree epoll (rest false after next))
      → EndsFree epoll (after_wait epoll call false timeout loop waited world rest)
  unfolding after_wait
  after_wait-EndsFree timeout loop by_signal world rest h reported goes_on = goes_on loop world h
  after_wait-EndsFree timeout loop (wait_error e) world rest h reported goes_on = ((λ f. cc f), h)
  after_wait-EndsFree timeout loop timed_out world rest h reported goes_on =
      elim (Bool-cases (ltb_ℤ timeout (pos 0))) [
        | inl endless ↦ rw endless tt
        | inr ends ↦ rw ends ((λ e. cc e), h)
      ]
  after_wait-EndsFree timeout loop (event fd events) world rest h reported goes_on =
      serve-EndsFree (loop.callbacks fd) fd events loop world rest h (reported fd events refl)
        goes_on

module _ {W C : Type 0} (epoll : Epoll W)
    (call : C → ℕ → Events → EventLoop C → W → Option (EventLoop C × W))
    (calls_keep : (c : C) (fd : ℕ) (events : Events) (loop : EventLoop C) (world : W)
      → IsConsistent epoll loop world
      → ConsistentIfAny epoll (call c fd events loop world))
    (meanwhile : EventLoop C → W → EventLoop C × W)
    (others_keep : (loop : EventLoop C) (world : W)
      → IsConsistent epoll loop world
      → IsConsistent epoll (meanwhile loop world).0 (meanwhile loop world).1)
    (others_leave : (loop : EventLoop C) (world : W) (fd : ℕ)
      → is_null (loop.callbacks fd) ≡ false
      → is_null ((meanwhile loop world).0.callbacks fd) ≡ false) where
  dispatch_loop-EndsFree :
      (fuel : ℕ) (end : Option Timespec) (loop : EventLoop C) (world : W)
      → IsConsistent epoll loop world
      → EndsFree epoll (dispatch_loop epoll call meanwhile fuel end false loop world)
  unfolding dispatch_loop
  dispatch_loop-EndsFree zero end loop world h = tt
  dispatch_loop-EndsFree (suc fuel) end loop world h = elim (Bool-cases loop.interrupt) [
    | inl stop ↦ rw stop ((λ e. cc e), h)
    | inr more ↦
        let round = timeout_at epoll call end world in
        let woken = (epoll.epoll_wait round.0 round.1).1 in
        rw more (
          after_wait-EndsFree epoll call calls_keep round.0 _ (epoll.epoll_wait round.0 round.1).0
            (meanwhile _ woken).1 _
            (others_keep _ woken (waited-Consistent epoll call calls_keep end loop world h))
            (λ fd events r.
              let found = epoll.reported round.0 round.1 fd events r in
              others_leave _ woken fd
                (started-Consistent epoll call calls_keep end loop world h fd ∙ ap is_null found.1))
            (λ after next kept. dispatch_loop-EndsFree fuel end after next kept))
  ]

  -- `dispatch`, with a timeout or without one, never locks its mutex twice, whatever events epoll
  -- reports and for any number of rounds, and leaves the loop consistent: the descriptors with a
  -- callback are those that epoll watches. It starts with a consistent loop, the callbacks keep it
  -- consistent, and so do other threads in each wait before the lock is taken, which remove no
  -- descriptor then.
  pub dispatch-EndsFree :
      (fuel : ℕ) (timeout : Option Timespec) (loop : EventLoop C) (world : W)
      → IsConsistent epoll loop world
      → EndsFree epoll (dispatch epoll call meanwhile fuel timeout loop world)
  unfolding dispatch
  dispatch-EndsFree fuel none loop world h = dispatch_loop-EndsFree fuel none _ world h
  dispatch-EndsFree fuel (some timeout) loop world h =
      dispatch_loop-EndsFree fuel _ _ _ (λ k. h k ∙ ap is_null (sym (epoll.told world k)))
