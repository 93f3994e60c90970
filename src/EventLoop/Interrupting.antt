-- ===== src/EventLoop/Interrupting.antt =====
-- src/hlib_event_loop.cpp: the rounds of `dispatch`, and its end when `interrupt` has written to the pipe.
use hlib.Base.{ℕ, suc, ◌+◌, ◌≡◌, refl, ap, ◌∙◌, Bool, true, false, Option, none, some}
use hlib.EventLoop.{
  Callback, interrupts, EventLoop, interrupted, run_callback, timeout_at, serve, after_wait,
  dispatch_loop, dispatch,
}
use hlib.EventLoop.Kernel.{Events, Epoll, Waited, by_signal, event}
use native.Mathlib.Numerals.{unary_clauses}
use hlib.Time.{Timespec}
use hlib.Time.Clock

module _ {W C : Type 0} (epoll : Epoll W)
    (call : C → ℕ → Events → EventLoop C → W → Option (EventLoop C × W))
    (meanwhile : EventLoop C → W → EventLoop C × W) where
  -- what `epoll_wait` reports in a round, and the world after it
  abbrev pub wait_at : Option Timespec → W → Waited × W
  wait_at end world =
      let (timeout, started) = timeout_at epoll call end world in epoll.epoll_wait timeout started

  -- the loop and the world when this thread has the lock behind the wait of a round
  abbrev pub woken_at : Option Timespec → EventLoop C → W → EventLoop C × W
  woken_at end loop world = meanwhile loop (wait_at end world).1

  -- A round that goes on: a signal, or an event whose callback returns.
  pub data Round (end : Option Timespec) : EventLoop C → W → EventLoop C → W → Type 0 where
    signalled :
        {loop after : EventLoop C} {world next : W}
        → loop.interrupt ≡ false
        → (wait_at end world).0 ≡ by_signal
        → woken_at end loop world ≡ (after, next)
        → Round end loop world after next
    served :
        {loop after : EventLoop C} {world next : W} {fd : ℕ} {events : Events}
        {callback : Callback C}
        → loop.interrupt ≡ false
        → (wait_at end world).0 ≡ event fd events
        → (woken_at end loop world).0.callbacks fd ≡ some callback
        → run_callback epoll call callback fd events
            (woken_at end loop world).0
            (woken_at end loop world).1
          ≡ some (after, next)
        → Round end loop world after next

  -- Rounds that go on, one after the other, and their number.
  pub data Rounds (end : Option Timespec) : ℕ → EventLoop C → W → EventLoop C → W → Type 0 where
    no_round : {loop : EventLoop C} {world : W} → Rounds end 0 loop world loop world
    a_round :
        {n : ℕ} {loop after last : EventLoop C} {world next final : W}
        → Round end loop world after next
        → Rounds end n after next last final
        → Rounds end (suc n) loop world last final

  -- The interrupt of a loop: the pipe is reported as readable, and one byte is read from it.
  pub record IsInterrupted (end : Option Timespec) (loop : EventLoop C) (world : W) : Type 0 where
    pub fd : ℕ
    pub events : Events
    pub runs : loop.interrupt ≡ false
    pub reports : (wait_at end world).0 ≡ event fd events
    pub own : (woken_at end loop world).0.callbacks fd ≡ some interrupts
    pub readable : events.reads ≡ true
    pub received : (epoll.read_pipe (woken_at end loop world).1).0 ≡ true

  not_taken : {A : Type 0} (b : Bool) (x y : A) → b ≡ false → elim b [ true ↦ x | false ↦ y ] ≡ y
  not_taken b x y h = rw h refl

  running_lem :
      (fuel : ℕ) (end : Option Timespec) (loop : EventLoop C) (world : W)
      → loop.interrupt ≡ false
      → dispatch_loop epoll call meanwhile (suc fuel) end false loop world
        ≡ after_wait epoll call false
            (timeout_at epoll call end world).0
            (woken_at end loop world).0
            (wait_at end world).0
            (woken_at end loop world).1
            (dispatch_loop epoll call meanwhile fuel end)
  unfolding dispatch_loop
  running_lem fuel end loop world runs = not_taken loop.interrupt _ _ runs

  serving_lem :
      (fuel : ℕ) (end : Option Timespec) (loop : EventLoop C) (world : W) {after : EventLoop C}
      {next : W} {fd : ℕ} {events : Events} {callback : Callback C}
      → loop.interrupt ≡ false
      → (wait_at end world).0 ≡ event fd events
      → (woken_at end loop world).0.callbacks fd ≡ some callback
      → run_callback epoll call callback fd events
          (woken_at end loop world).0
          (woken_at end loop world).1
        ≡ some (after, next)
      → dispatch_loop epoll call meanwhile (suc fuel) end false loop world
        ≡ dispatch_loop epoll call meanwhile fuel end false after next
  unfolding after_wait serve
  serving_lem fuel end loop world runs waits found called =
      running_lem fuel end loop world runs ∙ rw (waits, found, called) refl

  dispatch_loop-Round :
      (fuel : ℕ) (end : Option Timespec) {loop after : EventLoop C} {world next : W}
      → Round end loop world after next
      → dispatch_loop epoll call meanwhile (suc fuel) end false loop world
        ≡ dispatch_loop epoll call meanwhile fuel end false after next
  unfolding after_wait
  dispatch_loop-Round fuel end (signalled runs waits woken) =
      running_lem fuel end _ _ runs
      ∙ rw waits (ap (λ r. dispatch_loop epoll call meanwhile fuel end false r.0 r.1) woken)
  dispatch_loop-Round fuel end (served runs waits found called) =
      serving_lem fuel end _ _ runs waits found called

  dispatch_loop-Rounds :
      (fuel : ℕ) (end : Option Timespec) {n : ℕ} {loop last : EventLoop C} {world final : W}
      → Rounds end n loop world last final
      → dispatch_loop epoll call meanwhile (fuel + n) end false loop world
        ≡ dispatch_loop epoll call meanwhile fuel end false last final
  dispatch_loop-Rounds fuel end no_round = simp unary_clauses
  dispatch_loop-Rounds fuel end {n = suc n} (a_round round rest) =
      simp unary_clauses
        (dispatch_loop-Round (fuel + n) end round ∙ dispatch_loop-Rounds fuel end rest)

  stopped_lem :
      (fuel : ℕ) (end : Option Timespec) (loop : EventLoop C) (world : W)
      → IsInterrupted end loop world
      → dispatch_loop epoll call meanwhile (suc (suc fuel)) end false loop world
        ≡ some (
          interrupted,
          record ((woken_at end loop world).0) { interrupt = true },
          (epoll.read_pipe (woken_at end loop world).1).1,
        )
  unfolding dispatch_loop
  stopped_lem fuel end loop world h =
      serving_lem (suc fuel) end loop world
        {after = record ((woken_at end loop world).0) { interrupt = true }}
        {next = (epoll.read_pipe (woken_at end loop world).1).1} h.runs h.reports h.own
        (rw (h.readable, h.received) refl)

  -- the end that `dispatch` computes for a timeout, and the world behind that
  abbrev pub end_at : Option Timespec → W → Option Timespec × W
  end_at none world = (none, world)
  end_at (some timeout) world =
      let (current, after) = epoll.now world in (some (Clock.plus current timeout), after)

  -- `dispatch`, with a timeout or without one, ends when it is interrupted, after any rounds of signals and
  -- of events whose callbacks return, however many of them there were and whatever other threads do to
  -- the loop in the waits: in the round after the one in which the pipe is reported, without another
  -- wait, and the byte is read from the pipe.
  pub dispatch-interrupted :
      (fuel : ℕ) (timeout : Option Timespec) (n : ℕ) (loop last : EventLoop C) (world final : W)
      → (let (end, started) = end_at timeout world in
          Rounds end n (record loop { interrupt = false }) started last final)
      → IsInterrupted (end_at timeout world).0 last final
      → dispatch epoll call meanwhile (suc (suc fuel) + n) timeout loop world
        ≡ some (
          interrupted,
          record ((woken_at (end_at timeout world).0 last final).0) { interrupt = true },
          (epoll.read_pipe (woken_at (end_at timeout world).0 last final).1).1,
        )
  unfolding dispatch
  dispatch-interrupted fuel none n loop last world final rounds stops =
      dispatch_loop-Rounds (suc (suc fuel)) none rounds ∙ stopped_lem fuel none last final stops
  dispatch-interrupted fuel (some timeout) n loop last world final rounds stops =
      dispatch_loop-Rounds (suc (suc fuel)) _ rounds ∙ stopped_lem fuel _ last final stops
