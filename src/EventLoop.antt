-- ===== src/EventLoop.antt =====
-- src/hlib_event_loop.cpp and include/hlib/event_loop.hpp: descriptors with the callbacks that are
-- called when epoll reports events on them. The callbacks of the program are values in C.
pub mod Kernel
pub mod Registered
pub mod Dispatching
pub mod Interrupting
pub mod Sample
mod Tests
use hlib.Base.{
  ℕ, zero, suc, ◌+◌, ◌*◌, Bool, true, false, not, Option, none, some, ◌>>=◌, ◌>>◌, ◌==◌,
  if◌then◌else◌, ℤ, pos, negsuc, sub_ℕ, ◌+ℤ◌, quot_ℤ, ltb_ℤ,
}
use hlib.Buffer.Capacity.{asserts, is_null}
use hlib.EventLoop.Kernel.{
  Fd, Events, no_events, Epoll, Waited, adds, modifies, deletes, by_signal, wait_error, event,
  timed_out,
}
use hlib.Time.{Timespec}
use hlib.Time.Clock
use hlib.Time.Duration

-- The callback of the pipe that `interrupt` writes to, and those of the program.
pub data Callback (C : Type 0) : Type 0 where
  interrupts : Callback C
  calls : C → Callback C

-- `class EventLoop`: `m_interrupt` and `m_callbacks`
pub record EventLoop (C : Type 0) : Type 0 where
  pub interrupt : Bool
  pub callbacks : ℕ → Option (Callback C)

-- A call that returned, or that threw or returned an error with the errno of the system.
pub data Ended : Type 0 where
  succeeded : Ended
  failed_with : ℕ → Ended

-- a map in which a key has another entry, or none
abbrev pub assign_entry {ℓ} : {A : Type ℓ} → ℕ → Option A → (ℕ → Option A) → ℕ → Option A
assign_entry key entry m k = if k == key then entry else m k

-- `loop.to<time::MSec>()`, rounded towards zero
abbrev pub scale : ℤ → ℕ → ℤ
scale (pos n) k = pos (n * k)
scale (negsuc n) k = sub_ℕ 0 (suc n * k)

unfoldable pub to_msec : Timespec → ℤ
to_msec d = quot_ℤ (scale d.tv_sec 1000000000 +ℤ d.tv_nsec) 1000000

module _ {W C : Type 0} (epoll : Epoll W) where
  -- the part of `add` from `epoll_ctl` on
  abbrev pub add_to_epoll : ℕ → Events → Callback C → EventLoop C → W → Ended × EventLoop C × W
  add_to_epoll fd events callback loop world =
      let emplaced = record loop { callbacks = assign_entry fd (some callback) loop.callbacks } in
      let (error, after) = epoll.epoll_ctl adds fd events world in
      elim error [
        | none ↦ (succeeded, emplaced, after)
        | some e ↦ (
          failed_with e,
          record emplaced { callbacks = assign_entry fd none emplaced.callbacks },
          after,
        )
      ]

  -- `add(fd, events, callback)`
  unfoldable pub add : Fd → Events → Callback C → EventLoop C → W → Option (Ended × EventLoop C × W)
  add none events callback loop world = none
  add (some fd) events callback loop world = do
    asserts (is_null (loop.callbacks fd))
    some (add_to_epoll fd events callback loop world)

  -- `remove(fd)`
  unfoldable pub remove : Fd → EventLoop C → W → Option (EventLoop C × W)
  remove none loop world = some (loop, world)
  remove (some fd) loop world = do
    asserts (not (is_null (loop.callbacks fd)))
    let (error, after) = epoll.epoll_ctl deletes fd no_events world
    asserts (is_null error)
    some (record loop { callbacks = assign_entry fd none loop.callbacks }, after)

module _ {W : Type 0} (epoll : Epoll W) where
  -- `modify(fd, events, std::nothrow)`, which leaves the loop alone; `modify` without it throws the
  -- error
  unfoldable pub modify : Fd → Events → W → Option (Ended × W)
  modify none events world = none
  modify (some fd) events world =
      let (error, after) = epoll.epoll_ctl modifies fd events world in
      some (elim error [ none ↦ (succeeded, after) | some e ↦ (failed_with e, after) ])

  -- `interrupt(std::nothrow)`; `interrupt` without it throws the error
  unfoldable pub interrupt_loop : W → Ended × W
  interrupt_loop world =
      let (error, after) = epoll.write_pipe world in
      (elim error [ none ↦ succeeded | some e ↦ failed_with e ], after)

  -- `flush()`, which reads until there is no byte left
  unfoldable pub flush : ℕ → W → Option W
  flush zero world = none
  flush (suc fuel) world =
      let (received, after) = epoll.read_pipe world in
      elim received [ true ↦ flush fuel after | false ↦ some after ]

module _ {C : Type 0} where
  -- `change(fd, callback)`
  unfoldable pub change : Fd → Callback C → EventLoop C → Option (EventLoop C)
  change none callback loop = none
  change (some fd) callback loop = do
    asserts (not (is_null (loop.callbacks fd)))
    some (record loop { callbacks = assign_entry fd (some callback) loop.callbacks })

-- How `dispatch` ends: by `m_interrupt`, at the timeout, with the error of `epoll_wait`, or since the
-- thread locks the mutex that it holds, for which `std::unique_lock` throws.
pub data Dispatched : Type 0 where
  interrupted expired deadlocked : Dispatched
  wait_failed : ℕ → Dispatched

module _ {W C : Type 0} (epoll : Epoll W)
    (call : C → ℕ → Events → EventLoop C → W → Option (EventLoop C × W)) where
  -- a callback that is run
  abbrev pub run_callback : Callback C → ℕ → Events → EventLoop C → W → Option (EventLoop C × W)
  run_callback interrupts fd events loop world =
      let (received, after) = epoll.read_pipe world in
      do asserts events.reads; asserts received; some (record loop { interrupt = true }, after)
  run_callback (calls c) fd events loop world = call c fd events loop world

  -- the timeout in milliseconds, which is -1 without an end
  abbrev pub timeout_at : Option Timespec → W → ℤ × W
  timeout_at none world = (negsuc 0, world)
  timeout_at (some end) world =
      let (current, after) = epoll.now world in
      (if Clock.less current end then to_msec (Clock.between end current) else pos 0, after)

  -- the way on from a callback that has returned
  abbrev pub go_on :
      Option (EventLoop C × W)
      → (Bool → EventLoop C → W → Option (Dispatched × EventLoop C × W))
      → Option (Dispatched × EventLoop C × W)
  go_on none rest = none
  go_on (some (loop, world)) rest = rest false loop world

  -- An event, with the lock free, and what the map has for its descriptor: `rest` goes on, told whether
  -- the lock is held.
  unfoldable pub serve :
      Option (Callback C)
      → ℕ
      → Events
      → EventLoop C
      → W
      → (Bool → EventLoop C → W → Option (Dispatched × EventLoop C × W))
      → Option (Dispatched × EventLoop C × W)
  serve none fd events loop world rest = rest true loop world
  serve (some callback) fd events loop world rest =
      go_on (run_callback callback fd events loop world) rest

  -- the switch over what `epoll_wait` returned
  unfoldable pub after_wait :
      Bool
      → ℤ
      → EventLoop C
      → Waited
      → W
      → (Bool → EventLoop C → W → Option (Dispatched × EventLoop C × W))
      → Option (Dispatched × EventLoop C × W)
  unfolding serve
  after_wait held timeout loop by_signal world rest = rest held loop world
  after_wait held timeout loop (wait_error e) world rest = some (wait_failed e, loop, world)
  after_wait held timeout loop timed_out world rest =
      if ltb_ℤ timeout (pos 0) then none else some (expired, loop, world)
  after_wait held timeout loop (event fd events) world rest =
      if held
      then some (deadlocked, loop, world)
      else serve (loop.callbacks fd) fd events loop world rest

module _ {W C : Type 0} (epoll : Epoll W)
    (call : C → ℕ → Events → EventLoop C → W → Option (EventLoop C × W))
    (meanwhile : EventLoop C → W → EventLoop C × W) where
  -- What other threads have done to the loop before this one has the lock behind a wait: any calls that
  -- register, change or remove descriptors, unless it holds the lock already.
  abbrev pub behind_wait : Bool → EventLoop C → W → EventLoop C × W
  behind_wait held loop world = if held then (loop, world) else meanwhile loop world

  -- The loop of `dispatch`, with what the lock holds. `none` is an assertion that fails, or a loop that
  -- is not over when the fuel is.
  unfoldable pub dispatch_loop :
      ℕ → Option Timespec → Bool → EventLoop C → W → Option (Dispatched × EventLoop C × W)
  unfolding after_wait
  dispatch_loop zero end held loop world = none
  dispatch_loop (suc fuel) end held loop world = elim loop.interrupt [
    | true ↦ some (interrupted, loop, world)
    | false ↦
        let (timeout, started) = timeout_at epoll call end world in
        let (waited, woken) = epoll.epoll_wait timeout started in
        let (changed, next) = behind_wait held loop woken in
        after_wait epoll call held timeout changed waited next (dispatch_loop fuel end)
  ]

  -- `dispatch()` and `dispatch(timeout)`
  unfoldable pub dispatch :
      ℕ → Option Timespec → EventLoop C → W → Option (Dispatched × EventLoop C × W)
  unfolding dispatch_loop
  dispatch fuel none loop world =
      dispatch_loop fuel none false (record loop { interrupt = false }) world
  dispatch fuel (some timeout) loop world =
      let (current, after) = epoll.now world in
      dispatch_loop fuel (some (Clock.plus current timeout)) false
        (record loop { interrupt = false }) after
