-- ===== src/EventLoop/Kernel.antt =====
-- What src/hlib_event_loop.cpp uses of the system: an epoll instance, the pipe of the loop, and the
-- time. They act on a world in W.
use hlib.Base.{ℕ, Bool, false, Option, none, some, ◌≡◌, ◌==◌, if◌then◌else◌, ℤ}
use hlib.Time.{Timespec}

-- a descriptor; `none` is -1
abbrev pub Fd : Type 0
Fd = Option ℕ

-- A set of events, by the bits that the library names.
pub record Events : Type 0 where
  pub reads : Bool
  pub writes : Bool
  pub errs : Bool
  pub hup : Bool
  pub rd_hup : Bool

abbrev pub no_events : Events
no_events = record { reads = false; writes = false; errs = false; hup = false; rd_hup = false }

-- `EPOLL_CTL_ADD`, `EPOLL_CTL_MOD` and `EPOLL_CTL_DEL`
pub data Control : Type 0 where
  adds modifies deletes : Control

-- How `epoll_wait` for one event returns; `by_signal` is -1 with EINTR.
pub data Waited : Type 0 where
  by_signal timed_out : Waited
  wait_error : ℕ → Waited
  event : ℕ → Events → Waited

-- What a control makes of the entry of its descriptor.
abbrev pub entry_of : Control → Events → Option Events
entry_of adds events = some events
entry_of modifies events = some events
entry_of deletes events = none

-- The calls, and the interest list of the epoll instance with what epoll_ctl(2) and epoll_wait(2) say of
-- it. The other calls leave it alone.
pub record Epoll (W : Type 0) : Type 0 where
  pub epoll_ctl : Control → ℕ → Events → W → Option ℕ × W
  pub epoll_wait : ℤ → W → Waited × W
  pub read_pipe : W → Bool × W
  pub write_pipe : W → Option ℕ × W
  pub now : W → Timespec × W
  pub interest : W → ℕ → Option Events
  pub controlled :
      (c : Control) (fd : ℕ) (events : Events) (world : W) (k : ℕ)
      → (epoll_ctl c fd events world).0 ≡ none
      → interest (epoll_ctl c fd events world).1 k
        ≡ (if k == fd then entry_of c events else interest world k)
  pub refused :
      (c : Control) (fd : ℕ) (events : Events) (world : W) (e k : ℕ)
      → (epoll_ctl c fd events world).0 ≡ some e
      → interest (epoll_ctl c fd events world).1 k ≡ interest world k
  pub known :
      (fd : ℕ) (events : Events) (world : W)
      → (epoll_ctl modifies fd events world).0 ≡ none
      → (wanted : Events) × (interest world fd ≡ some wanted)
  pub waited :
      (timeout : ℤ) (world : W) (k : ℕ) → interest (epoll_wait timeout world).1 k ≡ interest world k
  pub reported :
      (timeout : ℤ) (world : W) (fd : ℕ) (events : Events)
      → (epoll_wait timeout world).0 ≡ event fd events
      → (wanted : Events) × (interest world fd ≡ some wanted)
  pub pipe_read : (world : W) (k : ℕ) → interest (read_pipe world).1 k ≡ interest world k
  pub told : (world : W) (k : ℕ) → interest (now world).1 k ≡ interest world k
