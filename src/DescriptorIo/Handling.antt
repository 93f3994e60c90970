-- ===== src/DescriptorIo/Handling.antt =====
-- src/hlib_fdio.cpp: opening and closing, and `onEvent`, of which the parent has the locked parts; with
-- `is_socket` and `get_socket_error` (src/hlib_socket.cpp).
use hlib.Base.{ℕ, Bool, true, false, ◌||◌, Option, none, some, ◌>>=◌, ◌>>◌, [], ◌==◌, if◌then◌else◌}
use hlib.Buffer.{Allocator}
use hlib.Buffer.Capacity.{asserts}
use hlib.EventLoop.{Callback, EventLoop, Ended, succeeded, failed_with, add, remove}
use hlib.EventLoop.Kernel.{Fd, Events, no_events, Epoll}
use hlib.DescriptorIo.{
  System, refused, replied, Io, Notice, closing, Way, goes_on, closes, eio, enodev, notice_of,
  receive, send_front,
}

module _ {W : Type 0} (system : System W) where
  -- `file::fd_close(fd)`
  abbrev pub fd_close : Fd → W → W
  fd_close none world = world
  fd_close (some fd) world = system.close_call fd world

  -- `is_socket(fd)` and `get_socket_error(fd)`
  unfoldable pub is_socket : ℕ → W → Bool
  is_socket fd world = elim (system.fstat fd world) [ none ↦ false | some socket ↦ socket ]

  unfoldable pub get_socket_error : ℕ → W → ℕ
  get_socket_error fd world = elim (system.getsockopt fd world) [ refused e ↦ e | replied e ↦ e ]

module _ {C K W : Type 0} (epoll : Epoll W) (system : System W) where
  -- `with_weak_ptr_locked(m_event_loop, …)` around `loop.remove(m_fd.get())`
  abbrev pub remove_from_loop : Option (EventLoop C) → Io C K W → Option (Io C K W)
  remove_from_loop none this = some this
  remove_from_loop (some loop) this = do
    (removed, after) ← remove epoll this.fd loop this.world
    some (record this { loop = some removed; world = after })

  -- `close()`
  unfoldable pub close : Io C K W → Option (Io C K W)
  close this = elim this.fd [
    | none ↦ some this
    | some fd ↦ do
      removed ← remove_from_loop this.loop this
      some (record removed {
        fd = none;
        world = system.close_call fd removed.world;
        events = no_events;
        read_sink = none;
        read_callback = none;
        write_queue = [];
      })
  ]

  abbrev pub opened : Fd → Io C K W → Ended × EventLoop C × W → Option (Ended × Io C K W)
  opened fd this (succeeded, loop, world) =
      some (succeeded, record this { fd = fd; loop = some loop; world = world })
  opened fd this (failed_with e, loop, world) = none

  -- `open(fd, std::nothrow)`, with the callback that is bound to `onEvent`; an error of `add` is thrown
  -- out of a function marked noexcept
  unfoldable pub open_fd : Fd → Callback C → Io C K W → Option (Ended × Io C K W)
  unfolding close
  open_fd fd callback this = do
    closed ← close this
    elim closed.loop [
      | none ↦ some (failed_with enodev, record closed { world = fd_close system fd closed.world })
      | some loop ↦ add epoll fd closed.events callback loop closed.world >>= opened fd closed
    ]

module _ {C K W : Type 0} (epoll : Epoll W) (system : System W) (a : Allocator)
    (call : Notice K → Io C K W → Option (Io C K W)) where
  -- a callback, if there is one
  abbrev pub call_back : Option (Notice K) → Io C K W → Option (Io C K W)
  call_back none this = some this
  call_back (some notice) this = call notice this

  -- `callbackAndClose(error)`
  unfoldable pub callback_and_close : ℕ → Io C K W → Option (Io C K W)
  unfolding close
  callback_and_close error this = do
    called ← call_back (notice_of this.on_close (λ callback. closing callback error)) this
    close epoll system called

  -- the end of a part of `onEvent`: its callback, and whether the function goes on
  abbrev pub finish : Io C K W × Way × Option (Notice K) → Option (Bool × Io C K W)
  finish (this, goes_on, notice) = do called ← call_back notice this; some (true, called)
  finish (this, closes e, notice) = do
    called ← call_back notice this
    closed ← callback_and_close e called
    some (false, closed)

  -- the last part of `onEvent`
  abbrev pub on_error : ℕ → Events → Io C K W → Option (Io C K W)
  on_error fd events this =
      if events.errs || events.hup
      then callback_and_close
          (if is_socket system fd this.world then get_socket_error system fd this.world else eio)
          this
      else some this

  -- `onEvent(fd, events)`
  unfoldable pub on_event : ℕ → Events → Io C K W → Option (Io C K W)
  unfolding receive send_front callback_and_close is_socket get_socket_error
  on_event fd events this = do
    asserts (elim this.fd [ none ↦ false | some own ↦ own == fd ])
    (reads_on, after_read) ←
        if events.reads
        then receive epoll system a fd this.read_sink this >>= finish
        else some (true, this)
    elim reads_on [
      | false ↦ some after_read
      | true ↦ do
        (writes_on, after_write) ←
            if events.writes
            then send_front epoll system fd after_read.write_queue after_read >>= finish
            else some (true, after_read)
        elim writes_on [ false ↦ some after_write | true ↦ on_error fd events after_write ]
    ]
