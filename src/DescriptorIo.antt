-- ===== src/DescriptorIo.antt =====
-- src/hlib_fdio.cpp and include/hlib/fdio.hpp: `class FileDescriptorIO`, which fills a sink and
-- empties a queue of sources when the event loop reports that its descriptor can be read or written.
-- The state holds the loop, unless it is gone, and the world that the calls of the system act on. Each
-- part of `onEvent` is what it does under the lock, and then the callback that it makes.
pub mod Handling
pub mod Queue
pub mod Filling
pub mod Writing
pub mod Sources
pub mod Sending
pub mod Streaming
pub mod Draining
pub mod Closing
pub mod Receiving
mod Tests
use hlib.Base.{
  ℕ, ◌+◌, Bool, true, false, not, ◌&&◌, ◌||◌, Option, none, some, ◌>>=◌, ◌>>◌, List, [], ◌∷◌, ◌++◌,
  ◌==◌, if◌then◌else◌, Bytes, length, take, drop,
}
use hlib.Buffer.{Allocator, Buffer, add_size}
use hlib.Buffer.Capacity.{Pointer, asserts, resize}
use hlib.EventLoop.{Callback, EventLoop, Ended, succeeded, failed_with, add, modify, remove}
use hlib.EventLoop.Kernel.{Fd, Events, no_events, Epoll}
use hlib.File.{Transfer, failed, moved}
use hlib.Stream.{
  Sink, full, headroom_limited, produce, fill, no_throw, Source, available, is_empty, peek, consume,
}

-- How a call ends that asks the system for a number.
pub data Reply : Type 0 where
  replied refused : ℕ → Reply

-- `ioctl` for FIONREAD, `::read`, `::write` and `close`; `fstat`, which tells a socket if it does not
-- fail; and `getsockopt` for SO_ERROR.
pub record System (W : Type 0) : Type 0 where
  pub ioctl : ℕ → W → Reply × W
  pub read_call : ℕ → ℕ → W → Transfer × W
  pub write_call : ℕ → Bytes → W → Transfer × W
  pub close_call : ℕ → W → W
  pub fstat : ℕ → W → Option Bool
  pub getsockopt : ℕ → W → Reply

-- `SendTuple`
pub record Send (K : Type 0) : Type 0 where
  pub source : Source
  pub callback : Option K

-- `class FileDescriptorIO`
pub record Io (C K W : Type 0) : Type 0 where
  pub fd : Fd
  pub events : Events
  pub on_close : Option K
  pub read_sink : Option Sink
  pub read_callback : Option K
  pub write_queue : List (Send K)
  pub loop : Option (EventLoop C)
  pub world : W

-- A callback that is to be made once the lock is free.
pub data Notice (K : Type 0) : Type 0 where
  read_done : K → Sink → Notice K
  written : K → Source → Notice K
  closing : K → ℕ → Notice K

-- How the locked part of `onEvent` ends: it goes on behind the part, or closes with an error.
pub data Way : Type 0 where
  goes_on : Way
  closes : ℕ → Way

-- `EIO` and `ENOMEM`, `ENODEV`
abbrev pub eio : ℕ
eio = 5

abbrev pub enomem : ℕ
enomem = 12

abbrev pub enodev : ℕ
enodev = 19

abbrev same_bit : Bool → Bool → Bool
same_bit true b = b
same_bit false b = not b

abbrev pub same_events : Events → Events → Bool
same_events a b =
    same_bit a.reads b.reads
    && same_bit a.writes b.writes
    && same_bit a.errs b.errs
    && same_bit a.hup b.hup
    && same_bit a.rd_hup b.rd_hup

module _ {K : Type 0} where
  abbrev pub is_empty_queue : List (Send K) → Bool
  is_empty_queue [] = true
  is_empty_queue (send ∷ queue) = false

  abbrev pub notice_of : Option K → (K → Notice K) → Option (Notice K)
  notice_of none notice = none
  notice_of (some callback) notice = some (notice callback)

module _ {C K W : Type 0} (epoll : Epoll W) where
  -- the result of `modify`, which throws out of a function marked noexcept
  abbrev pub modified : Events → Io C K W → Option (Ended × W) → Option (Io C K W)
  modified events this none = none
  modified events this (some (succeeded, after)) =
      some (record this { events = events; world = after })
  modified events this (some (failed_with e, after)) = none

  abbrev pub update_in : Option (EventLoop C) → Events → Io C K W → Option (Io C K W)
  update_in none events this = some (record this { events = events })
  update_in (some loop) events this = modified events this (modify epoll this.fd events this.world)

  -- `updateEventsLocked(events)`
  unfoldable pub update_events : Events → Io C K W → Option (Io C K W)
  unfolding modify
  update_events events this = update_in this.loop events this

  -- `read(sink, callback)`
  unfoldable pub read_to : Option Sink → Option K → Io C K W → Option (Io C K W)
  unfolding update_events
  read_to sink callback this =
      let events = record (this.events) { reads = elim sink [ none ↦ false | some s ↦ true ] } in
      do
        updated ← if same_events events this.events then some this else update_events events this
        some (record updated { read_sink = sink; read_callback = callback })

  -- `write(source, callback)`
  unfoldable pub write_from : Source → Option K → Io C K W → Option (Io C K W)
  unfolding update_events
  write_from source callback this =
      let events =
        if is_empty_queue this.write_queue
        then record (this.events) { writes = true }
        else this.events in
      let queued = record this {
        write_queue = this.write_queue ++ record { source = source; callback = callback } ∷ [];
      } in
      if same_events events this.events then some queued else update_events events queued

  -- the lambda `completed`, up to the callback
  unfoldable pub complete_read : Sink → Io C K W → Option (Io C K W × Option (Notice K))
  unfolding update_events
  complete_read sink this = do
    updated ← update_events (record (this.events) { reads = false }) this
    some (
      record updated { read_sink = none; read_callback = none },
      notice_of updated.read_callback (λ callback. read_done callback sink),
    )

module _ {C K W : Type 0} (epoll : Epoll W) (system : System W) where
  -- the part of the write branch behind `::write`
  unfoldable pub sent :
      Source → Option K → List (Send K) → ℕ → Io C K W → Option (Io C K W × Way × Option (Notice K))
  unfolding update_events
  sent source callback queue count this = do
    (consumed, p) ← consume source count
    emptied ← is_empty consumed
    elim emptied [
      | false ↦
          let left : Send K = record { source = consumed; callback = callback } in
          some (record this { write_queue = left ∷ queue }, goes_on, none)
      | true ↦
          let popped = record this { write_queue = queue } in
          do
            updated ←
                if is_empty_queue queue
                then update_events epoll (record (popped.events) { writes = false }) popped
                else some popped
            some (updated, goes_on, notice_of callback (λ c. written c consumed))
    ]

  abbrev pub after_write :
      Send K → List (Send K) → Transfer × W → Io C K W → Option (Io C K W × Way × Option (Notice K))
  after_write send queue (failed e, after) this =
      some (record this { world = after }, closes e, none)
  after_write send queue (moved ys, after) this =
      sent send.source send.callback queue (length ys) (record this { world = after })

  -- the write branch of `onEvent(fd, events)` up to the callback
  unfoldable pub send_front :
      ℕ → List (Send K) → Io C K W → Option (Io C K W × Way × Option (Notice K))
  unfolding sent
  send_front fd [] this = none
  send_front fd (send ∷ queue) this = do
    n ← available send.source
    p ← peek send.source n
    after_write send queue (system.write_call fd (take n (drop p send.source.bytes)) this.world)
        this

module _ {C K W : Type 0} (epoll : Epoll W) (system : System W) (a : Allocator) where
  -- the end of the read branch, with a sink that holds the bytes that came in, and whether it is full
  unfoldable pub after_read : Bool → Sink → Io C K W → Option (Io C K W × Way × Option (Notice K))
  after_read false sink this = some (record this { read_sink = some sink }, goes_on, none)
  after_read true sink this = do
    (completed, notice) ← complete_read epoll sink (record this { read_sink = some sink })
    some (completed, goes_on, notice)

  -- what `onEvent` does with the sink, once it has room at p and `::read` has returned
  unfoldable pub received :
      ℕ → Sink → ℕ → Transfer → Io C K W → Option (Io C K W × Way × Option (Notice K))
  unfolding complete_read after_read
  received unextended sink p (failed e) this = some (this, closes e, none)
  received unextended sink p (moved []) this = do
    (completed, notice) ← complete_read epoll sink this
    some (completed, closes 0, notice)
  received unextended sink p (moved (y ∷ ys)) this = do
    filled ← fill sink p (y ∷ ys)
    (resized, q) ← resize a filled.buffer (add_size unextended (length (y ∷ ys))) >>= no_throw
    after_read (full (record filled { buffer = resized })) (record filled { buffer = resized }) this

  -- the part of the read branch behind `ioctl`
  unfoldable pub receive_available :
      ℕ → ℕ → Sink → Io C K W → Option (Io C K W × Way × Option (Notice K))
  unfolding received
  receive_available fd n sink this = do
    room ← headroom_limited sink n
    (extended, ptr) ← produce a sink room
    let holding = record this { read_sink = some extended }
    elim ptr [
      | none ↦ some (holding, closes enomem, none)
      | some p ↦
          let (done, after) = system.read_call fd room this.world in
          received sink.buffer.size extended p done (record holding { world = after })
    ]

  -- the read branch of `onEvent(fd, events)` up to the callback
  unfoldable pub receive : ℕ → Option Sink → Io C K W → Option (Io C K W × Way × Option (Notice K))
  unfolding receive_available
  receive fd none this = none
  receive fd (some sink) this =
      let (reply, asked) = system.ioctl fd this.world in
      elim reply [
        | refused e ↦ some (record this { world = asked }, closes e, none)
        | replied n ↦ receive_available fd n sink (record this { world = asked })
      ]
