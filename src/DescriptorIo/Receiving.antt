-- ===== src/DescriptorIo/Receiving.antt =====
-- src/hlib_fdio.cpp: the read branch of `onEvent`, with a sink that is bounded.
use hlib.Base.{
  ℕ, ◌+◌, ◌-◌, ◌≤◌, ◌<◌, ◌≡◌, ◌≢◌, refl, ap, ◌∙◌, sym, arith, Bool, true, false, Option, none, some,
  min, ◌∷◌, ◌++◌, Bytes, length, leb, ◌==◌, ==_iff,
}
use hlib.Buffer.{Allocator, add_size, contents}
use hlib.Buffer.Valid.{IsValid}
use hlib.DescriptorIo.{
  System, replied, Io, Notice, read_done, Way, goes_on, notice_of, update_events, complete_read,
  after_read, received, receive_available, receive,
}
use hlib.DescriptorIo.Queue.{Ends, Ends-map, Ends-bind, Transport, Watched, Watched-world}
use hlib.DescriptorIo.Writing.{Updates, update_events-Updates}
use hlib.EventLoop.Kernel.{Events, Epoll}
use hlib.File.{moved}
use hlib.Stream.{Sink, full, headroom_limited, minimal_capacity}
use hlib.Stream.Producing.{Ready, Produces, produce-Produces}
use hlib.DescriptorIo.Filling.{taken, fill_lem, resize_lem, taken-IsValid, taken-contents}

-- A sink after ys, of the same maximum.
pub record Holds (s : Sink) (ys : Bytes) (after : Sink) : Type 0 where
  pub valid : IsValid after.buffer
  pub appended : contents after.buffer ≡ contents s.buffer ++ ys
  pub same_maximum : after.maximum ≡ s.maximum

-- A bounded sink is full exactly at its maximum.
full-size : (s : Sink) → 0 < s.maximum → full s ≡ (s.buffer.size == s.maximum)
unfolding full
full-size s bounded =
    rw (let b : (minimal_capacity == s.maximum) ≡ false = ground (arith, bounded) in b) refl

-- the room for n bytes that are available
abbrev pub room_for : Sink → ℕ → ℕ
room_for s n = min (s.maximum - s.buffer.size) n

headroom_limited-room :
    (a : Allocator) (s : Sink) (n : ℕ)
    → Ready a s (room_for s n)
    → headroom_limited s n ≡ some (room_for s n)
unfolding headroom_limited
headroom_limited-room a s n ready =
    rw
      (
        let b : (minimal_capacity == s.maximum) ≡ false = ground (arith, ready.bounded) in b,
        let l : leb s.buffer.size s.maximum ≡ true = ground (arith, ready.room) in l,
      )
      refl

module _ {C K W : Type 0} {epoll : Epoll W} {system : System W} (t : Transport epoll system)
    (fd : ℕ) where
  -- How the read branch ends that has got ys: the sink has room left and stays, or it is full and goes to
  -- the callback, and the descriptor does not wait to read any more.
  pub data Receives (this : Io C K W) (s : Sink) (ys : Bytes)
      : Io C K W × Way × Option (Notice K) → Type 0 where
    continues :
        (after : Io C K W) (sink : Sink)
        → Holds s ys sink
        → after.read_sink ≡ some sink
        → sink.buffer.size ≢ s.maximum
        → Receives this s ys (after, goes_on, none)
    completes :
        (after : Io C K W) (sink : Sink) (notice : Option (Notice K))
        → Holds s ys sink
        → after.read_sink ≡ none
        → sink.buffer.size ≡ s.maximum
        → after.events.reads ≡ false
        → notice ≡ notice_of this.read_callback (λ callback. read_done callback sink)
        → Receives this s ys (after, goes_on, notice)

  -- What `completed` leaves.
  record Completed (this : Io C K W) (sink : Sink) (r : Io C K W × Option (Notice K)) : Type 0 where
    no_sink : r.0.read_sink ≡ none
    quiet : r.0.events.reads ≡ false
    notice : r.1 ≡ notice_of this.read_callback (λ callback. read_done callback sink)

  complete_read-Completed :
      (sink : Sink) (this : Io C K W)
      → this.fd ≡ some fd
      → Watched epoll fd this.loop this.events this.world
      → Ends (Completed this sink) (complete_read epoll sink this)
  unfolding complete_read
  complete_read-Completed sink this own watched =
      let events = record (this.events) { reads = false } in
      Ends-bind (Updates t fd this events) (Completed this sink) (update_events epoll events this) _
        (λ after u. record {
          no_sink = refl;
          quiet = ap (λ (e : Events). e.reads) u.noted;
          notice = ap (λ c. notice_of c (λ callback. read_done callback sink)) u.same_callback;
        })
        (update_events-Updates t fd events this own watched)

  after_read-Receives :
      (a : Allocator) (s sink : Sink) (ys : Bytes) (this : Io C K W) (b : Bool)
      → (sink.buffer.size == s.maximum) ≡ b
      → Holds s ys sink
      → this.fd ≡ some fd
      → Watched epoll fd this.loop this.events this.world
      → Ends (Receives this s ys) (after_read epoll system a b sink this)
  unfolding after_read
  after_read-Receives a s sink ys this false more h own watched =
      continues (record this { read_sink = some sink }) sink h refl
        (λ e. cc (sym more ∙ (==_iff sink.buffer.size s.maximum).1 e))
  after_read-Receives a s sink ys this true all h own watched =
      let holding = record this { read_sink = some sink } in
      Ends-bind (Completed holding sink) (Receives this s ys) (complete_read epoll sink holding) _
        (λ c d.
          completes (c.0) sink (c.1) h d.no_sink ((==_iff sink.buffer.size s.maximum).0 all) d.quiet
            d.notice)
        (complete_read-Completed sink holding own watched)

  module _ (a : Allocator) (s : Sink) (k : ℕ) (r : Ready a s k) (z : Produces a s k) (y : ℕ)
      (ys : Bytes) (small : length (y ∷ ys) ≤ k) where
    received-Receives :
        (this : Io C K W)
        → this.fd ≡ some fd
        → Watched epoll fd this.loop this.events this.world
        → Ends
            (Receives this s (y ∷ ys))
            (received epoll system a s.buffer.size z.after s.buffer.size (moved (y ∷ ys)) this)
    unfolding received
    received-Receives this own watched =
        let some_bytes : 0 < length (y ∷ ys) = omega arith in
        rw
          (
            fill_lem a s k r z (y ∷ ys) some_bytes small,
            let e : add_size s.buffer.size (length (y ∷ ys)) ≡ s.buffer.size + length (y ∷ ys) =
                  omega (arith, small, r.room, r.fits, r.valid.maximum_fits) in
                e,
            resize_lem a s k r z (y ∷ ys) some_bytes small,
          )
          (after_read-Receives a s (taken a s k r z (y ∷ ys) some_bytes small) (y ∷ ys) this _
            (sym (
              full-size (taken a s k r z (y ∷ ys) some_bytes small)
                (omega (arith, r.bounded, z.same_maximum))
              ∙ ap (λ m. s.buffer.size + length (y ∷ ys) == m) z.same_maximum))
            (record {
              valid = taken-IsValid a s k r z (y ∷ ys) some_bytes small;
              appended = taken-contents a s k r z (y ∷ ys) some_bytes small;
              same_maximum = z.same_maximum;
            })
            own watched)

  Receives-callback :
      {this other : Io C K W} {s : Sink} {ys : Bytes} {r : Io C K W × Way × Option (Notice K)}
      → other.read_callback ≡ this.read_callback
      → Receives other s ys r
      → Receives this s ys r
  Receives-callback e (continues after sink h kept more) = continues after sink h kept more
  Receives-callback e (completes after sink notice h gone all quiet told) =
      completes after sink notice h gone all quiet
        (told ∙ ap (λ c. notice_of c (λ callback. read_done callback sink)) e)

  module _ (a : Allocator) (s : Sink) (n : ℕ) (ready : Ready a s (room_for s n)) where
    receive_available-Receives :
        (this : Io C K W) (y : ℕ) (ys : Bytes)
        → length (y ∷ ys) ≤ room_for s n
        → (system.read_call fd (room_for s n) this.world).0 ≡ moved (y ∷ ys)
        → this.fd ≡ some fd
        → Watched epoll fd this.loop this.events this.world
        → Ends (Receives this s (y ∷ ys)) (receive_available epoll system a fd n s this)
    unfolding receive_available
    receive_available-Receives this y ys small m own watched =
        let z = produce-Produces a s (room_for s n) ready (omega (arith, small)) in
        let holding : Io C K W = record this {
          read_sink = some z.after;
          world = (system.read_call fd (room_for s n) this.world).1;
        } in
        rw (headroom_limited-room a s n ready, z.returns, m)
          (Ends-map
            (received epoll system a s.buffer.size z.after s.buffer.size (moved (y ∷ ys)) holding)
            (λ r.
              Receives-callback {this = this} {other = holding} {s = s} {ys = y ∷ ys} {r = r} refl)
            (received-Receives a s (room_for s n) ready z y ys small holding own (
              Watched-world epoll fd this.loop this.events this.world _
                (t.read_interest fd (room_for s n) this.world fd) watched)))

    -- The read branch of `onEvent` on an open descriptor, whose bounded sink has room and memory for what
    -- FIONREAD promises, and where `::read` returns one byte or more of that: it does not fail, and the
    -- sink then holds its old contents and the bytes that were read. If the sink is full now, it is given
    -- to the callback and the descriptor does not wait to read any more; else it stays for the next time.
    pub receive-Receives :
        (this : Io C K W) (y : ℕ) (ys : Bytes)
        → (system.ioctl fd this.world).0 ≡ replied n
        → (system.read_call fd (room_for s n) (system.ioctl fd this.world).1).0 ≡ moved (y ∷ ys)
        → length (y ∷ ys) ≤ room_for s n
        → this.fd ≡ some fd
        → Watched epoll fd this.loop this.events this.world
        → Ends (Receives this s (y ∷ ys)) (receive epoll system a fd (some s) this)
    unfolding receive
    receive-Receives this y ys asked m small own watched =
        let asking : Io C K W = record this { world = (system.ioctl fd this.world).1 } in
        rw (asked, receive)
          (Ends-map (receive_available epoll system a fd n s asking)
            (λ r.
              Receives-callback {this = this} {other = asking} {s = s} {ys = y ∷ ys} {r = r} refl)
            (receive_available-Receives asking y ys small m own (
              Watched-world epoll fd this.loop this.events this.world _
                (t.ioctl_interest fd this.world fd) watched)))
