-- ===== src/DescriptorIo/Closing.antt =====
-- src/hlib_fdio.cpp: `close` and `callbackAndClose`, with the event loop that they remove the descriptor
-- from.
use hlib.Base.{
  ◌⊎◌, not, ℕ, ◌≡◌, refl, ap, ◌∙◌, sym, Bool, true, false, Option, none, some, [], ◌==◌,
  if◌then◌else◌, ==_iff, Bool-cases, inl, inr,
}
use hlib.Buffer.{Allocator}
use hlib.Buffer.Capacity.{is_null}
use hlib.DescriptorIo.{System, Io, Notice, closing, notice_of}
use hlib.DescriptorIo.Handling.{remove_from_loop, close, call_back, callback_and_close}
use hlib.DescriptorIo.Queue.{Ends, Ends-bind}
use hlib.EventLoop.{EventLoop, remove}
use hlib.EventLoop.Kernel.{no_events, Epoll, deletes}
use hlib.EventLoop.Registered.{IsConsistent, controlled-IsConsistent}

-- A descriptor that epoll watches can be removed, and epoll watches none that is closed.
pub record Unwatching {W : Type 0} (epoll : Epoll W) (system : System W) : Type 0 where
  pub removable :
      (fd : ℕ) (world : W)
      → is_null (epoll.interest world fd) ≡ false
      → (epoll.epoll_ctl deletes fd no_events world).0 ≡ none
  pub unwatched :
      (fd : ℕ) (world : W) (k : ℕ)
      → epoll.interest (system.close_call fd world) k
        ≡ (if k == fd then none else epoll.interest world k)

-- Whether the loop, unless it is gone, has a callback of the descriptor, or none.
abbrev pub Entered : {C : Type 0} → Bool → Option (EventLoop C) → ℕ → Type 0
Entered has none fd = Unit {0}
Entered has (some loop) fd = is_null (loop.callbacks fd) ≡ not has

-- The loop, unless it is gone, has callbacks for just the descriptors that epoll watches.
abbrev pub Agreed : {C W : Type 0} → Epoll W → Option (EventLoop C) → W → Type 0
Agreed epoll none world = Unit {0}
Agreed epoll (some loop) world = IsConsistent epoll loop world

module _ {C K W : Type 0} (epoll : Epoll W) where
  -- A descriptor that is closed: it waits for nothing, and nothing is queued.
  pub record IsClosed (this : Io C K W) : Type 0 where
    pub own : this.fd ≡ none
    pub quiet : this.events ≡ no_events
    pub no_sink : this.read_sink ≡ none
    pub no_queue : this.write_queue ≡ []
    pub agreed : Agreed epoll this.loop this.world

  -- A descriptor that is open and in the loop.
  pub record IsOpen (fd : ℕ) (this : Io C K W) : Type 0 where
    pub own : this.fd ≡ some fd
    pub entered : Entered true this.loop fd
    pub agreed : Agreed epoll this.loop this.world

  -- A descriptor between two calls.
  abbrev pub IsReady : Io C K W → Type 0
  IsReady this = IsClosed this ⊎ ((fd : ℕ) × IsOpen fd this)

-- A call that tests for a null pointer.
module _ {ℓ} {A : Type ℓ} {X : Type 0} (P : A → Type 0) (o : Option X) (nothing : Option A)
    (something : X → Option A) where
  Ends-none : o ≡ none → Ends P nothing → Ends P (elim o [ none ↦ nothing | some x ↦ something x ])
  Ends-none e h = rw e h

  Ends-some :
      (x : X)
      → o ≡ some x
      → Ends P (something x)
      → Ends P (elim o [ none ↦ nothing | some x ↦ something x ])
  Ends-some x e h = rw e h

module _ {C W : Type 0} {epoll : Epoll W} {system : System W} (u : Unwatching epoll system) where
  -- The call of `close` leaves the loop and epoll in agreement.
  close_call-Agreed :
      (fd : ℕ) (loop : Option (EventLoop C)) (world : W)
      → Entered false loop fd
      → Agreed epoll loop world
      → Agreed epoll loop (system.close_call fd world)
  close_call-Agreed fd none world left h = tt
  close_call-Agreed fd (some loop) world left h = λ k.
      elim (Bool-cases (k == fd)) [
        | inl e ↦ rw e (ap (λ i. is_null (loop.callbacks i)) ((==_iff k fd).0 e) ∙ left)
        | inr e ↦ rw e (h k)
      ]
      ∙ ap is_null (sym (u.unwatched fd world k))

module _ {C K W : Type 0} {epoll : Epoll W} {system : System W} (u : Unwatching epoll system) where
  -- Behind the removal from the loop.
  record Removed (fd : ℕ) (after : Io C K W) : Type 0 where
    left : Entered false after.loop fd
    agreed : Agreed epoll after.loop after.world

  remove_from_loop-Removed :
      (fd : ℕ) (loop : Option (EventLoop C)) (this : Io C K W)
      → this.loop ≡ loop
      → IsOpen epoll fd this
      → Ends (Removed fd) (remove_from_loop epoll system loop this)
  unfolding remove
  remove_from_loop-Removed fd none this e v = record { left = rw e tt; agreed = rw e tt }
  remove_from_loop-Removed fd (some loop) this e v =
      let entered : is_null (loop.callbacks fd) ≡ false = rw e at v.entered in
      let agreed : IsConsistent epoll loop this.world = rw e at v.agreed in
      let done = u.removable fd this.world (sym (agreed fd) ∙ entered) in
      rw (v.own, entered, done)
        (record {
          left = rw ((==_iff fd fd).1 refl) refl;
          agreed =
              controlled-IsConsistent epoll deletes fd no_events loop this.world none agreed refl
                done;
        })

  -- `close` of a descriptor that is open in the loop, or closed already.
  pub close-IsClosed :
      (this : Io C K W) → IsReady epoll this → Ends (IsClosed epoll) (close epoll system this)
  unfolding close
  close-IsClosed this (inl closed) =
      Ends-none (IsClosed epoll) this.fd (some this) _ closed.own closed
  close-IsClosed this (inr (fd, v)) = Ends-some (IsClosed epoll) this.fd (some this) _ fd v.own (
      Ends-bind (Removed fd) (IsClosed epoll) (remove_from_loop epoll system this.loop this) _
        (λ after r. record {
          own = refl;
          quiet = refl;
          no_sink = refl;
          no_queue = refl;
          agreed = close_call-Agreed u fd after.loop after.world r.left r.agreed;
        })
        (remove_from_loop-Removed fd this.loop this refl v))

  module _ (a : Allocator) (call : Notice K → Io C K W → Option (Io C K W))
      (calls_keep : (notice : Notice K) (this : Io C K W)
        → IsReady epoll this
        → Ends (IsReady epoll) (call notice this)) where
    call_back-IsReady :
        (notice : Option (Notice K)) (this : Io C K W)
        → IsReady epoll this
        → Ends (IsReady epoll) (call_back epoll system a call notice this)
    call_back-IsReady none this h = h
    call_back-IsReady (some notice) this h = calls_keep notice this h

    -- `callbackAndClose` of a descriptor that is open in its loop, or closed already, ends with the
    -- descriptor closed, whatever the error is and whatever the callback has done that leaves it open or
    -- closed: it waits for nothing, nothing is queued, and the loop has callbacks for just the descriptors
    -- that epoll watches.
    pub callback_and_close-IsClosed :
        (error : ℕ) (this : Io C K W)
        → IsReady epoll this
        → Ends (IsClosed epoll) (callback_and_close epoll system a call error this)
    unfolding callback_and_close
    callback_and_close-IsClosed error this h =
        Ends-bind (IsReady epoll) (IsClosed epoll) _ _ close-IsClosed
          (call_back-IsReady (notice_of this.on_close (λ callback. closing callback error)) this h)
