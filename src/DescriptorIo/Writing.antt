-- ===== src/DescriptorIo/Writing.antt =====
-- src/hlib_fdio.cpp: `write`, and `updateEventsLocked`.
use hlib.Base.{
  ℕ, ◌≡◌, refl, ap, ◌∙◌, Bool, true, false, not, ◌&&◌, Option, none, some, List, [], ◌∷◌, ◌++◌,
  append-nil, ==_iff, Bool-cases, inl, inr,
}
use hlib.DescriptorIo.{
  System, Send, Io, is_empty_queue, same_bit, same_events, update_in, update_events, write_from,
}
use hlib.EventLoop.{EventLoop, succeeded, modify}
use hlib.EventLoop.Kernel.{Fd, Events, Epoll, modifies}
use hlib.Stream.{Source}
use hlib.DescriptorIo.Queue.{
  Ends, Ends-map, Transport, IsSource, remaining, pending, AllSources, pending-append,
  AllSources-append, Watched, IsArmed,
}

module _ {W : Type 0} {epoll : Epoll W} {system : System W} (t : Transport epoll system)
    (fd : ℕ) where
  modify_granted :
      (own : Fd) (events wanted : Events) (world : W)
      → own ≡ some fd
      → epoll.interest world fd ≡ some wanted
      → modify epoll own events world
        ≡ some (succeeded, (epoll.epoll_ctl modifies fd events world).1)
  unfolding modify
  modify_granted own events wanted world e h = rw (e, t.granted fd events wanted world h) refl

same_bit_refl : (b : Bool) → same_bit b b ≡ true
same_bit_refl true = refl
same_bit_refl false = refl

same_events_refl : (e : Events) → same_events e e ≡ true
same_events_refl e =
    rw
      (
        same_bit_refl e.reads,
        same_bit_refl e.writes,
        same_bit_refl e.errs,
        same_bit_refl e.hup,
        same_bit_refl e.rd_hup,
      )
      refl

-- Events that get the bit to write differ from those that do not have it.
differs-writes :
    (e : Events) → e.writes ≡ false → same_events (record e { writes = true }) e ≡ false
differs-writes e h = rw (same_bit_refl e.reads) (writes e.writes _ _ _ h)
  where
    writes : (b x y z : Bool) → b ≡ false → (((b && x) && y) && z) ≡ false
    writes true x y z h = absurd (cc h)
    writes false x y z h = refl

module _ {C K W : Type 0} {epoll : Epoll W} {system : System W} (t : Transport epoll system)
    (fd : ℕ) where
  -- What `updateEventsLocked` changes.
  pub record Updates (this : Io C K W) (events : Events) (after : Io C K W) : Type 0 where
    pub own : after.fd ≡ this.fd
    pub same_queue : after.write_queue ≡ this.write_queue
    pub noted : after.events ≡ events
    pub watched : Watched epoll fd after.loop after.events after.world
    pub same_output : t.output fd after.world ≡ t.output fd this.world
    pub same_callback : after.read_callback ≡ this.read_callback

  update_in-Updates :
      (loop : Option (EventLoop C)) (events : Events) (this : Io C K W)
      → this.loop ≡ loop
      → this.fd ≡ some fd
      → Watched epoll fd this.loop this.events this.world
      → Ends (Updates this events) (update_in epoll loop events this)
  update_in-Updates none events this e own h = record {
    own = refl;
    same_queue = refl;
    noted = refl;
    watched = rw e tt;
    same_output = refl;
    same_callback = refl;
  }
  update_in-Updates (some loop) events this e own h =
      let asked : epoll.interest this.world fd ≡ some this.events = rw e at h in
      let done = t.granted fd events this.events this.world asked in
      rw (modify_granted t fd this.fd events this.events this.world own asked) (record {
        own = refl;
        same_queue = refl;
        noted = refl;
        watched = rw e (
            epoll.controlled modifies fd events this.world fd done
            ∙ rw ((==_iff fd fd).1 refl) refl);
        same_output = t.modify_output fd events this.world;
        same_callback = refl;
      })

  pub update_events-Updates :
      (events : Events) (this : Io C K W)
      → this.fd ≡ some fd
      → Watched epoll fd this.loop this.events this.world
      → Ends (Updates this events) (update_events epoll events this)
  unfolding update_events
  update_events-Updates events this own h = update_in-Updates this.loop events this refl own h

  -- How `write(source, callback)` ends.
  pub record Queues (this : Io C K W) (source : Source) (after : Io C K W) : Type 0 where
    pub armed : IsArmed epoll fd after
    pub queued : pending after.write_queue ≡ pending this.write_queue ++ remaining source
    pub same_output : t.output fd after.world ≡ t.output fd this.world

  module _ (this : Io C K W) (source : Source) (callback : Option K) (v : IsArmed epoll fd this)
      (s : IsSource source) where
    abbrev queue : List (Send K)
    queue = this.write_queue ++ record { source = source; callback = callback } ∷ []

    queue-sources : AllSources queue
    queue-sources = AllSources-append this.write_queue _ v.sources (s, tt)

    queue-pending : pending queue ≡ pending this.write_queue ++ remaining source
    unfolding pending
    queue-pending =
        pending-append this.write_queue _
        ∙ ap (λ t. pending this.write_queue ++ t) (append-nil (remaining source))

    queue-filled : is_empty_queue queue ≡ false
    queue-filled = filled this.write_queue _
      where
        filled : (xs : List (Send K)) (x : Send K) → is_empty_queue (xs ++ x ∷ []) ≡ false
        filled [] x = refl
        filled (y ∷ xs) x = refl

    -- the state behind the call of `updateEventsLocked`, or without it
    updated-Queues :
        (after : Io C K W)
        → Updates
            (record this { write_queue = queue })
            (record (this.events) { writes = true })
            after
        → Queues this source after
    updated-Queues after u = record {
      armed = record {
        own = u.own ∙ v.own;
        sources = rw (u.same_queue) queue-sources;
        armed = ap (λ (e : Events). e.writes) u.noted ∙ rw (u.same_queue, queue-filled) refl;
        watched = u.watched;
      };
      queued = rw (u.same_queue) queue-pending;
      same_output = u.same_output;
    }

    -- `write(source, callback)` of an open descriptor puts the source behind those that are queued, sends
    -- nothing itself, and has epoll wait to write.
    pub write_from-Queues : Ends (Queues this source) (write_from epoll source callback this)
    unfolding write_from update_events
    write_from-Queues = elim (Bool-cases (is_empty_queue this.write_queue)) [
      | inl empty ↦
          let idle : this.events.writes ≡ false = v.armed ∙ ap not empty in
          rw (empty, differs-writes this.events idle)
            (Ends-map
              (update_events epoll (record (this.events) { writes = true })
                (record this { write_queue = queue }))
              updated-Queues
              (update_events-Updates (record (this.events) { writes = true })
                (record this { write_queue = queue }) v.own v.watched))
      | inr more ↦
          rw (more, same_events_refl this.events)
            (record {
              armed = record {
                own = v.own;
                sources = queue-sources;
                armed = v.armed ∙ rw (more, queue-filled) refl;
                watched = v.watched;
              };
              queued = queue-pending;
              same_output = refl;
            })
    ]
