-- ===== src/DescriptorIo/Sending.antt =====
-- src/hlib_fdio.cpp: the write branch of `onEvent`.
use hlib.Base.{
  ℕ, ◌≡◌, refl, ap, ap₂, ◌∙◌, sym, arith, true, false, not, Option, none, some, List, [], ◌∷◌, ◌++◌,
  append_assoc, Bytes, length, ◌==◌, if◌then◌else◌, Bool-cases, inl, inr,
}
use hlib.DescriptorIo.{
  System, Send, Io, Notice, read_done, written, closing, Way, goes_on, closes, is_empty_queue,
  notice_of, update_events, after_write, sent, send_front,
}
use hlib.DescriptorIo.Queue.{
  Ends, Ends-map, Ends-bind, Transport, IsSource, remaining, pending, AllSources, Watched,
  Watched-world, IsArmed,
}
use hlib.DescriptorIo.Writing.{update_events-Updates}
use hlib.EventLoop.Kernel.{Events, Epoll}
use hlib.File.{Transfer, failed, moved}
use hlib.Stream.{Source}
use hlib.DescriptorIo.Sources.{
  advanced, left, available_lem, peek_lem, consume_lem, advanced-IsSource, offered,
  remaining-advanced, is_empty_lem, remaining-none,
}

module _ {K : Type 0} where
  -- A callback that is made for a source is made when nothing of it is left.
  abbrev pub Told : Option (Notice K) → Type 0
  Told none = Unit {0}
  Told (some (written callback source)) = remaining source ≡ []
  Told (some (read_done callback sink)) = ⊥
  Told (some (closing callback error)) = ⊥

  Told-notice_of :
      (callback : Option K) (source : Source)
      → remaining source ≡ []
      → Told (notice_of callback (λ c. written c source))
  Told-notice_of none source h = tt
  Told-notice_of (some callback) source h = h

module _ {C K W : Type 0} {epoll : Epoll W} {system : System W} (t : Transport epoll system)
    (fd : ℕ) where
  -- What the locked part leaves when `::write` has taken the bytes before `rest`.
  record Sent (this : Io C K W) (rest : Bytes) (r : Io C K W × Way × Option (Notice K))
      : Type 0 where
    way : r.1 ≡ goes_on
    armed : IsArmed epoll fd r.0
    left_over : pending r.0.write_queue ≡ rest
    same_output : t.output fd r.0.world ≡ t.output fd this.world
    told : Told r.2

  module _ (source : Source) (callback : Option K) (queue : List (Send K)) (this : Io C K W)
      (s : IsSource source) (sources : AllSources queue) (own : this.fd ≡ some fd)
      (writes : this.events.writes ≡ true)
      (watched : Watched epoll fd this.loop this.events this.world) (ys rest : Bytes)
      (taken : remaining source ≡ ys ++ rest) where
    abbrev rest_of : Source
    rest_of = advanced source (length ys)

    abbrev popped : Io C K W
    popped = record this { write_queue = queue }

    -- the source has not been sent entirely
    kept-Sent : Sent this (rest ++ pending queue) (
      record this { write_queue = record { source = rest_of; callback = callback } ∷ queue },
      goes_on,
      none,
    )
    unfolding pending
    kept-Sent =
        let (small, left_over) = remaining-advanced source s ys rest taken in
        record {
          way = refl;
          armed = record {
            own = own;
            sources = (advanced-IsSource source s (length ys) small, sources);
            armed = writes;
            watched = watched;
          };
          left_over = ap (λ xs. xs ++ pending queue) left_over;
          same_output = refl;
          told = tt;
        }

    -- the queue without its front, and the events that this leaves
    record Shortens (after : Io C K W) : Type 0 where
      same_fd : after.fd ≡ this.fd
      behind : after.write_queue ≡ queue
      armed : after.events.writes ≡ not (is_empty_queue queue)
      watched_still : Watched epoll fd after.loop after.events after.world
      same_output : t.output fd after.world ≡ t.output fd this.world

    popped_lem : Ends Shortens (
        if is_empty_queue queue
        then update_events epoll (record (popped.events) { writes = false }) popped
        else some popped)
    popped_lem = elim (Bool-cases (is_empty_queue queue)) [
      | inl empty ↦ rw empty (
          Ends-map (update_events epoll (record (popped.events) { writes = false }) popped)
            (λ after u. record {
              same_fd = u.own;
              behind = u.same_queue;
              armed = ap (λ (e : Events). e.writes) u.noted ∙ rw empty refl;
              watched_still = u.watched;
              same_output = u.same_output;
            })
            (update_events-Updates t fd (record (popped.events) { writes = false }) popped own
              watched))
      | inr more ↦ rw more (record {
        same_fd = refl;
        behind = refl;
        armed = writes ∙ rw more refl;
        watched_still = watched;
        same_output = refl;
      })
    ]

    -- the source has been sent
    popped-Sent :
        (after : Io C K W)
        → Shortens after
        → remaining rest_of ≡ []
        → Sent this
            (rest ++ pending queue)
            (after, goes_on, notice_of callback (λ c. written c rest_of))
    popped-Sent after p nothing =
        let (small, left_over) = remaining-advanced source s ys rest taken in
        record {
          way = refl;
          armed = record {
            own = p.same_fd ∙ own;
            sources = rw (p.behind) sources;
            armed = p.armed ∙ ap (λ q. not (is_empty_queue q)) (sym p.behind);
            watched = p.watched_still;
          };
          left_over =
              ap pending p.behind ∙ ap (λ xs. xs ++ pending queue) (sym nothing ∙ left_over);
          same_output = p.same_output;
          told = Told-notice_of callback rest_of nothing;
        }

    sent-Sent :
        Ends
          (Sent this (rest ++ pending queue))
          (sent epoll system source callback queue (length ys) this)
    unfolding sent
    sent-Sent =
        let (small, left_over) = remaining-advanced source s ys rest taken in
        let v = advanced-IsSource source s (length ys) small in
        rw (consume_lem source s (length ys) small, is_empty_lem rest_of v)
          (elim (Bool-cases (rest_of.progress == length source.bytes)) [
            | inr more ↦ rw more kept-Sent
            | inl all ↦ rw all (
                Ends-bind Shortens (Sent this (rest ++ pending queue)) _ _
                  (λ after p. popped-Sent after p (remaining-none rest_of v all)) popped_lem)
          ])

  -- How the write branch ends: it closes with the error of `::write`, and has sent nothing; or it goes on.
  pub data Sends (this : Io C K W) : Io C K W × Way × Option (Notice K) → Type 0 where
    breaks :
        (e : ℕ) (after : Io C K W)
        → after.write_queue ≡ this.write_queue
        → Sends this (after, closes e, none)
    sends :
        (after : Io C K W) (notice : Option (Notice K))
        → IsArmed epoll fd after
        → t.output fd after.world ++ pending after.write_queue
          ≡ t.output fd this.world ++ pending this.write_queue
        → Told notice
        → Sends this (after, goes_on, notice)

  Sent-Sends :
      (this : Io C K W) (send : Send K) (queue : List (Send K)) (next : W) (ys rest : Bytes)
      → this.write_queue ≡ send ∷ queue
      → remaining send.source ≡ ys ++ rest
      → t.output fd next ≡ t.output fd this.world ++ ys
      → (r : Io C K W × Way × Option (Notice K))
      → Sent (record this { world = next }) (rest ++ pending queue) r
      → Sends this r
  unfolding pending
  Sent-Sends this send queue next ys rest front taken wrote (after, way, notice) s = rw (s.way) (
      sends after notice s.armed
        (ap₂ (λ xs zs. xs ++ zs) (s.same_output ∙ wrote) s.left_over
          ∙ append_assoc (t.output fd this.world) ys (rest ++ pending queue)
          ∙ ap (λ xs. t.output fd this.world ++ xs)
              (sym (append_assoc ys rest (pending queue))
                ∙ ap (λ xs. xs ++ pending queue) (sym taken)
                ∙ ap pending (sym front)))
        s.told)

  after_write-Sends :
      (send : Send K) (queue : List (Send K)) (r : Transfer × W) (this : Io C K W)
      → this.write_queue ≡ send ∷ queue
      → IsArmed epoll fd this
      → this.events.writes ≡ true
      → epoll.interest r.1 fd ≡ epoll.interest this.world fd
      → ((ys : Bytes)
          → r.0 ≡ moved ys
          → (rest : Bytes) × (remaining send.source ≡ ys ++ rest)
            × (t.output fd r.1 ≡ t.output fd this.world ++ ys))
      → Ends (Sends this) (after_write epoll system send queue r this)
  after_write-Sends send queue (failed error, next) this e v writes same wrote =
      breaks error (record this { world = next }) refl
  after_write-Sends send queue (moved ys, next) this e v writes same wrote =
      let (rest, taken, output) = wrote ys refl in
      let all : AllSources (send ∷ queue) = rw e at v.sources in
      Ends-map
        (sent epoll system send.source send.callback queue (length ys)
          (record this { world = next }))
        (Sent-Sends this send queue next ys rest e taken output)
        (sent-Sent send.source send.callback queue (record this { world = next }) all.0 all.1 v.own
          writes (Watched-world epoll fd this.loop this.events this.world next same v.watched) ys
          rest taken)

  front-Sends :
      (queue : List (Send K)) (this : Io C K W)
      → this.write_queue ≡ queue
      → IsArmed epoll fd this
      → this.events.writes ≡ true
      → Ends (Sends this) (send_front epoll system fd queue this)
  unfolding send_front
  front-Sends [] this e v writes =
      absurd (cc (sym writes ∙ v.armed ∙ ap (λ q. not (is_empty_queue q)) e))
  front-Sends (send ∷ queue) this e v writes =
      let all : AllSources (send ∷ queue) = rw e at v.sources in
      let bytes = remaining send.source in
      rw
        (
          available_lem send.source all.0,
          peek_lem send.source all.0 (left send.source all.0) (omega arith),
          offered send.source all.0,
        )
        (after_write-Sends send queue (system.write_call fd bytes this.world) this e v writes
          (t.write_interest fd bytes this.world fd) (λ ys m. t.wrote fd bytes ys this.world m))

  -- The write branch of `onEvent` on an open descriptor that waits to write does not fail. If `::write` does
  -- not, what has been sent and what is still queued are together what they were, in order; the
  -- descriptor goes on waiting to write exactly if something is queued, and a callback is made only for
  -- a source of which nothing is left. If `::write` fails, the queue is as before, and the descriptor is
  -- to be closed.
  pub send_front-Sends :
      (this : Io C K W)
      → IsArmed epoll fd this
      → this.events.writes ≡ true
      → Ends (Sends this) (send_front epoll system fd this.write_queue this)
  send_front-Sends this v writes = front-Sends this.write_queue this refl v writes
