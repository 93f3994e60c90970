-- ===== src/DescriptorIo/Draining.antt =====
-- src/hlib_fdio.cpp: the queue of sources that is sent while the descriptor can be written.
use hlib.Base.{
  Bool, ℕ, zero, suc, ◌+◌, ◌≤◌, ◌<◌, ◌≡◌, ◌⊎◌, refl, ap, ◌∙◌, sym, arith, true, false, not, Option,
  none, some, ◌>>=◌, List, [], ◌∷◌, ◌++◌, append-nil, length-append, Bytes, length, ◌==◌, ==_iff,
  if◌then◌else◌, Bool-cases, inl, inr,
}
use hlib.DescriptorIo.{
  System, Send, Io, Notice, Way, goes_on, is_empty_queue, update_events, after_write, sent,
  send_front,
}
use hlib.DescriptorIo.Queue.{
  Ends, Ends-map, Ends-bind, Transport, IsSource, remaining, pending, AllSources, Watched, IsArmed,
  Watched-world,
}
use hlib.DescriptorIo.Sending.{Sends, send_front-Sends}
use hlib.DescriptorIo.Streaming.{went_on}
use hlib.DescriptorIo.Sources.{
  advanced, left, length-remaining, available_lem, peek_lem, consume_lem, advanced-IsSource,
  offered, remaining-advanced, is_empty_lem,
}
use hlib.DescriptorIo.Writing.{update_events-Updates}
use hlib.EventLoop.Kernel.{Epoll}
use hlib.File.{Transfer, moved, failed}
use hlib.Stream.{Source}

-- A call that ends with a result that P is true of and Q.
Ends-both {ℓ} :
    {A : Type ℓ} (P Q : A → Type 0) (result : Option A)
    → Ends P result
    → Ends Q result
    → Ends (λ a. P a × Q a) result
Ends-both P Q none p q = p
Ends-both P Q (some a) p q = (p, q)

Ends-elim {ℓ} :
    {A : Type ℓ} (P : A → Type 0) (b : Bool) (otherwise taken : Option A)
    → (b ≡ false → Ends P otherwise)
    → (b ≡ true → Ends P taken)
    → Ends P (elim b [ false ↦ otherwise | true ↦ taken ])
Ends-elim P true otherwise taken f t = t refl
Ends-elim P false otherwise taken f t = f refl

-- `::write` does not fail, and takes at least one byte of those it is given.
abbrev pub Accepts : {W : Type 0} → System W → ℕ → Type 0
Accepts {W} system fd =
    (bytes : Bytes) (world : W)
    → (ys : Bytes) × ((system.write_call fd bytes world).0 ≡ moved ys)
      × ((bytes ≡ []) ⊎ (1 ≤ length ys))

-- what a queue has to send: its bytes, and its sources
abbrev pub work : {K : Type 0} → List (Send K) → ℕ
work queue = length (pending queue) + length queue

module _ {K : Type 0} where
  no_work : (queue : List (Send K)) → work queue ≤ 0 → queue ≡ []
  no_work [] h = refl
  no_work (send ∷ queue) h = absurd (omega arith)

  no_source : (queue : List (Send K)) → not (is_empty_queue queue) ≡ false → queue ≡ []
  no_source [] h = refl
  no_source (send ∷ queue) h = absurd (cc h)

module _ {C K W : Type 0} (epoll : Epoll W) (system : System W) (fd : ℕ) where
  -- The reports that the descriptor can be written, one after the other and at most so many, which epoll
  -- makes while the descriptor waits to write.
  abbrev pub reports : ℕ → Io C K W → Option (Io C K W)
  reports zero this = some this
  reports (suc n) this = elim this.events.writes [
    | false ↦ some this
    | true ↦ send_front epoll system fd this.write_queue this >>= λ r. reports n r.0
  ]

module _ {C K W : Type 0} {epoll : Epoll W} {system : System W} (t : Transport epoll system)
    (fd : ℕ) where
  -- The front is gone from the queue, or it has less left.
  abbrev Shrinks : List (Send K) → Io C K W × Way × Option (Notice K) → Type 0
  Shrinks queue r = (r.1 ≡ goes_on) × (work r.0.write_queue < work queue)

  module _ (source : Source) (callback : Option K) (queue : List (Send K)) (this : Io C K W)
      (s : IsSource source) (own : this.fd ≡ some fd)
      (watched : Watched epoll fd this.loop this.events this.world) (ys rest : Bytes)
      (taken : remaining source ≡ ys ++ rest)
      (some_taken : (remaining source ≡ []) ⊎ (1 ≤ length ys)) where
    abbrev whole : List (Send K)
    whole = record { source = source; callback = callback } ∷ queue

    work-whole :
        work whole ≡ length (remaining source) + length (pending queue) + suc (length queue)
    unfolding pending
    work-whole = ap (λ n. n + length whole) (length-append (remaining source) (pending queue))

    popped_queue :
        Ends
          (λ (after : Io C K W). after.write_queue ≡ queue)
          (if is_empty_queue queue
            then update_events epoll
                (record (this.events) { writes = false })
                (record this { write_queue = queue })
            else some (record this { write_queue = queue }))
    popped_queue = elim (Bool-cases (is_empty_queue queue)) [
      | inl empty ↦ rw empty (
          Ends-map
            (update_events epoll (record (this.events) { writes = false })
              (record this { write_queue = queue }))
            (λ after u. u.same_queue)
            (update_events-Updates t fd (record (this.events) { writes = false })
              (record this { write_queue = queue }) own watched))
      | inr more ↦ rw more refl
    ]

    abbrev rest_of : Source
    rest_of = advanced source (length ys)

    abbrev kept : List (Send K)
    kept = record { source = rest_of; callback = callback } ∷ queue

    small : length ys ≤ left source s
    small = (remaining-advanced source s ys rest taken).0

    rest_of-IsSource : IsSource rest_of
    rest_of-IsSource = advanced-IsSource source s (length ys) small

    shorter : length (remaining source) ≡ length ys + length (remaining rest_of)
    shorter =
        ap length taken
        ∙ length-append ys rest
        ∙ ap (λ xs. length ys + length xs) (sym (remaining-advanced source s ys rest taken).1)

    popped_work :
        (after : Io C K W) → after.write_queue ≡ queue → work after.write_queue < work whole
    popped_work after e = rw e (omega (arith, work-whole))

    kept-Shrinks : (rest_of.progress == length source.bytes) ≡ false → work kept < work whole
    unfolding pending
    kept-Shrinks more = elim some_taken [
      | inr taken_some ↦ omega (
        arith,
        work-whole,
        shorter,
        taken_some,
        length-append (remaining rest_of) (pending queue),
      )
      | inl nothing ↦
          absurd (cc (sym more ∙ (==_iff rest_of.progress (length source.bytes)).1 (done nothing)))
    ]
      where
        done : remaining source ≡ [] → rest_of.progress ≡ length source.bytes
        done nothing = omega (arith, ap length nothing, length-remaining source s, s.within, small)

    sent-Shrinks : Ends (Shrinks whole) (sent epoll system source callback queue (length ys) this)
    unfolding sent
    sent-Shrinks =
        rw (consume_lem source s (length ys) small, is_empty_lem rest_of rest_of-IsSource)
          (elim (Bool-cases (rest_of.progress == length source.bytes)) [
            | inr more ↦ rw more (refl, kept-Shrinks more)
            | inl all ↦ rw all (
                Ends-bind (λ (after : Io C K W). after.write_queue ≡ queue) (Shrinks whole) _ _
                  (λ after e. (refl, popped_work after e)) popped_queue)
          ])

  after_write-Shrinks :
      (send : Send K) (queue : List (Send K)) (r : Transfer × W) (this : Io C K W)
      → AllSources (send ∷ queue)
      → this.fd ≡ some fd
      → Watched epoll fd this.loop this.events this.world
      → epoll.interest r.1 fd ≡ epoll.interest this.world fd
      → ((ys : Bytes) → r.0 ≡ moved ys → (rest : Bytes) × (remaining send.source ≡ ys ++ rest))
      → (ys : Bytes) × (r.0 ≡ moved ys) × ((remaining send.source ≡ []) ⊎ (1 ≤ length ys))
      → Ends (Shrinks (send ∷ queue)) (after_write epoll system send queue r this)
  after_write-Shrinks send queue (failed e, next) this all own watched same wrote
        (ys, moves, some_taken) =
      absurd (cc moves)
  after_write-Shrinks send queue (moved zs, next) this all own watched same wrote
        (ys, moves, some_taken) =
      let (rest, taken) = wrote zs refl in
      sent-Shrinks send.source send.callback queue (record this { world = next }) all.0 own
        (Watched-world epoll fd this.loop this.events this.world next same watched) zs rest taken
        (let same : ys ≡ zs = cc moves in rw same at some_taken)

  front-Shrinks :
      Accepts system fd
      → (queue : List (Send K)) (this : Io C K W) → this.write_queue ≡ queue
      → IsArmed epoll fd this
      → this.events.writes ≡ true
      → Ends (Shrinks queue) (send_front epoll system fd queue this)
  unfolding send_front
  front-Shrinks accepts [] this e v writes =
      absurd (cc (sym writes ∙ v.armed ∙ ap (λ q. not (is_empty_queue q)) e))
  front-Shrinks accepts (send ∷ queue) this e v writes =
      let all : AllSources (send ∷ queue) = rw e at v.sources in
      let bytes = remaining send.source in
      rw
        (
          available_lem send.source all.0,
          peek_lem send.source all.0 (left send.source all.0) (omega arith),
          offered send.source all.0,
        )
        (after_write-Shrinks send queue (system.write_call fd bytes this.world) this all v.own
          v.watched (t.write_interest fd bytes this.world fd)
          (λ ys m. let (rest, taken, output) = t.wrote fd bytes ys this.world m in (rest, taken))
          (accepts bytes this.world))

  -- Everything that was queued has been sent, and nothing more, and the descriptor waits to write no more.
  pub record Drained (this after : Io C K W) : Type 0 where
    pub emptied : after.write_queue ≡ []
    pub idle : after.events.writes ≡ false
    pub all_sent : t.output fd after.world ≡ t.output fd this.world ++ pending this.write_queue

  idle-Drained :
      (this : Io C K W) → IsArmed epoll fd this → this.write_queue ≡ [] → Drained this this
  unfolding pending
  idle-Drained this v e = record {
    emptied = e;
    idle = v.armed ∙ ap (λ q. not (is_empty_queue q)) e;
    all_sent = rw e (sym (append-nil (t.output fd this.world)));
  }

  -- The queue of an open descriptor is emptied, while `::write` takes at least one byte whenever it is
  -- given some and does not fail: after at most as many reports as there are bytes and sources, all the
  -- bytes have been sent in order, no source is left and the descriptor no longer waits to write.
  pub reports-Drains :
      Accepts system fd
      → (n : ℕ) (this : Io C K W) → IsArmed epoll fd this
      → work this.write_queue ≤ n
      → Ends (Drained this) (reports epoll system fd n this)
  reports-Drains accepts zero this v enough = idle-Drained this v (no_work this.write_queue enough)
  reports-Drains accepts (suc n) this v enough =
      Ends-elim (Drained this) this.events.writes _ _
        (λ quiet. idle-Drained this v (no_source this.write_queue (sym v.armed ∙ quiet)))
        (λ writes.
          Ends-bind (λ r. Sends t fd this r × Shrinks this.write_queue r) (Drained this) _ _
            (λ r h.
              let (further, less) = h.1 in
              let (armed, order) = went_on t fd this h.0 further in
              Ends-map (reports epoll system fd n r.0)
                (λ last d. record {
                  emptied = d.emptied;
                  idle = d.idle;
                  all_sent = d.all_sent ∙ order;
                })
                (reports-Drains accepts n r.0 armed (omega (arith, less, enough))))
            (Ends-both (Sends t fd this) (Shrinks this.write_queue) _
              (send_front-Sends t fd this v writes)
              (front-Shrinks accepts this.write_queue this refl v writes)))
