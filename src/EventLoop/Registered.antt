-- ===== src/EventLoop/Registered.antt =====
-- src/hlib_event_loop.cpp: the descriptors that have a callback are those that epoll watches.
use hlib.Base.{
  ℕ, ◌≡◌, ◌⊎◌, refl, ap, ◌∙◌, sym, Bool, true, false, Option, none, some, ◌>>=◌, ◌==◌, ==_iff,
  if◌then◌else◌, Bool-cases, Option-cases, inl, inr,
}
use hlib.Buffer.Capacity.{is_null}
use hlib.EventLoop.{
  Callback, EventLoop, Ended, succeeded, failed_with, assign_entry, add, add_to_epoll, modify,
  remove, change,
}
use hlib.EventLoop.Kernel.{Fd, Events, no_events, Epoll, Control, entry_of, adds, modifies, deletes}

-- The calls that change what is registered.
pub data Operation (C : Type 0) : Type 0 where
  adding : Fd → Events → Callback C → Operation C
  modifying : Fd → Events → Operation C
  changing : Fd → Callback C → Operation C
  removing : Fd → Operation C

is_null_if :
    {A : Type 0} (t : Bool) (x y : Option A)
    → is_null (if t then x else y) ≡ (if t then is_null x else is_null y)
is_null_if true x y = refl
is_null_if false x y = refl

-- An entry that is emplaced and erased again, where there was none.
erased :
    {A : Type 0} (fd : ℕ) (entry : Option A) (m : ℕ → Option A) (k : ℕ)
    → m fd ≡ none
    → assign_entry fd none (assign_entry fd entry m) k ≡ m k
erased fd entry m k free = elim (Bool-cases (k == fd)) [
  | inl e ↦ rw e (sym (ap m ((==_iff k fd).0 e) ∙ free))
  | inr e ↦ rw e refl
]

module _ {W C : Type 0} (epoll : Epoll W) where
  abbrev pub apply_operation : Operation C → EventLoop C → W → Option (Ended × EventLoop C × W)
  apply_operation (adding fd events callback) loop world = add epoll fd events callback loop world
  apply_operation (modifying fd events) loop world = do
    (ended, after) ← modify epoll fd events world
    some (ended, loop, after)
  apply_operation (changing fd callback) loop world = do
    changed ← change fd callback loop
    some (succeeded, changed, world)
  apply_operation (removing fd) loop world = do
    (removed, after) ← remove epoll fd loop world
    some (succeeded, removed, after)

  abbrev pub IsConsistent : EventLoop C → W → Type 0
  IsConsistent loop world = (k : ℕ) → is_null (loop.callbacks k) ≡ is_null (epoll.interest world k)

  -- What a call leaves that was made when the loop was consistent.
  pub record Keeps (loop : EventLoop C) (world : W) (ended : Ended) (after : EventLoop C) (next : W)
      : Type 0 where
    pub consistent : IsConsistent after next
    pub as_before :
        (e : ℕ)
        → ended ≡ failed_with e
        → (k : ℕ)
        → (after.callbacks k ≡ loop.callbacks k) × (epoll.interest next k ≡ epoll.interest world k)

  -- `epoll_ctl` and the map, changed for the same descriptor
  pub controlled-IsConsistent :
      (c : Control) (fd : ℕ) (events : Events) (loop : EventLoop C) (world : W)
      (entry : Option (Callback C))
      → IsConsistent loop world
      → is_null entry ≡ is_null (entry_of c events)
      → (epoll.epoll_ctl c fd events world).0 ≡ none
      → IsConsistent
          (record loop { callbacks = assign_entry fd entry loop.callbacks })
          (epoll.epoll_ctl c fd events world).1
  controlled-IsConsistent c fd events loop world entry h same done k =
      is_null_if (k == fd) entry (loop.callbacks k)
      ∙ rw (same, h k) refl
      ∙ sym (is_null_if (k == fd) (entry_of c events) (epoll.interest world k))
      ∙ ap is_null (sym (epoll.controlled c fd events world k done))

  -- The assertion that fails when a call does not return: -1, a descriptor that has a callback already
  -- or has none yet, or one that epoll does not let go.
  abbrev pub Asserted : Operation C → EventLoop C → W → Type 0
  Asserted (adding none events callback) loop world = Unit {0}
  Asserted (adding (some fd) events callback) loop world = is_null (loop.callbacks fd) ≡ false
  Asserted (modifying none events) loop world = Unit {0}
  Asserted (modifying (some fd) events) loop world = ⊥
  Asserted (changing none callback) loop world = Unit {0}
  Asserted (changing (some fd) callback) loop world = is_null (loop.callbacks fd) ≡ true
  Asserted (removing none) loop world = ⊥
  Asserted (removing (some fd)) loop world =
      (is_null (loop.callbacks fd) ≡ true)
      ⊎ (is_null (epoll.epoll_ctl deletes fd no_events world).0 ≡ false)

  -- How a call ends.
  abbrev pub Handles : Operation C → EventLoop C → W → Option (Ended × EventLoop C × W) → Type 0
  Handles op loop world none = Asserted op loop world
  Handles op loop world (some (ended, after, next)) = Keeps loop world ended after next

  changes :
      {loop after : EventLoop C} {world next : W}
      → IsConsistent after next
      → Keeps loop world succeeded after next
  changes h = record { consistent = h; as_before = λ e f. absurd (cc f) }

  -- a control that epoll refuses
  refused-Keeps :
      (c : Control) (fd : ℕ) (events : Events) (loop after : EventLoop C) (world : W) (e : ℕ)
      → IsConsistent loop world
      → ((k : ℕ) → after.callbacks k ≡ loop.callbacks k)
      → (epoll.epoll_ctl c fd events world).0 ≡ some e
      → Keeps loop world (failed_with e) after (epoll.epoll_ctl c fd events world).1
  refused-Keeps c fd events loop after world e h same r = record {
    consistent =
        λ k. ap is_null (same k) ∙ h k ∙ ap is_null (sym (epoll.refused c fd events world e k r));
    as_before = λ e' f k. (same k, epoll.refused c fd events world e k r);
  }

  module _ (loop : EventLoop C) (world : W) (h : IsConsistent loop world) where
    add-Handles :
        (fd : Fd) (events : Events) (callback : Callback C)
        → Handles (adding fd events callback) loop world (add epoll fd events callback loop world)
    unfolding add
    add-Handles none events callback = tt
    add-Handles (some fd) events callback = elim (Option-cases (loop.callbacks fd)) [
      | inr (other, taken) ↦ rw taken (ap is_null taken)
      | inl free ↦ rw free (elim (Option-cases (epoll.epoll_ctl adds fd events world).0) [
        | inl done ↦
            rw (done, add_to_epoll)
              (changes
                (controlled-IsConsistent adds fd events loop world (some callback) h refl done))
        | inr (e, r) ↦
            rw (r, add_to_epoll)
              (refused-Keeps adds fd events loop _ world e h
                (λ k. erased fd (some callback) loop.callbacks k free) r)
      ])
    ]

    modify-Handles :
        (fd : Fd) (events : Events)
        → Handles
            (modifying fd events)
            loop
            world
            (apply_operation (modifying fd events) loop world)
    unfolding modify
    modify-Handles none events = tt
    modify-Handles (some fd) events =
        elim (Option-cases (epoll.epoll_ctl modifies fd events world).0) [
          | inl done ↦ rw done (changes (modified done))
          | inr (e, r) ↦ rw r (refused-Keeps modifies fd events loop loop world e h (λ k. refl) r)
        ]
      where
        modified :
            (epoll.epoll_ctl modifies fd events world).0 ≡ none
            → IsConsistent loop (epoll.epoll_ctl modifies fd events world).1
        modified done k =
            (elim (Bool-cases (k == fd)) [
              | inl e ↦
                  let (wanted, found) = epoll.known fd events world done in
                  h k ∙ rw ((==_iff k fd).0 e, found) (rw ((==_iff fd fd).1 refl) refl)
              | inr e ↦ rw e (h k)
            ])
            ∙ ap is_null (sym (epoll.controlled modifies fd events world k done))

    change-Handles :
        (fd : Fd) (callback : Callback C)
        → Handles
            (changing fd callback)
            loop
            world
            (apply_operation (changing fd callback) loop world)
    unfolding change
    change-Handles none callback = tt
    change-Handles (some fd) callback = elim (Option-cases (loop.callbacks fd)) [
      | inl free ↦ rw free (ap is_null free)
      | inr (other, taken) ↦ rw taken (changes (changed taken))
    ]
      where
        changed :
            {other : Callback C}
            → loop.callbacks fd ≡ some other
            → IsConsistent
                (record loop { callbacks = assign_entry fd (some callback) loop.callbacks })
                world
        changed taken k = elim (Bool-cases (k == fd)) [
          | inl e ↦ rw e (sym (ap is_null (ap loop.callbacks ((==_iff k fd).0 e) ∙ taken)) ∙ h k)
          | inr e ↦ rw e (h k)
        ]

    remove-Handles :
        (fd : Fd) → Handles (removing fd) loop world (apply_operation (removing fd) loop world)
    unfolding remove
    remove-Handles none = changes h
    remove-Handles (some fd) = elim (Option-cases (loop.callbacks fd)) [
      | inl free ↦ rw free (inl (ap is_null free))
      | inr (other, taken) ↦
          rw taken (elim (Option-cases (epoll.epoll_ctl deletes fd no_events world).0) [
            | inl done ↦
                rw done (
                  changes
                    (controlled-IsConsistent deletes fd no_events loop world none h refl done))
            | inr (e, r) ↦ rw r (inr (ap is_null r))
          ])
    ]

    -- Whatever call is made of a consistent loop, of those that register, change, modify and remove a
    -- descriptor: if it returns, the descriptors with a callback are again those that epoll watches, and
    -- if epoll refused, callbacks and interest list are as before. It does not return only for -1, for a
    -- descriptor that is added twice or is not there to be changed or removed, and if epoll refuses to
    -- remove one.
    pub apply_operation-Handles :
        (op : Operation C) → Handles op loop world (apply_operation op loop world)
    apply_operation-Handles (adding fd events callback) = add-Handles fd events callback
    apply_operation-Handles (modifying fd events) = modify-Handles fd events
    apply_operation-Handles (changing fd callback) = change-Handles fd callback
    apply_operation-Handles (removing fd) = remove-Handles fd
