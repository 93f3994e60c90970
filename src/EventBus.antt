-- ===== src/EventBus.antt =====
-- src/hlib_event_bus.cpp: subscriptions of event queues to actions. An event queue is known by a
-- number, and `std::weak_ptr::lock` finds it while it lives. What is pushed on a queue is the
-- callback of a subscription, known by a name in C, with the data that is bound to it. Every
-- operation holds the mutex from its first look at the map to its end, and so is one step.
pub mod Map
pub mod Subscribing
pub mod Delivering
pub mod Broadcasting
mod Tests
use hlib.Base.{
  ℕ, ◌==◌, Bool, true, false, not, ◌||◌, Option, none, some, ◌>>=◌, List, [], ◌∷◌, Bytes,
  if◌then◌else◌,
}
use hlib.EventQueue.{EventQueue, push}
use hlib.EventBus.Map.{lookup, insert_or_assign, erase_key, keep}

abbrev pub is_null : {A : Type 0} → Option A → Bool
is_null none = true
is_null (some a) = false

module _ (C : Type 0) where
  -- `struct Subscription`. A null pointer, and a function that is empty, is `none`.
  pub record Subscription : Type 0 where
    pub queue : Option ℕ
    pub callback : Option C

  -- the subscriptions of an action, by name
  abbrev pub Names : Type 0
  Names = List (Bytes × Subscription)

  -- `m_actions`
  abbrev pub Actions : Type 0
  Actions = List (Bytes × Names)

  -- The event queues that are alive, with callbacks to which data is bound.
  abbrev pub Queues : Type 0 → Type 0
  Queues D = ℕ → Option (EventQueue (Option C × D))

module _ {C : Type 0} where
  -- `Subscription{}`
  abbrev pub no_subscription : Subscription C
  no_subscription = record { queue = none; callback = none }

  -- the subscription under an action and a name, if there is one
  abbrev pub lookup_name : Bytes → Option (Names C) → Option (Subscription C)
  lookup_name name none = none
  lookup_name name (some names) = lookup name names

  abbrev or_no_subscription : Option (Subscription C) → Subscription C
  or_no_subscription none = no_subscription
  or_no_subscription (some s) = s

  unfoldable pub get : Bytes → Bytes → Actions C → Subscription C
  unfolding lookup
  get name action actions = or_no_subscription (lookup_name name (lookup action actions))

  abbrev pub names_or_empty : Option (Names C) → Names C
  names_or_empty none = []
  names_or_empty (some names) = names

  abbrev pub is_empty_map : Names C → Bool
  is_empty_map [] = true
  is_empty_map (x ∷ names) = false

  -- the erasure of a name under its action, and of all actions that are left without any
  abbrev pub unsubscribe_at :
      Bytes → Bytes → Actions C → Names C → Option (Subscription C) → Actions C
  unsubscribe_at name action actions names none = actions
  unsubscribe_at name action actions names (some s) =
      keep (λ names. not (is_empty_map names))
        (insert_or_assign action (erase_key name names) actions)

  abbrev pub unsubscribe_in : Bytes → Bytes → Actions C → Option (Names C) → Actions C
  unsubscribe_in name action actions none = actions
  unsubscribe_in name action actions (some names) =
      unsubscribe_at name action actions names (lookup name names)

  unfoldable pub unsubscribe : Bytes → Bytes → Actions C → Actions C
  unfolding lookup insert_or_assign erase_key keep
  unsubscribe name action actions = unsubscribe_in name action actions (lookup action actions)

module _ {C D : Type 0} where
  -- `weak_ptr::lock`: the queue, while it lives
  abbrev pub alive : ℕ → Option (EventQueue (Option C × D)) → Option ℕ
  alive i none = none
  alive i (some q) = some i

  abbrev pub lock : Option ℕ → Queues C D → Option ℕ
  lock none queues = none
  lock (some i) queues = alive i (queues i)

  -- `weak_ptr::expired`
  abbrev pub expired : Option ℕ → Queues C D → Bool
  expired queue queues = is_null (lock queue queues)

  unfoldable pub subscribe :
      Bytes → Bytes → Subscription C → Queues C D → Actions C → Actions C × Bool
  unfolding lookup insert_or_assign
  subscribe name action subscription queues actions =
      if expired subscription.queue queues || is_null subscription.callback
      then (actions, false)
      else (
        insert_or_assign action
            (insert_or_assign name subscription (names_or_empty (lookup action actions))) actions,
        true,
      )

  -- The overload that takes the parts of a subscription.
  unfoldable pub subscribe_parts :
      Bytes → Bytes → Option ℕ → Option C → Queues C D → Actions C → Actions C × Bool
  unfolding subscribe
  subscribe_parts name action queue callback queues actions =
      subscribe name action (record { queue = queue; callback = callback }) queues actions

  -- `queue->push(callback)`
  unfoldable pub push_on : ℕ → Option C × D → Queues C D → Queues C D
  unfolding push
  push_on i bound queues j = if i == j then (queues j >>= λ q. some (push bound q)) else queues j

  abbrev notify_on :
      Bytes
      → Bytes
      → D
      → Queues C D
      → Actions C
      → Names C
      → Subscription C
      → Option ℕ
      → Actions C × Queues C D
  notify_on name action data' queues actions names s none =
      (insert_or_assign action (erase_key name names) actions, queues)
  notify_on name action data' queues actions names s (some i) =
      (actions, push_on i (s.callback, data') queues)

  abbrev notify_at :
      Bytes
      → Bytes
      → D
      → Queues C D
      → Actions C
      → Names C
      → Option (Subscription C)
      → Actions C × Queues C D
  notify_at name action data' queues actions names none = (actions, queues)
  notify_at name action data' queues actions names (some s) =
      notify_on name action data' queues actions names s (lock s.queue queues)

  abbrev notify_in :
      Bytes → Bytes → D → Queues C D → Actions C → Option (Names C) → Actions C × Queues C D
  notify_in name action data' queues actions none = (actions, queues)
  notify_in name action data' queues actions (some names) =
      notify_at name action data' queues actions names (lookup name names)

  unfoldable pub notify : Bytes → Bytes → D → Queues C D → Actions C → Actions C × Queues C D
  unfolding lookup insert_or_assign erase_key push_on
  notify name action data' queues actions =
      notify_in name action data' queues actions (lookup action actions)

  -- the loop of `broadcast` over the subscriptions of the action
  unfoldable pub broadcast_loop : D → Names C → Queues C D → Names C × Queues C D
  unfolding push_on
  broadcast_loop data' [] queues = ([], queues)
  broadcast_loop data' ((name, s) ∷ names) queues = elim (lock s.queue queues) [
    | none ↦ broadcast_loop data' names queues
    | some i ↦
        let rest = broadcast_loop data' names (push_on i (s.callback, data') queues) in
        ((name, s) ∷ rest.0, rest.1)
  ]

  abbrev broadcast_in :
      Bytes → D → Queues C D → Actions C → Option (Names C) → Actions C × Queues C D
  broadcast_in action data' queues actions none = (actions, queues)
  broadcast_in action data' queues actions (some names) =
      let after = broadcast_loop data' names queues in
      (insert_or_assign action after.0 actions, after.1)

  unfoldable pub broadcast : Bytes → D → Queues C D → Actions C → Actions C × Queues C D
  unfolding lookup insert_or_assign broadcast_loop
  broadcast action data' queues actions =
      broadcast_in action data' queues actions (lookup action actions)
