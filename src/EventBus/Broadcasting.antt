-- ===== src/EventBus/Broadcasting.antt =====
-- src/hlib_event_bus.cpp: what `notify` and `broadcast` do to the subscriptions and to the queues.
use hlib.Base.{
  ℕ, ◌≡◌, refl, ap, sym, ◌∙◌, Option, none, some, [], ◌∷◌, Bytes, Bool-cases, Option-cases, inl,
  inr, if◌then◌else◌,
}
use hlib.Strings.Integers.{equals}
use hlib.EventBus.Map.{lookup, keep, kept, IsMap, equals_sound, lookup-insert_or_assign}
use hlib.EventBus.{
  Subscription, Names, Actions, Queues, names_or_empty, lookup_name, lock, push_on, notify,
  broadcast_loop, broadcast,
}
use hlib.EventBus.Subscribing.{Updates, same-Updates, erased-Updates, subscription_at}
use hlib.EventBus.Delivering.{
  due, with_pushed, is_live, broadcast_loop-queues, broadcast_loop-keep, push_on-queues,
  with_pushed-nil, none-due, dead, locked, is_for, points_to,
}

module _ {C : Type 0} where
  -- A subscription as the only one.
  abbrev pub single : Bytes → Option (Subscription C) → Names C
  single name none = []
  single name (some s) = (name, s) ∷ []

  at_action :
      (a action : Bytes) {x y : Option (Names C)} (f : Option (Names C) → Option (Names C))
      (actions : Actions C)
      → lookup action actions ≡ x
      → f x ≡ y
      → (if equals a action then y else lookup a actions)
        ≡ (if equals a action then f (lookup a actions) else lookup a actions)
  at_action a action f actions e g = elim (Bool-cases (equals a action)) [
    | inl h ↦
        rw h (sym g ∙ ap f (sym e ∙ ap (λ t. lookup t actions) (sym (equals_sound a action h))))
    | inr h ↦ rw h refl
  ]

module _ {C D : Type 0} where
  -- The subscriptions of an action without those whose queue is gone.
  abbrev pub live_names : Queues C D → Option (Names C) → Option (Names C)
  live_names queues none = none
  live_names queues (some names) = some (keep (is_live queues) names)

  pub record Broadcasts (action : Bytes) (data' : D) (queues : Queues C D) (actions : Actions C)
      : Type 0 where
    pub subscriptions :
        (a : Bytes)
        → lookup a (broadcast action data' queues actions).0
          ≡ (if equals a action then live_names queues (lookup a actions) else lookup a actions)
    pub pushed :
        (j : ℕ)
        → (broadcast action data' queues actions).1 j
          ≡ with_pushed (due j data' (names_or_empty (lookup action actions))) (queues j)

  pub record Notifies (name action : Bytes) (data' : D) (queues : Queues C D) (actions : Actions C)
      : Type 0 where
    pub subscriptions :
        Updates name action
          (kept (is_live queues) (subscription_at name action actions))
          actions
          (notify name action data' queues actions).0
    pub pushed :
        (j : ℕ)
        → (notify name action data' queues actions).1 j
          ≡ with_pushed (due j data' (single name (subscription_at name action actions))) (queues j)

  broadcast-Broadcasts :
      (action : Bytes) (data' : D) (queues : Queues C D) (actions : Actions C)
      → Broadcasts action data' queues actions
  unfolding broadcast due
  broadcast-Broadcasts action data' queues actions = elim (Option-cases (lookup action actions)) [
    | inl e ↦ record {
      subscriptions = λ a. rw (e, broadcast) (absent a e);
      pushed = λ j. rw e (with_pushed-nil (queues j));
    }
    | inr (names, e) ↦ record {
      subscriptions = λ a. rw e (
          lookup-insert_or_assign a action (broadcast_loop data' names queues).0 actions
          ∙ at_action a action (live_names queues) actions e
              (ap some (sym (broadcast_loop-keep data' names queues))));
      pushed = λ j. rw e (broadcast_loop-queues data' names queues j);
    }
  ]
    where
      absent :
          (a : Bytes)
          → lookup action actions ≡ none
          → lookup a actions
            ≡ (if equals a action then live_names queues (lookup a actions) else lookup a actions)
      absent a e = elim (Bool-cases (equals a action)) [
        | inl h ↦
            let f : lookup a actions ≡ none =
              ap (λ t. lookup t actions) (equals_sound a action h) ∙ e in
            rw (h, f) refl
        | inr h ↦ rw h refl
      ]

  notify-Notifies :
      (name action : Bytes) (data' : D) (queues : Queues C D) (actions : Actions C)
      → IsMap actions
      → Notifies name action data' queues actions
  unfolding notify due
  notify-Notifies name action data' queues actions h = elim (Option-cases (lookup action actions)) [
    | inl e ↦ record {
      subscriptions =
          rw (e, notify) (same-Updates name action none actions h (ap (lookup_name name) e));
      pushed = λ j. rw e (with_pushed-nil (queues j));
    }
    | inr (names, e) ↦ elim (Option-cases (lookup name names)) [
      | inl f ↦ record {
        subscriptions =
            rw (e, f) (same-Updates name action none actions h (ap (lookup_name name) e ∙ f));
        pushed = λ j. rw (e, f) (with_pushed-nil (queues j));
      }
      | inr (s, f) ↦ elim (Option-cases (lock s.queue queues)) [
        | inl g ↦ record {
          subscriptions = rw (e, f, g) (erased-Updates name action names actions h e);
          pushed = λ j.
              rw (e, f, g)
                (with_pushed-nil (queues j)
                  ∙ none-due (is_for j s) (s.callback, data') [] (queues j)
                      (dead s.queue queues j g));
        }
        | inr (i, g) ↦ record {
          subscriptions =
              rw (e, f, g)
                (same-Updates name action (some s) actions h (ap (lookup_name name) e ∙ f));
          pushed = λ j.
              rw (e, f, g)
                (with_pushed-nil (push_on i (s.callback, data') queues j)
                  ∙ push_on-queues i (s.callback, data') [] queues j
                  ∙ ap (λ b. with_pushed (if b then (s.callback, data') ∷ [] else []) (queues j))
                      (sym (ap (points_to j) (locked s.queue queues i g))));
        }
      ]
    ]
  ]

  -- `broadcast` pushes, on every queue that lives and nowhere else, the callbacks of its
  -- subscriptions to the action, each once with the data and in the order in which the map is run
  -- through; it erases the subscriptions to the action whose queue is gone, and no others. `notify`
  -- does so, in a bus where an action has one entry, for the subscription under the name alone.
  pub broadcast_and_notify :
      (name action : Bytes) (data' : D) (queues : Queues C D) (actions : Actions C)
      → IsMap actions
      → Broadcasts action data' queues actions × Notifies name action data' queues actions
  broadcast_and_notify name action data' queues actions h = (
    broadcast-Broadcasts action data' queues actions,
    notify-Notifies name action data' queues actions h,
  )
