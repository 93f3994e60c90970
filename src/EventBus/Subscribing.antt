-- ===== src/EventBus/Subscribing.antt =====
-- src/hlib_event_bus.cpp: the subscriptions as a function of the action and the name.
use hlib.Base.{
  ◌≡◌, refl, ap, sym, ◌∙◌, Bool, not, ◌&&◌, ◌||◌, Option, none, some, [], ◌∷◌, Bytes, Bool-cases,
  Option-cases, inl, inr, if◌then◌else◌,
}
use hlib.Strings.Integers.{equals}
use hlib.EventBus.Map.{
  lookup, insert_or_assign, erase_key, keep, IsMap, equals_sound, lookup-insert_or_assign,
  lookup-erase_key, lookup-keep, kept, IsMap-insert_or_assign, IsMap-keep,
}
use hlib.EventBus.{
  Subscription, Names, Actions, Queues, lookup_name, no_subscription, get, is_null, names_or_empty,
  is_empty_map, unsubscribe, expired, subscribe, subscribe_parts,
}

module _ {C : Type 0} where
  abbrev pub subscription_at : Bytes → Bytes → Actions C → Option (Subscription C)
  subscription_at name action actions = lookup_name name (lookup action actions)

  -- The subscriptions are changed at one action and name.
  pub record Updates (name action : Bytes) (s : Option (Subscription C)) (before after : Actions C)
      : Type 0 where
    pub is_map : IsMap after
    pub entries :
        (n a : Bytes)
        → subscription_at n a after
          ≡ (if equals a action && equals n name then s else subscription_at n a before)

  names_or_empty-lookup :
      (n : Bytes) (o : Option (Names C)) → lookup n (names_or_empty o) ≡ lookup_name n o
  unfolding lookup
  names_or_empty-lookup n none = refl
  names_or_empty-lookup n (some names) = refl

  kept-lookup :
      (n : Bytes) (o : Option (Names C))
      → lookup_name n (kept (λ names. not (is_empty_map names)) o) ≡ lookup_name n o
  unfolding lookup
  kept-lookup n none = refl
  kept-lookup n (some []) = refl
  kept-lookup n (some (x ∷ names)) = refl

  insert_or_assign-Updates :
      (name action : Bytes) (s : Subscription C) (actions : Actions C)
      → IsMap actions
      → Updates name action (some s) actions (
          insert_or_assign action
            (insert_or_assign name s (names_or_empty (lookup action actions)))
            actions)
  insert_or_assign-Updates name action s actions h = record {
    is_map =
        IsMap-insert_or_assign action
          (insert_or_assign name s (names_or_empty (lookup action actions))) actions h;
    entries = λ n a.
        ap (lookup_name n) (
          lookup-insert_or_assign a action
            (insert_or_assign name s (names_or_empty (lookup action actions))) actions)
        ∙ elim (Bool-cases (equals a action)) [
          | inl e ↦ rw e (
              lookup-insert_or_assign n name s (names_or_empty (lookup action actions))
              ∙ ap (λ t. if equals n name then some s else t)
                  (names_or_empty-lookup n (lookup action actions)
                    ∙ ap (λ t. lookup_name n (lookup t actions)) (sym (equals_sound a action e))))
          | inr e ↦ rw e refl
        ];
  }

  -- The subscription stands there already, or there is none to erase_key.
  pub same-Updates :
      (name action : Bytes) (s : Option (Subscription C)) (actions : Actions C)
      → IsMap actions
      → subscription_at name action actions ≡ s
      → Updates name action s actions actions
  same-Updates name action s actions h e = record {
    is_map = h;
    entries = λ n a. elim (Bool-cases (equals a action)) [
      | inl f ↦ rw f (elim (Bool-cases (equals n name)) [
        | inl g ↦ rw g (
            ap (λ t. lookup_name t (lookup a actions)) (equals_sound n name g)
            ∙ ap (λ t. lookup_name name (lookup t actions)) (equals_sound a action f)
            ∙ e)
        | inr g ↦ rw g refl
      ])
      | inr f ↦ rw f refl
    ];
  }

  -- The erasure of a name under its action, which may leave the action without any.
  pub erased-Updates :
      (name action : Bytes) (names : Names C) (actions : Actions C)
      → IsMap actions
      → lookup action actions ≡ some names
      → Updates name action none actions (insert_or_assign action (erase_key name names) actions)
  erased-Updates name action names actions h e = record {
    is_map = IsMap-insert_or_assign action (erase_key name names) actions h;
    entries = λ n a.
        ap (lookup_name n) (lookup-insert_or_assign a action (erase_key name names) actions)
        ∙ elim (Bool-cases (equals a action)) [
          | inl f ↦ rw f (
              lookup-erase_key n name names
              ∙ ap (λ t. if equals n name then none else t)
                  (ap (lookup_name n) (sym e)
                    ∙ ap (λ t. lookup_name n (lookup t actions)) (sym (equals_sound a action f))))
          | inr f ↦ rw f refl
        ];
  }

  erase-Updates :
      (name action : Bytes) (names : Names C) (actions : Actions C)
      → IsMap actions
      → lookup action actions ≡ some names
      → Updates name action none actions (
          keep
            (λ names. not (is_empty_map names))
            (insert_or_assign action (erase_key name names) actions))
  erase-Updates name action names actions h e =
      let m = IsMap-insert_or_assign action (erase_key name names) actions h in
      record {
        is_map =
            IsMap-keep (λ names. not (is_empty_map names))
              (insert_or_assign action (erase_key name names) actions) m;
        entries = λ n a.
            ap (lookup_name n) (
              lookup-keep (λ names. not (is_empty_map names)) a
                (insert_or_assign action (erase_key name names) actions) m)
            ∙ kept-lookup n (lookup a (insert_or_assign action (erase_key name names) actions))
            ∙ (erased-Updates name action names actions h e).entries n a;
      }

  unsubscribe-Updates :
      (name action : Bytes) (actions : Actions C)
      → IsMap actions
      → Updates name action none actions (unsubscribe name action actions)
  unfolding unsubscribe
  unsubscribe-Updates name action actions h = elim (Option-cases (lookup action actions)) [
    | inl e ↦
        rw (e, unsubscribe) (same-Updates name action none actions h (ap (lookup_name name) e))
    | inr (names, e) ↦ elim (Option-cases (lookup name names)) [
      | inl f ↦ rw (e, f) (same-Updates name action none actions h (ap (lookup_name name) e ∙ f))
      | inr (s, f) ↦ rw (e, f) (erase-Updates name action names actions h e)
    ]
  ]

module _ {C D : Type 0} (queues : Queues C D) where
  -- whether a subscription is not taken
  abbrev pub refuses : Subscription C → Bool
  refuses s = expired s.queue queues || is_null s.callback

  subscribe-Updates :
      (name action : Bytes) (s : Subscription C) (actions : Actions C)
      → IsMap actions
      → Updates name action
          (if refuses s then subscription_at name action actions else some s)
          actions
          (subscribe name action s queues actions).0
  unfolding subscribe
  subscribe-Updates name action s actions h = elim (Bool-cases (refuses s)) [
    | inl e ↦ rw e (same-Updates name action (subscription_at name action actions) actions h refl)
    | inr e ↦ rw e (insert_or_assign-Updates name action s actions h)
  ]

  subscribe_answer :
      (name action : Bytes) (s : Subscription C) (actions : Actions C)
      → (subscribe name action s queues actions).1 ≡ not (refuses s)
  unfolding subscribe
  subscribe_answer name action s actions = elim (Bool-cases (refuses s)) [
    | inl e ↦ rw e refl
    | inr e ↦ rw e refl
  ]

  -- What the operations of the bus do to its subscriptions.
  pub record Keeps (name action : Bytes) (s : Subscription C) (actions : Actions C) : Type 0 where
    pub subscribed :
        Updates name action
          (if refuses s then subscription_at name action actions else some s)
          actions
          (subscribe name action s queues actions).0
    pub answer : (subscribe name action s queues actions).1 ≡ not (refuses s)
    pub by_parts :
        subscribe_parts name action s.queue s.callback queues actions
        ≡ subscribe name action s queues actions
    pub unsubscribed : Updates name action none actions (unsubscribe name action actions)
    pub got :
        (n a : Bytes)
        → get n a actions
          ≡ elim (subscription_at n a actions) [ none ↦ no_subscription | some t ↦ t ]

  -- In a bus where an action has one entry, `subscribe` puts the subscription under its action and
  -- name, and answers whether its queue lives and it has a callback; otherwise it changes nothing.
  -- `unsubscribe` leaves none under the action and name. All other subscriptions stay as they were,
  -- an action still has one entry, and `get` returns what stands under the action and name, or a
  -- subscription of nothing.
  pub subscribe-Keeps :
      (name action : Bytes) (s : Subscription C) (actions : Actions C)
      → IsMap actions
      → Keeps name action s actions
  unfolding subscribe_parts get
  subscribe-Keeps name action s actions h = record {
    subscribed = subscribe-Updates name action s actions h;
    answer = subscribe_answer name action s actions;
    by_parts = refl;
    unsubscribed = unsubscribe-Updates name action actions h;
    got = λ n a. elim (Option-cases (subscription_at n a actions)) [
      | inl e ↦ rw e refl
      | inr (t, e) ↦ rw e refl
    ];
  }
