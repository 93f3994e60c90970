-- ===== src/EventBus/Delivering.antt =====
-- src/hlib_event_bus.cpp: what is pushed on which queue.
use hlib.Base.{
  ℕ, ◌==◌, ==_iff, ◌≡◌, refl, ap, sym, ◌∙◌, Bool, true, false, not, Option, none, some, ◌>>=◌, List,
  [], ◌∷◌, Bytes, Option-cases, inl, inr, if◌then◌else◌,
}
use mathlib.Core.Path.{subst}
use hlib.EventQueue.{EventQueue, push, push_all}
use hlib.EventBus.Map.{keep, keep_cong}
use hlib.EventBus.{
  is_null, Subscription, Names, Queues, alive, lock, expired, push_on, broadcast_loop,
}

abbrev pub points_to : ℕ → Option ℕ → Bool
points_to j none = false
points_to j (some i) = i == j

module _ {C : Type 0} where
  -- whether a subscription is that of the queue
  abbrev pub is_for : ℕ → Subscription C → Bool
  is_for j s = points_to j s.queue

module _ {C D : Type 0} where
  -- what a queue is to get for some subscriptions
  unfoldable pub due : ℕ → D → Names C → List (Option C × D)
  due j data' [] = []
  due j data' ((name, s) ∷ names) =
      let rest = due j data' names in if is_for j s then (s.callback, data') ∷ rest else rest

  -- A queue, if it lives, with more callbacks.
  abbrev pub with_pushed :
      List (Option C × D) → Option (EventQueue (Option C × D)) → Option (EventQueue (Option C × D))
  with_pushed bounds q = q >>= λ q. some (push_all bounds q)

  alive-push :
      (i : ℕ) (bound : Option C × D) (b : Bool) (q : Option (EventQueue (Option C × D)))
      → alive i (if b then (q >>= λ q. some (push bound q)) else q) ≡ alive i q
  alive-push i bound true none = refl
  alive-push i bound true (some q) = refl
  alive-push i bound false q = refl

  lock-push_on :
      (o : Option ℕ) (i : ℕ) (bound : Option C × D) (queues : Queues C D)
      → lock o (push_on i bound queues) ≡ lock o queues
  unfolding push_on
  lock-push_on none i bound queues = refl
  lock-push_on (some j) i bound queues = alive-push j bound (i == j) (queues j)

  -- A queue that cannot be locked is not alive.
  pub dead :
      (o : Option ℕ) (queues : Queues C D) (j : ℕ)
      → lock o queues ≡ none
      → points_to j o ≡ true
      → queues j ≡ none
  dead none queues j e f = absurd (cc f)
  dead (some i) queues j e f =
      subst (λ k. queues k ≡ none) ((==_iff i j).0 f) (not_alive (queues i) e)
    where
      not_alive : (q : Option (EventQueue (Option C × D))) → alive i q ≡ none → q ≡ none
      not_alive none e = refl
      not_alive (some q) e = absurd (cc e)

  -- A queue that is locked is the one that is pointed to.
  pub locked : (o : Option ℕ) (queues : Queues C D) (i : ℕ) → lock o queues ≡ some i → o ≡ some i
  locked none queues i e = absurd (cc e)
  locked (some j) queues i e = is_same (queues j) e
    where
      is_same : (q : Option (EventQueue (Option C × D))) → alive j q ≡ some i → some j ≡ some i
      is_same none e = absurd (cc e)
      is_same (some q) e = e

  pub none-due :
      (b : Bool) (bound : Option C × D) (bounds : List (Option C × D))
      (q : Option (EventQueue (Option C × D)))
      → (b ≡ true → q ≡ none)
      → with_pushed bounds q ≡ with_pushed (if b then bound ∷ bounds else bounds) q
  none-due true bound bounds q f = rw (f refl) refl
  none-due false bound bounds q f = refl

  one-due :
      (b : Bool) (bound : Option C × D) (bounds : List (Option C × D))
      (q : Option (EventQueue (Option C × D)))
      → with_pushed bounds (if b then (q >>= λ q. some (push bound q)) else q)
        ≡ with_pushed (if b then bound ∷ bounds else bounds) q
  unfolding push_all
  one-due true bound bounds none = refl
  one-due true bound bounds (some q) = refl
  one-due false bound bounds q = refl

  loop_dead :
      (data' : D) (name : Bytes) (s : Subscription C) (names : Names C) (queues : Queues C D)
      → lock s.queue queues ≡ none
      → broadcast_loop data' ((name, s) ∷ names) queues ≡ broadcast_loop data' names queues
  unfolding broadcast_loop
  loop_dead data' name s names queues e = rw (e, broadcast_loop) refl

  loop_alive :
      (data' : D) (name : Bytes) (s : Subscription C) (names : Names C) (queues : Queues C D)
      (i : ℕ)
      → lock s.queue queues ≡ some i
      → broadcast_loop data' ((name, s) ∷ names) queues ≡ (
        (name, s) ∷ (broadcast_loop data' names (push_on i (s.callback, data') queues)).0,
        (broadcast_loop data' names (push_on i (s.callback, data') queues)).1,
      )
  unfolding broadcast_loop
  loop_alive data' name s names queues i e = rw (e, broadcast_loop) refl

  pub push_on-queues :
      (i : ℕ) (bound : Option C × D) (bounds : List (Option C × D)) (queues : Queues C D) (j : ℕ)
      → with_pushed bounds (push_on i bound queues j)
        ≡ with_pushed (if i == j then bound ∷ bounds else bounds) (queues j)
  unfolding push_on
  push_on-queues i bound bounds queues j = one-due (i == j) bound bounds (queues j)

  pub with_pushed-nil : (q : Option (EventQueue (Option C × D))) → q ≡ with_pushed [] q
  unfolding push_all
  with_pushed-nil none = refl
  with_pushed-nil (some q) = refl

  pub broadcast_loop-queues :
      (data' : D) (names : Names C) (queues : Queues C D) (j : ℕ)
      → (broadcast_loop data' names queues).1 j ≡ with_pushed (due j data' names) (queues j)
  unfolding broadcast_loop due
  broadcast_loop-queues data' [] queues j = with_pushed-nil (queues j)
  broadcast_loop-queues data' ((name, s) ∷ names) queues j =
      elim (Option-cases (lock s.queue queues)) [
        | inl e ↦
            ap (λ r. r.1 j) (loop_dead data' name s names queues e)
            ∙ broadcast_loop-queues data' names queues j
            ∙ none-due (is_for j s) (s.callback, data') (due j data' names) (queues j)
                (dead s.queue queues j e)
        | inr (i, e) ↦
            ap (λ r. r.1 j) (loop_alive data' name s names queues i e)
            ∙ broadcast_loop-queues data' names (push_on i (s.callback, data') queues) j
            ∙ push_on-queues i (s.callback, data') (due j data' names) queues j
            ∙ ap
                (λ b.
                  with_pushed
                    (if b then (s.callback, data') ∷ due j data' names else due j data' names)
                    (queues j))
                (sym (ap (points_to j) (locked s.queue queues i e)))
      ]

  -- The subscriptions whose queues live.
  abbrev pub is_live : Queues C D → Subscription C → Bool
  is_live queues s = not (expired s.queue queues)

  pub broadcast_loop-keep :
      (data' : D) (names : Names C) (queues : Queues C D)
      → (broadcast_loop data' names queues).0 ≡ keep (is_live queues) names
  unfolding broadcast_loop keep
  broadcast_loop-keep data' [] queues = refl
  broadcast_loop-keep data' ((name, s) ∷ names) queues = elim (Option-cases (lock s.queue queues)) [
    | inl e ↦
        ap (λ r. r.0) (loop_dead data' name s names queues e)
        ∙ broadcast_loop-keep data' names queues
        ∙ rw e refl
    | inr (i, e) ↦
        ap (λ r. r.0) (loop_alive data' name s names queues i e)
        ∙ ap (λ t. (name, s) ∷ t)
            (broadcast_loop-keep data' names (push_on i (s.callback, data') queues)
              ∙ keep_cong (is_live (push_on i (s.callback, data') queues)) (is_live queues)
                  (λ t.
                    ap (λ o. not (is_null o)) (lock-push_on t.queue i (s.callback, data') queues))
                  names)
        ∙ rw e refl
  ]
