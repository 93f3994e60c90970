-- ===== src/EventQueue/Order.antt =====
-- src/hlib_event_queue.cpp: callbacks are called in the order in which they were pushed, and the
-- queue is never empty when the timer fires.
use hlib.Base.{
  ◌≡◌, refl, ap, ◌∙◌, sym, Bool, true, false, not, Option, some, List, [], ◌∷◌, ◌++◌, if◌then◌else◌,
  append_assoc, append-nil, Bool-cases, inl, inr,
}
use hlib.EventQueue.{
  EventQueue, Happening, pushes, round, push, push_all, is_empty_list, clear_if_empty, on_front,
  History, round_of, happen, happen_all,
}

-- The timer is set exactly while there are callbacks.
abbrev pub IsArmed : {A : Type 0} → EventQueue A → Type 0
IsArmed q = q.timer_set ≡ not (is_empty_list q.queue)

module _ {A : Type 0} where
  push-IsArmed : (c : A) (q : EventQueue A) → IsArmed (push c q)
  unfolding push
  push-IsArmed c q = not_empty q.queue
    where
      not_empty : (xs : List A) → true ≡ not (is_empty_list (xs ++ c ∷ []))
      not_empty [] = refl
      not_empty (x ∷ xs) = refl

  pub push_all-queue : (cs : List A) (q : EventQueue A) → (push_all cs q).queue ≡ q.queue ++ cs
  unfolding push_all
  push_all-queue [] q = sym (append-nil q.queue)
  push_all-queue (c ∷ cs) q = push_all-queue cs (push c q) ∙ append_assoc q.queue (c ∷ []) cs

  push_all-timer :
      (cs : List A) (q : EventQueue A) → q.timer_set ≡ true → (push_all cs q).timer_set ≡ true
  unfolding push_all
  push_all-timer [] q e = e
  push_all-timer (c ∷ cs) q e = push_all-timer cs (push c q) refl

  clear_if_empty-IsArmed : (q : EventQueue A) → q.timer_set ≡ true → IsArmed (clear_if_empty q)
  unfolding clear_if_empty
  clear_if_empty-IsArmed q e = elim (Bool-cases (is_empty_list q.queue)) [
    | inl h ↦ rw h (sym (ap not h))
    | inr h ↦ rw h (e ∙ sym (ap not h))
  ]

  pub clear_if_empty-queue : (q : EventQueue A) → (clear_if_empty q).queue ≡ q.queue
  unfolding clear_if_empty
  clear_if_empty-queue q = elim (Bool-cases (is_empty_list q.queue)) [ inl h ↦ rw h | inr h ↦ rw h ]

module _ {A World : Type 0} (calls : A → World → World × List A) where
  -- The callbacks that were called, and those that wait, are those that were pushed, in that order.
  pub record InOrder (h : History calls) : Type 0 where
    pub armed : IsArmed h.now
    pub order : h.called ++ h.now.queue ≡ h.pushed

  pub record EndsInOrder (r : Option (History calls)) : Type 0 where
    pub after : History calls
    pub returns : r ≡ some after
    pub in_order : InOrder after

  round-EndsInOrder :
      (h : History calls) (queue : List A) (timer_set : Bool)
      → timer_set ≡ true
      → h.called ++ queue ≡ h.pushed
      → not (is_empty_list queue) ≡ true
      → EndsInOrder (round_of calls h (on_front calls queue timer_set h.world))
  round-EndsInOrder h [] timer_set t e n = absurd (cc n)
  round-EndsInOrder h (c ∷ cs) timer_set t e n =
      let (world, more) = calls c h.world in
      let q : EventQueue A = record { queue = cs; timer_set = timer_set } in
      record {
        after = record {
          now = clear_if_empty (push_all more q);
          world = world;
          called = h.called ++ c ∷ [];
          pushed = h.pushed ++ more;
        };
        returns = refl;
        in_order = record {
          armed = clear_if_empty-IsArmed (push_all more q) (push_all-timer more q t);
          order =
              ap (λ t. (h.called ++ c ∷ []) ++ t)
                (clear_if_empty-queue (push_all more q) ∙ push_all-queue more q)
              ∙ sym (append_assoc (h.called ++ c ∷ []) cs more)
              ∙ ap (λ t. t ++ more) (append_assoc h.called (c ∷ []) cs ∙ e);
        };
      }

  if-EndsInOrder :
      (b : Bool) {x y : Option (History calls)}
      → (b ≡ true → EndsInOrder x)
      → EndsInOrder y
      → EndsInOrder (if b then x else y)
  if-EndsInOrder true f g = f refl
  if-EndsInOrder false f g = g

  pub happen-EndsInOrder :
      (x : Happening A) (h : History calls) → InOrder h → EndsInOrder (happen calls x h)
  unfolding happen
  happen-EndsInOrder (pushes c) h o = record {
    after = record h { now = push c h.now; pushed = h.pushed ++ c ∷ [] };
    returns = refl;
    in_order = record {
      armed = push-IsArmed c h.now;
      order = sym (append_assoc h.called h.now.queue (c ∷ [])) ∙ ap (λ t. t ++ c ∷ []) o.order;
    };
  }
  happen-EndsInOrder round h o =
      if-EndsInOrder h.now.timer_set
        (λ e. round-EndsInOrder h h.now.queue h.now.timer_set e o.order (sym o.armed ∙ e))
        (record { after = h; returns = refl; in_order = o })

  -- Whatever sequence of pushes and rounds of the event loop happens to a queue whose timer is set
  -- exactly while callbacks wait, it runs to its end: no callback is taken from an empty queue. The
  -- callbacks that were called, followed by those that wait, are then those that were pushed, also
  -- by other callbacks, in that order, if they were at the start, and the timer is set as before
  -- exactly while some wait.
  pub happen_all-EndsInOrder :
      (xs : List (Happening A)) (h : History calls)
      → InOrder h
      → EndsInOrder (happen_all calls xs h)
  unfolding happen_all
  happen_all-EndsInOrder [] h o = record { after = h; returns = refl; in_order = o }
  happen_all-EndsInOrder (x ∷ xs) h o =
      let s = happen-EndsInOrder x h o in
      rw s.returns (happen_all-EndsInOrder xs s.after s.in_order)
