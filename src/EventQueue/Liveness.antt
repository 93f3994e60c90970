-- ===== src/EventQueue/Liveness.antt =====
-- src/hlib_event_queue.cpp: no callback waits for ever.
use hlib.Base.{
  ℕ, ◌+◌, ◌-◌, ◌≤◌, ◌≡◌, refl, ap, ◌∙◌, sym, Bool, true, false, not, Option, some, List, [], ◌∷◌,
  ◌++◌, length, if◌then◌else◌, append_assoc, append-nil, arith,
}
use mathlib.Core.Path.{subst}
use mathlib.Core.Option.{some-injective}
use hlib.EventQueue.{
  EventQueue, Happening, pushes, round, push, push_all, is_empty_list, clear_if_empty, on_front,
  History, round_of, happen, happen_all,
}
use hlib.EventQueue.Order.{
  IsArmed, InOrder, happen-EndsInOrder, push_all-queue, clear_if_empty-queue,
}

abbrev is_round : {A : Type 0} → Happening A → ℕ
is_round (pushes c) = 0
is_round round = 1

-- the rounds of the event loop in a sequence
abbrev pub rounds : {A : Type 0} → List (Happening A) → ℕ
rounds [] = 0
rounds (x ∷ xs) = is_round x + rounds xs

module _ {A : Type 0} where
  abbrev behind_first : List A → List A
  behind_first [] = []
  behind_first (x ∷ xs) = xs

  abbrev first_or : A → List A → A
  first_or a [] = a
  first_or a (x ∷ xs) = x

module _ {A World : Type 0} (calls : A → World → World × List A) where
  -- Callbacks that are the first to wait, before n rounds and after them: those that were not called
  -- still are the first, and n of them were called if there were as many.
  pub record Advances (h : History calls) (q rest : List A) (n : ℕ) (r : Option (History calls))
      : Type 0 where
    pub after : History calls
    pub returns : r ≡ some after
    pub waits : List A
    pub behind : List A
    pub more : List A
    pub queue : after.now.queue ≡ waits ++ behind
    pub called : after.called ++ waits ≡ (h.called ++ q) ++ more
    pub fewer : length waits ≤ length q - n

  advance_push :
      (c : A) (h : History calls) (q rest : List A)
      → h.now.queue ≡ q ++ rest
      → Advances h q rest 0 (happen calls (pushes c) h)
  unfolding happen push
  advance_push c h q rest e = record {
    after = record h { now = push c h.now; pushed = h.pushed ++ c ∷ [] };
    returns = refl;
    waits = q;
    behind = rest ++ c ∷ [];
    more = [];
    queue = ap (λ t. t ++ c ∷ []) e ∙ append_assoc q rest (c ∷ []);
    called = sym (append-nil (h.called ++ q));
    fewer = omega arith;
  }

  -- after a round in which the first callback is called
  abbrev called_front : History calls → A → List A → Bool → History calls
  called_front h c cs timer_set =
      let (world, pushed) = calls c h.world in
      record {
        now = clear_if_empty (push_all pushed (record { queue = cs; timer_set = timer_set }));
        world = world;
        called = h.called ++ c ∷ [];
        pushed = h.pushed ++ pushed;
      }

  called_front-queue :
      (h : History calls) (c : A) (cs : List A) (timer_set : Bool)
      → (called_front h c cs timer_set).now.queue ≡ cs ++ (calls c h.world).1
  called_front-queue h c cs timer_set =
      let q : EventQueue A = record { queue = cs; timer_set = timer_set } in
      clear_if_empty-queue (push_all (calls c h.world).1 q) ∙ push_all-queue (calls c h.world).1 q

  -- The timer is set, and the first of all that wait is called.
  advance_front :
      (h : History calls) (queue : List A) (timer_set : Bool) (q rest : List A)
      → queue ≡ q ++ rest
      → not (is_empty_list queue) ≡ true
      → Advances h q rest 1 (round_of calls h (on_front calls queue timer_set h.world))
  advance_front h [] timer_set q rest e n = absurd (cc n)
  advance_front h (c ∷ cs) timer_set [] rest e n = record {
    after = called_front h c cs timer_set;
    returns = refl;
    waits = [];
    behind = cs ++ (calls c h.world).1;
    more = c ∷ [];
    queue = called_front-queue h c cs timer_set;
    called = append-nil (h.called ++ c ∷ []) ∙ ap (λ t. t ++ c ∷ []) (sym (append-nil h.called));
    fewer = omega arith;
  }
  advance_front h (c ∷ cs) timer_set (x ∷ q) rest e n = record {
    after = called_front h c cs timer_set;
    returns = refl;
    waits = q;
    behind = rest ++ (calls c h.world).1;
    more = [];
    queue =
        called_front-queue h c cs timer_set
        ∙ ap (λ t. t ++ (calls c h.world).1) (ap behind_first e)
        ∙ append_assoc q rest (calls c h.world).1;
    called =
        append_assoc h.called (c ∷ []) q
        ∙ ap (λ t. h.called ++ t ∷ q) (ap (first_or c) e)
        ∙ sym (append-nil (h.called ++ x ∷ q));
    fewer = omega arith;
  }

  -- The timer is not set, and nothing waits.
  advance_idle :
      (h : History calls) (queue q rest : List A)
      → queue ≡ q ++ rest
      → h.now.queue ≡ queue
      → not (is_empty_list queue) ≡ false
      → Advances h q rest 1 (some h)
  advance_idle h [] [] rest e f n = record {
    after = h;
    returns = refl;
    waits = [];
    behind = rest;
    more = [];
    queue = f ∙ e;
    called = sym (append-nil (h.called ++ []));
    fewer = omega arith;
  }
  advance_idle h [] (x ∷ q) rest e f n = absurd (cc e)
  advance_idle h (c ∷ cs) q rest e f n = absurd (cc n)

  if-Advances :
      (b : Bool) {h : History calls} {q rest : List A} {n : ℕ} {x y : Option (History calls)}
      → (b ≡ true → Advances h q rest n x)
      → (b ≡ false → Advances h q rest n y)
      → Advances h q rest n (if b then x else y)
  if-Advances true f g = f refl
  if-Advances false f g = g refl

  advance_round :
      (h : History calls) (q rest : List A)
      → IsArmed h.now
      → h.now.queue ≡ q ++ rest
      → Advances h q rest 1 (happen calls round h)
  unfolding happen
  advance_round h q rest armed e =
      if-Advances h.now.timer_set
        (λ t. advance_front h h.now.queue h.now.timer_set q rest e (sym armed ∙ t))
        (λ t. advance_idle h h.now.queue q rest e refl (sym armed ∙ t))

  advance :
      (x : Happening A) (h : History calls) (q rest : List A)
      → InOrder calls h
      → h.now.queue ≡ q ++ rest
      → Advances h q rest (is_round x) (happen calls x h)
  advance (pushes c) h q rest o e = advance_push c h q rest e
  advance round h q rest o e = advance_round h q rest o.armed e

  after-InOrder :
      (x : Happening A) (h : History calls) (after : History calls)
      → InOrder calls h
      → happen calls x h ≡ some after
      → InOrder calls after
  after-InOrder x h after o e =
      let s = happen-EndsInOrder calls x h o in
      subst (InOrder calls) (some-injective _ _ (sym s.returns ∙ e)) s.in_order

  -- What was called in the end: the first that waited, behind those that were called before.
  pub record Serves (h : History calls) (q : List A) (r : Option (History calls)) : Type 0 where
    pub after : History calls
    pub returns : r ≡ some after
    pub more : List A
    pub called : after.called ≡ (h.called ++ q) ++ more

  -- With as many rounds as callbacks q at the front of the queue, and any pushes between the rounds,
  -- all of q are called, in order and before any other. This holds from every state in which the
  -- timer is set exactly while callbacks wait and those called and waiting are those pushed.
  pub happen_all-Serves :
      (xs : List (Happening A)) (h : History calls) (q rest : List A)
      → InOrder calls h
      → h.now.queue ≡ q ++ rest
      → length q ≤ rounds xs
      → Serves h q (happen_all calls xs h)
  unfolding happen_all
  happen_all-Serves [] h [] rest o e l = record {
    after = h;
    returns = refl;
    more = [];
    called = sym (append-nil (h.called ++ []) ∙ append-nil h.called);
  }
  happen_all-Serves [] h (x ∷ q) rest o e l = absurd (omega arith)
  happen_all-Serves (x ∷ xs) h q rest o e l =
      let a = advance x h q rest o e in
      let s =
        happen_all-Serves xs a.after a.waits a.behind (after-InOrder x h a.after o a.returns)
          a.queue (omega (arith, a.fewer, l)) in
      rw a.returns (record {
        after = s.after;
        returns = s.returns;
        more = a.more ++ s.more;
        called =
            s.called ∙ ap (λ t. t ++ s.more) a.called ∙ append_assoc (h.called ++ q) a.more s.more;
      })
