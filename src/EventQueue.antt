-- ===== src/EventQueue.antt =====
-- src/hlib_event_queue.cpp: the queue of callbacks that a timer of the event loop runs one by one.
-- The timer is modelled by whether it is set; the event loop calls `onTimer` only while it is. A
-- callback is known by a name in A. What it does when it is called, to a world that the queue does
-- not look at and to the queue itself, is an argument.
pub mod Order
pub mod Liveness
mod Tests
use hlib.Base.{
  Bool, true, false, not, Option, none, some, ◌>>=◌, List, [], ◌∷◌, ◌++◌, if◌then◌else◌,
}

module _ (A : Type 0) where
  pub record EventQueue : Type 0 where
    pub queue : List A
    pub timer_set : Bool

  -- What happens to a queue from outside: a push from any thread, or a round of the event loop.
  pub data Happening : Type 0 where
    pushes : A → Happening
    round : Happening

module _ {A : Type 0} where
  -- `EventQueue(event_loop)`
  abbrev pub new_queue : EventQueue A
  new_queue = record { queue = []; timer_set = false }

  unfoldable pub push : A → EventQueue A → EventQueue A
  push c q = record { queue = q.queue ++ c ∷ []; timer_set = true }

  unfoldable pub push_all : List A → EventQueue A → EventQueue A
  unfolding push
  push_all [] q = q
  push_all (c ∷ cs) q = push_all cs (push c q)

  abbrev pub is_empty_list : List A → Bool
  is_empty_list [] = true
  is_empty_list (c ∷ cs) = false

  -- the end of `onTimer`: `m_timer.clear()` if the queue is empty
  unfoldable pub clear_if_empty : EventQueue A → EventQueue A
  clear_if_empty q = if is_empty_list q.queue then record q { timer_set = false } else q

module _ {A World : Type 0} (calls : A → World → World × List A) where
  abbrev pub on_front : List A → Bool → World → Option (EventQueue A × (A × (List A × World)))
  on_front [] timer_set world = none
  on_front (c ∷ cs) timer_set world =
      let (world', pushed) = calls c world in
      some (
        clear_if_empty (push_all pushed (record { queue = cs; timer_set = timer_set })),
        (c, (pushed, world')),
      )

  -- `onTimer()`: the queue, and with it the callback that was called, the callbacks that it pushed,
  -- and the world. The front of an empty deque is a fault.
  unfoldable pub on_timer : EventQueue A → World → Option (EventQueue A × (A × (List A × World)))
  unfolding push_all clear_if_empty
  on_timer q world = on_front q.queue q.timer_set world

  -- The queue and the world, with all callbacks that were called and all that were pushed, in
  -- order.
  pub record History : Type 0 where
    pub now : EventQueue A
    pub world : World
    pub called : List A
    pub pushed : List A

  abbrev pub round_of : History → Option (EventQueue A × (A × (List A × World))) → Option History
  round_of h none = none
  round_of h (some (q, (c, (cs, world)))) =
      some (record { now = q; world = world; called = h.called ++ c ∷ []; pushed = h.pushed ++ cs })

  unfoldable pub happen : Happening A → History → Option History
  unfolding on_timer push
  happen (pushes c) h = some (record h { now = push c h.now; pushed = h.pushed ++ c ∷ [] })
  happen round h = if h.now.timer_set then round_of h (on_timer h.now h.world) else some h

  unfoldable pub happen_all : List (Happening A) → History → Option History
  unfolding happen
  happen_all [] h = some h
  happen_all (x ∷ xs) h = happen x h >>= happen_all xs
