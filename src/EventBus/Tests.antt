-- ===== src/EventBus/Tests.antt =====
-- src/hlib_event_bus.cpp at concrete inputs.
use hlib.Base.{◌==◌, ◌||◌, if◌then◌else◌, ℕ, ◌≡◌, refl, true, false, none, some, [], ◌∷◌, codes}
use hlib.EventQueue.{new_queue}
use hlib.EventBus.Map.{lookup}
use hlib.EventBus.{
  Subscription, Actions, Queues, get, subscribe, subscribe_parts, unsubscribe, notify, broadcast,
}
use hlib.EventBus.Subscribing.{Keeps, subscribe-Keeps}
use hlib.EventBus.Broadcasting.{Broadcasts, Notifies, broadcast_and_notify}

-- The queues 0 and 1 live.
abbrev two_queues : Queues ℕ ℕ
two_queues i = if i == 0 || i == 1 then some new_queue else none

abbrev first : Subscription ℕ
first = record { queue = some 0; callback = some 10 }

abbrev second : Subscription ℕ
second = record { queue = some 1; callback = some 11 }

abbrev gone : Subscription ℕ
gone = record { queue = some 7; callback = some 12 }

abbrev bus : Actions ℕ
bus = (codes "send", (codes "a", first) ∷ (codes "b", gone) ∷ (codes "c", second) ∷ []) ∷ []

got : get (codes "c") (codes "send") bus ≡ second
unfolding get
got = refl

refused : (subscribe (codes "x") (codes "send") gone two_queues bus).1 ≡ false
unfolding subscribe
refused = refl

no_callback : (subscribe_parts (codes "x") (codes "send") (some 0) none two_queues bus).1 ≡ false
unfolding subscribe_parts
no_callback = refl

-- With its last subscription an action goes.
unsubscribed :
    unsubscribe (codes "a") (codes "send") ((codes "send", (codes "a", first) ∷ []) ∷ []) ≡ []
unfolding unsubscribe
unsubscribed = refl

-- `notify` leaves an action without a subscription, of which the queue is gone.
left_empty :
    (notify (codes "b") (codes "send") 3 two_queues ((codes "send", (codes "b", gone) ∷ []) ∷ [])).0
    ≡ (codes "send", []) ∷ []
unfolding notify
left_empty = refl

notified :
    (notify (codes "c") (codes "send") 3 two_queues bus).1 1
    ≡ some (record { queue = (some 11, 3) ∷ []; timer_set = true })
unfolding notify
notified = refl

broadcasted :
    (broadcast (codes "send") 3 two_queues bus).0
    ≡ (codes "send", (codes "a", first) ∷ (codes "c", second) ∷ []) ∷ []
unfolding broadcast
broadcasted = refl

subscribe-Keeps_example : Keeps two_queues (codes "d") (codes "send") second bus
unfolding lookup
subscribe-Keeps_example =
    subscribe-Keeps two_queues (codes "d") (codes "send") second bus (refl, tt)

broadcast_and_notify_example :
    Broadcasts (codes "send") 3 two_queues bus
    × Notifies (codes "b") (codes "send") 3 two_queues bus
unfolding lookup
broadcast_and_notify_example =
    broadcast_and_notify (codes "b") (codes "send") 3 two_queues bus (refl, tt)
