-- ===== src/Latch/Tests.antt =====
-- src/hlib_latch.cpp at concrete inputs.
use hlib.Base.{◌≡◌, refl, true, none, some, [], ◌∷◌, pos, negsuc, ◌-ℤ◌}
use hlib.Latch.{Latch, new_latch, count_down, try_wait, wake, arrive_and_wait}

abbrev slept : Latch
slept = record { count = pos 2; notifying = 0; sleeping = 7 ∷ []; notified = []; returned = [] }

abbrev released : Latch
released = record { count = pos 0; notifying = 0; sleeping = []; notified = 7 ∷ []; returned = [] }

too_many : count_down (pos 3) slept ≡ none
unfolding count_down ◌-ℤ◌
too_many = refl

is_open : try_wait released ≡ true
unfolding try_wait
is_open = refl

arrived : arrive_and_wait 9 (pos 2) slept ≡ some (record released { returned = 9 ∷ [] })
unfolding arrive_and_wait ◌-ℤ◌
arrived = refl

-- the thread that was notified last can wake up first
woken : wake 8 (record released { notified = 7 ∷ 8 ∷ [] }) ≡ record released { returned = 8 ∷ [] }
unfolding wake
woken = refl

-- A latch that starts below zero is never open: nothing changes its counter.
never_open : count_down (pos 1) (new_latch (negsuc 0)) ≡ some (new_latch (negsuc 0))
unfolding count_down
never_open = refl

-- The counter is zero, and `notify_all` has not been called: thread 7 sleeps, and thread 8 comes and
-- returns at once.
abbrev unlocked : Latch
unlocked = record {
  count = pos 0;
  notifying = 1;
  sleeping = 7 ∷ [];
  notified = [];
  returned = 8 ∷ [];
}
