-- ===== src/Latch.antt =====
-- src/hlib_latch.cpp: a counter on which threads wait until it is zero. The state holds, beside the
-- counter, the calls of `countDown` that have unlocked the mutex and have yet to call `notify_all`, the
-- threads that sleep in `m_condition_variable.wait`, those that were notified and have not looked at the
-- counter yet, and those that have returned from `wait`.
pub mod Safety
mod Tests
use hlib.Base.{
  ℕ, zero, suc, ◌==◌, not, Bool, true, false, Option, none, some, ◌>>=◌, List, [], ◌∷◌, ◌++◌, ℤ,
  pos, ◌-ℤ◌, ltb_ℤ, eqb_ℤ, if◌then◌else◌, ◌≡◌,
}

pub record Latch : Type 0 where
  pub count : ℤ
  pub notifying : ℕ
  pub sleeping : List ℕ
  pub notified : List ℕ
  pub returned : List ℕ

-- `Latch(expected)`
abbrev pub new_latch : ℤ → Latch
new_latch expected = record {
  count = expected;
  notifying = 0;
  sleeping = [];
  notified = [];
  returned = [];
}

-- `m_condition_variable.notify_all()`
abbrev pub notify_all : Latch → Latch
notify_all this = record this { sleeping = []; notified = this.notified ++ this.sleeping }

-- The part of `countDown(n)` that holds the mutex, and whether `notify_all` is to be called behind it;
-- `none` is the assertion that fails.
unfoldable pub count_locked : ℤ → Latch → Option (Bool × Latch)
count_locked n this =
    if not (ltb_ℤ (pos 0) this.count)
    then some (false, this)
    else if ltb_ℤ this.count n
    then none
    else let after = record this { count = this.count -ℤ n } in
      some (not (ltb_ℤ (pos 0) after.count), after)

-- `countDown(n)`, with no other thread between its two parts
unfoldable pub count_down : ℤ → Latch → Option Latch
unfolding count_locked
count_down n this = do
  (ends, after) ← count_locked n this
  some (if ends then notify_all after else after)

-- `tryWait()`
unfoldable pub try_wait : Latch → Bool
try_wait this = eqb_ℤ (pos 0) this.count

-- A thread with the mutex looks at the counter: in `wait()`, and again when it woke up.
abbrev pub look : ℕ → Latch → Latch
look thread this =
    if eqb_ℤ (pos 0) this.count
    then record this { returned = thread ∷ this.returned }
    else record this { sleeping = thread ∷ this.sleeping }

unfoldable pub wait : ℕ → Latch → Latch
wait thread this = look thread this

-- the threads but this one, if it is among them
abbrev pub without : ℕ → List ℕ → Option (List ℕ)
without thread [] = none
without thread (t ∷ ts) =
    let rest = without thread ts in
    if t == thread then some ts else (rest >>= λ others. some (t ∷ others))

-- A thread wakes up: one that was notified, whichever comes first, or one that sleeps, since a
-- condition variable can wake a thread without being notified.
unfoldable pub wake : ℕ → Latch → Latch
wake thread this = elim (without thread this.notified) [
  | some others ↦ look thread (record this { notified = others })
  | none ↦ elim (without thread this.sleeping) [
    | some others ↦ look thread (record this { sleeping = others })
    | none ↦ this
  ]
]

-- `arriveAndWait(n)`, with no other thread in between
unfoldable pub arrive_and_wait : ℕ → ℤ → Latch → Option Latch
unfolding count_down wait
arrive_and_wait thread n this = do after ← count_down n this; some (wait thread after)

-- What can happen to a latch, by any thread and in any order: all but `notify_all` with the mutex held.
pub data Step : Latch → Latch → Type 0 where
  counts :
      (n : ℤ) {before after : Latch}
      → count_locked n before ≡ some (false, after)
      → Step before after
  unlocks :
      (n : ℤ) {before after : Latch}
      → count_locked n before ≡ some (true, after)
      → Step before (record after { notifying = suc after.notifying })
  notifies :
      (calls : ℕ) (before : Latch)
      → before.notifying ≡ suc calls
      → Step before (notify_all (record before { notifying = calls }))
  waits : (thread : ℕ) (before : Latch) → Step before (wait thread before)
  wakes : (thread : ℕ) (before : Latch) → Step before (wake thread before)

-- The states that are reached.
pub data Reach : Latch → Latch → Type 0 where
  here : (this : Latch) → Reach this this
  then_step :
      {first before after : Latch} → Reach first before → Step before after → Reach first after
