-- ===== src/Latch/Safety.antt =====
-- src/hlib_latch.cpp: no thread returns early, and none sleeps on when the counter is zero.
use hlib.Base.{
  ℕ, ◌≡◌, Bool, true, false, ◌⊎◌, List, [], ◌∷◌, pos, suc, ◌<◌, ◌++◌, Option, eqb_ℤ, neg_part,
}
use hlib.Latch.{Latch, Reach}

-- The counter is not negative, a thread has returned only if it is zero, and one sleeps only if it
-- is not, or if a call of `notify_all` is still to come.
pub record IsSafe (this : Latch) : Type 0 where
  pub not_negative : neg_part this.count ≡ 0
  pub returned_late : (this.returned ≡ []) ⊎ (eqb_ℤ (pos 0) this.count ≡ true)
  pub sleeping_early :
      (this.sleeping ≡ []) ⊎ ((eqb_ℤ (pos 0) this.count ≡ false) ⊎ (0 < this.notifying))

-- The state behind the locked part, and behind the unlocking.
abbrev unlocked : Bool × Latch → Latch
unlocked (false, after) = after
unlocked (true, after) = record after { notifying = suc after.notifying }

-- threads that return one after the other
abbrev pub returned_too : List ℕ → List ℕ → List ℕ
returned_too [] returned = returned
returned_too (t ∷ ts) returned = returned_too ts (t ∷ returned)

-- From an open latch, steps of its own lead to where every thread that waited has returned.
pub record Releases (this : Latch) : Type 0 where
  pub last : Latch
  pub reached : Reach this last
  pub none_asleep : last.sleeping ≡ []
  pub none_notified : last.notified ≡ []
  pub all_returned : last.returned ≡ returned_too (this.notified ++ this.sleeping) this.returned
