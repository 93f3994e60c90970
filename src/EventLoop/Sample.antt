-- ===== src/EventLoop/Sample.antt =====
-- A small epoll for tests: an interest list, the events that it is to report, and what has been
-- written.
use hlib.Base.{
  ℕ, ◌≡◌, refl, sym, ap, ◌∙◌, arith, true, Option, none, some, Bytes, List, [], ◌∷◌, ◌==◌,
  if◌then◌else◌, ℤ, pos, Option-cases, inl, inr,
}
use hlib.EventLoop.{assign_entry}
use hlib.EventLoop.Kernel.{
  Events, Epoll, Control, adds, modifies, deletes, Waited, by_signal, event, entry_of,
}

pub record World : Type 0 where
  pub watched : ℕ → Option Events
  pub waits : List Waited
  pub output : Bytes

-- a descriptor that is not watched can neither be modified nor deleted, with ENOENT
abbrev pub control : Control → ℕ → Events → World → Option ℕ × World
control adds fd events w = (none, record w { watched = assign_entry fd (some events) w.watched })
control modifies fd events w = elim (w.watched fd) [
  | none ↦ (some 2, w)
  | some e ↦ (none, record w { watched = assign_entry fd (some events) w.watched })
]
control deletes fd events w = elim (w.watched fd) [
  | none ↦ (some 2, w)
  | some e ↦ (none, record w { watched = assign_entry fd none w.watched })
]

abbrev pub told_if : Option Events → ℕ → Events → Waited
told_if none fd events = by_signal
told_if (some e) fd events = event fd events

abbrev pub next_event : List Waited → (ℕ → Option Events) → Waited × List Waited
next_event [] watched = (by_signal, [])
next_event (event fd events ∷ rest) watched = (told_if (watched fd) fd events, rest)
next_event (waited ∷ rest) watched = (by_signal, rest)

abbrev pub await_event : ℤ → World → Waited × World
await_event timeout w =
    let (waited, rest) = next_event w.waits w.watched in (waited, record w { waits = rest })

pub controlled :
    (c : Control) (fd : ℕ) (events : Events) (w : World) (k : ℕ)
    → (control c fd events w).0 ≡ none
    → (control c fd events w).1.watched k ≡ (if k == fd then entry_of c events else w.watched k)
controlled adds fd events w k h = refl
controlled modifies fd events w k h = ground arith
controlled deletes fd events w k h = ground arith

pub refused :
    (c : Control) (fd : ℕ) (events : Events) (w : World) (e k : ℕ)
    → (control c fd events w).0 ≡ some e
    → (control c fd events w).1.watched k ≡ w.watched k
refused adds fd events w e k h = absurd (cc h)
refused modifies fd events w e k h = ground arith
refused deletes fd events w e k h = ground arith

pub known :
    (fd : ℕ) (events : Events) (w : World)
    → (control modifies fd events w).0 ≡ none
    → (wanted : Events) × (w.watched fd ≡ some wanted)
known fd events w h = elim (Option-cases (w.watched fd)) [
  | inl nothing ↦ absurd (cc (rw (nothing, control) at h))
  | inr found ↦ found
]

pub told_only :
    (entry : Option Events) (k fd : ℕ) (events e : Events)
    → told_if entry k events ≡ event fd e
    → (wanted : Events) × (entry ≡ some wanted) × (k ≡ fd)
told_only none k fd events e h = absurd (cc h)
told_only (some wanted) k fd events e h = (wanted, refl, cc h)

pub reported :
    (waits : List Waited) (watched : ℕ → Option Events) (fd : ℕ) (events : Events)
    → (next_event waits watched).0 ≡ event fd events
    → (wanted : Events) × (watched fd ≡ some wanted)
reported [] watched fd events h = absurd (cc h)
reported (event k e ∷ rest) watched fd events h =
    let (wanted, found, same) = told_only (watched k) k fd e events h in
    (wanted, ap watched (sym same) ∙ found)
reported (by_signal ∷ rest) watched fd events h = absurd (cc h)
reported (Waited.timed_out ∷ rest) watched fd events h = absurd (cc h)
reported (Waited.wait_error e ∷ rest) watched fd events h = absurd (cc h)

abbrev pub small_epoll : Epoll World
small_epoll = record {
  epoll_ctl = control;
  epoll_wait = await_event;
  read_pipe = λ w. (true, w);
  write_pipe = λ w. (none, w);
  now = λ w. (record { tv_sec = pos 0; tv_nsec = pos 0 }, w);
  interest = λ w. w.watched;
  controlled = controlled;
  refused = refused;
  known = known;
  waited = λ timeout w k. refl;
  reported = λ timeout w fd events h. reported w.waits w.watched fd events h;
  pipe_read = λ w k. refl;
  told = λ w k. refl;
}
