-- ===== src/DescriptorIo/Queue.antt =====
-- src/hlib_fdio.cpp: the queue of sources, and what is assumed of the system.
use hlib.Base.{
  ℕ, ◌≤◌, ◌<◌, ◌^◌, ◌≡◌, refl, ap, ◌∙◌, sym, not, Option, none, some, ◌>>=◌, List, [], ◌∷◌, ◌++◌,
  append_assoc, Bytes, length, drop,
}
use hlib.DescriptorIo.{System, Send, Io, is_empty_queue}
use hlib.EventLoop.{EventLoop}
use hlib.EventLoop.Kernel.{Events, Epoll, modifies}
use hlib.File.{moved}
use hlib.Stream.{Source}

-- A call that returns, with a result that P is true of.
abbrev pub Ends {ℓ} : {A : Type ℓ} → (A → Type 0) → Option A → Type 0
Ends P none = ⊥
Ends P (some a) = P a

pub Ends-map {ℓ} :
    {A : Type ℓ} {P Q : A → Type 0} (result : Option A)
    → ((a : A) → P a → Q a)
    → Ends P result
    → Ends Q result
Ends-map none f h = h
Ends-map (some a) f h = f a h

pub Ends-bind {ℓ κ} :
    {A : Type ℓ} {B : Type κ} (P : A → Type 0) (Q : B → Type 0) (m : Option A) (f : A → Option B)
    → ((a : A) → P a → Ends Q (f a))
    → Ends P m
    → Ends Q (m >>= f)
Ends-bind P Q none f h p = absurd p
Ends-bind P Q (some a) f h p = h a p

-- What the system does with bytes: `output` is what has been written to a descriptor. `::write` takes
-- some of the bytes from the front; a descriptor that epoll watches can be given other events.
pub record Transport {W : Type 0} (epoll : Epoll W) (system : System W) : Type 0 where
  pub output : ℕ → W → Bytes
  pub wrote :
      (fd : ℕ) (bytes ys : Bytes) (world : W)
      → (system.write_call fd bytes world).0 ≡ moved ys
      → (rest : Bytes) × (bytes ≡ ys ++ rest)
        × (output fd (system.write_call fd bytes world).1 ≡ output fd world ++ ys)
  pub write_interest :
      (fd : ℕ) (bytes : Bytes) (world : W) (k : ℕ)
      → epoll.interest (system.write_call fd bytes world).1 k ≡ epoll.interest world k
  pub ioctl_interest :
      (fd : ℕ) (world : W) (k : ℕ)
      → epoll.interest (system.ioctl fd world).1 k ≡ epoll.interest world k
  pub read_interest :
      (fd n : ℕ) (world : W) (k : ℕ)
      → epoll.interest (system.read_call fd n world).1 k ≡ epoll.interest world k
  pub modify_output :
      (fd : ℕ) (events : Events) (world : W)
      → output fd (epoll.epoll_ctl modifies fd events world).1 ≡ output fd world
  pub granted :
      (fd : ℕ) (events wanted : Events) (world : W)
      → epoll.interest world fd ≡ some wanted
      → (epoll.epoll_ctl modifies fd events world).0 ≡ none

-- A source that is not consumed past its end, of a size that a std::size_t holds.
pub record IsSource (s : Source) : Type 0 where
  pub within : s.progress ≤ length s.bytes
  pub sized : length s.bytes < 2 ^ 64

-- what is left of a source, and of a queue
abbrev pub remaining : Source → Bytes
remaining s = drop s.progress s.bytes

module _ {K : Type 0} where
  unfoldable pub pending : List (Send K) → Bytes
  pending [] = []
  pending (send ∷ queue) = remaining send.source ++ pending queue

  abbrev pub AllSources : List (Send K) → Type 0
  AllSources [] = Unit {0}
  AllSources (send ∷ queue) = IsSource send.source × AllSources queue

  pub pending-append : (xs ys : List (Send K)) → pending (xs ++ ys) ≡ pending xs ++ pending ys
  unfolding pending
  pending-append [] ys = refl
  pending-append (x ∷ xs) ys =
      ap (λ t. remaining x.source ++ t) (pending-append xs ys)
      ∙ sym (append_assoc (remaining x.source) (pending xs) (pending ys))

  pub AllSources-append :
      (xs ys : List (Send K)) → AllSources xs → AllSources ys → AllSources (xs ++ ys)
  AllSources-append [] ys h k = k
  AllSources-append (x ∷ xs) ys h k = (h.0, AllSources-append xs ys h.1 k)

module _ {C W : Type 0} (epoll : Epoll W) (fd : ℕ) where
  -- The loop, unless it is gone, has asked epoll for the events that are noted.
  abbrev pub Watched : Option (EventLoop C) → Events → W → Type 0
  Watched none events world = Unit {0}
  Watched (some loop) events world = epoll.interest world fd ≡ some events

  -- Calls that leave the interest list alone leave this so.
  pub Watched-world :
      (loop : Option (EventLoop C)) (events : Events) (world next : W)
      → epoll.interest next fd ≡ epoll.interest world fd
      → Watched loop events world
      → Watched loop events next
  Watched-world none events world next e h = tt
  Watched-world (some loop) events world next e h = e ∙ h

module _ {C K W : Type 0} (epoll : Epoll W) (fd : ℕ) where
  -- The descriptor is open, and waits to write exactly if there is a source to send.
  pub record IsArmed (this : Io C K W) : Type 0 where
    pub own : this.fd ≡ some fd
    pub sources : AllSources this.write_queue
    pub armed : this.events.writes ≡ not (is_empty_queue this.write_queue)
    pub watched : Watched epoll fd this.loop this.events this.world
