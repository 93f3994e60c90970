-- ===== src/DescriptorIo/Sources.antt =====
-- src/hlib_source.cpp: what `FileDescriptorIO` uses of a source that is not consumed past its end.
use hlib.Base.{
  ℕ, ◌+◌, ◌-◌, ◌≤◌, ◌≡◌, refl, ap, ◌∙◌, sym, arith, true, some, [], ◌∷◌, ◌++◌, Bytes, length, take,
  drop, leb, ◌==◌, ==_iff, length-drop, length-append, take_all, drop-drop, drop-append_length,
}
use hlib.Buffer.{add_size}
use hlib.DescriptorIo.Queue.{IsSource, remaining}
use hlib.Stream.{Source, available, is_empty, peek, consume}

-- A source after k of its bytes.
abbrev pub advanced : Source → ℕ → Source
advanced s k = record s { progress = s.progress + k }

module _ (s : Source) (v : IsSource s) where
  abbrev pub left : ℕ
  left = length s.bytes - s.progress

  pub length-remaining : length (remaining s) ≡ left
  length-remaining = length-drop s.progress s.bytes

  pub available_lem : available s ≡ some left
  unfolding available
  available_lem =
      rw (let t : leb s.progress (length s.bytes) ≡ true = ground (arith, v.within) in t) refl

  module _ (k : ℕ) (small : k ≤ left) where
    pub add_size-progress : add_size s.progress k ≡ s.progress + k
    add_size-progress = omega (arith, v.within, v.sized, small)

    pub peek_lem : peek s k ≡ some s.progress
    unfolding peek
    peek_lem =
        rw
          (
            add_size-progress,
            let t : leb (s.progress + k) (length s.bytes) ≡ true =
                  ground (arith, v.within, small) in
                t,
          )
          refl

    pub consume_lem : consume s k ≡ some (advanced s k, s.progress)
    unfolding consume
    consume_lem = rw (peek_lem, add_size-progress) refl

    pub advanced-IsSource : IsSource (advanced s k)
    advanced-IsSource = record { within = omega (arith, v.within, small); sized = v.sized }

  -- The bytes that are offered are all that are left.
  pub offered : take left (drop s.progress s.bytes) ≡ remaining s
  offered = take_all left (remaining s) (omega (arith, length-remaining))

  -- What is left is what was taken from the front, and what is left then.
  pub remaining-advanced :
      (ys rest : Bytes)
      → remaining s ≡ ys ++ rest
      → (length ys ≤ left) × (remaining (advanced s (length ys)) ≡ rest)
  remaining-advanced ys rest e = (
    omega (arith, length-remaining, ap length e, length-append ys rest),
    sym (drop-drop (length ys) s.progress s.bytes)
        ∙ ap (drop (length ys)) e
        ∙ drop-append_length (length ys) ys rest refl,
  )

  pub is_empty_lem : is_empty s ≡ some (s.progress == length s.bytes)
  unfolding is_empty
  is_empty_lem =
      rw (let t : leb s.progress (length s.bytes) ≡ true = ground (arith, v.within) in t) refl

  pub remaining-none : (s.progress == length s.bytes) ≡ true → remaining s ≡ []
  remaining-none e =
      let same = (==_iff s.progress (length s.bytes)).0 e in
      nothing (remaining s) (omega (arith, length-remaining, same))
    where
      nothing : (xs : Bytes) → length xs ≡ 0 → xs ≡ []
      nothing [] h = refl
      nothing (x ∷ xs) h = absurd (omega arith)
