-- ===== src/Uri/Cutting.antt =====
-- src/hlib_uri.cpp: where the texts that `uri_parse` looks for stand in a text that is put together.
use hlib.Base.{
  ℕ, ◌≡◌, refl, Bool, true, false, ◌||◌, none, some, [], ◌∷◌, ◌++◌, Bytes, ◌==◌, ==_iff, mem_byte,
}
use hlib.Strings.Numeral.{c_str}
use hlib.Uri.{span, cut_first, cut_last}
use hlib.Uri.Parsing.{Avoids}

-- No byte is zero.
abbrev pub HasNoZero : Bytes → Type 0
HasNoZero [] = Unit
HasNoZero (c ∷ cs) = ((c == 0) ≡ false) × HasNoZero cs

pub c_str-HasNoZero : (xs : Bytes) → HasNoZero xs → c_str xs ≡ xs
unfolding c_str
c_str-HasNoZero [] h = refl
c_str-HasNoZero (c ∷ cs) h = rw (h.0, c_str-HasNoZero cs h.1) refl

pub or_false : (a b : Bool) → (a || b) ≡ false → (a ≡ false) × (b ≡ false)
or_false true b h = absurd (cc h)
or_false false b h = (refl, h)

-- What avoids some bytes avoids all but the first of them.
pub Avoids-tail : (c : ℕ) (stops xs : Bytes) → Avoids (c ∷ stops) xs → Avoids stops xs
unfolding mem_byte
Avoids-tail c stops [] h = tt
Avoids-tail c stops (x ∷ xs) h = ((or_false _ _ h.0).1, Avoids-tail c stops xs h.1)

pub Avoids-append :
    (stops xs ys : Bytes) → Avoids stops xs → Avoids stops ys → Avoids stops (xs ++ ys)
Avoids-append stops [] ys h k = k
Avoids-append stops (x ∷ xs) ys h k = (h.0, Avoids-append stops xs ys h.1 k)

-- The text is at its end, or at one of the stops.
abbrev pub IsStopped : Bytes → Bytes → Type 0
IsStopped stops [] = Unit
IsStopped stops (c ∷ cs) = mem_byte c stops ≡ true

pub span-stop :
    (stops xs ys : Bytes) → Avoids stops xs → IsStopped stops ys → span stops (xs ++ ys) ≡ (xs, ys)
unfolding span
span-stop stops [] [] h k = refl
span-stop stops [] (y ∷ ys) h k = rw k refl
span-stop stops (x ∷ xs) ys h k = rw (h.0, span-stop stops xs ys h.1 k) refl

-- the first of some stops is not there
abbrev pub Lacks : ℕ → Bytes → Type 0
Lacks b [] = Unit
Lacks b (c ∷ cs) = ((c == b) ≡ false) × Lacks b cs

pub Avoids-Lacks : (b : ℕ) (stops xs : Bytes) → Avoids (b ∷ stops) xs → Lacks b xs
unfolding mem_byte
Avoids-Lacks b stops [] h = tt
Avoids-Lacks b stops (x ∷ xs) h = ((or_false _ _ h.0).0, Avoids-Lacks b stops xs h.1)

pub cut_first-Lacks :
    (b : ℕ) (xs ys : Bytes) → Lacks b xs → cut_first b (xs ++ b ∷ ys) ≡ some (xs, ys)
unfolding cut_first
cut_first-Lacks b [] ys h = rw ((==_iff b b).1 refl) refl
cut_first-Lacks b (x ∷ xs) ys h = rw (h.0, cut_first-Lacks b xs ys h.1) refl

pub cut_first-none : (b : ℕ) (xs : Bytes) → Lacks b xs → cut_first b xs ≡ none
unfolding cut_first
cut_first-none b [] h = refl
cut_first-none b (x ∷ xs) h = rw (h.0, cut_first-none b xs h.1) refl

pub cut_last-none : (b : ℕ) (xs : Bytes) → Lacks b xs → cut_last b xs ≡ none
unfolding cut_last
cut_last-none b [] h = refl
cut_last-none b (x ∷ xs) h = rw (cut_last-none b xs h.1, h.0, cut_last) refl

pub cut_last-Lacks :
    (b : ℕ) (xs ys : Bytes) → Lacks b ys → cut_last b (xs ++ b ∷ ys) ≡ some (xs, ys)
unfolding cut_last
cut_last-Lacks b [] ys h = rw (cut_last-none b ys h, (==_iff b b).1 refl, cut_last) refl
cut_last-Lacks b (x ∷ xs) ys h = rw (cut_last-Lacks b xs ys h, cut_last) refl
