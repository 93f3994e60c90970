-- ===== src/SockAddr/RoundTrip.antt =====
-- src/hlib_sock_addr.cpp: an address that is printed is parsed again.
use hlib.Base.{
  ℕ, suc, ◌+◌, ◌<◌, ◌≤◌, ◌≡◌, refl, ap, sym, ◌∙◌, Bool, true, false, Option, none, some, ◌>>=◌, ◌∷◌,
  ◌++◌, Bytes, length, drop, take-append_length, leb, ltb, ◌==◌, Bool-cases, inl, inr, arith,
}
use hlib.Strings.Numeral.{c_str}
use hlib.Format.{decimal}
use hlib.Format.Decimal.{decimal-Shows}
use hlib.Format.Reading.{reads_port}
use hlib.Uri.Cutting.{HasNoZero, c_str-HasNoZero, Lacks}
use hlib.SockAddr.{
  port, SockAddr, inet, inet6, ipv4_mask, ipv6_mask, forbids, htons, count_char, rfind_char,
  rfind_pair, starts_with_bracket, parse, parse4, parse6, parse6_at, port_at, front_of, behind,
  address, addr_to_string,
}
use hlib.SockAddr.Scanning.{
  htons-htons, htons-lt, count_char-append, count_char-Lacks, Lacks-count_char, rfind_char-none,
  rfind_char-some, rfind_pair-none, rfind_pair-some, digits-Lacks, drop_behind, drop_behind_two,
}

-- What the manual of `inet_ntop` and `inet_pton` says of the text of an address: it is read back, and
-- it is in dotted-decimal form for IPv4, and of groups of digits between colons for IPv6.
pub record Documented {A4 A6 : Type 0} (inet_pton4 : Bytes → Option A4)
    (inet_pton6 : Bytes → Option A6) (inet_ntop4 : A4 → Option Bytes)
    (inet_ntop6 : A6 → Option Bytes) : Type 0 where
  pub text4 : A4 → Bytes
  pub writes4 : (a : A4) → inet_ntop4 a ≡ some (text4 a)
  pub reads4 : (a : A4) → inet_pton4 (text4 a) ≡ some a
  pub zero4 : (a : A4) → HasNoZero (text4 a)
  pub dots4 : (a : A4) → count_char (text4 a) 46 ≡ 3
  pub colons4 : (a : A4) → count_char (text4 a) 58 ≡ 0
  pub text6 : A6 → Bytes
  pub writes6 : (a : A6) → inet_ntop6 a ≡ some (text6 a)
  pub reads6 : (a : A6) → inet_pton6 (text6 a) ≡ some a
  pub zero6 : (a : A6) → HasNoZero (text6 a)
  pub colons6 : (a : A6) → 2 ≤ count_char (text6 a) 58
  pub no_open6 : (a : A6) → starts_with_bracket (text6 a) ≡ false
  pub no_close6 : (a : A6) → Lacks 93 (text6 a)

module _ {A4 A6 : Type 0} (inet_pton4 : Bytes → Option A4) (inet_pton6 : Bytes → Option A6) where
  parse-parse4 :
      (string : Bytes) (mask : ℕ)
      → leb 2 (count_char string 58) ≡ false
      → (3 == count_char string 46) ≡ true
      → parse inet_pton4 inet_pton6 string mask ≡ parse4 inet_pton4 inet_pton6 string mask
  unfolding parse
  parse-parse4 string mask e f = rw (e, f) refl

  parse-parse6 :
      (string : Bytes) (mask : ℕ)
      → leb 2 (count_char string 58) ≡ true
      → parse inet_pton4 inet_pton6 string mask ≡ parse6 inet_pton4 inet_pton6 string mask
  unfolding parse
  parse-parse6 string mask e = rw e refl

  parse4_of :
      (string text : Bytes) (mask : ℕ) (found : Option ℕ) (a : A4)
      → forbids ipv4_mask mask ≡ false
      → rfind_char 58 string ≡ found
      → c_str (front_of string found) ≡ text
      → inet_pton4 text ≡ some a
      → parse4 inet_pton4 inet_pton6 string mask ≡ port_at string mask (inet a) (behind 1 found)
  unfolding parse4
  parse4_of string text mask found a m e f g = rw (m, e, f, g) refl

  parse6_of :
      (string text : Bytes) (mask : ℕ) (opened : Bool) (found : Option ℕ)
      (r : SockAddr A4 A6 × Bool)
      → forbids ipv6_mask mask ≡ false
      → starts_with_bracket string ≡ opened
      → rfind_pair 93 58 string ≡ found
      → parse6_at inet_pton4 inet_pton6 string mask opened found ≡ r
      → parse6 inet_pton4 inet_pton6 string mask ≡ r
  unfolding parse6
  parse6_of string text mask opened found r m e f g = rw (m, e, f) g

-- the port that a text ends in
port_at_end :
    {A4 A6 : Type 0} (string : Bytes) (mask at n : ℕ) (make : ℕ → SockAddr A4 A6)
    → drop at string ≡ decimal n
    → (0 == n) ≡ false
    → n < 65536
    → port_at string mask make (some at) ≡ (make (htons n), true)
port_at_end string mask at n make e f h =
    rw (e, reads_port (decimal n) n (decimal-Shows n) f h) refl

-- the digits behind a colon hold one colon and no dot
colon_digits : (n : ℕ) → (count_char (58 ∷ decimal n) 58 ≡ 1) × (count_char (58 ∷ decimal n) 46 ≡ 0)
unfolding count_char
colon_digits n =
    let (d, v) = decimal-Shows n in
    (
      ap suc (count_char-Lacks (decimal n) 58 (digits-Lacks 58 (decimal n) (inr (omega arith)) d)),
      count_char-Lacks (decimal n) 46 (digits-Lacks 46 (decimal n) (inl (omega arith)) d),
    )

leb_two : (n : ℕ) → 2 ≤ n → leb 2 n ≡ true
leb_two n h = ground arith

not_two : (n : ℕ) → n < 2 → leb 2 n ≡ false
not_two n h = ground arith

three : (n : ℕ) → n ≡ 3 → (3 == n) ≡ true
three n h = ground arith

zero_port : (p : ℕ) → p < 65536 → (0 == htons p) ≡ true → p ≡ 0
zero_port p h e = ground arith

shown : (n : ℕ) → (0 == n) ≡ false → ltb 0 n ≡ true
shown n e = ground arith

hidden : (n : ℕ) → (0 == n) ≡ true → ltb 0 n ≡ false
hidden n e = ground arith

module _ {A4 A6 : Type 0} {inet_pton4 : Bytes → Option A4} {inet_pton6 : Bytes → Option A6}
    {inet_ntop4 : A4 → Option Bytes} {inet_ntop6 : A6 → Option Bytes}
    (doc : Documented inet_pton4 inet_pton6 inet_ntop4 inet_ntop6) (mask : ℕ) where
  -- An address, printed and parsed.
  abbrev pub reparsed : SockAddr A4 A6 → Option (SockAddr A4 A6 × Bool)
  reparsed sa = addr_to_string inet_ntop4 inet_ntop6 sa >>= λ text.
      some (parse inet_pton4 inet_pton6 text mask)

  parse_plain4 :
      (a : A4)
      → forbids ipv4_mask mask ≡ false
      → parse inet_pton4 inet_pton6 (doc.text4 a) mask ≡ (inet a 0, true)
  parse_plain4 a m =
      let t = doc.text4 a in
      parse-parse4 inet_pton4 inet_pton6 t mask
        (not_two (count_char t 58) (omega (arith, doc.colons4 a)))
        (three (count_char t 46) (doc.dots4 a))
      ∙ parse4_of inet_pton4 inet_pton6 t t mask none a m
          (rfind_char-none 58 t (Lacks-count_char t 58 (doc.colons4 a)))
          (c_str-HasNoZero t (doc.zero4 a)) (doc.reads4 a)

  parse_port4 :
      (a : A4) (n : ℕ)
      → forbids ipv4_mask mask ≡ false
      → (0 == n) ≡ false
      → n < 65536
      → parse inet_pton4 inet_pton6 (doc.text4 a ++ 58 ∷ decimal n) mask ≡ (inet a (htons n), true)
  parse_port4 a n m f h =
      let t = doc.text4 a in
      let s : Bytes = t ++ 58 ∷ decimal n in
      let (c, d) = colon_digits n in
      parse-parse4 inet_pton4 inet_pton6 s mask
        (not_two (count_char s 58)
          (omega (arith, count_char-append t (58 ∷ decimal n) 58, c, doc.colons4 a)))
        (three (count_char s 46)
          (omega (arith, count_char-append t (58 ∷ decimal n) 46, d, doc.dots4 a)))
      ∙ parse4_of inet_pton4 inet_pton6 s t mask (some (length t)) a m
          (rfind_char-some 58 t (decimal n)
            (digits-Lacks 58 (decimal n) (inr (omega arith)) (decimal-Shows n).0))
          (ap c_str (take-append_length (length t) t (58 ∷ decimal n) refl)
            ∙ c_str-HasNoZero t (doc.zero4 a))
          (doc.reads4 a)
      ∙ port_at_end s mask (length t + 1) n (inet a) (drop_behind t 58 (decimal n)) f h

  parse_plain6 :
      (a : A6)
      → forbids ipv6_mask mask ≡ false
      → parse inet_pton4 inet_pton6 (doc.text6 a) mask ≡ (inet6 a 0, true)
  parse_plain6 a m =
      let t = doc.text6 a in
      parse-parse6 inet_pton4 inet_pton6 t mask (leb_two (count_char t 58) (doc.colons6 a))
      ∙ parse6_of inet_pton4 inet_pton6 t t mask false none (inet6 a 0, true) m (doc.no_open6 a)
          (rfind_pair-none 93 58 t (doc.no_close6 a))
          (rw (c_str-HasNoZero t (doc.zero6 a), doc.reads6 a) refl)

  parse_port6 :
      (a : A6) (n : ℕ)
      → forbids ipv6_mask mask ≡ false
      → (0 == n) ≡ false
      → n < 65536
      → parse inet_pton4 inet_pton6 (91 ∷ (doc.text6 a ++ 93 ∷ 58 ∷ decimal n)) mask
        ≡ (inet6 a (htons n), true)
  unfolding count_char
  parse_port6 a n m f h =
      let t = doc.text6 a in
      let s : Bytes = 91 ∷ (t ++ 93 ∷ 58 ∷ decimal n) in
      parse-parse6 inet_pton4 inet_pton6 s mask (
        leb_two (count_char s 58)
          (omega (arith, count_char-append t (93 ∷ 58 ∷ decimal n) 58, doc.colons6 a)))
      ∙ parse6_of inet_pton4 inet_pton6 s t mask true (some (suc (length t)))
          (inet6 a (htons n), true) m refl
          (rfind_pair-some 93 58 (91 ∷ t) (decimal n)
            (refl, digits-Lacks 93 (decimal n) (inr (omega arith)) (decimal-Shows n).0))
          (rw
            (
              take-append_length (length t) t (93 ∷ 58 ∷ decimal n) refl,
              c_str-HasNoZero t (doc.zero6 a),
              doc.reads6 a,
            )
            (port_at_end s mask (suc (length t) + 2) n (inet6 a)
              (drop_behind_two (91 ∷ t) 93 58 (decimal n)) f h))

  reparsed4 :
      (a : A4) (p : ℕ)
      → forbids ipv4_mask mask ≡ false
      → p < 65536
      → reparsed (inet a p) ≡ some (inet a p, true)
  unfolding addr_to_string address port
  reparsed4 a p m h = elim (Bool-cases (0 == htons p)) [
    | inl e ↦
        rw (doc.writes4 a, hidden (htons p) e)
          (ap some (parse_plain4 a m ∙ ap (λ k. (inet a k, true)) (sym (zero_port p h e))))
    | inr e ↦
        rw (doc.writes4 a, shown (htons p) e)
          (ap some (
            parse_port4 a (htons p) m e (htons-lt p h)
            ∙ ap (λ k. (inet a k, true)) (htons-htons p h)))
  ]

  reparsed6 :
      (a : A6) (p : ℕ)
      → forbids ipv6_mask mask ≡ false
      → p < 65536
      → reparsed (inet6 a p) ≡ some (inet6 a p, true)
  unfolding addr_to_string address port
  reparsed6 a p m h = elim (Bool-cases (0 == htons p)) [
    | inl e ↦
        rw (doc.writes6 a, hidden (htons p) e)
          (ap some (parse_plain6 a m ∙ ap (λ k. (inet6 a k, true)) (sym (zero_port p h e))))
    | inr e ↦
        rw (doc.writes6 a, shown (htons p) e)
          (ap some (
            parse_port6 a (htons p) m e (htons-lt p h)
            ∙ ap (λ k. (inet6 a k, true)) (htons-htons p h)))
  ]

  -- An IPv4 or IPv6 address with any port, printed by `to_string` and read by `parse` under a mask
  -- that allows both families, is the same address with the same port, if `inet_ntop` and
  -- `inet_pton` do what their manual says. A port of 0 is not printed, and the other digits are
  -- never taken for a part of the address.
  pub parse-addr_to_string :
      (a4 : A4) (a6 : A6) (p : ℕ)
      → forbids ipv4_mask mask ≡ false
      → forbids ipv6_mask mask ≡ false
      → p < 65536
      → (reparsed (inet a4 p) ≡ some (inet a4 p, true))
        × (reparsed (inet6 a6 p) ≡ some (inet6 a6 p, true))
  parse-addr_to_string a4 a6 p m4 m6 h = (reparsed4 a4 p m4 h, reparsed6 a6 p m6 h)
