-- ===== src/Uri.antt =====
-- src/hlib_uri.cpp: a URI taken apart and put together. `std::regex_match` is modelled by the only
-- match of the expression that it prefers: each optional part is taken where it can be, and each
-- repetition is as long as it can be. In a bracket of an extended expression a backslash is a
-- character like any other, and the dot matches no zero byte.
pub mod Parsing
pub mod Escaping
pub mod Printing
pub mod Cutting
pub mod Texts
pub mod Matching
pub mod Preferring
pub mod Reading
pub mod RoundTrip
mod Tests
use hlib.Base.{
  ℕ, zero, suc, ◌>>=◌, ◌+◌, ◌-◌, ◌/◌, ◌%◌, Bool, true, false, not, ◌&&◌, ◌||◌, Option, none, some,
  List, [], ◌∷◌, ◌++◌, Bytes, codes, ltb, leb, ◌==◌, if◌then◌else◌, mem_byte, Return, value, throws,
  invalid_argument,
}
use hlib.Strings.Integers.{equals, stoui16_nothrow}

-- `struct URI`
pub record Uri : Type 0 where
  pub scheme : Bytes
  pub user_info : Bytes
  pub host : Bytes
  pub port : ℕ
  pub path : Bytes
  pub query : Bytes
  pub fragment : Bytes

-- the longest front without one of the bytes, and the rest
unfoldable pub span : Bytes → Bytes → Bytes × Bytes
unfolding mem_byte
span stops [] = ([], [])
span stops (c ∷ cs) =
    let rest = span stops cs in if mem_byte c stops then ([], c ∷ cs) else (c ∷ rest.0, rest.1)

-- The groups of the expression that are used. `none` is a group that took no part in the match.
pub record Match : Type 0 where
  pub scheme : Option Bytes
  pub authority : Option Bytes
  pub path : Bytes
  pub query : Option Bytes
  pub fragment : Option Bytes

-- the text behind the byte, if it starts with the byte
abbrev pub after_byte : ℕ → Bytes → Option Bytes
after_byte b [] = none
after_byte b (c ∷ cs) = if c == b then some cs else none

-- A group that is taken with its part of the text, or left out.
abbrev pub group_or : Bytes → Option (Bytes × Bytes) → Option Bytes × Bytes
group_or text none = (none, text)
group_or text (some (group, rest)) = (some group, rest)

abbrev pub scheme_of : Bytes × Bytes → Option (Bytes × Bytes)
scheme_of ([], rest) = none
scheme_of (c ∷ cs, rest) = after_byte 58 rest >>= λ rest'. some (c ∷ cs, rest')

-- `(([^:\/?#]+):)?`
unfoldable pub take_scheme : Bytes → Option Bytes × Bytes
unfolding span
take_scheme text = group_or text (scheme_of (span (codes ":\\/?#") text))

-- `(//([^\/?#]*))?`
unfoldable pub take_authority : Bytes → Option Bytes × Bytes
unfolding span
take_authority text =
    group_or text
      (after_byte 47 text >>= after_byte 47 >>= λ rest. some (span (codes "\\/?#") rest))

-- `(\?([^#]*))?`
unfoldable pub take_query : Bytes → Option Bytes × Bytes
unfolding span
take_query text = group_or text (after_byte 63 text >>= λ rest. some (span (codes "#") rest))

-- `(#(.*))?`
abbrev pub take_fragment : Bytes → Option Bytes
take_fragment text = after_byte 35 text

abbrev pub has_zero : Option Bytes → Bool
has_zero none = false
has_zero (some xs) = mem_byte 0 xs

-- `std::regex_match(string, matches, uri_regex)`
unfoldable pub regex_match : Bytes → Option Match
unfolding span mem_byte take_scheme take_authority take_query
regex_match string =
    let s = take_scheme string in
    let a = take_authority s.1 in
    let p = span (codes "?#") a.1 in
    let q = take_query p.1 in
    let f = take_fragment q.1 in
    if has_zero f
    then none
    else some (record { scheme = s.0; authority = a.0; path = p.0; query = q.0; fragment = f })

-- `find('@')`, `rfind(':')`: the text before and behind the first or the last place of the byte
unfoldable pub cut_first : ℕ → Bytes → Option (Bytes × Bytes)
cut_first b [] = none
cut_first b (c ∷ cs) =
    let rest = cut_first b cs in
    if c == b then some ([], cs) else (rest >>= λ r. some (c ∷ r.0, r.1))

unfoldable pub cut_last : ℕ → Bytes → Option (Bytes × Bytes)
cut_last b [] = none
cut_last b (c ∷ cs) = elim (cut_last b cs) [
  | some r ↦ some (c ∷ r.0, r.1)
  | none ↦ if c == b then some ([], cs) else none
]

abbrev pub text_of : Option Bytes → Bytes
text_of none = []
text_of (some xs) = xs

-- the user info, and the authority without it
abbrev pub split_user_info : Bytes → Bytes × Bytes
split_user_info authority = elim (cut_first 64 authority) [ none ↦ ([], authority) | some r ↦ r ]

-- the host and the port, which is 0 if there is none that can be parsed
abbrev pub split_port : Bytes → Bytes × ℕ
split_port authority = elim (cut_last 58 authority) [
  | none ↦ (authority, 0)
  | some r ↦ elim (stoui16_nothrow r.1 10) [ none ↦ (authority, 0) | some port ↦ (r.0, port) ]
]

abbrev pub port_table : List (Bytes × ℕ)
port_table =
    (codes "ftp", 22)
    ∷ (codes "gopher", 70)
    ∷ (codes "http", 80)
    ∷ (codes "https", 443)
    ∷ (codes "imap", 143)
    ∷ (codes "ldap", 389)
    ∷ (codes "nfs", 2049)
    ∷ (codes "nntp", 119)
    ∷ (codes "pop", 110)
    ∷ (codes "smtp", 25)
    ∷ (codes "telnet", 23)
    ∷ (codes "ws", 80)
    ∷ (codes "wss", 443)
    ∷ []

unfoldable pub find_port : List (Bytes × ℕ) → Bytes → ℕ
unfolding equals
find_port [] scheme = 0
find_port ((name, port) ∷ table) scheme =
    let rest = find_port table scheme in if equals name scheme then port else rest

unfoldable pub uri_get_default_port_for_scheme : Bytes → ℕ
unfolding find_port
uri_get_default_port_for_scheme scheme = find_port port_table scheme

abbrev pub or_slash : Bytes → Bytes
or_slash [] = codes "/"
or_slash (c ∷ cs) = c ∷ cs

abbrev pub uri_of : Match → Uri
uri_of m =
    let scheme = text_of m.scheme in
    let user = split_user_info (text_of m.authority) in
    let host = split_port user.1 in
    record {
      scheme = scheme;
      user_info = user.0;
      host = host.0;
      port = if 0 == host.1 then uri_get_default_port_for_scheme scheme else host.1;
      path = or_slash m.path;
      query = text_of m.query;
      fragment = text_of m.fragment;
    }

unfoldable pub uri_parse : Bytes → Return Uri
uri_parse string = elim (regex_match string) [
  | none ↦ throws invalid_argument
  | some m ↦ value (uri_of m)
]

-- `target.find_first_of("?#")`
unfoldable pub target_get_path : Bytes → Bytes
unfolding span
target_get_path target = (span (codes "?#") target).0

unfoldable pub target_get_query : Bytes → Bytes
unfolding cut_first span
target_get_query target = elim (cut_first 63 target) [
  | none ↦ []
  | some r ↦ (span (codes "#") r.1).0
]

unfoldable pub target_get_fragment : Bytes → Bytes
unfolding cut_first
target_get_fragment target = elim (cut_first 35 target) [ none ↦ [] | some r ↦ r.1 ]
