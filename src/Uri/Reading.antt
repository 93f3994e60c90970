-- ===== src/Uri/Reading.antt =====
-- src/hlib_uri.cpp: the URI that `uri_parse` makes of a text.
use hlib.Base.{
  ℕ, ◌<◌, ◌≡◌, ◌≢◌, ◌⊎◌, refl, ap, ◌∙◌, sym, arith, true, false, Option, none, some, [], ◌∷◌, ◌++◌,
  ◌>>=◌, Bytes, codes, ◌==◌, ==_iff, if◌then◌else◌, Bool-cases, inl, inr, throws, value,
  invalid_argument,
}
use hlib.Strings.Integers.{stoui16_nothrow}
use hlib.Uri.{
  Uri, Match, cut_first, cut_last, split_user_info, split_port, text_of, or_slash, uri_of, has_zero,
  uri_parse, uri_get_default_port_for_scheme,
}
use hlib.Uri.Cutting.{Lacks}
use hlib.Uri.Parsing.{Splits, matched, matched-Splits, regex_match-matched, uri_parse_of}
use hlib.Uri.Preferring.{Prefers, matched-Prefers}

-- The user info of an authority, and the server behind it: what is in front of the first `@`, if there is
-- one.
pub data HasUser (authority : Bytes) : Bytes → Bytes → Type 0 where
  no_user : Lacks 64 authority → HasUser authority [] authority
  with_user :
      (user server : Bytes)
      → authority ≡ user ++ 64 ∷ server
      → Lacks 64 user
      → HasUser authority user server

-- The host and the port of a server: the port is behind the last colon if a number of 16 bits stands
-- there; otherwise all is the host, and the port 0.
pub data HasPort (server : Bytes) : Bytes → ℕ → Type 0 where
  no_colon : Lacks 58 server → HasPort server server 0
  no_number :
      (host text : Bytes)
      → server ≡ host ++ 58 ∷ text
      → Lacks 58 text
      → stoui16_nothrow text 10 ≡ none
      → HasPort server server 0
  with_port :
      (host text : Bytes) (port : ℕ)
      → server ≡ host ++ 58 ∷ text
      → Lacks 58 text
      → stoui16_nothrow text 10 ≡ some port
      → HasPort server host port

-- The URI of the parts of a text.
pub record IsUriOf (m : Match) (uri : Uri) : Type 0 where
  pub server : Bytes
  pub stated : ℕ
  pub scheme : uri.scheme ≡ text_of m.scheme
  pub user : HasUser (text_of m.authority) uri.user_info server
  pub host : HasPort server uri.host stated
  pub port :
      ((0 < stated) × (uri.port ≡ stated))
      ⊎ ((stated ≡ 0) × (uri.port ≡ uri_get_default_port_for_scheme uri.scheme))
  pub path : ((m.path ≡ []) × (uri.path ≡ codes "/")) ⊎ ((m.path ≢ []) × (uri.path ≡ m.path))
  pub query : uri.query ≡ text_of m.query
  pub fragment : uri.fragment ≡ text_of m.fragment

-- What `find` and `rfind` find of a byte.
abbrev FirstCut : ℕ → Bytes → Option (Bytes × Bytes) → Type 0
FirstCut b xs none = Lacks b xs
FirstCut b xs (some (front, behind)) = (xs ≡ front ++ b ∷ behind) × Lacks b front

abbrev LastCut : ℕ → Bytes → Option (Bytes × Bytes) → Type 0
LastCut b xs none = Lacks b xs
LastCut b xs (some (front, behind)) = (xs ≡ front ++ b ∷ behind) × Lacks b behind

cut_first-FirstCut : (b : ℕ) (xs : Bytes) → FirstCut b xs (cut_first b xs)
unfolding cut_first
cut_first-FirstCut b [] = tt
cut_first-FirstCut b (x ∷ xs) = elim (Bool-cases (x == b)) [
  | inl e ↦ rw e (ap (λ y. y ∷ xs) ((==_iff x b).0 e), tt)
  | inr e ↦ rw e (behind e (cut_first b xs) (cut_first-FirstCut b xs))
]
  where
    behind :
        (x == b) ≡ false
        → (r : Option (Bytes × Bytes)) → FirstCut b xs r
        → FirstCut b (x ∷ xs) (r >>= λ r. some (x ∷ r.0, r.1))
    behind e none h = (e, h)
    behind e (some (front, rest)) h = (ap (λ t. x ∷ t) h.0, (e, h.1))

cut_last-LastCut : (b : ℕ) (xs : Bytes) → LastCut b xs (cut_last b xs)
unfolding cut_last
cut_last-LastCut b [] = tt
cut_last-LastCut b (x ∷ xs) = behind (cut_last b xs) (cut_last-LastCut b xs)
  where
    behind :
        (r : Option (Bytes × Bytes))
        → LastCut b xs r
        → LastCut b (x ∷ xs) (elim r [
          | some r ↦ some (x ∷ r.0, r.1)
          | none ↦ if x == b then some ([], xs) else none
        ])
    behind (some (front, rest)) h = (ap (λ t. x ∷ t) h.0, h.1)
    behind none h = elim (Bool-cases (x == b)) [
      | inl e ↦ rw e (ap (λ y. y ∷ xs) ((==_iff x b).0 e), h)
      | inr e ↦ rw e (e, h)
    ]

split_user_info-HasUser :
    (authority : Bytes)
    → HasUser authority (split_user_info authority).0 (split_user_info authority).1
split_user_info-HasUser authority =
    of_cut (cut_first 64 authority) (cut_first-FirstCut 64 authority)
  where
    of_cut :
        (r : Option (Bytes × Bytes))
        → FirstCut 64 authority r
        → (let split : Bytes × Bytes = elim r [ none ↦ ([], authority) | some r ↦ r ] in
            HasUser authority (split.0) (split.1))
    of_cut none h = no_user h
    of_cut (some (user, server)) h = with_user user server h.0 h.1

split_port-HasPort : (server : Bytes) → HasPort server (split_port server).0 (split_port server).1
split_port-HasPort server = of_cut (cut_last 58 server) (cut_last-LastCut 58 server)
  where
    of_number :
        (host text : Bytes)
        → server ≡ host ++ 58 ∷ text
        → Lacks 58 text
        → (n : Option ℕ) → stoui16_nothrow text 10 ≡ n
        → (let split : Bytes × ℕ = elim n [ none ↦ (server, 0) | some port ↦ (host, port) ] in
            HasPort server (split.0) (split.1))
    of_number host text e h none n = no_number host text e h n
    of_number host text e h (some port) n = with_port host text port e h n

    of_cut :
        (r : Option (Bytes × Bytes))
        → LastCut 58 server r
        → (let split : Bytes × ℕ = elim r [
          | none ↦ (server, 0)
          | some r ↦ elim (stoui16_nothrow r.1 10) [ none ↦ (server, 0) | some port ↦ (r.0, port) ]
        ] in
            HasPort server (split.0) (split.1))
    of_cut none h = no_colon h
    of_cut (some (host, text)) h = of_number host text h.0 h.1 (stoui16_nothrow text 10) refl

stated_or_default :
    (stated default : ℕ)
    → (let port : ℕ = if 0 == stated then default else stated in
        ((0 < stated) × (port ≡ stated)) ⊎ ((stated ≡ 0) × (port ≡ default)))
stated_or_default stated default = elim (Bool-cases (0 == stated)) [
  | inl e ↦ rw e (inr (sym ((==_iff 0 stated).0 e), refl))
  | inr e ↦ rw e (inl (ground (arith, e), refl))
]

path_of :
    (path : Bytes)
    → ((path ≡ []) × (or_slash path ≡ codes "/")) ⊎ ((path ≢ []) × (or_slash path ≡ path))
path_of [] = inl (refl, refl)
path_of (c ∷ cs) = inr ((λ e. cc e), refl)

uri_of-IsUriOf : (m : Match) → IsUriOf m (uri_of m)
uri_of-IsUriOf m =
    let (user, server) = split_user_info (text_of m.authority) in
    let (host, stated) = split_port server in
    record {
      server = server;
      stated = stated;
      scheme = refl;
      user = split_user_info-HasUser (text_of m.authority);
      host = split_port-HasPort server;
      port = stated_or_default stated (uri_get_default_port_for_scheme (text_of m.scheme));
      path = path_of m.path;
      query = refl;
      fragment = refl;
    }

-- How `uri_parse` ends: it throws for a fragment with a zero byte, and only then.
pub data Ends (string : Bytes) (m : Match) : Type 0 where
  refused : has_zero m.fragment ≡ true → uri_parse string ≡ throws invalid_argument → Ends string m
  parsed :
      (uri : Uri)
      → has_zero m.fragment ≡ false
      → uri_parse string ≡ value uri
      → IsUriOf m uri
      → Ends string m

pub record Parses (string : Bytes) : Type 0 where
  pub groups : Match
  pub splits : Splits string groups
  pub prefers : Prefers string groups
  pub ends : Ends string groups

-- `uri_parse` takes every text apart into an optional scheme before a colon, an optional authority
-- behind two slashes, a path, an optional query behind a question mark and an optional fragment
-- behind a hash. With what marks them these parts make up the whole text, none but the fragment holds
-- a byte at which it should have ended, and a scheme and an authority that are there are taken. It
-- throws exactly if the fragment holds a zero byte. Otherwise it returns these parts, with a slash for
-- an empty path; of the authority, the user info is what is in front of the first `@`, the port is the
-- number of 16 bits behind the last colon of the rest, or else the scheme's own, and the host is what
-- is left.
pub uri_parse-Parses : (string : Bytes) → Parses string
uri_parse-Parses string =
    let m = matched string in
    record {
      groups = m;
      splits = matched-Splits string;
      prefers = matched-Prefers string;
      ends = elim (Bool-cases (has_zero m.fragment)) [
        | inl z ↦ refused z (uri_parse_of string true m (regex_match-matched string ∙ rw z refl))
        | inr z ↦
            parsed (uri_of m) z
              (uri_parse_of string false m (regex_match-matched string ∙ rw z refl))
              (uri_of-IsUriOf m)
      ];
    }
