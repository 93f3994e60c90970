-- ===== src/Uri/RoundTrip.antt =====
-- src/hlib_uri.cpp: a URI that is printed is parsed again.
use hlib.Base.{
  ℕ, ◌<◌, ◌≡◌, refl, ap, append_assoc, append-nil, ◌∙◌, true, false, some, [], ◌∷◌, ◌++◌, Bytes,
  codes, ◌==◌, if◌then◌else◌, mem_byte, Bool-cases, inl, inr, value, arith,
}
use hlib.Strings.Numeral.{digit_value}
use hlib.Strings.Digits.{IsNumeral}
use hlib.Format.{decimal}
use hlib.Format.Reading.{reads_port}
use hlib.Format.Decimal.{decimal-Shows}
use hlib.Uri.{
  split_port, split_user_info, text_of, or_slash, Uri, Match, uri_parse, uri_of,
  uri_get_default_port_for_scheme,
}
use hlib.Uri.Parsing.{matched, regex_match-matched, uri_parse_of, Avoids, scheme_part, marked}
use hlib.Uri.Printing.{shows_port, uri_to_string}
use hlib.Uri.Cutting.{
  Avoids-tail, Avoids-append, IsStopped, span-stop, Lacks, Avoids-Lacks, cut_first-Lacks,
  cut_first-none, cut_last-none, cut_last-Lacks,
}
use hlib.Uri.Texts.{
  IsPrintable, optional, user_part, port_part, authority_part, tail_part, uri_to_string_lem,
}
use hlib.Uri.Matching.{
  take_scheme_lem, take_authority_lem, take_query_lem, tail-IsStopped, take_fragment_lem,
  has_zero_lem, groups_of, matched_of,
}

-- The digits of a number are no bytes that end a part.
digit_byte : (c : ℕ) → digit_value c < 10 → mem_byte c (codes ":@\\/?#") ≡ false
unfolding digit_value mem_byte
digit_byte c h = ground arith

digits-Avoids : (xs : Bytes) → IsNumeral 10 xs → Avoids (codes ":@\\/?#") xs
digits-Avoids [] h = tt
digits-Avoids (c ∷ cs) h = (digit_byte c h.0, digits-Avoids cs h.1)

both_shown : (p d : ℕ) → shows_port p d ≡ true → (0 == p) ≡ false
both_shown p d h = ground arith

port_hidden : (p d : ℕ) → shows_port p d ≡ false → (if 0 == p then d else 0) ≡ 0 → d ≡ p
port_hidden p d h k = ground arith

split_port_shown :
    (host : Bytes) (port : ℕ)
    → (0 == port) ≡ false
    → port < 65536
    → split_port (host ++ (codes ":" ++ decimal port)) ≡ (host, port)
split_port_shown host port e h =
    let (n, v) = decimal-Shows port in
    rw
      (
        cut_last-Lacks 58 host (decimal port)
            (Avoids-Lacks 58 (codes "@\\/?#") (decimal port) (digits-Avoids (decimal port) n)),
        split_port,
      )
      (rw (reads_port (decimal port) port (n, v) e h) refl)

split_port_hidden : (host : Bytes) → Lacks 58 host → split_port (host ++ []) ≡ (host, 0)
split_port_hidden host h =
    ap split_port (append-nil host) ∙ rw (cut_last-none 58 host h, split_port) refl

split_user_info_lem :
    (user rest : Bytes)
    → Lacks 64 user
    → Lacks 64 rest
    → split_user_info (user_part user ++ rest) ≡ (user, rest)
split_user_info_lem [] rest h k = rw (cut_first-none 64 rest k, split_user_info) refl
split_user_info_lem (c ∷ cs) rest h k =
    ap split_user_info (append_assoc (c ∷ cs) (codes "@") rest)
    ∙ rw (cut_first-Lacks 64 (c ∷ cs) rest h, split_user_info) refl

-- the host and the port hold no byte that ends the user info or the authority
host_port-Avoids :
    (uri : Uri) → IsPrintable uri → Avoids (codes "@\\/?#") (uri.host ++ port_part uri)
unfolding mem_byte
host_port-Avoids uri p =
    Avoids-append (codes "@\\/?#") uri.host (port_part uri)
      (Avoids-tail 58 (codes "@\\/?#") uri.host p.host_Avoids)
      (elim (Bool-cases (shows_port uri.port (uri_get_default_port_for_scheme uri.scheme))) [
        | inl e ↦ rw e (
          refl,
          Avoids-tail 58 (codes "@\\/?#") (decimal uri.port)
              (digits-Avoids (decimal uri.port) (decimal-Shows uri.port).0),
        )
        | inr e ↦ rw e tt
      ])

user_part-Avoids :
    (user : Bytes) → Avoids (codes "\\/?#") user → Avoids (codes "\\/?#") (user_part user)
unfolding mem_byte
user_part-Avoids [] h = tt
user_part-Avoids (c ∷ cs) h = Avoids-append (codes "\\/?#") (c ∷ cs) (codes "@") h (refl, tt)

authority-Avoids : (uri : Uri) → IsPrintable uri → Avoids (codes "\\/?#") (authority_part uri)
authority-Avoids uri p =
    Avoids-append (codes "\\/?#") (user_part uri.user_info) (uri.host ++ port_part uri)
      (user_part-Avoids uri.user_info
        (Avoids-tail 64 (codes "\\/?#") uri.user_info p.user_info_Avoids))
      (Avoids-tail 64 (codes "\\/?#") (uri.host ++ port_part uri) (host_port-Avoids uri p))

path-IsStopped :
    (path tail : Bytes) {rest : Bytes} → path ≡ 47 ∷ rest → IsStopped (codes "\\/?#") (path ++ tail)
unfolding mem_byte
path-IsStopped path tail e = rw e refl

matched_printed : (uri : Uri) → IsPrintable uri → matched (uri_to_string uri) ≡ groups_of uri
matched_printed uri p =
    ap matched (uri_to_string_lem uri p)
    ∙ matched_of
        (scheme_part (optional uri.scheme)
          ++ (codes "//" ++ (authority_part uri ++ (uri.path ++ tail_part uri))))
        (codes "//" ++ (authority_part uri ++ (uri.path ++ tail_part uri)))
        (uri.path ++ tail_part uri) (tail_part uri) (marked (codes "#") (optional uri.fragment))
        (optional uri.scheme) (some (authority_part uri)) (optional uri.query)
        (optional uri.fragment) uri.path
        (take_scheme_lem uri.scheme (authority_part uri ++ (uri.path ++ tail_part uri))
          p.scheme_Avoids)
        (take_authority_lem (authority_part uri) (uri.path ++ tail_part uri)
          (authority-Avoids uri p) (path-IsStopped uri.path (tail_part uri) p.path_slash))
        (span-stop (codes "?#") uri.path (tail_part uri) p.path_Avoids
          (tail-IsStopped uri.query uri.fragment))
        (take_query_lem uri.query uri.fragment p.query_Avoids) (take_fragment_lem uri.fragment)

text_of-optional : (xs : Bytes) → text_of (optional xs) ≡ xs
text_of-optional [] = refl
text_of-optional (c ∷ cs) = refl

or_slash_lem : (path : Bytes) {rest : Bytes} → path ≡ 47 ∷ rest → or_slash path ≡ path
or_slash_lem [] e = absurd (cc e)
or_slash_lem (c ∷ cs) e = refl

-- The port that is read, or that of the scheme if none is.
split_port_printed :
    (uri : Uri)
    → IsPrintable uri
    → (n : ℕ) × (split_port (uri.host ++ port_part uri) ≡ (uri.host, n))
      × ((if 0 == n then uri_get_default_port_for_scheme uri.scheme else n) ≡ uri.port)
split_port_printed uri p =
    let d = uri_get_default_port_for_scheme uri.scheme in
    elim (Bool-cases (shows_port uri.port d)) [
      | inl e ↦
          let f = both_shown uri.port d e in
          (uri.port, rw e (split_port_shown uri.host uri.port f p.port_fits), rw f refl)
      | inr e ↦ (
        0,
        rw e (split_port_hidden uri.host (Avoids-Lacks 58 (codes "@\\/?#") uri.host p.host_Avoids)),
        port_hidden uri.port d e p.port_known,
      )
    ]

uri_of_parts :
    (m : Match) (authority user rest host : Bytes) (n : ℕ)
    → m.authority ≡ some authority
    → split_user_info authority ≡ (user, rest)
    → split_port rest ≡ (host, n)
    → uri_of m ≡ record {
      scheme = text_of m.scheme;
      user_info = user;
      host = host;
      port = if 0 == n then uri_get_default_port_for_scheme (text_of m.scheme) else n;
      path = or_slash m.path;
      query = text_of m.query;
      fragment = text_of m.fragment;
    }
uri_of_parts m authority user rest host n a e f = rw (a, e, f) refl

uri_of_printed : (uri : Uri) → IsPrintable uri → uri_of (groups_of uri) ≡ uri
uri_of_printed uri p =
    let (n, e, f) = split_port_printed uri p in
    uri_of_parts (groups_of uri) (authority_part uri) uri.user_info (uri.host ++ port_part uri)
      uri.host n refl
      (split_user_info_lem uri.user_info (uri.host ++ port_part uri)
        (Avoids-Lacks 64 (codes "\\/?#") uri.user_info p.user_info_Avoids)
        (Avoids-Lacks 64 (codes "\\/?#") (uri.host ++ port_part uri) (host_port-Avoids uri p)))
      e
    ∙ rw
        (
          text_of-optional uri.scheme,
          f,
          or_slash_lem uri.path p.path_slash,
          text_of-optional uri.query,
          text_of-optional uri.fragment,
        )
        refl

-- A URI that `to_string` prints is the one that `uri_parse` reads: for a host that is not empty and
-- without a colon, a path that starts with a slash, a port below 65536, which is 0 only for a scheme
-- without a default port, and parts that hold none of the bytes which end them, and no zero byte but
-- in the host.
pub uri_parse-uri_to_string :
    (uri : Uri) → IsPrintable uri → uri_parse (uri_to_string uri) ≡ value uri
uri_parse-uri_to_string uri p =
    uri_parse_of (uri_to_string uri) false (groups_of uri) (
      regex_match-matched (uri_to_string uri)
      ∙ rw (matched_printed uri p, has_zero_lem uri.fragment p.fragment_HasNoZero) refl)
    ∙ ap value (uri_of_printed uri p)
