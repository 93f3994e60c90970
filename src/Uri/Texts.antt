-- ===== src/Uri/Texts.antt =====
-- src/hlib_uri.cpp: the text that `to_string` makes of a URI, by its parts.
use hlib.Base.{
  ◌<◌, ◌≡◌, refl, ap, ap₂, append_assoc, append-nil, ◌∙◌, sym, false, Option, none, some, [], ◌∷◌,
  ◌++◌, Bytes, codes, ◌==◌, if◌then◌else◌, Bool-cases, inl, inr,
}
use hlib.Strings.Numeral.{c_str}
use hlib.Format.{decimal}
use hlib.Uri.{Uri, uri_get_default_port_for_scheme}
use hlib.Uri.Parsing.{Avoids, scheme_part, marked}
use hlib.Uri.Printing.{
  is_empty_text, format_part, shows_port, format_port, format_authority, uri_to_string,
}
use hlib.Uri.Cutting.{HasNoZero, c_str-HasNoZero}

-- A URI of which `to_string` writes every part, and writes it so that it can be told from the others.
pub record IsPrintable (uri : Uri) : Type 0 where
  pub scheme_Avoids : Avoids (codes ":\\/?#") uri.scheme
  pub scheme_HasNoZero : HasNoZero uri.scheme
  pub user_info_Avoids : Avoids (codes "@\\/?#") uri.user_info
  pub user_info_HasNoZero : HasNoZero uri.user_info
  pub host_Avoids : Avoids (codes ":@\\/?#") uri.host
  pub host_there : is_empty_text uri.host ≡ false
  pub port_fits : uri.port < 65536
  pub port_known : (if 0 == uri.port then uri_get_default_port_for_scheme uri.scheme else 0) ≡ 0
  pub path_rest : Bytes
  pub path_slash : uri.path ≡ 47 ∷ path_rest
  pub path_Avoids : Avoids (codes "?#") uri.path
  pub path_HasNoZero : HasNoZero uri.path
  pub query_Avoids : Avoids (codes "#") uri.query
  pub query_HasNoZero : HasNoZero uri.query
  pub fragment_HasNoZero : HasNoZero uri.fragment

-- A part, if it is not empty.
abbrev pub optional : Bytes → Option Bytes
optional [] = none
optional (c ∷ cs) = some (c ∷ cs)

abbrev pub user_part : Bytes → Bytes
user_part [] = []
user_part (c ∷ cs) = (c ∷ cs) ++ codes "@"

abbrev pub port_part : Uri → Bytes
port_part uri =
    if shows_port uri.port (uri_get_default_port_for_scheme uri.scheme)
    then codes ":" ++ decimal uri.port
    else []

abbrev pub authority_part : Uri → Bytes
authority_part uri = user_part uri.user_info ++ (uri.host ++ port_part uri)

format_part_lem :
    (string mark part : Bytes)
    → HasNoZero part
    → format_part string mark part ≡ string ++ marked mark (optional part)
unfolding format_part
format_part_lem string mark [] h = sym (append-nil string)
format_part_lem string mark (c ∷ cs) h =
    ap (λ t. string ++ (mark ++ t)) (c_str-HasNoZero (c ∷ cs) h)

format_port_lem : (string : Bytes) (uri : Uri) → format_port string uri ≡ string ++ port_part uri
unfolding format_port
format_port_lem string uri =
    elim (Bool-cases (shows_port uri.port (uri_get_default_port_for_scheme uri.scheme))) [
      | inl e ↦ rw e refl
      | inr e ↦ rw e (sym (append-nil string))
    ]

scheme_lem :
    (scheme : Bytes)
    → HasNoZero scheme
    → (if is_empty_text scheme then [] else c_str scheme ++ codes ":")
      ≡ scheme_part (optional scheme)
scheme_lem [] h = refl
scheme_lem (c ∷ cs) h = ap (λ t. t ++ codes ":") (c_str-HasNoZero (c ∷ cs) h)

user_lem :
    (string user : Bytes)
    → HasNoZero user
    → (if is_empty_text user then string else string ++ (c_str user ++ codes "@"))
      ≡ string ++ user_part user
user_lem string [] h = sym (append-nil string)
user_lem string (c ∷ cs) h = ap (λ t. string ++ (t ++ codes "@")) (c_str-HasNoZero (c ∷ cs) h)

format_authority_lem :
    (string : Bytes) (uri : Uri)
    → IsPrintable uri
    → format_authority string uri ≡ string ++ (codes "//" ++ authority_part uri)
unfolding format_authority
format_authority_lem string uri p = rw p.host_there (
    format_port_lem _ uri
    ∙ ap (λ t. (t ++ uri.host) ++ port_part uri)
        (user_lem (string ++ codes "//") uri.user_info p.user_info_HasNoZero)
    ∙ regroup)
  where
    regroup :
        (((string ++ codes "//") ++ user_part uri.user_info) ++ uri.host) ++ port_part uri
        ≡ string ++ (codes "//" ++ authority_part uri)
    regroup = simp append_assoc

-- the parts behind the authority
abbrev pub tail_part : Uri → Bytes
tail_part uri =
    marked (codes "?") (optional uri.query) ++ marked (codes "#") (optional uri.fragment)

pub uri_to_string_lem :
    (uri : Uri)
    → IsPrintable uri
    → uri_to_string uri
      ≡ scheme_part (optional uri.scheme)
        ++ (codes "//" ++ (authority_part uri ++ (uri.path ++ tail_part uri)))
unfolding uri_to_string
uri_to_string_lem uri p =
    let s = if is_empty_text uri.scheme then [] else c_str uri.scheme ++ codes ":" in
    format_part_lem _ (codes "#") uri.fragment p.fragment_HasNoZero
    ∙ ap (λ t. t ++ marked (codes "#") (optional uri.fragment))
        (format_part_lem _ (codes "?") uri.query p.query_HasNoZero
          ∙ ap (λ t. t ++ marked (codes "?") (optional uri.query))
              (ap₂ (λ a b. a ++ b)
                (format_authority_lem s uri p
                  ∙ ap (λ t. t ++ (codes "//" ++ authority_part uri))
                      (scheme_lem uri.scheme p.scheme_HasNoZero))
                (path_lem uri.path p.path_slash p.path_HasNoZero)))
    ∙ regroup (scheme_part (optional uri.scheme)) (authority_part uri) uri.path
        (marked (codes "?") (optional uri.query)) (marked (codes "#") (optional uri.fragment))
  where
    path_lem :
        (path : Bytes) {rest : Bytes}
        → path ≡ 47 ∷ rest
        → HasNoZero path
        → (if is_empty_text path then codes "/" else c_str path) ≡ path
    path_lem [] e h = absurd (cc e)
    path_lem (c ∷ cs) e h = c_str-HasNoZero (c ∷ cs) h

    regroup :
        (s a w q f : Bytes)
        → (((s ++ (codes "//" ++ a)) ++ w) ++ q) ++ f ≡ s ++ (codes "//" ++ (a ++ (w ++ (q ++ f))))
    regroup s a w q f = simp append_assoc
