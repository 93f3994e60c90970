-- ===== src/Uri/Printing.antt =====
-- src/hlib_uri.cpp: the functions that print a URI or a part of it. `%s` writes a text up to its
-- first zero byte, as `c_str()` is read.
use hlib.Base.{ℕ, Bool, true, false, not, ◌&&◌, [], ◌∷◌, ◌++◌, Bytes, codes, ◌==◌, if◌then◌else◌}
use hlib.Strings.Numeral.{c_str}
use hlib.Format.{decimal, format_to}
use hlib.Uri.{Uri, uri_get_default_port_for_scheme}

abbrev pub is_empty_text : Bytes → Bool
is_empty_text [] = true
is_empty_text (c ∷ cs) = false

-- a part with what marks it, if it is there
unfoldable pub format_part : Bytes → Bytes → Bytes → Bytes
unfolding c_str
format_part string mark part =
    if is_empty_text part then string else format_to string (mark ++ c_str part)

-- whether the port is not that of the scheme
abbrev pub shows_port : ℕ → ℕ → Bool
shows_port port default_port = not (0 == port) && not (default_port == port)

unfoldable pub format_port : Bytes → Uri → Bytes
unfolding decimal
format_port string uri =
    if shows_port uri.port (uri_get_default_port_for_scheme uri.scheme)
    then format_to string (codes ":" ++ decimal uri.port)
    else string

-- the user info, the host and the port
unfoldable pub format_authority : Bytes → Uri → Bytes
unfolding c_str format_port
format_authority string uri =
    if is_empty_text uri.host
    then string
    else let marked = string ++ codes "//" in
      let named =
        if is_empty_text uri.user_info
        then marked
        else format_to marked (c_str uri.user_info ++ codes "@") in
      format_port (named ++ uri.host) uri

-- `to_string(uri)`
unfoldable pub uri_to_string : Uri → Bytes
unfolding c_str format_part format_authority
uri_to_string uri =
    let scheme =
      if is_empty_text uri.scheme then [] else format_to [] (c_str uri.scheme ++ codes ":") in
    let authority = format_authority scheme uri in
    let path = authority ++ (if is_empty_text uri.path then codes "/" else c_str uri.path) in
    let query = format_part path (codes "?") uri.query in format_part query (codes "#") uri.fragment

unfoldable pub uri_get_host_port : Uri → Bytes
unfolding format_port
uri_get_host_port uri = format_port uri.host uri

unfoldable pub uri_get_path_query_fragment : Uri → Bytes
unfolding format_part
uri_get_path_query_fragment uri =
    format_part (format_part uri.path (codes "?") uri.query) (codes "#") uri.fragment
