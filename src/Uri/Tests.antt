-- ===== src/Uri/Tests.antt =====
-- src/hlib_uri.cpp at concrete inputs.
use hlib.Base.{◌≡◌, refl, value, throws, invalid_argument, codes, [], ◌∷◌, ◌++◌, arith}
use hlib.Strings.Integers.{stoui16_nothrow}
use hlib.Uri.{
  uri_parse, target_get_path, target_get_query, target_get_fragment, regex_match, cut_first,
  cut_last, uri_get_default_port_for_scheme,
}
use hlib.Uri.Escaping.{
  uri_encoding_escape, uri_encoding_unescape, percent_decode, percent_decode-escape,
}
use hlib.Base.{mem_byte}
use hlib.Uri.{Uri}
use hlib.Uri.Printing.{uri_to_string, uri_get_host_port, uri_get_path_query_fragment}
use hlib.Uri.Texts.{IsPrintable}
use hlib.Uri.RoundTrip.{uri_parse-uri_to_string}
use hlib.Uri.Reading.{Parses, uri_parse-Parses}

parsed :
    uri_parse (codes "http://me@host:8080/a?b#c")
    ≡ value (record {
      scheme = codes "http";
      user_info = codes "me";
      host = codes "host";
      port = 8080;
      path = codes "/a";
      query = codes "b";
      fragment = codes "c";
    })
unfolding uri_parse regex_match cut_first cut_last stoui16_nothrow uri_get_default_port_for_scheme
parsed = refl

-- A port that cannot be parsed stays in the host.
unparsed_port :
    uri_parse (codes "https://host:http")
    ≡ value (record {
      scheme = codes "https";
      user_info = [];
      host = codes "host:http";
      port = 443;
      path = codes "/";
      query = [];
      fragment = [];
    })
unfolding uri_parse regex_match cut_first cut_last stoui16_nothrow uri_get_default_port_for_scheme
unparsed_port = refl

zero_in_fragment : uri_parse (codes "a#" ++ (0 ∷ [])) ≡ throws invalid_argument
unfolding uri_parse regex_match
zero_in_fragment = refl

target_path : target_get_path (codes "/a?b#c") ≡ codes "/a"
unfolding target_get_path
target_path = refl

-- A question mark behind the hash is part of the fragment, and is taken for the start of a query.
query_in_fragment : target_get_query (codes "/a#b?c") ≡ codes "c"
unfolding target_get_query
query_in_fragment = refl

fragment_with_query : target_get_fragment (codes "/a#b?c") ≡ codes "b?c"
unfolding target_get_fragment
fragment_with_query = refl

escaped : uri_encoding_escape (codes "a b/") ≡ codes "a%20b%2F"
unfolding uri_encoding_escape
escaped = refl

-- The digits come out of `uri_encoding_unescape`, once for each byte from there on.
unescaped : uri_encoding_unescape (codes "a%20b") ≡ codes "2020"
unfolding uri_encoding_unescape
unescaped = refl

uri_parse-Parses_example : Parses (codes "http://me@host:8080/a?b#c")
uri_parse-Parses_example = uri_parse-Parses (codes "http://me@host:8080/a?b#c")

percent_decode-escape_example : percent_decode (uri_encoding_escape (codes "a b")) ≡ codes "a b"
percent_decode-escape_example =
    percent_decode-escape (codes "a b") (omega arith, (omega arith, (omega arith, tt)))

abbrev printable : Uri
printable = record {
  scheme = codes "http";
  user_info = codes "me";
  host = codes "host";
  port = 8080;
  path = codes "/a";
  query = codes "b";
  fragment = codes "c";
}

printed : uri_to_string printable ≡ codes "http://me@host:8080/a?b#c"
unfolding uri_to_string uri_get_default_port_for_scheme
printed = refl

default_port_hidden : uri_get_host_port (record printable { port = 80 }) ≡ codes "host"
unfolding uri_get_host_port uri_get_default_port_for_scheme
default_port_hidden = refl

behind_the_host : uri_get_path_query_fragment printable ≡ codes "/a?b#c"
unfolding uri_get_path_query_fragment
behind_the_host = refl

printable-IsPrintable : IsPrintable printable
unfolding mem_byte uri_get_default_port_for_scheme
printable-IsPrintable = record {
  scheme_Avoids = (refl, (refl, (refl, (refl, tt))));
  scheme_HasNoZero = (refl, (refl, (refl, (refl, tt))));
  user_info_Avoids = (refl, (refl, tt));
  user_info_HasNoZero = (refl, (refl, tt));
  host_Avoids = (refl, (refl, (refl, (refl, tt))));
  host_there = refl;
  port_fits = omega arith;
  port_known = refl;
  path_rest = codes "a";
  path_slash = refl;
  path_Avoids = (refl, (refl, tt));
  path_HasNoZero = (refl, (refl, tt));
  query_Avoids = (refl, tt);
  query_HasNoZero = (refl, tt);
  fragment_HasNoZero = (refl, tt);
}

uri_parse-uri_to_string_example : uri_parse (uri_to_string printable) ≡ value printable
uri_parse-uri_to_string_example = uri_parse-uri_to_string printable printable-IsPrintable
