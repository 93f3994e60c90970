-- ===== src/SockAddr/Tests.antt =====
-- src/hlib_sock_addr.cpp at concrete inputs, with a system that knows one address of each family.
use hlib.Base.{
  ◌≡◌, refl, true, false, Option, none, some, [], ◌++◌, Bytes, codes, replicate, if◌then◌else◌,
  arith,
}
use hlib.Strings.Integers.{equals}
use hlib.SockAddr.{
  SockAddr, unspec, inet, inet6, unix, other, all_mask, ipv4_mask, family, addr_length, is_unspec,
  set_port, count_char, parse, parse_or_throw, too_long,
}
use hlib.SockAddr.RoundTrip.{Documented, reparsed, parse-addr_to_string}

abbrev home4 : Bytes
home4 = codes "127.0.0.1"

abbrev home6 : Bytes
home6 = codes "::1"

unfoldable pton : Bytes → Bytes → Option (Unit {0})
unfolding equals
pton home text = if equals text home then some tt else none

abbrev ntop : Bytes → Unit {0} → Option Bytes
ntop home address = some home

abbrev Addr : Type 0
Addr = SockAddr (Unit {0}) (Unit {0})

abbrev fresh : Addr
fresh = inet tt 0

abbrev local : Addr
local = unix []

abbrev bluetooth : Addr
bluetooth = other 31

abbrev nothing : Addr
nothing = unspec

parsed_port :
    parse (pton home4) (pton home6) (codes "127.0.0.1:80") all_mask ≡ (inet tt 20480, true)
unfolding parse pton
parsed_port = refl

parsed_brackets :
    parse (pton home4) (pton home6) (codes "[::1]:80") all_mask ≡ (inet6 tt 20480, true)
unfolding parse pton
parsed_brackets = refl

-- Brackets without a port are no address, but a path.
only_brackets :
    parse (pton home4) (pton home6) (codes "[::1]") all_mask ≡ (unix (codes "[::1]"), true)
unfolding parse pton
only_brackets = refl

not_allowed : parse (pton home4) (pton home6) (codes "/run/socket") ipv4_mask ≡ (unspec, false)
unfolding parse
not_allowed = refl

-- A text that is too long for a path is not parsed, but leaves the address in front of its port.
left_behind :
    parse_or_throw (pton home4) (pton home6) (codes "127.0.0.1:" ++ replicate 98 57) all_mask
    ≡ too_long (inet tt 0)
unfolding parse_or_throw pton
left_behind = refl

ported : set_port 80 fresh ≡ (inet tt 20480, true)
unfolding set_port
ported = refl

families : (family local ≡ 1) × (addr_length bluetooth ≡ 128) × (is_unspec nothing ≡ true)
unfolding family addr_length is_unspec
families = (refl, refl, refl)

documented : Documented (pton home4) (pton home6) (ntop home4) (ntop home6)
unfolding pton count_char
documented = record {
  text4 = λ a. home4;
  writes4 = λ a. refl;
  reads4 = λ a. refl;
  zero4 = λ a. (refl, (refl, (refl, (refl, (refl, (refl, (refl, (refl, (refl, tt)))))))));
  dots4 = λ a. refl;
  colons4 = λ a. refl;
  text6 = λ a. home6;
  writes6 = λ a. refl;
  reads6 = λ a. refl;
  zero6 = λ a. (refl, (refl, (refl, tt)));
  colons6 = λ a. omega arith;
  no_open6 = λ a. refl;
  no_close6 = λ a. (refl, (refl, (refl, tt)));
}

parse-addr_to_string_example :
    (reparsed documented all_mask (inet tt 20480) ≡ some (inet tt 20480, true))
    × (reparsed documented all_mask (inet6 tt 20480) ≡ some (inet6 tt 20480, true))
parse-addr_to_string_example =
    parse-addr_to_string documented all_mask tt tt 20480 refl refl (omega arith)
