-- ===== src/SockAddr.antt =====
-- src/hlib_sock_addr.cpp and include/hlib/sock_addr.hpp: socket addresses. The union of the structs
-- of the system is the struct that the family selects; a struct is known by its address, in A4 or
-- A6, or the text in its path, and by its port, which is kept in the byte order of the network. The
-- conversions of the system between addresses and texts are arguments.
pub mod Scanning
pub mod RoundTrip
mod Tests
use hlib.Base.{
  ℕ, zero, suc, ◌+◌, ◌-◌, ◌*◌, ◌/◌, ◌%◌, Bool, true, false, not, ◌&&◌, ◌||◌, Option, none, some,
  ◌>>=◌, [], ◌∷◌, ◌++◌, Bytes, codes, length, take, drop, ltb, leb, ◌==◌, if◌then◌else◌, bit_and,
  pos,
}
use hlib.Strings.Numeral.{c_str}
use hlib.Strings.Integers.{stoui16_nothrow}
use hlib.Format.{decimal}

-- `htons` and `ntohs` on a machine whose byte order is not that of the network
abbrev pub htons : ℕ → ℕ
htons port = port % 256 * 256 + port / 256

abbrev pub ipv4_mask : ℕ
ipv4_mask = 4

abbrev pub ipv6_mask : ℕ
ipv6_mask = 1024

abbrev pub unix_mask : ℕ
unix_mask = 2

abbrev pub all_mask : ℕ
all_mask = 4294967295

-- `0 == (family & mask)`
abbrev pub forbids : ℕ → ℕ → Bool
forbids family mask = 0 == bit_and family mask

-- `sizeof(sockaddr_un::sun_path)`
abbrev pub sun_path_size : ℕ
sun_path_size = 108

-- The union, by its family. The family of `other` is none of the three and not AF_UNSPEC.
pub data SockAddr (A4 A6 : Type 0) : Type 0 where
  unspec : SockAddr A4 A6
  inet : A4 → ℕ → SockAddr A4 A6
  inet6 : A6 → ℕ → SockAddr A4 A6
  unix : Bytes → SockAddr A4 A6
  other : ℕ → SockAddr A4 A6

-- `count(string, character)`
unfoldable pub count_char : Bytes → ℕ → ℕ
count_char [] character = 0
count_char (c ∷ cs) character =
    let rest = count_char cs character in if c == character then suc rest else rest

-- `rfind` of two characters
abbrev is_pair : ℕ → ℕ → Bytes → Bool
is_pair a b (c ∷ d ∷ cs) = c == a && d == b
is_pair a b _ = false

unfoldable pub rfind_pair : ℕ → ℕ → Bytes → Option ℕ
rfind_pair a b [] = none
rfind_pair a b (c ∷ cs) = elim (rfind_pair a b cs) [
  | some i ↦ some (i + 1)
  | none ↦ if is_pair a b (c ∷ cs) then some 0 else none
]

unfoldable pub rfind_char : ℕ → Bytes → Option ℕ
rfind_char b [] = none
rfind_char b (c ∷ cs) = elim (rfind_char b cs) [
  | some i ↦ some (i + 1)
  | none ↦ if c == b then some 0 else none
]

-- where a port starts: so many characters behind what was found
abbrev pub behind : ℕ → Option ℕ → Option ℕ
behind n none = none
behind n (some i) = some (i + n)

-- `string.substr(0, pos)`
abbrev pub front_of : Bytes → Option ℕ → Bytes
front_of string none = string
front_of string (some i) = take i string

abbrev pub starts_with_bracket : Bytes → Bool
starts_with_bracket [] = false
starts_with_bracket (c ∷ cs) = c == 91

module _ {A4 A6 : Type 0} where
  -- `SockAddr(SockAddr&& that)` and the assignment: this address and what is left of that
  abbrev pub move_addr : SockAddr A4 A6 → SockAddr A4 A6 × SockAddr A4 A6
  move_addr that = (that, unspec)

  -- `family()`
  unfoldable pub family : SockAddr A4 A6 → ℕ
  family unspec = 0
  family (inet a p) = 2
  family (inet6 a p) = 10
  family (unix path) = 1
  family (other n) = n

  -- `length()`: the sizes of the structs
  unfoldable pub addr_length : SockAddr A4 A6 → ℕ
  addr_length (inet a p) = 16
  addr_length (inet6 a p) = 28
  addr_length (unix path) = 110
  addr_length unspec = 128
  addr_length (other n) = 128

  unfoldable pub port : SockAddr A4 A6 → ℕ
  port (inet a p) = htons p
  port (inet6 a p) = htons p
  port unspec = 0
  port (unix path) = 0
  port (other n) = 0

  -- `empty()`
  unfoldable pub is_unspec : SockAddr A4 A6 → Bool
  unfolding family
  is_unspec this = 0 == family this

  -- `setPort(port, std::nothrow)`
  unfoldable pub set_port : ℕ → SockAddr A4 A6 → SockAddr A4 A6 × Bool
  set_port n (inet a p) = (inet a (htons n), true)
  set_port n (inet6 a p) = (inet6 a (htons n), true)
  set_port n unspec = (unspec, false)
  set_port n (unix path) = (unix path, false)
  set_port n (other f) = (other f, false)

  -- `to_unix` in `parse`. A text that does not fit leaves what was there.
  unfoldable pub to_unix : Bytes → ℕ → SockAddr A4 A6 → SockAddr A4 A6 × Bool
  to_unix string mask this =
      if forbids unix_mask mask
      then (unspec, false)
      else if ltb sun_path_size (length string + 1)
      then (this, false)
      else (unix string, true)

  -- the port behind the address; one that cannot be parsed makes the text a path
  abbrev pub with_port : Bytes → ℕ → (ℕ → SockAddr A4 A6) → Option ℕ → SockAddr A4 A6 × Bool
  with_port string mask make none = to_unix string mask (make 0)
  with_port string mask make (some n) = (make (htons n), true)

  abbrev pub port_at : Bytes → ℕ → (ℕ → SockAddr A4 A6) → Option ℕ → SockAddr A4 A6 × Bool
  port_at string mask make none = (make 0, true)
  port_at string mask make (some p) =
      with_port string mask make (stoui16_nothrow (drop p string) 10)

  abbrev pub parsed4 : Bytes → ℕ → Option ℕ → Option A4 → SockAddr A4 A6 × Bool
  parsed4 string mask at none = to_unix string mask unspec
  parsed4 string mask at (some a) = port_at string mask (inet a) at

  abbrev pub parsed6 : Bytes → ℕ → Option ℕ → Option A6 → SockAddr A4 A6 × Bool
  parsed6 string mask at none = to_unix string mask unspec
  parsed6 string mask at (some a) = port_at string mask (inet6 a) at

module _ {A4 A6 : Type 0} (inet_pton4 : Bytes → Option A4) (inet_pton6 : Bytes → Option A6) where
  -- the branch of IPv4
  unfoldable pub parse4 : Bytes → ℕ → SockAddr A4 A6 × Bool
  unfolding to_unix rfind_char c_str stoui16_nothrow
  parse4 string mask =
      if forbids ipv4_mask mask
      then (unspec, false)
      else let found = rfind_char 58 string in
        parsed4 string mask (behind 1 found) (inet_pton4 (c_str (front_of string found)))

  -- the branch of IPv6, by whether a bracket is at the start and where "]:" is
  abbrev pub parse6_at : Bytes → ℕ → Bool → Option ℕ → SockAddr A4 A6 × Bool
  parse6_at string mask true none = to_unix string mask unspec
  parse6_at string mask false (some end) = to_unix string mask unspec
  parse6_at string mask false none = parsed6 string mask none (inet_pton6 (c_str string))
  parse6_at string mask true (some zero) = to_unix string mask unspec
  parse6_at string mask true (some (suc end)) =
      parsed6 string mask (some (suc end + 2)) (inet_pton6 (c_str (take end (drop 1 string))))

  unfoldable pub parse6 : Bytes → ℕ → SockAddr A4 A6 × Bool
  unfolding to_unix rfind_pair c_str stoui16_nothrow
  parse6 string mask =
      if forbids ipv6_mask mask
      then (unspec, false)
      else parse6_at string mask (starts_with_bracket string) (rfind_pair 93 58 string)

  -- `parse(string, mask, std::nothrow)`: the address and whether it was parsed
  unfoldable pub parse : Bytes → ℕ → SockAddr A4 A6 × Bool
  unfolding count_char parse4 parse6
  parse string mask =
      if leb 2 (count_char string 58)
      then parse6 string mask
      else if 3 == count_char string 46
      then parse4 string mask
      else to_unix string mask unspec

  -- How `parse(string, mask)` ends.
  pub data Parsing : Type 0 where
    parsed : SockAddr A4 A6 → Parsing
    too_long invalid_address : SockAddr A4 A6 → Parsing

  unfoldable pub parse_or_throw : Bytes → ℕ → Parsing
  unfolding parse
  parse_or_throw string mask =
      let r = parse string mask in
      if r.1
      then parsed r.0
      else if ltb sun_path_size (length string + 1)
      then too_long r.0
      else invalid_address r.0

module _ {A4 A6 : Type 0} (inet_ntop4 : A4 → Option Bytes) (inet_ntop6 : A6 → Option Bytes) where
  -- `address()`; `none` is the system_error that is thrown if the system does not convert
  unfoldable pub address : SockAddr A4 A6 → Option Bytes
  unfolding c_str
  address (inet a p) = inet_ntop4 a
  address (inet6 a p) = inet_ntop6 a
  address (unix path) = some (c_str path)
  address unspec = some []
  address (other n) = some []

  abbrev pub with_shown_port : SockAddr A4 A6 → ℕ → Bytes → Bytes
  with_shown_port (inet a p) n text = if ltb 0 n then text ++ (codes ":" ++ decimal n) else text
  with_shown_port (inet6 a p) n text =
      if ltb 0 n then codes "[" ++ (text ++ (codes "]:" ++ decimal n)) else text
  with_shown_port unspec n text = text
  with_shown_port (unix path) n text = text
  with_shown_port (other f) n text = text

  -- `to_string(sa)`
  unfoldable pub addr_to_string : SockAddr A4 A6 → Option Bytes
  unfolding address port decimal
  addr_to_string sa = address sa >>= λ text. some (with_shown_port sa (port sa) text)
