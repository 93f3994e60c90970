-- ===== src/Time/Parsing.antt =====
-- src/hlib_time.cpp: `to_clock`, which reads a clock from a text of ISO 8601. The C library's
-- `strptime`, which gives what is left of the text and the parts of the time it has read, the
-- number that `sscanf` reads for ".%03d", and `timegm` are arguments.
use hlib.Base.{
  ◌-◌, suc, Option, none, some, codes, Bytes, [], ◌∷◌, drop, length, leb, ◌==◌, if◌then◌else◌, not,
  mem_byte, ℤ, pos, negsuc, ◌*◌,
}
use hlib.Strings.Numeral.{c_str}
use hlib.Time.{Timespec}

-- How `to_clock` ends: with a clock, with a std::logic_error, or outside the text.
pub data Reading : Type 0 where
  clock : Timespec → Reading
  logic_error : Reading
  outside : Reading

-- a number of milliseconds in nanoseconds
abbrev pub from_milliseconds : ℤ → ℤ
from_milliseconds (pos n) = pos (n * 1000000)
from_milliseconds (negsuc n) = negsuc (suc n * 1000000 - 1)

module _ {Tm : Type 0} (tm_zero : Tm) (strptime : Bytes → Bytes → Tm → Option (Bytes × Tm))
    (sscanf : Bytes → Option ℤ) (timegm : Tm → ℤ) where
  -- the time that is left behind by `strptime`, if the whole text was read
  abbrev pub parsed_whole : Option (Bytes × Tm) → Option Tm
  parsed_whole none = none
  parsed_whole (some ([], tm_time)) = some tm_time
  parsed_whole (some (c ∷ cs, tm_time)) = none

  abbrev pub clock_at : ℤ → Option Tm → Reading
  clock_at nsec none = logic_error
  clock_at nsec (some tm_time) = clock (record { tv_sec = timegm tm_time; tv_nsec = nsec })

  -- the zone behind the milliseconds: `r + 4` is in the text only if four characters are
  abbrev pub read_zone : Bytes → Tm → ℤ → Reading
  read_zone r tm_time milliseconds =
      if leb 4 (length r)
      then clock_at (from_milliseconds milliseconds)
          (parsed_whole (strptime (drop 4 r) (codes "%z") tm_time))
      else outside

  abbrev pub read_milliseconds : Option (Bytes × Tm) → Reading
  read_milliseconds none = logic_error
  read_milliseconds (some ([], tm_time)) = logic_error
  read_milliseconds (some (c ∷ cs, tm_time)) =
      if c == 46
      then elim (sscanf (c ∷ cs)) [
        | none ↦ logic_error
        | some milliseconds ↦ read_zone (c ∷ cs) tm_time milliseconds
      ]
      else logic_error

  -- `to_clock(iso8601)`
  unfoldable pub to_clock : Bytes → Reading
  unfolding c_str mem_byte
  to_clock iso8601 =
      if not (mem_byte 84 iso8601)
      then clock_at (pos 0) (parsed_whole (strptime (c_str iso8601) (codes "%Y-%m-%d") tm_zero))
      else if not (mem_byte 46 iso8601)
      then clock_at (pos 0)
          (parsed_whole (strptime (c_str iso8601) (codes "%Y-%m-%dT%H:%M:%S%z") tm_zero))
      else read_milliseconds (strptime (c_str iso8601) (codes "%Y-%m-%dT%H:%M:%S") tm_zero)
