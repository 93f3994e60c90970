-- ===== src/Time/Printing.antt =====
-- src/hlib_time.cpp: `to_string` of durations and clocks. What the C library makes of a number of
-- seconds is an argument: `gmtime` and `localtime` take it apart, and `strftime` writes the parts into
-- an array of the size that is given, of which the text up to the terminating zero is the result.
use hlib.Base.{
  ℕ, ◌-◌, Bool, codes, Bytes, ◌++◌, length, take, leb, ltb_ℤ, ℤ, pos, negsuc, quot_ℤ, rem_ℤ, sub_ℕ,
  if◌then◌else◌,
}
use hlib.Format.{padded, format_to}
use hlib.Time.{Timespec}

-- `to_string(duration, milliseconds)`
unfoldable pub duration_to_string : Timespec → Bool → Bytes
unfolding padded
duration_to_string duration milliseconds =
    let string =
      padded 2 (quot_ℤ duration.tv_sec 3600)
      ++ (codes ":"
          ++ (padded 2 (rem_ℤ (quot_ℤ duration.tv_sec 60) 60)
              ++ (codes ":" ++ padded 2 (rem_ℤ (quot_ℤ duration.tv_sec 1) 60)))) in
    if milliseconds
    then format_to string (codes "." ++ padded 3 (quot_ℤ duration.tv_nsec 1000000))
    else string

-- `(clock.tv_nsec / 1000000) % 1000` as `%d` shows it
abbrev pub milliseconds_of : Timespec → ℤ
milliseconds_of clock = rem_ℤ (quot_ℤ clock.tv_nsec 1000000) 1000

-- `snprintf(string + offset, size, ...)`: the text that is then in the array. One that ends before
-- the offset is not changed.
unfoldable pub print_at : Bytes → ℕ → ℕ → Bytes → Bytes
print_at string offset size text =
    if leb offset (length string) then take offset string ++ take (size - 1) text else string

module _ {Tm : Type 0} (gmtime localtime : ℤ → Tm) (tm_gmtoff : Tm → ℤ)
    (strftime : ℕ → Bytes → Tm → Bytes) where
  -- `localtime_offset_string`
  unfoldable pub localtime_offset_string : Timespec → Bytes
  unfolding padded
  localtime_offset_string clock =
      let seconds = tm_gmtoff (localtime clock.tv_sec) in
      let negative = ltb_ℤ seconds (pos 0) in
      let offset = if negative then opposite (quot_ℤ seconds 60) else quot_ℤ seconds 60 in
      (if negative then codes "-" else codes "+")
      ++ (padded 2 (quot_ℤ offset 60) ++ (codes ":" ++ padded 2 (rem_ℤ offset 60)))
    where
      opposite : ℤ → ℤ
      opposite (pos n) = sub_ℕ 0 n
      opposite (negsuc n) = sub_ℕ n 0

  unfoldable pub to_string_utc_date : Timespec → Bytes
  to_string_utc_date clock = strftime 12 (codes "%Y-%m-%dZ") (gmtime clock.tv_sec)

  unfoldable pub to_string_utc_date_and_time : Timespec → Bytes
  to_string_utc_date_and_time clock = strftime 21 (codes "%Y-%m-%dT%H:%M:%SZ") (gmtime clock.tv_sec)

  unfoldable pub to_string_utc_time : Timespec → Bytes
  to_string_utc_time clock = strftime 10 (codes "%H:%M:%SZ") (gmtime clock.tv_sec)

  unfoldable pub to_string_utc_time_milliseconds : Timespec → Bytes
  unfolding padded print_at
  to_string_utc_time_milliseconds clock =
      print_at (strftime 14 (codes "%H:%M:%S") (gmtime clock.tv_sec)) 8 (14 - 8)
        (codes "." ++ (padded 3 (milliseconds_of clock) ++ codes "Z"))

  unfoldable pub to_string_utc : Timespec → Bool → Bytes
  unfolding padded print_at
  to_string_utc clock milliseconds =
      let string = strftime 25 (codes "%Y-%m-%dT%H:%M:%SZ") (gmtime clock.tv_sec) in
      if milliseconds
      then print_at string 19 (25 - 19)
          (codes "." ++ (padded 3 (milliseconds_of clock) ++ codes "Z"))
      else string

  unfoldable pub to_string_local_date : Timespec → Bytes
  unfolding localtime_offset_string
  to_string_local_date clock =
      strftime 11 (codes "%Y-%m-%d") (localtime clock.tv_sec) ++ localtime_offset_string clock

  unfoldable pub to_string_local_date_and_time : Timespec → Bytes
  unfolding localtime_offset_string
  to_string_local_date_and_time clock =
      strftime 20 (codes "%Y-%m-%dT%H:%M:%S") (localtime clock.tv_sec)
      ++ localtime_offset_string clock

  unfoldable pub to_string_local_time : Timespec → Bytes
  unfolding localtime_offset_string
  to_string_local_time clock =
      strftime 9 (codes "%H:%M:%S") (localtime clock.tv_sec) ++ localtime_offset_string clock

  unfoldable pub to_string_local_time_milliseconds : Timespec → Bytes
  unfolding padded print_at localtime_offset_string
  to_string_local_time_milliseconds clock =
      print_at (strftime 14 (codes "%H:%M:%S") (gmtime clock.tv_sec)) 8 (14 - 8)
        (codes "." ++ padded 3 (milliseconds_of clock))
      ++ localtime_offset_string clock

  unfoldable pub to_string_local : Timespec → Bool → Bytes
  unfolding padded print_at localtime_offset_string
  to_string_local clock milliseconds =
      let string = strftime 24 (codes "%Y-%m-%dT%H:%M:%S") (gmtime clock.tv_sec) in
      (if milliseconds
        then print_at string 19 (24 - 19) (codes "." ++ padded 3 (milliseconds_of clock))
        else string)
      ++ localtime_offset_string clock
