-- ===== src/Time/Texts.antt =====
-- src/hlib_time.cpp: what the text of a duration says.
use hlib.Base.{
  ℕ, ◌+◌, ◌*◌, ◌/◌, ◌%◌, ◌^◌, ◌<◌, ◌≤◌, ◌≡◌, ◌⊎◌, inl, inr, refl, true, false, ◌++◌, Bytes, codes,
  length, pos, arith,
}
use hlib.Strings.Digits.{IsNumeral, numeral}
use hlib.Format.{padded}
use hlib.Format.Decimal.{padded-Shows, length-padded, padded-fewest}
use hlib.Time.Printing.{duration_to_string}

-- A text of decimal digits, of a width.
abbrev pub IsField : ℕ → Bytes → Type 0
IsField width text = IsNumeral 10 text × (length text ≡ width)

-- The texts of a duration of s seconds and n nanoseconds.
pub record Tells (s n : ℕ) : Type 0 where
  pub hours : Bytes
  pub minutes : Bytes
  pub seconds : Bytes
  pub fraction : Bytes
  pub short :
      duration_to_string (record { tv_sec = pos s; tv_nsec = pos n }) false
      ≡ hours ++ (codes ":" ++ (minutes ++ (codes ":" ++ seconds)))
  pub long :
      duration_to_string (record { tv_sec = pos s; tv_nsec = pos n }) true
      ≡ (hours ++ (codes ":" ++ (minutes ++ (codes ":" ++ seconds)))) ++ (codes "." ++ fraction)
  pub hours_IsNumeral : IsNumeral 10 hours
  pub hours_width :
      (length hours ≡ 2) ⊎ ((2 < length hours) × (10 ^ length hours ≤ 10 * numeral 10 hours))
  pub minutes_IsField : IsField 2 minutes
  pub seconds_IsField : IsField 2 seconds
  pub fraction_IsField : IsField 3 fraction
  pub sexagesimal : (numeral 10 minutes < 60) × (numeral 10 seconds < 60)
  pub total : numeral 10 hours * 3600 + numeral 10 minutes * 60 + numeral 10 seconds ≡ s
  pub milliseconds : numeral 10 fraction ≡ n / 1000000

-- The text of a duration that is not negative and has less than a second in nanoseconds is a number
-- of hours, and in two digits each a number of minutes and one of seconds, both below 60, which
-- together make up the seconds of the duration. The hours have two digits too, or if they are more,
-- no zero in front. With milliseconds the text ends in them, in three digits, rounded down.
pub duration_to_string-Tells : (s n : ℕ) → n < 10 ^ 9 → Tells s n
unfolding duration_to_string
duration_to_string-Tells s n h =
    let (hn, hv) = padded-Shows 2 (s / 3600) in
    let (mn, mv) = padded-Shows 2 (s / 60 % 60) in
    let (sn, sv) = padded-Shows 2 (s / 1 % 60) in
    let (fn, fv) = padded-Shows 3 (n / 1000000) in
    record {
      hours = padded 2 (pos (s / 3600));
      minutes = padded 2 (pos (s / 60 % 60));
      seconds = padded 2 (pos (s / 1 % 60));
      fraction = padded 3 (pos (n / 1000000));
      short = refl;
      long = refl;
      hours_IsNumeral = hn;
      hours_width = elim (padded-fewest 2 (s / 3600)) [
        | inl exact ↦ inl exact
        | inr (wider, inl none) ↦
            absurd (omega (arith, wider, length-padded 1 (s / 3600) (omega (arith, none))))
        | inr (wider, inr fewest) ↦ inr (wider, omega (arith, fewest, hv))
      ];
      minutes_IsField = (mn, length-padded 1 (s / 60 % 60) (omega arith));
      seconds_IsField = (sn, length-padded 1 (s / 1 % 60) (omega arith));
      fraction_IsField = (fn, length-padded 2 (n / 1000000) (omega (arith, h)));
      sexagesimal = (omega (arith, mv), omega (arith, sv));
      total = omega (arith, hv, mv, sv);
      milliseconds = fv;
    }
