-- ===== src/Clock.antt =====
-- Go's package time as far as the repository uses it. A time.Time is the number of nanoseconds
-- since the zero Time, the start of year 1, so that IsZero is the test for 0; a time.Duration is the
-- int64 of nanoseconds. Texts of dates and durations are behind an interface.
pub mod Unary
use namespace_resizer.Prelude.{
  ℕ, suc, ◌+◌, ◌-◌, ◌*◌, ◌/◌, ◌%◌, ◌<◌, ◌≡◌, Bool, true, false, Option, none, some, List, [], ◌∷◌,
  ltb, ◌==◌, if◌then◌else◌,
}
use namespace_resizer.Prelude.Int.{ℤ, pos, negsuc, ◌-ℤ◌, ltb_ℤ, two63}
use namespace_resizer.Text.{Str, str_lt}

abbrev pub Time : Type 0
Time = ℕ

abbrev pub Duration : Type 0
Duration = ℤ

abbrev pub second_ns : ℕ
second_ns = 1_000_000_000

abbrev pub minute_ns : ℕ
minute_ns = 60 * second_ns

abbrev pub hour_ns : ℕ
hour_ns = 60 * minute_ns

abbrev pub day_ns : ℕ
day_ns = 24 * hour_ns

-- t.IsZero()
abbrev pub is_zero : Time → Bool
is_zero t = t == 0

-- t.Sub(u): the difference, held inside int64.
unfoldable pub sub_time : Time → Time → Duration
sub_time t u =
    let d = pos t -ℤ pos u in
    if ltb_ℤ d (pos two63)
    then (if ltb_ℤ d (negsuc (two63 - 1)) then negsuc (two63 - 1) else d)
    else pos (two63 - 1)

-- The number of the UTC day of a time.
abbrev pub day_of : Time → ℕ
day_of t = t / day_ns

two_digits : ℕ → Str → Str
two_digits n rest = (48 + n / 10) ∷ (48 + n % 10) ∷ rest

-- t.UTC().Format("15:04")
unfoldable pub hour_minute : Time → Str
unfolding two_digits
hour_minute t =
    let minute = t % day_ns / minute_ns in
    two_digits (minute / 60) (b':' ∷ two_digits (minute % 60) [])

pub record Calendar : Type 0 where
  -- The "2006-01-02" text of a day, by its number since the start of year 1.
  pub date : ℤ → Str
  -- t.UTC().Format(time.RFC3339)
  pub stamp : Time → Str
  -- time.Parse(time.RFC3339, s); `none` is its error
  pub parse_stamp : Str → Option Time
  -- time.ParseDuration(s); `none` is its error
  pub parse_duration : Str → Option Duration
  -- d.String()
  pub duration_string : Duration → Str

-- The days of the years 1 to 9999.
abbrev pub days_of_four_digits : ℕ
days_of_four_digits = 3652059

pub record IsCalendar (cal : Calendar) : Type 0 where
  -- Dates with four digits for the year are ordered as texts.
  pub date_order :
      (a b : ℕ)
      → a < days_of_four_digits
      → b < days_of_four_digits
      → str_lt (cal.date (pos a)) (cal.date (pos b)) ≡ ltb a b
  -- Up to the year 9999 a stamp is read back, with the precision of seconds; it is never empty.
  pub parse_stamp-stamp :
      (t : Time)
      → day_of t < days_of_four_digits
      → cal.parse_stamp (cal.stamp t) ≡ some (t / second_ns * second_ns)
  pub stamp_nonempty : (t : Time) → (c : ℕ) × (s : Str) × (cal.stamp t ≡ c ∷ s)
