-- ===== src/Sizing/Window.antt =====
-- The rolling observation window of internal/sizing/window.go.
pub mod Observe
pub mod History
pub mod Maximum
pub mod Dates
pub mod Repeat
pub mod Complete
mod Examples
use namespace_resizer.Prelude.{
  ℕ, zero, suc, ◌+◌, ◌-◌, ◌*◌, Bool, true, false, not, ◌&&◌, ◌||◌, Option, none, some, List, [],
  ◌∷◌, ◌++◌, length, if◌then◌else◌, ◌==◌,
}
use namespace_resizer.Prelude.Int.{ℤ, pos, ◌-ℤ◌, ltb_ℤ}
use namespace_resizer.Text.{Str, codes, ◌=s◌, str_lt}
use namespace_resizer.GoMap.{Map, lookup, insert, has}
use namespace_resizer.Quantity.{Resource, is_gt}
use namespace_resizer.Clock.{
  Time, Duration, Calendar, day_of, hour_minute, sub_time, second_ns, hour_ns,
}
use namespace_resizer.Sizing.Overflow.{overflows_milli_value}

-- WindowVersion
abbrev pub window_version : ℕ
window_version = 1

pub record DayBucket : Type 0 where
  pub date : Str
  pub n : ℕ
  pub first : Str
  pub last : Str
  pub max_gap : Str
  pub peaks : Map Str

pub record Window : Type 0 where
  pub version : ℕ
  pub uid : Str
  pub last_sample_at : Str
  pub last_write_at : Str
  pub days : List DayBucket

-- Window{Version: WindowVersion}
abbrev pub empty_window : Window
empty_window = record {
  version = window_version;
  uid = [];
  last_sample_at = [];
  last_write_at = [];
  days = [];
}

unfoldable pub seen_twice : Map Bool → List DayBucket → Bool
seen_twice seen [] = false
seen_twice seen (b ∷ rest) =
    if has b.date seen then true else seen_twice (insert b.date true seen) rest

unfoldable pub has_duplicate_dates : List DayBucket → Bool
unfolding seen_twice
has_duplicate_dates days = seen_twice [] days

-- DecodeWindow; `unmarshal` is json.Unmarshal into a Window, `none` its error.
unfoldable pub decode_window : (Str → Option Window) → Str → Window
decode_window unmarshal [] = empty_window
decode_window unmarshal (c ∷ raw) = elim (unmarshal (c ∷ raw)) [
  | none ↦ empty_window
  | some w ↦
      if not (w.version == window_version)
      then empty_window
      else if has_duplicate_dates w.days
      then empty_window
      else w
]

-- EncodeWindow; `marshal` is json.Marshal.
unfoldable pub encode_window : (Window → Option Str) → Window → Option Str
encode_window marshal w = marshal (record w { version = window_version })

module _ (cal : Calendar) where
  -- now.UTC().Format(dateLayout)
  unfoldable pub today : Time → Str
  today now = cal.date (pos (day_of now))

  -- now.UTC().AddDate(0, 0, -days).Format(dateLayout)
  unfoldable pub days_ago : Time → ℕ → Str
  days_ago now days = cal.date (pos (day_of now) -ℤ pos days)

  unfoldable pub parse_gap : Str → Option Duration
  parse_gap [] = some (pos 0)
  parse_gap (c ∷ raw) = cal.parse_duration (c ∷ raw)

  -- gap <= dayCoverageMaxGap, for a gap that can be read
  unfoldable pub short_gap : Str → Bool
  short_gap raw = elim (parse_gap raw) [ none ↦ false | some gap ↦ not (ltb_ℤ (pos hour_ns) gap) ]

  unfoldable pub covered : DayBucket → Bool
  covered b =
      if (b.first =s []) || (b.last =s [])
      then false
      else if not (short_gap b.max_gap)
      then false
      else not (str_lt (codes "00:30") b.first) && not (str_lt b.last (codes "23:30"))

  -- The condition on which prune drops a bucket.
  unfoldable pub outside : Time → ℕ → DayBucket → Bool
  outside now window_days b = str_lt (today now) b.date || str_lt b.date (days_ago now window_days)

  unfoldable pub kept : Time → ℕ → List DayBucket → List DayBucket
  kept now window_days [] = []
  kept now window_days (b ∷ rest) =
      let later = kept now window_days rest in
      if outside now window_days b then later else b ∷ later

  unfoldable pub prune : Time → ℕ → Window → Window × Bool
  prune now window_days w =
      let days = kept now window_days w.days in
      if length days == length w.days then (w, false) else (record w { days = days }, true)

-- indexOf; `none` is -1
unfoldable pub index_of : Str → List DayBucket → Option ℕ
index_of date [] = none
index_of date (b ∷ rest) =
    if b.date =s date
    then some 0
    else elim (index_of date rest) [ none ↦ none | some i ↦ some (suc i) ]

-- days[i] after an assignment through `bucket := &w.Days[idx]`
unfoldable pub update_at : ℕ → (DayBucket → DayBucket) → List DayBucket → List DayBucket
update_at i f [] = []
update_at zero f (b ∷ rest) = f b ∷ rest
update_at (suc i) f (b ∷ rest) = b ∷ update_at i f rest
