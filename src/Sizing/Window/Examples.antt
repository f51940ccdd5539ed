-- ===== src/Sizing/Window/Examples.antt =====
-- The theorems on internal/sizing/window.go at a concrete window.
use namespace_resizer.Prelude.{◌≡◌, refl, ◌*◌, true, false, [], ◌∷◌, ◌⊎◌, ◌↔◌, All}
use namespace_resizer.Prelude.Int.{pos}
use namespace_resizer.Text.{Str, codes, ◌=s◌}
use namespace_resizer.GoMap.{lookup, insert, has}
use namespace_resizer.Quantity.Exact.{Amount, amount, amount_resource}
use namespace_resizer.Clock.{day_ns}
use namespace_resizer.Clock.Unary.{unary}
use namespace_resizer.Sizing.Window.{
  DayBucket, Window, empty_window, seen_twice, has_duplicate_dates,
}
use namespace_resizer.Sizing.Window.History.{peak, is_complete}
use namespace_resizer.Sizing.Window.Complete.{EachDay, is_complete_iff}
use namespace_resizer.Sizing.Window.Maximum.{Covered, Attained, peak_lem}
use namespace_resizer.Sizing.Window.Observe.{observe}
use namespace_resizer.Sizing.Window.Dates.{observe_dates}

abbrev cpu : Str
cpu = codes "requests.cpu"

abbrev day : Str → Str → DayBucket
day date value = record {
  date = date;
  n = 100;
  first = codes "00:00";
  last = codes "23:50";
  max_gap = [];
  peaks = (cpu, value) ∷ [];
}

abbrev two_days : Window
two_days = record empty_window {
  days = day (codes "|") (codes "1") ∷ day (codes "||") (codes "3") ∷ [];
}

peak_lem_example :
    let out = peak Amount unary cpu (3 * day_ns) 14 two_days in
    All (Covered Amount unary cpu (3 * day_ns) 14 out) two_days.days
    × ((out ≡ (pos 0, false))
        ⊎ ((out.1 ≡ true) × Attained Amount unary cpu (3 * day_ns) 14 out.0 two_days.days))
peak_lem_example = peak_lem Amount unary cpu (3 * day_ns) 14 two_days

observe_dates_example :
    has_duplicate_dates
      (observe unary (3 * day_ns) (codes "u") ((cpu, amount 2000) ∷ []) 14 two_days).0.days
    ≡ false
unfolding has_duplicate_dates seen_twice has lookup insert ◌=s◌
observe_dates_example =
    observe_dates unary (3 * day_ns) (codes "u") ((cpu, amount 2000) ∷ []) 14 two_days refl

is_complete_iff_example :
    (is_complete Amount unary cpu (3 * day_ns) 2 two_days ≡ true)
    ↔ EachDay Amount unary cpu (3 * day_ns) two_days.days 2 1
unfolding has_duplicate_dates seen_twice has lookup insert ◌=s◌
is_complete_iff_example = is_complete_iff Amount unary cpu (3 * day_ns) 2 two_days refl
