-- ===== src/Sizing/Window/History.antt =====
-- Peak and IsComplete of internal/sizing/window.go.
use namespace_resizer.Prelude.{
  ℕ, zero, suc, Bool, true, false, not, ◌&&◌, ◌||◌, Option, none, some, List, [], ◌∷◌,
  if◌then◌else◌,
}
use namespace_resizer.Prelude.Int.{ℤ, pos, ltb_ℤ}
use namespace_resizer.Text.{Str, str_lt}
use namespace_resizer.GoMap.{Map, lookup, insert}
use namespace_resizer.Quantity.{Resource}
use namespace_resizer.Clock.{Time, Calendar}
use namespace_resizer.Sizing.Overflow.{overflows_milli_value}
use namespace_resizer.Sizing.Window.{DayBucket, Window, today, days_ago, covered}

module _ (Q : Type 0) ⦃rs : Resource Q⦄ where
  -- The stored value of a resource, if it can be read.
  unfoldable pub stored : Str → DayBucket → Option Q
  stored res b = elim (lookup res b.peaks) [ none ↦ none | some raw ↦ rs.parse_quantity raw ]

  -- The value that a day adds to the maximum, in milli-units.
  unfoldable pub counted : Str → DayBucket → Option ℤ
  counted res b = elim (stored res b) [
    | none ↦ none
    | some qty ↦ if overflows_milli_value qty then none else some (rs.milli_value qty)
  ]

abbrev pub raise : Option ℤ → ℤ × Bool → ℤ × Bool
raise none acc = acc
raise (some milli) (best, found) =
    if not found || ltb_ℤ best milli then (milli, true) else (best, found)

module _ (cal : Calendar) where
  -- A completed day of the window.
  unfoldable pub in_history : Time → ℕ → DayBucket → Bool
  in_history now window_days b =
      str_lt b.date (today cal now) && not (str_lt b.date (days_ago cal now window_days))

unfoldable pub by_date : List DayBucket → Map DayBucket → Map DayBucket
by_date [] index = index
by_date (b ∷ rest) index = by_date rest (insert b.date b index)

module _ (Q : Type 0) (cal : Calendar) ⦃rs : Resource Q⦄ where
  unfoldable pub peak_from : Str → Time → ℕ → List DayBucket → ℤ × Bool → ℤ × Bool
  peak_from res now window_days [] acc = acc
  peak_from res now window_days (b ∷ rest) acc =
      peak_from res now window_days rest
        (if in_history cal now window_days b then raise (counted Q res b) acc else acc)

  unfoldable pub peak : Str → Time → ℕ → Window → ℤ × Bool
  peak res now window_days w = peak_from res now window_days w.days (pos 0, false)

  -- The body of the loop of IsComplete, for one date.
  unfoldable pub day_complete : Str → Map DayBucket → Str → Bool
  day_complete res index date = elim (lookup date index) [
    | none ↦ false
    | some b ↦ covered cal b && elim (stored Q res b) [ none ↦ false | some qty ↦ true ]
  ]

  -- Days i, i + 1, ... of the loop, `left` of them.
  unfoldable pub complete_from : Str → Time → Map DayBucket → ℕ → ℕ → Bool
  complete_from res now index zero i = true
  complete_from res now index (suc left) i =
      day_complete res index (days_ago cal now i) && complete_from res now index left (suc i)

  unfoldable pub is_complete : Str → Time → ℕ → Window → Bool
  is_complete res now window_days w = complete_from res now (by_date w.days []) window_days 1
