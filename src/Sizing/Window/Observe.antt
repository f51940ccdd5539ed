-- ===== src/Sizing/Window/Observe.antt =====
-- Observe of internal/sizing/window.go: one sample of status.used folded into the window.
use namespace_resizer.Prelude.{
  ℕ, zero, suc, ◌+◌, ◌*◌, ◌/◌, Bool, true, false, not, ◌&&◌, ◌||◌, Option, none, some, List, [],
  ◌∷◌, ◌++◌, length, if◌then◌else◌,
}
use namespace_resizer.Prelude.Int.{pos, negsuc, ◌-ℤ◌, ltb_ℤ}
use namespace_resizer.Text.{Str, ◌=s◌}
use namespace_resizer.GoMap.{Map, lookup, insert}
use namespace_resizer.Quantity.{Resource, is_gt}
use namespace_resizer.Clock.{Time, Duration, Calendar, hour_minute, sub_time, second_ns}
use namespace_resizer.Sizing.Window.{
  DayBucket, Window, empty_window, window_version, today, parse_gap, prune, index_of, update_at,
}

-- A quota that was recreated under the same name starts an empty window.
unfoldable pub adopt : Str → Window → Window
adopt uid w =
    let same = if not (w.uid =s []) && not (w.uid =s uid) then empty_window else w in
    record same { uid = uid; version = window_version }

-- d.Truncate(time.Second)
unfoldable pub truncate_second : Duration → Duration
truncate_second (pos n) = pos (n / second_ns * second_ns)
truncate_second (negsuc n) = pos 0 -ℤ pos (suc n / second_ns * second_ns)

module _ (cal : Calendar) where
  unfoldable pub new_bucket : Time → DayBucket
  new_bucket now = record {
    date = today cal now;
    n = 0;
    first = hour_minute now;
    last = [];
    max_gap = [];
    peaks = [];
  }

  -- The bucket of today, appended if it is not there: the days, its index, and whether it is new.
  unfoldable pub open_bucket : Time → List DayBucket → List DayBucket × ℕ × Bool
  open_bucket now days = elim (index_of (today cal now) days) [
    | some i ↦ (days, i, false)
    | none ↦ (days ++ new_bucket now ∷ [], length days, true)
  ]

  unfoldable pub widen_gap : Duration → DayBucket → DayBucket
  widen_gap gap b = elim (parse_gap cal b.max_gap) [
    | none ↦ b
    | some previous ↦
        if ltb_ℤ previous gap
        then record b { max_gap = cal.duration_string (truncate_second gap) }
        else b
  ]

  -- The gap since the previous sample, whichever day that fell on.
  unfoldable pub note_gap : Time → Str → DayBucket → DayBucket
  unfolding widen_gap
  note_gap now last_sample_at b = elim (cal.parse_stamp last_sample_at) [
    | none ↦ b
    | some last ↦ widen_gap (sub_time now last) b
  ]

unfoldable pub note_time : Time → DayBucket → DayBucket
note_time now b = record b { last = hour_minute now; n = b.n + 1 }

module _ {Q : Type 0} ⦃rs : Resource Q⦄ where
  -- A new value replaces the stored one if that cannot be read or is lower.
  unfoldable pub is_new_peak : Option Str → Q → Bool
  is_new_peak none qty = true
  is_new_peak (some previous) qty = elim (rs.parse_quantity previous) [
    | none ↦ true
    | some parsed ↦ is_gt (rs.cmp qty parsed)
  ]

  -- The loop over usedList.
  unfoldable pub note_peaks : Map Q → Map Str × Bool → Map Str × Bool
  note_peaks [] (peaks, changed) = (peaks, changed)
  note_peaks ((res, qty) ∷ rest) (peaks, changed) = note_peaks rest (
      if is_new_peak (lookup res peaks) qty
      then (insert res (rs.string qty) peaks, true)
      else (peaks, changed))

-- The peaks of the bucket with this index.
abbrev pub peaks_at : ℕ → List DayBucket → Map Str
peaks_at i [] = []
peaks_at zero (b ∷ rest) = b.peaks
peaks_at (suc i) (b ∷ rest) = peaks_at i rest

module _ (cal : Calendar) {Q : Type 0} ⦃rs : Resource Q⦄ where
  -- What happens to today's bucket, the peaks last.
  unfoldable pub sample : Time → Str → Map Q → DayBucket → DayBucket
  sample now last_sample_at used b =
      let timed = note_time now (note_gap cal now last_sample_at b) in
      record timed { peaks = (note_peaks used (b.peaks, false)).0 }

  unfoldable pub observe : Time → Str → Map Q → ℕ → Window → Window × Bool
  observe now uid used window_days w =
      let (pruned, dropped) = prune cal now window_days (adopt uid w) in
      let (days, i, opened) = open_bucket cal now pruned.days in
      let changed = dropped || opened in
      (
        record pruned {
          days = update_at i (sample now pruned.last_sample_at used) days;
          last_sample_at = cal.stamp now;
        },
        (note_peaks used (peaks_at i days, changed)).1,
      )
