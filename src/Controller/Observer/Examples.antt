-- ===== src/Controller/Observer/Examples.antt =====
-- The theorems on internal/controller/observation.go at a Lease that cannot be written.
use namespace_resizer.Prelude.{ℕ, suc, ◌*◌, ◌+◌, ◌≡◌, refl, false, not, ◌&&◌, none, some, [], ◌∷◌}
use namespace_resizer.Prelude.Int.{pos, ◌-ℤ◌}
use namespace_resizer.Text.{codes, ◌=s◌, str_lt}
use namespace_resizer.Text.Decimal.{read_digits, decimal, decimal_ℤ}
use namespace_resizer.GoMap.{lookup, has, insert}
use namespace_resizer.Quantity.Exact.{Amount, amount, amount_resource}
use namespace_resizer.Clock.{day_ns, minute_ns, sub_time, hour_minute}
use namespace_resizer.Clock.Unary.{unary, date, strokes, read_duration, write_duration}
use namespace_resizer.Lock.State.{zero_state}
use namespace_resizer.Sizing.Window.{
  Window, prune, kept, outside, today, days_ago, index_of, update_at, parse_gap, decode_window,
  encode_window, has_duplicate_dates, seen_twice,
}
use namespace_resizer.Sizing.Window.Observe.{
  is_new_peak, sample, note_time, note_gap, observe, note_peaks, open_bucket, adopt, new_bucket,
  truncate_second, widen_gap,
}
use namespace_resizer.Sizing.Window.Repeat.{Rereads}
use namespace_resizer.Controller.Outside.{ok, failed, other}
use namespace_resizer.Controller.Observer.{
  Stores, Usage, Cache, cache_key, observe_quota, heartbeat_elapsed, observe_from, fold_sample,
  store_if, after_write, cache_left, is_stale, keep, left_behind, observe_loaded, sample_shared,
  set_window, write, write_encoded,
}
use namespace_resizer.Controller.Observer.Persisted.{clock_world, Served, observe_quota_lem}
use namespace_resizer.Controller.Observer.Failed.{after, failed_write_lem}

abbrev stores : Stores ℕ
stores = record {
  get_state = λ ns name w. (ok zero_state, suc w);
  mutate_state = λ ns name f w. (failed (other (codes "down")), suc w);
  now = λ w. (10 * day_ns + w * minute_ns, suc w);
  marshal = λ w. some (codes "{}");
  unmarshal = λ s. none;
}

-- The clock stands.
abbrev still : Stores ℕ
still = record stores { now = λ w. (10 * day_ns, suc w) }

abbrev usage : Usage Amount
usage = record {
  namespace = codes "team";
  name = codes "compute";
  uid = codes "u1";
  used = (codes "cpu", amount 4000) ∷ [];
}

abbrev window : Window
window = record {
  version = 1;
  uid = codes "u1";
  last_sample_at = unary.stamp (10 * day_ns);
  last_write_at = unary.stamp (10 * day_ns);
  days =
      record {
        date = unary.date (pos 10);
        n = 1;
        first = codes "00:00";
        last = codes "00:00";
        max_gap = [];
        peaks = (codes "cpu", codes "1") ∷ [];
      }
      ∷ [];
}

abbrev warm : Cache
warm = (codes "team/compute", window) ∷ []

warm_lem : lookup (cache_key usage.namespace usage.name) warm ≡ some window
unfolding lookup cache_key ◌=s◌
warm_lem = refl

observe_quota_lem_example :
    let ran = observe_quota unary still usage 7 warm 1 in
    Served unary still usage warm
      (still.now (
        clock_world unary still usage 7 warm
          (codes "team/other")
          (lookup (cache_key usage.namespace usage.name) warm)
          1)).0
      (codes "team/other")
      ran.value
      ran.world
      ran.calls
observe_quota_lem_example = observe_quota_lem unary still usage 7 warm (codes "team/other") 1

own_lem : (not (window.uid =s []) && not (window.uid =s usage.uid)) ≡ false
unfolding ◌=s◌
own_lem = refl

abbrev moment : ℕ → ℕ
moment w = 10 * day_ns + w * minute_ns

current_lem : (prune unary (moment 1) 7 window).1 ≡ false
unfolding prune kept outside today days_ago unary date strokes ◌-ℤ◌ str_lt
current_lem = refl

todays_lem : index_of (today unary (moment 1)) window.days ≡ some 0
unfolding index_of today unary date strokes ◌=s◌
todays_lem = refl

-- The cached window after the failed write.
abbrev left : Window
left =
    after unary stores usage 7 warm window warm_lem 0 own_lem (moment 1) (moment 2) 1 2 current_lem
      todays_lem refl refl

kept_later_lem : (prune unary (moment 2) 7 left).1 ≡ false
unfolding prune kept outside today days_ago unary date strokes ◌-ℤ◌ str_lt update_at sample
    note_time note_gap parse_gap sub_time read_digits decimal
kept_later_lem = refl

same_day_lem : index_of (today unary (moment 2)) left.days ≡ some 0
unfolding index_of today unary date strokes ◌=s◌ update_at sample note_time note_gap parse_gap
    sub_time ◌-ℤ◌ read_digits decimal
same_day_lem = refl

rereads_lem : Rereads usage.used
unfolding is_new_peak read_digits decimal_ℤ decimal
rereads_lem = (refl, tt)

recent_lem : heartbeat_elapsed unary window (moment 2) ≡ false
unfolding heartbeat_elapsed unary ◌=s◌ sub_time ◌-ℤ◌ read_digits decimal
recent_lem = refl

fails_lem : (observe_quota unary stores usage 7 warm 1).value.0 ≡ failed (other (codes "down"))
unfolding observe_quota observe_from lookup cache_key fold_sample store_if observe note_peaks
    is_new_peak open_bucket index_of prune kept adopt outside str_lt today unary date read_duration
    strokes write_duration hour_minute sub_time after_write cache_left heartbeat_elapsed is_stale
    keep left_behind observe_loaded sample_shared set_window write write_encoded has insert ◌-ℤ◌
    new_bucket note_gap note_time sample truncate_second widen_gap days_ago decode_window
    encode_window has_duplicate_dates parse_gap seen_twice update_at decimal read_digits ◌=s◌
fails_lem = refl

failed_write_lem_example :
    (observe_quota unary stores usage 7 (observe_quota unary stores usage 7 warm 1).value.1 2).calls
    ≡ []
failed_write_lem_example =
    failed_write_lem unary stores usage 7 warm window warm_lem 0 own_lem (moment 1) (moment 2) 1 2
      current_lem todays_lem refl refl kept_later_lem same_day_lem (tt, tt) rereads_lem recent_lem
      (other (codes "down")) fails_lem
