-- ===== src/Controller/Observer.antt =====
-- The Observer of internal/controller/observation.go: a cache of windows before the Leases.
pub mod Persisted
pub mod Aliased
pub mod Failed
mod Examples
use namespace_resizer.Prelude.{
  ℕ, Bool, true, false, not, ◌&&◌, ◌||◌, Option, none, some, List, [], ◌∷◌, ◌++◌, if◌then◌else◌,
}
use namespace_resizer.Prelude.Int.{pos, ltb_ℤ}
use namespace_resizer.Text.{Str, codes, ◌=s◌}
use namespace_resizer.GoMap.{Map, lookup, insert, remove}
use namespace_resizer.Quantity.{Resource}
use namespace_resizer.Clock.{Time, Calendar, sub_time, hour_ns}
use namespace_resizer.Lock.State.{State}
use namespace_resizer.Sizing.Window.{
  DayBucket, Window, today, prune, index_of, update_at, decode_window, encode_window,
}
use namespace_resizer.Sizing.Window.Observe.{observe, sample, note_peaks}
use namespace_resizer.Controller.Effects.{Action, pure, perform, observe as read, ◌>>=◌}
use namespace_resizer.Controller.Outside.{
  Answer, ok, failed, Error, other, Done, done, Mutation, Call,
}

-- The locker, the clock, and json of the standard library.
pub record Stores (W : Type 0) : Type 0 where
  pub get_state : Str → Str → W → Answer State × W
  pub mutate_state : Str → Str → Mutation → W → Answer Done × W
  pub now : W → Time × W
  pub marshal : Window → Option Str
  pub unmarshal : Str → Option Window

-- What Observe reads of a quota.
pub record Usage (Q : Type 0) : Type 0 where
  pub namespace : Str
  pub name : Str
  pub uid : Str
  pub used : Map Q

abbrev pub Cache : Type 0
Cache = Map Window

unfoldable pub cache_key : Str → Str → Str
cache_key namespace name = namespace ++ codes "/" ++ name

-- Forget
unfoldable pub forget : Str → Str → Cache → Cache
unfolding cache_key
forget namespace name cached = remove (cache_key namespace name) cached

-- observationHeartbeat
abbrev pub observation_heartbeat : ℕ
observation_heartbeat = hour_ns

-- The function that MutateState runs.
unfoldable pub set_window : Str → Mutation
set_window encoded t s = record s { window = encoded }

module _ (cal : Calendar) where
  unfoldable pub is_stale : Time → Option Time → Bool
  is_stale now none = true
  is_stale now (some last) = not (ltb_ℤ (sub_time now last) (pos observation_heartbeat))

  unfoldable pub heartbeat_elapsed : Window → Time → Bool
  unfolding is_stale
  heartbeat_elapsed window now =
      if window.last_write_at =s []
      then true
      else is_stale now (cal.parse_stamp window.last_write_at)

module _ (cal : Calendar) {Q : Type 0} ⦃rs : Resource Q⦄ where
  -- The buckets are shared with the cached window. What a sample writes into them shows there also if
  -- the sample is not stored: all of it if no bucket was pruned, and the entries of the map of peaks
  -- if the buckets were copied. A nil map of peaks is taken for an empty one.
  unfoldable pub sample_shared : Time → Map Q → Bool → Option ℕ → Option ℕ → Window → Window
  sample_shared now used dropped none at window = window
  sample_shared now used false (some i) at window = record window {
    days = update_at i (sample cal now window.last_sample_at used) window.days;
  }
  sample_shared now used true (some i) none window = window
  sample_shared now used true (some i) (some j) window = record window {
    days = update_at j (λ b. record b { peaks = (note_peaks used (b.peaks, false)).0 }) window.days;
  }

  unfoldable pub left_behind : Time → Str → Map Q → ℕ → Window → Window
  unfolding sample_shared
  left_behind now uid used window_days window =
      let (pruned, dropped) = prune cal now window_days window in
      if not (window.uid =s []) && not (window.uid =s uid)
      then window
      else (sample_shared now used dropped (index_of (today cal now) pruned.days)
          (index_of (today cal now) window.days) window)

  -- The cache after a sample that was not stored.
  unfoldable pub cache_left : Time → Usage Q → ℕ → Cache → Cache
  cache_left now u window_days cached =
      let key = cache_key u.namespace u.name in
      elim (lookup key cached) [
        | none ↦ cached
        | some window ↦ insert key (left_behind now u.uid u.used window_days window) cached
      ]

abbrev pub Observed : Type 0
Observed = Answer Window × Cache

unfoldable pub keep : Str → Window → Cache → Observed
keep key window cached = (ok window, insert key window cached)

unfoldable pub after_write : Str → Window → Cache → Cache → Answer Done → Observed
unfolding keep
after_write key window cached left (ok d) = keep key window cached
after_write key window cached left (failed e) = (failed e, left)

module _ {W Q : Type 0} ⦃rs : Resource Q⦄ (cal : Calendar) (stores : Stores W) (u : Usage Q)
    (window_days : ℕ) (cached : Cache) where
  unfoldable pub write_encoded : Time → Window → Option Str → Action W (Call Q) Observed
  write_encoded now window none =
      pure (failed (other (codes "json")), cache_left cal now u window_days cached)
  write_encoded now window (some encoded) =
      perform (Call.mutate_state u.namespace u.name (set_window encoded))
        (stores.mutate_state u.namespace u.name (set_window encoded))
      >>= λ answer. pure (
          after_write (cache_key u.namespace u.name) window cached
            (cache_left cal now u window_days cached) answer)

  unfoldable pub write : Time → Window → Action W (Call Q) Observed
  write now window =
      let stamped = record window { last_write_at = cal.stamp now } in
      write_encoded now stamped (encode_window stores.marshal stamped)

  unfoldable pub store_if : Bool → Time → Window → Action W (Call Q) Observed
  store_if true now sampled = write now sampled
  store_if false now sampled = pure (keep (cache_key u.namespace u.name) sampled cached)

  unfoldable pub fold_sample : Window → Time → Action W (Call Q) Observed
  fold_sample window now =
      let (sampled, changed) = observe cal now u.uid u.used window_days window in
      store_if (changed || heartbeat_elapsed cal sampled now) now sampled

  unfoldable pub observe_loaded : Answer State → Action W (Call Q) Observed
  observe_loaded (failed e) = pure (failed e, cached)
  observe_loaded (ok state) =
      read stores.now >>= fold_sample (decode_window stores.unmarshal state.window)

  unfoldable pub observe_from : Option Window → Action W (Call Q) Observed
  observe_from (some window) = read stores.now >>= fold_sample window
  observe_from none = read (stores.get_state u.namespace u.name) >>= observe_loaded

  unfoldable pub observe_quota : Action W (Call Q) Observed
  observe_quota = observe_from (lookup (cache_key u.namespace u.name) cached)
