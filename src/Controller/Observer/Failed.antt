-- ===== src/Controller/Observer/Failed.antt =====
-- After a write that failed: Observe of internal/controller/observation.go.
use namespace_resizer.Prelude.{
  ℕ, ◌≡◌, refl, ap, ◌∙◌, Bool, true, false, not, ◌&&◌, ◌||◌, Option, none, some, [],
}
use namespace_resizer.Text.{Str, ◌=s◌}
use namespace_resizer.Text.Equality.{=s_refl}
use namespace_resizer.GoMap.{lookup, DistinctKeys}
use namespace_resizer.GoMap.Laws.{lookup-insert}
use namespace_resizer.Quantity.{Resource}
use namespace_resizer.Clock.{Time, Calendar}
use namespace_resizer.Sizing.Window.{Window, today, prune, index_of, update_at, encode_window}
use namespace_resizer.Sizing.Window.Observe.{observe, sample}
use namespace_resizer.Sizing.Window.Repeat.{Rereads}
use namespace_resizer.Controller.Outside.{Answer, ok, failed, Error, Done}
use namespace_resizer.Controller.Observer.{
  Stores, Usage, Cache, cache_key, set_window, heartbeat_elapsed, left_behind, cache_left, keep,
  after_write, write_encoded, write, store_if, fold_sample, observe_from, observe_quota,
}
use namespace_resizer.Controller.Observer.Aliased.{left_behind_lem, second_sample, stamp_kept}

module _ {W Q : Type 0} ⦃rs : Resource Q⦄ (cal : Calendar) (stores : Stores W) (u : Usage Q)
    (window_days : ℕ) (cached : Cache) (now : Time) (e : Error) where
  after_write_failed :
      (window : Window) (left : Cache) (answer : Answer Done)
      → (after_write (cache_key u.namespace u.name) window cached left answer).0 ≡ failed e
      → (after_write (cache_key u.namespace u.name) window cached left answer).1 ≡ left
  unfolding after_write keep
  after_write_failed window left (ok d) h = cc h
  after_write_failed window left (failed e') h = refl

  write_failed :
      (window : Window) (encoded : Option Str) (w : W)
      → let ran = write_encoded cal stores u window_days cached now window encoded w in
        ran.value.0 ≡ failed e → ran.value.1 ≡ cache_left cal now u window_days cached
  unfolding write_encoded
  write_failed window none w h = refl
  write_failed window (some encoded) w h =
      after_write_failed window (cache_left cal now u window_days cached)
        (stores.mutate_state u.namespace u.name (set_window encoded) w).0 h

  store_if_failed :
      (due : Bool) (sampled : Window) (w : W)
      → let ran = store_if cal stores u window_days cached due now sampled w in
        ran.value.0 ≡ failed e → ran.value.1 ≡ cache_left cal now u window_days cached
  unfolding store_if write keep
  store_if_failed true sampled w h =
      let stamped = record sampled { last_write_at = cal.stamp now } in
      write_failed stamped (encode_window stores.marshal stamped) w h
  store_if_failed false sampled w h = cc h

  fold_sample_failed :
      (window : Window) (w : W)
      → let ran = fold_sample cal stores u window_days cached window now w in
        ran.value.0 ≡ failed e → ran.value.1 ≡ cache_left cal now u window_days cached
  unfolding fold_sample
  fold_sample_failed window w h =
      let (sampled, changed) = observe cal now u.uid u.used window_days window in
      store_if_failed (changed || heartbeat_elapsed cal sampled now) sampled w h

heartbeat_same :
    (cal : Calendar) (a b : Window) (t : Time)
    → a.last_write_at ≡ b.last_write_at
    → heartbeat_elapsed cal a t ≡ heartbeat_elapsed cal b t
unfolding heartbeat_elapsed
heartbeat_same cal a b t h = rw h refl

-- A quota whose cached window is its own, has a bucket for today, and is inside the window of days,
-- now and at a later time of the same day.
module _ {W Q : Type 0} ⦃rs : Resource Q⦄ (cal : Calendar) (stores : Stores W) (u : Usage Q)
    (window_days : ℕ) (cached : Cache) (window : Window)
    (warm : lookup (cache_key u.namespace u.name) cached ≡ some window) (i : ℕ)
    (own : (not (window.uid =s []) && not (window.uid =s u.uid)) ≡ false) (now later : Time)
    (v w : W) (current : (prune cal now window_days window).1 ≡ false)
    (todays : index_of (today cal now) window.days ≡ some i) (first : (stores.now v).0 ≡ now)
    (second : (stores.now w).0 ≡ later) where
  abbrev pub after : Window
  after = record window {
    days = update_at i (sample cal now window.last_sample_at u.used) window.days;
  }

  cache_left_warm :
      lookup (cache_key u.namespace u.name) (cache_left cal now u window_days cached) ≡ some after
  unfolding cache_left lookup
  cache_left_warm =
      let key = cache_key u.namespace u.name in
      rw (warm, cache_left)
        (lookup-insert key key (left_behind cal now u.uid u.used window_days window) cached
          ∙ rw (=s_refl key) (
              ap some
                (left_behind_lem cal now u.uid u.used window_days window i own current todays)))

  cache_after :
      (e : Error)
      → (observe_quota cal stores u window_days cached v).value.0 ≡ failed e
      → (observe_quota cal stores u window_days cached v).value.1
        ≡ cache_left cal now u window_days cached
  unfolding observe_quota observe_from lookup
  cache_after e =
      rw (warm, observe_from, first)
        (fold_sample_failed cal stores u window_days cached now e window (stores.now v).1)

  module _ (kept_later : (prune cal later window_days after).1 ≡ false)
      (same_day : index_of (today cal later) after.days ≡ some i) (distinct : DistinctKeys u.used)
      (rereads : Rereads u.used) (recent : heartbeat_elapsed cal window later ≡ false) where
    not_due :
        (observe cal later u.uid u.used window_days after).1
          || heartbeat_elapsed cal (observe cal later u.uid u.used window_days after).0 later
        ≡ false
    not_due =
        rw
          (
            second_sample cal now u.uid u.used window_days window i own current todays later
                kept_later same_day distinct rereads,
            heartbeat_same cal (observe cal later u.uid u.used window_days after).0 window later (
                stamp_kept cal now u.uid u.used window_days window i own current todays later
                  kept_later same_day distinct rereads),
          )
          recent

    silent_later :
        (left : Cache)
        → lookup (cache_key u.namespace u.name) left ≡ some after
        → (observe_quota cal stores u window_days left w).calls ≡ []
    unfolding observe_quota observe_from fold_sample store_if lookup
    silent_later left found = rw (found, observe_from, second) (rw not_due refl)

    -- For a quota whose cached window is its own, has a bucket for today and lost none to pruning: when
    -- Observe returns an error, and the usage is the same at a later time of that day, less than an
    -- hour after the last write that went through, then the next Observe writes nothing to the Lease,
    -- whatever the first one meant to write: the sample stayed in the buckets of the cache.
    pub failed_write_lem :
        (e : Error)
        → (observe_quota cal stores u window_days cached v).value.0 ≡ failed e
        → (observe_quota cal stores u window_days
            (observe_quota cal stores u window_days cached v).value.1
            w).calls
          ≡ []
    failed_write_lem e h =
        silent_later (observe_quota cal stores u window_days cached v).value.1
          (ap (lookup (cache_key u.namespace u.name)) (cache_after e h) ∙ cache_left_warm)
