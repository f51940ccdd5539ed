-- ===== src/Controller/Observer/Persisted.antt =====
-- What Observe of internal/controller/observation.go keeps in its cache and on the Lease.
use namespace_resizer.Prelude.{
  ◌≡◌, refl, ◌∙◌, true, false, ◌||◌, Option, none, some, List, [], ◌∷◌, ℕ, ◌⊎◌, inl, inr, arith,
  Bool-cases, Option-cases, if◌then◌else◌,
}
use namespace_resizer.Text.{Str, ◌=s◌}
use namespace_resizer.GoMap.{lookup}
use namespace_resizer.GoMap.Laws.{lookup-insert}
use namespace_resizer.Quantity.{Resource}
use namespace_resizer.Clock.{Time, Calendar}
use namespace_resizer.Lock.State.{State}
use namespace_resizer.Sizing.Window.{Window, encode_window, decode_window}
use namespace_resizer.Sizing.Window.Observe.{observe}
use namespace_resizer.Controller.Outside.{Answer, ok, failed, Call, Done, done}
use namespace_resizer.Controller.Observer.{
  Stores, Usage, Cache, Observed, cache_key, set_window, heartbeat_elapsed, left_behind, cache_left,
  keep, after_write, write_encoded, write, store_if, fold_sample, observe_loaded, observe_from,
  observe_quota,
}

-- No call was made, for a window that was written less than an hour ago; or one call was made, which
-- succeeded, and wrote this window to the Lease.
abbrev pub IsPersisted :
    {W Q : Type 0} → Calendar → Stores W → Usage Q → Time → Window → W → List (Call Q) → Type 0
IsPersisted {W} cal stores u now window after calls =
    ((calls ≡ []) × (heartbeat_elapsed cal window now ≡ false))
    ⊎ ((encoded : Str) × (before : W) × (calls
          ≡ Call.mutate_state u.namespace u.name (set_window encoded) ∷ [])
        × (encode_window stores.marshal window ≡ some encoded)
        × (stores.mutate_state u.namespace u.name (set_window encoded) before ≡ (ok done, after)))

-- How Observe has ended at a time, for the entry `k` of the cache.
abbrev pub Served :
    {W Q : Type 0}
    → Calendar
    → Stores W
    → Usage Q
    → Cache
    → Time
    → Str
    → Observed
    → W
    → List (Call Q)
    → Type 0
Served cal stores u cached now k (ok window, kept) after calls =
    (lookup k kept ≡ (if cache_key u.namespace u.name =s k then some window else lookup k cached))
    × IsPersisted cal stores u now window after calls
Served cal stores u cached now k (failed e, kept) after calls =
    (cache_key u.namespace u.name =s k ≡ true) ⊎ (lookup k kept ≡ lookup k cached)

module _ {W Q : Type 0} ⦃rs : Resource Q⦄ (cal : Calendar) (stores : Stores W) (u : Usage Q)
    (window_days : ℕ) (cached : Cache) (now : Time) (k : Str) where
  cache_left_lem :
      (cache_key u.namespace u.name =s k ≡ true)
      ⊎ (lookup k (cache_left cal now u window_days cached) ≡ lookup k cached)
  unfolding cache_left lookup
  cache_left_lem =
      let key = cache_key u.namespace u.name in
      elim (Bool-cases (key =s k)) [
        | inl own ↦ inl own
        | inr foreign ↦ inr (elim (Option-cases (lookup key cached)) [
          | inl cold ↦ rw (cold, cache_left) refl
          | inr (window, warm) ↦
              rw (warm, cache_left)
                (lookup-insert key k (left_behind cal now u.uid u.used window_days window) cached
                  ∙ rw foreign refl)
        ])
      ]

  after_write_lem :
      (window : Window) (encoded : Str) (before after : W) (answer : Answer Done)
      → encode_window stores.marshal window ≡ some encoded
      → stores.mutate_state u.namespace u.name (set_window encoded) before ≡ (answer, after)
      → Served cal stores u cached now k
          (after_write
            (cache_key u.namespace u.name)
            window
            cached
            (cache_left cal now u window_days cached)
            answer)
          after
          (Call.mutate_state u.namespace u.name (set_window encoded) ∷ [])
  unfolding after_write keep
  after_write_lem window encoded before after (failed e) enc answered = cache_left_lem
  after_write_lem window encoded before after (ok done) enc answered = (
    lookup-insert (cache_key u.namespace u.name) k window cached,
    inr (encoded, before, refl, enc, answered),
  )

  write_encoded_lem :
      (window : Window) (encoded : Option Str) (w : W)
      → encode_window stores.marshal window ≡ encoded
      → let ran = write_encoded cal stores u window_days cached now window encoded w in
        Served cal stores u cached now k ran.value ran.world ran.calls
  unfolding write_encoded
  write_encoded_lem window none w enc = cache_left_lem
  write_encoded_lem window (some encoded) w enc =
      let (answer, after) = stores.mutate_state u.namespace u.name (set_window encoded) w in
      after_write_lem window encoded w after answer enc refl

  fold_sample_lem :
      (window : Window) (w : W)
      → let ran = fold_sample cal stores u window_days cached window now w in
        Served cal stores u cached now k ran.value ran.world ran.calls
  unfolding fold_sample store_if write keep
  fold_sample_lem window w =
      let (sampled, changed) = observe cal now u.uid u.used window_days window in
      let stamped = record sampled { last_write_at = cal.stamp now } in
      elim (Bool-cases (changed || heartbeat_elapsed cal sampled now)) [
        | inl due ↦ rw due (write_encoded_lem stamped (encode_window stores.marshal stamped) w refl)
        | inr fresh ↦ rw fresh (
          lookup-insert (cache_key u.namespace u.name) k sampled cached,
          inl (refl, ground (arith, fresh)),
        )
      ]

module _ {W Q : Type 0} ⦃rs : Resource Q⦄ (cal : Calendar) (stores : Stores W) (u : Usage Q)
    (window_days : ℕ) (cached : Cache) (k : Str) where
  timed_lem :
      (window : Window) (w : W)
      → let ran =
          fold_sample cal stores u window_days cached window (stores.now w).0 (stores.now w).1 in
        Served cal stores u cached (stores.now w).0 k ran.value ran.world ran.calls
  timed_lem window w =
      fold_sample_lem cal stores u window_days cached (stores.now w).0 k window (stores.now w).1

  observe_loaded_lem :
      (answer : Answer State) (w : W)
      → let ran = observe_loaded cal stores u window_days cached answer w in
        Served cal stores u cached (stores.now w).0 k ran.value ran.world ran.calls
  unfolding observe_loaded
  observe_loaded_lem (failed e) w = inr refl
  observe_loaded_lem (ok state) w = timed_lem (decode_window stores.unmarshal state.window) w

  -- The world in which Observe reads the clock: at once for a cached window, else after GetState.
  abbrev pub clock_world : Option Window → W → W
  clock_world (some window) w = w
  clock_world none w = (stores.get_state u.namespace u.name w).1

  observe_from_lem :
      (window : Option Window) (w : W)
      → let ran = observe_from cal stores u window_days cached window w in
        Served cal stores u cached
          (stores.now (clock_world window w)).0
          k
          ran.value
          ran.world
          ran.calls
  unfolding observe_from
  observe_from_lem (some window) w = timed_lem window w
  observe_from_lem none w =
      let got = stores.get_state u.namespace u.name w in observe_loaded_lem got.0 got.1

  -- When Observe returns a window, the cache holds that window for the quota and what it held for the
  -- others. Then either its only call is a MutateState that has succeeded and that writes this window
  -- to the Lease, or it made no call, and by the clock that it read the window carries the time of a
  -- write less than an hour ago. When it returns an error, the cache still holds what it held for the
  -- other quotas.
  pub observe_quota_lem :
      (w : W)
      → let ran = observe_quota cal stores u window_days cached w in
        let read = clock_world (lookup (cache_key u.namespace u.name) cached) w in
        Served cal stores u cached (stores.now read).0 k ran.value ran.world ran.calls
  unfolding observe_quota
  observe_quota_lem w = observe_from_lem (lookup (cache_key u.namespace u.name) cached) w
