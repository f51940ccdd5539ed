-- ===== src/Controller/Reconcile/OptOut.antt =====
-- A namespace that opts out of shrinking, through all of Reconcile
-- (internal/controller/resourcequota_controller.go).
use namespace_resizer.Prelude.{
  ℕ, ◌≡◌, refl, Bool, true, false, Option, none, some, [], ◌++◌, All, All-append, All-map, ◌≢◌, sym,
  subst, append-nil,
}
use namespace_resizer.Text.{Str, codes, ◌=s◌}
use namespace_resizer.GoMap.{Map, lookup}
use namespace_resizer.Float.{Float64}
use namespace_resizer.Quantity.{Resource}
use namespace_resizer.Clock.{Calendar, Time}
use namespace_resizer.Lock.State.{State}
use namespace_resizer.Sizing.Policy.{Policy}
use namespace_resizer.Sizing.Policy.Parse.Words.{equal_fold}
use namespace_resizer.Sizing.Policy.Merge.{parse_policy}
use namespace_resizer.Sizing.Policy.OptOut.{shrink_opt_out_lem}
use namespace_resizer.Sizing.Window.{Window}
use namespace_resizer.Sizing.Decide.{Direction, shrink, grow, none_wanted, decide, direction_string}
use namespace_resizer.Sizing.Decide.Target.{Input}
use namespace_resizer.Sizing.Decide.Outcome.{decide-shrink_iff}
use namespace_resizer.Controller.Outside.{Answer, ok, failed, Call, Outside}
use namespace_resizer.Controller.Active.{Round}
use namespace_resizer.Controller.Dispatch.{act}
use namespace_resizer.Controller.Dispatch.Guards.{Dispatched, act-Dispatched}
use namespace_resizer.Controller.Observer.{
  Stores, Usage, Cache, write_encoded, write, store_if, fold_sample, observe_loaded, observe_from,
  observe_quota,
}
use namespace_resizer.Controller.Reconcile.{
  Fetched, found, not_found, unreachable, QuotaObject, Surroundings, Settings, stores_of, usage_of,
  warn_all, decide_round, with_state, with_window, if_enabled, with_annotations, with_quota,
  reconcile,
}
use namespace_resizer.Controller.Reconcile.Warnings.{IsEvent, warn_all-IsEvent}

-- Not the proposal of a shrink.
abbrev pub IsNoShrink : {Q : Type 0} → Call Q → Type 0
IsNoShrink (Call.create_pr _ _ label _ _) = label =s codes "shrink" ≡ false
IsNoShrink _ = Unit

label_lem : (d : Direction) → d ≢ shrink → direction_string d =s codes "shrink" ≡ false
unfolding direction_string ◌=s◌
label_lem shrink h = absurd (h refl)
label_lem grow h = refl
label_lem none_wanted h = refl

of_IsEvent : {Q : Type 0} (c : Call Q) → IsEvent c → IsNoShrink c
of_IsEvent (Call.event _ _ _) h = tt
of_IsEvent (Call.merge_pr _ _) h = tt
of_IsEvent (Call.create_pr _ _ _ _ _) h = absurd h
of_IsEvent (Call.update_pr _ _ _ _ _) h = tt
of_IsEvent (Call.close_pr _ _) h = tt
of_IsEvent (Call.mutate_state _ _ _) h = tt

module _ {W Q : Type 0} ⦃rs : Resource Q⦄ (cal : Calendar) (stores : Stores W) (u : Usage Q)
    (window_days : ℕ) (cached : Cache) where
  write_encoded-IsNoShrink :
      (now : Time) (window : Window) (encoded : Option Str) (w : W)
      → All IsNoShrink (write_encoded cal stores u window_days cached now window encoded w).calls
  unfolding write_encoded
  write_encoded-IsNoShrink now window none w = tt
  write_encoded-IsNoShrink now window (some encoded) w = (tt, tt)

  store_if-IsNoShrink :
      (due : Bool) (now : Time) (window : Window) (w : W)
      → All IsNoShrink (store_if cal stores u window_days cached due now window w).calls
  unfolding store_if write
  store_if-IsNoShrink false now window w = tt
  store_if-IsNoShrink true now window w = write_encoded-IsNoShrink now _ _ w

  fold_sample-IsNoShrink :
      (window : Window) (now : Time) (w : W)
      → All IsNoShrink (fold_sample cal stores u window_days cached window now w).calls
  unfolding fold_sample
  fold_sample-IsNoShrink window now w = store_if-IsNoShrink _ now _ w

  observe_loaded-IsNoShrink :
      (state : Answer State) (w : W)
      → All IsNoShrink (observe_loaded cal stores u window_days cached state w).calls
  unfolding observe_loaded
  observe_loaded-IsNoShrink (failed e) w = tt
  observe_loaded-IsNoShrink (ok state) w =
      fold_sample-IsNoShrink _ (stores.now w).0 (stores.now w).1

  observe_from-IsNoShrink :
      (window : Option Window) (w : W)
      → All IsNoShrink (observe_from cal stores u window_days cached window w).calls
  unfolding observe_from
  observe_from-IsNoShrink (some window) w =
      fold_sample-IsNoShrink window (stores.now w).0 (stores.now w).1
  observe_from-IsNoShrink none w =
      let got = stores.get_state u.namespace u.name w in observe_loaded-IsNoShrink got.0 got.1

  observe_quota-IsNoShrink :
      (w : W) → All IsNoShrink (observe_quota cal stores u window_days cached w).calls
  unfolding observe_quota
  observe_quota-IsNoShrink w = observe_from-IsNoShrink _ w

module _ {W F Q : Type 0} ⦃rs : Resource Q⦄ where
  of_Dispatched :
      (out : Outside W Q) (scan_failed : Bool) (r : Round F Q)
      → r.decision.direction ≢ shrink
      → (c : Call Q) → Dispatched out scan_failed r c
      → IsNoShrink c
  of_Dispatched out scan_failed r h (Call.create_pr _ _ label _ _) d =
      rw d.2 (label_lem r.decision.direction h)
  of_Dispatched out scan_failed r h (Call.event _ _ _) d = tt
  of_Dispatched out scan_failed r h (Call.merge_pr _ _) d = tt
  of_Dispatched out scan_failed r h (Call.update_pr _ _ _ _ _) d = tt
  of_Dispatched out scan_failed r h (Call.close_pr _ _) d = tt
  of_Dispatched out scan_failed r h (Call.mutate_state _ _ _) d = tt

  act-IsNoShrink :
      (out : Outside W Q) (scan_failed : Bool) (r : Round F Q) (w : W)
      → r.decision.direction ≢ shrink
      → All IsNoShrink (act out scan_failed r w).calls
  act-IsNoShrink out scan_failed r w h =
      All-map (Dispatched out scan_failed r) IsNoShrink (act out scan_failed r w).calls
        (of_Dispatched out scan_failed r h) (act-Dispatched out scan_failed r w)

module _ {F Q : Type 0} (cal : Calendar) ⦃fl : Float64 F⦄ ⦃rs : Resource Q⦄ where
  never_shrinks :
      (input : Input F Q)
      → input.policy.shrink_enabled ≡ false
      → (decide cal input).direction ≢ shrink
  never_shrinks input off h = cc (((decide-shrink_iff cal input).0 h).3.allowed, off)

module _ {W F Q : Type 0} (cal : Calendar) ⦃fl : Float64 F⦄ ⦃rs : Resource Q⦄ (s : Surroundings W Q)
    (settings : Settings F Q) (q : QuotaObject Q) (annotations : Map Str) (policy : Policy F Q)
    (off : policy.shrink_enabled ≡ false) where
  with_state-IsNoShrink :
      (window : Window) (state : Answer State) (w : W)
      → All IsNoShrink (with_state cal s settings q annotations policy window state w).calls
  unfolding with_state decide_round
  with_state-IsNoShrink window (failed e) w = tt
  with_state-IsNoShrink window (ok state) w = act-IsNoShrink s.out _ _ _ (never_shrinks cal _ off)

  with_window-IsNoShrink :
      (window : Answer Window) (w : W)
      → All IsNoShrink (with_window cal s settings q annotations policy window w).calls
  unfolding with_window
  with_window-IsNoShrink (failed e) w = tt
  with_window-IsNoShrink (ok window) w =
      let got = s.get_state q.quota.namespace q.quota.name w in
      with_state-IsNoShrink window got.0 got.1

  if_enabled-IsNoShrink :
      (enabled : Bool) (cached : Cache) (w : W)
      → All IsNoShrink (if_enabled cal s settings enabled q annotations policy cached w).calls
  unfolding if_enabled
  if_enabled-IsNoShrink false cached w = tt
  if_enabled-IsNoShrink true cached w =
      let seen = observe_quota cal (stores_of s) (usage_of q) policy.window_days cached w in
      let rest = with_window cal s settings q annotations policy seen.value.0 seen.world in
      All-append IsNoShrink seen.calls (rest.calls ++ [])
        (observe_quota-IsNoShrink cal (stores_of s) (usage_of q) policy.window_days cached w)
        (subst (All IsNoShrink) (sym (append-nil rest.calls))
          (with_window-IsNoShrink seen.value.0 seen.world))

module _ {W F Q : Type 0} (cal : Calendar) ⦃fl : Float64 F⦄ ⦃rs : Resource Q⦄ (s : Surroundings W Q)
    (settings : Settings F Q) (ns name : Str) (cached : Cache) (annotations : Map Str) (value : Str)
    (opted : lookup (codes "resizer.io/shrink-enabled") annotations ≡ some value)
    (out : equal_fold value (codes "true") ≡ false) where
  annotated-IsNoShrink :
      (q : QuotaObject Q) (w : W)
      → All IsNoShrink (with_annotations cal s settings q cached (ok annotations) w).calls
  unfolding with_annotations
  annotated-IsNoShrink q w =
      let (policy, warnings) = parse_policy annotations settings.base_policy in
      let warned = warn_all s warnings w in
      All-append IsNoShrink warned.calls
        (if_enabled cal s settings policy.enabled q annotations policy cached warned.world).calls
        (All-map IsEvent IsNoShrink warned.calls of_IsEvent (warn_all-IsEvent s warnings w))
        (if_enabled-IsNoShrink cal s settings q annotations policy
          (shrink_opt_out_lem annotations settings.base_policy value opted out) policy.enabled
          cached warned.world)

  with_quota-IsNoShrink :
      (q : Fetched (QuotaObject Q)) (w : W)
      → (s.get_annotations ns w).0 ≡ ok annotations
      → All IsNoShrink (with_quota cal s settings ns name cached q w).calls
  unfolding with_quota
  with_quota-IsNoShrink not_found w h = tt
  with_quota-IsNoShrink (unreachable e) w h = tt
  with_quota-IsNoShrink (found q) w h = rw h (annotated-IsNoShrink q (s.get_annotations ns w).1)

  -- In a namespace with the annotation resizer.io/shrink-enabled and any value but "true", in whatever
  -- case, no run of Reconcile proposes a shrink: whatever its settings, the Lease, the cache, the other
  -- annotations and all other answers of the outside are, it creates no pull request that is labelled
  -- as a shrink.
  pub reconcile-IsNoShrink :
      (w : W)
      → (s.get_annotations ns (s.get_quota ns name w).1).0 ≡ ok annotations
      → All IsNoShrink (reconcile cal s settings ns name cached w).calls
  unfolding reconcile
  reconcile-IsNoShrink w h =
      with_quota-IsNoShrink (s.get_quota ns name w).0 (s.get_quota ns name w).1 h
