-- ===== src/Controller/Reconcile.antt =====
-- Reconcile of internal/controller/resourcequota_controller.go.
pub mod Warnings
pub mod OptOut
mod Examples
use namespace_resizer.Prelude.{
  Bool, true, false, not, Option, none, some, List, [], ◌∷◌, ◌++◌, if◌then◌else◌,
}
use namespace_resizer.Prelude.Int.{ℤ, pos}
use namespace_resizer.Text.{Str, codes, ◌=s◌}
use namespace_resizer.GoMap.{Map}
use namespace_resizer.Float.{Float64}
use namespace_resizer.Quantity.{Resource}
use namespace_resizer.Clock.{Time, Calendar}
use namespace_resizer.Lock.State.{State}
use namespace_resizer.Sizing.Policy.{Policy, default_key}
use namespace_resizer.Sizing.Policy.Parse.{
  PolicyWarning, deprecated, rejected, unrecognised, annotation_prefix,
}
use namespace_resizer.Sizing.Policy.Merge.{parse_policy}
use namespace_resizer.Sizing.Window.{Window}
use namespace_resizer.Sizing.Decide.{Decision, decide}
use namespace_resizer.Sizing.Decide.Target.{Input}
use namespace_resizer.Controller.Effects.{Action, pure, perform, observe, ◌>>=◌, ◌>>◌}
use namespace_resizer.Controller.Outside.{
  Answer, ok, failed, Error, Quota, Done, done, Call, EventType, Outside, Result,
}
use namespace_resizer.Controller.Active.{Round}
use namespace_resizer.Controller.Dispatch.{act}
use namespace_resizer.Controller.Deficits.{Reads, collect_deficits}
use namespace_resizer.Controller.Events.{Event}
use namespace_resizer.Controller.Events.Workloads.{Objects}
use namespace_resizer.Controller.Observer.{Stores, Usage, Cache, forget, observe_quota}

-- The answer of Get for a quota: IsNotFound is told from the other errors.
pub data Fetched (A : Type 0) : Type 0 where
  found : A → Fetched A
  not_found : Fetched A
  unreachable : Error → Fetched A

-- What Reconcile reads of a ResourceQuota.
pub record QuotaObject (Q : Type 0) : Type 0 where
  pub quota : Quota Q
  pub uid : Str
  pub status_used : Map Q

-- The reconciler's surroundings: what it calls, json and the verb %q of package fmt.
pub record Surroundings (W Q : Type 0) : Type 0 where
  pub out : Outside W Q
  pub get_quota : Str → Str → W → Fetched (QuotaObject Q) × W
  pub get_annotations : Str → W → Answer (Map Str) × W
  pub get_state : Str → Str → W → Answer State × W
  pub objects : Objects W Q
  pub list_events : Str → W → Answer (List Event) × W
  pub marshal : Window → Option Str
  pub unmarshal : Str → Option Window
  pub quoted : Str → Str

-- The fields of ResourceQuotaReconciler that are not interfaces.
pub record Settings (F Q : Type 0) : Type 0 where
  pub base_policy : Policy F Q
  pub enable_auto_merge : Bool

abbrev pub stores_of : {W Q : Type 0} → Surroundings W Q → Stores W
stores_of s = record {
  get_state = s.get_state;
  mutate_state = s.out.mutate_state;
  now = s.out.now;
  marshal = s.marshal;
  unmarshal = s.unmarshal;
}

abbrev pub reads_of : {W Q : Type 0} → Surroundings W Q → Reads W Q
reads_of s = record { objects = s.objects; list_events = s.list_events; now = s.out.now }

abbrev pub usage_of : {Q : Type 0} → QuotaObject Q → Usage Q
usage_of q = record {
  namespace = q.quota.namespace;
  name = q.quota.name;
  uid = q.uid;
  used = q.status_used;
}

unfoldable pub rejection_message : (Str → Str) → Str → Str → Str → Str
rejection_message quoted name value requirement =
    codes "annotation "
    ++ (annotation_prefix
        ++ (name
            ++ (codes " has the invalid value "
                ++ (quoted value
                    ++ (codes ", so it is ignored and the previous value is kept ("
                        ++ (requirement ++ codes ")"))))))

unfoldable pub unrecognised_message : (Str → Str) → Str → Str
unrecognised_message quoted value =
    codes "annotation "
    ++ (annotation_prefix
        ++ (codes "shrink-enabled has the unrecognised value "
            ++ (quoted value
                ++ codes
                    ", so shrinking is switched off for this namespace; use \"true\" or \"false\"")))

-- An answer of the reconciler, with the Observer's cache.
abbrev pub Reconciled : Type 0
Reconciled = Answer Result × Cache

-- ctrl.Result{} without an error
abbrev pub nothing_to_do : Answer Result
nothing_to_do = ok (record { requeue = false; requeue_after = pos 0 })

abbrev pub or_no_deficits : Answer (Map ℤ) → Map ℤ
or_no_deficits (ok deficits) = deficits
or_no_deficits (failed e) = []

abbrev pub has_failed : {A : Type 0} → Answer A → Bool
has_failed (ok a) = false
has_failed (failed e) = true

module _ {W Q : Type 0} (s : Surroundings W Q) where
  -- The body of the loop over the warnings.
  unfoldable pub warn_of : PolicyWarning → Action W (Call Q) Done
  unfolding rejection_message unrecognised_message
  warn_of (deprecated res old) = pure done
  warn_of (rejected name value requirement) =
      let message = rejection_message s.quoted name value requirement in
      perform (Call.event EventType.warning (codes "PolicyAnnotationRejected") message)
        (s.out.event EventType.warning (codes "PolicyAnnotationRejected") message)
  warn_of (unrecognised value) =
      let message = unrecognised_message s.quoted value in
      perform (Call.event EventType.warning (codes "PolicyAnnotationRejected") message)
        (s.out.event EventType.warning (codes "PolicyAnnotationRejected") message)

  unfoldable pub warn_all : List PolicyWarning → Action W (Call Q) Done
  unfolding warn_of
  warn_all [] = pure done
  warn_all (warning ∷ rest) = warn_of warning >> warn_all rest

module _ {W F Q : Type 0} (cal : Calendar) ⦃fl : Float64 F⦄ ⦃rs : Resource Q⦄ (s : Surroundings W Q)
    (settings : Settings F Q) where
  -- From the decision on.
  unfoldable pub decide_round :
      QuotaObject Q
      → Map Str
      → Policy F Q
      → Window
      → State
      → Answer (Map ℤ)
      → Time
      → Action W (Call Q) (Answer Result)
  decide_round q annotations policy window state deficits now =
      act s.out (has_failed deficits) (record {
        quota = q.quota;
        annotations = annotations;
        policy = policy;
        state = state;
        decision = decide cal (record {
          now = now;
          hard = q.quota.status_hard;
          used = q.status_used;
          deficits = or_no_deficits deficits;
          window = window;
          policy = policy;
          last_grow = state.last_grow;
          last_shrink = state.last_shrink;
        });
        enable_auto_merge = settings.enable_auto_merge;
      })

  unfoldable pub with_state :
      QuotaObject Q
      → Map Str
      → Policy F Q
      → Window
      → Answer State
      → Action W (Call Q) (Answer Result)
  with_state q annotations policy window (failed e) = pure (failed e)
  with_state q annotations policy window (ok state) =
      observe (collect_deficits (reads_of s) q.quota state.last_modified) >>= λ deficits.
      observe s.out.now >>= λ now. decide_round q annotations policy window state deficits now

  unfoldable pub with_window :
      QuotaObject Q → Map Str → Policy F Q → Answer Window → Action W (Call Q) (Answer Result)
  with_window q annotations policy (failed e) = pure (failed e)
  with_window q annotations policy (ok window) =
      observe (s.get_state q.quota.namespace q.quota.name)
      >>= with_state q annotations policy window

  unfoldable pub if_enabled :
      Bool → QuotaObject Q → Map Str → Policy F Q → Cache → Action W (Call Q) Reconciled
  if_enabled false q annotations policy cached = pure (nothing_to_do, cached)
  if_enabled true q annotations policy cached =
      observe_quota cal (stores_of s) (usage_of q) policy.window_days cached >>= λ observed.
      with_window q annotations policy observed.0 >>= λ result. pure (result, observed.1)

  unfoldable pub with_annotations :
      QuotaObject Q → Cache → Answer (Map Str) → Action W (Call Q) Reconciled
  with_annotations q cached (failed e) = pure (failed e, cached)
  with_annotations q cached (ok annotations) =
      let (policy, warnings) = parse_policy annotations settings.base_policy in
      warn_all s warnings >> if_enabled policy.enabled q annotations policy cached

  unfoldable pub with_quota :
      Str → Str → Cache → Fetched (QuotaObject Q) → Action W (Call Q) Reconciled
  with_quota ns name cached not_found = pure (nothing_to_do, forget ns name cached)
  with_quota ns name cached (unreachable e) = pure (failed e, cached)
  with_quota ns name cached (found q) = observe (s.get_annotations ns) >>= with_annotations q cached

  unfoldable pub reconcile : Str → Str → Cache → Action W (Call Q) Reconciled
  reconcile ns name cached = observe (s.get_quota ns name) >>= with_quota ns name cached
