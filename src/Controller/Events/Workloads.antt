-- ===== src/Controller/Events/Workloads.antt =====
-- calculateWorkloadDeficit and isObjectAlive of internal/controller/resourcequota_utils.go.
use namespace_resizer.Prelude.{Bool, false, Option, none, some, List, [], ◌∷◌, if◌then◌else◌}
use namespace_resizer.Prelude.Int.{ℤ, pos, ◌-ℤ◌, ◌*ℤ◌, ltb_ℤ, wrap32, wrap64}
use namespace_resizer.Text.{Str, codes, ◌=s◌}
use namespace_resizer.GoMap.{Map}
use namespace_resizer.Quantity.{Resource}
use namespace_resizer.Sizing.Deficit.{
  PodSpec, Claim, add_to, pod_requests, pvc_requests, workload_key,
}
use namespace_resizer.Controller.Events.{ObjectReference, Event}

-- The object that owns the pods: its wanted replicas, `none` for a nil pointer, and those there are,
-- both int32. For a DaemonSet these are the scheduled numbers of its status.
pub record Workload (Q : Type 0) : Type 0 where
  pub desired : Option ℤ
  pub current : ℤ
  pub template : PodSpec Q
  pub claim_templates : List (Claim Q)

-- The reads of the API server, where `none` is any error of Get.
pub record Objects (W Q : Type 0) : Type 0 where
  -- schema.ParseGroupVersion has no error
  pub group_version_parses : Str → Bool
  pub get_object : ObjectReference → Str → W → Bool × W
  pub get_stateful_set : Str → Str → W → Option (Workload Q) × W
  pub get_daemon_set : Str → Str → W → Option (Workload Q) × W
  pub get_replica_set : Str → Str → W → Option (Workload Q) × W

abbrev pub kind_stateful_set : Str
kind_stateful_set = codes "StatefulSet"

abbrev pub kind_daemon_set : Str
kind_daemon_set = codes "DaemonSet"

abbrev pub kind_replica_set : Str
kind_replica_set = codes "ReplicaSet"

-- reqs[k] += v for each entry
unfoldable pub add_all : Map ℤ → Map ℤ → Map ℤ
add_all [] reqs = reqs
add_all ((k, v) ∷ rest) reqs = add_all rest (add_to k v reqs)

unfoldable pub times : ℤ → Map ℤ → Map ℤ
times missing [] = []
times missing ((k, v) ∷ rest) = (k, wrap64 (v *ℤ missing)) ∷ times missing rest

module _ {Q : Type 0} ⦃rs : Resource Q⦄ where
  unfoldable pub whole_request : PodSpec Q → List (Claim Q) → Map ℤ
  whole_request spec [] = pod_requests spec
  whole_request spec (c ∷ claims) = add_all (pvc_requests (c ∷ claims)) (pod_requests spec)

  -- What replaces the deficits of the event.
  unfoldable pub apply_smart_calculation : PodSpec Q → List (Claim Q) → ℤ → Map ℤ → Map ℤ
  apply_smart_calculation spec claims missing deficits =
      if ltb_ℤ (pos 0) missing then times missing (whole_request spec claims) else deficits

  unfoldable pub if_missing : Workload Q → List (Claim Q) → ℤ → Map ℤ → Map ℤ
  if_missing workload claims desired deficits =
      if ltb_ℤ workload.current desired
      then (apply_smart_calculation workload.template claims (wrap32 (desired -ℤ workload.current))
          deficits)
      else deficits

  unfoldable pub by_replicas : List (Claim Q) → Workload Q → Map ℤ → Map ℤ
  by_replicas claims workload deficits = elim workload.desired [
    | none ↦ deficits
    | some desired ↦ if_missing workload claims desired deficits
  ]

  -- The cases of StatefulSet, and of DaemonSet and ReplicaSet.
  unfoldable pub with_claims : Option (Workload Q) → Map ℤ → Map ℤ
  unfolding by_replicas
  with_claims none deficits = deficits
  with_claims (some workload) deficits = by_replicas workload.claim_templates workload deficits

  unfoldable pub without_claims : Option (Workload Q) → Map ℤ → Map ℤ
  unfolding by_replicas
  without_claims none deficits = deficits
  without_claims (some workload) deficits = by_replicas [] workload deficits

module _ {W Q : Type 0} ⦃rs : Resource Q⦄ (objects : Objects W Q) where
  -- The switch on the kind. A Pod is looked up for the log only.
  unfoldable pub workload_deficits : ObjectReference → Map ℤ → W → Map ℤ × W
  workload_deficits ref deficits w =
      if ref.kind =s kind_stateful_set
      then (let (found, w') = objects.get_stateful_set ref.namespace ref.name w in
          (with_claims found deficits, w'))
      else if ref.kind =s kind_daemon_set
      then (let (found, w') = objects.get_daemon_set ref.namespace ref.name w in
          (without_claims found deficits, w'))
      else if ref.kind =s kind_replica_set
      then (let (found, w') = objects.get_replica_set ref.namespace ref.name w in
          (without_claims found deficits, w'))
      else (deficits, w)

  unfoldable pub calculate_workload_deficit : Event → Str → Q → W → (Str × Map ℤ) × W
  calculate_workload_deficit e failed_res failed_qty w =
      let event_deficit = (failed_res, rs.milli_value failed_qty) ∷ [] in
      let (deficits, w') = workload_deficits e.involved_object event_deficit w in
      ((workload_key e.involved_object.name, deficits), w')

  unfoldable pub is_object_alive : ObjectReference → Str → W → Bool × W
  is_object_alive ref namespace w =
      if objects.group_version_parses ref.api_version
      then objects.get_object ref namespace w
      else (false, w)
