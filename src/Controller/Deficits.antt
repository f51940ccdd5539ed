-- ===== src/Controller/Deficits.antt =====
-- collectDeficits and resolveQuotaKey of internal/controller/resourcequota_controller.go.
pub mod Maxima
pub mod Retries
mod Examples
use namespace_resizer.Prelude.{
  ℕ, ◌+◌, Bool, true, false, not, ◌&&◌, ◌||◌, Option, none, some, List, [], ◌∷◌, ltb, if◌then◌else◌,
}
use namespace_resizer.Prelude.Int.{ℤ, pos, ◌+ℤ◌, ltb_ℤ, wrap64}
use namespace_resizer.Text.{Str, codes, ◌=s◌, contains}
use namespace_resizer.GoMap.{Map, lookup, insert, has}
use namespace_resizer.Quantity.{Resource}
use namespace_resizer.Clock.{Time, hour_ns, is_zero}
use namespace_resizer.Sizing.Names.{
  resource_cpu, resource_memory, resource_storage, requests_cpu, requests_memory, requests_storage,
}
use namespace_resizer.Sizing.Deficit.{amount_at, add_to, parse_event_message}
use namespace_resizer.Controller.Effects.{Action, pure, observe, ◌>>=◌}
use namespace_resizer.Controller.Outside.{Answer, ok, failed, Quota, Call}
use namespace_resizer.Controller.Events.{Event, exceeded_quota, is_failed_create}
use namespace_resizer.Controller.Events.Workloads.{
  Objects, calculate_workload_deficit, is_object_alive,
}

-- The events that the loop goes on with. `Before` is the strict order of times.
unfoldable pub is_relevant : Time → Time → Str → Event → Bool
is_relevant now since quota_name e =
    if ltb (e.last_timestamp + hour_ns) now
    then false
    else if not (is_zero since) && ltb e.last_timestamp since
    then false
    else if not (is_failed_create e)
    then false
    else contains e.message exceeded_quota && contains e.message quota_name

abbrev pub PerWorkload : Type 0
PerWorkload = Map (Map ℤ)

unfoldable pub workloads_of : Str → PerWorkload → Map ℤ
workloads_of res per = elim (lookup res per) [ none ↦ [] | some workloads ↦ workloads ]

unfoldable pub open_resource : Str → PerWorkload → PerWorkload
open_resource res per = if has res per then per else insert res [] per

-- The maximum for a workload and a resource.
unfoldable pub raise_value : Str → Str → ℤ → PerWorkload → PerWorkload
raise_value key res value per =
    if ltb_ℤ (amount_at key (workloads_of res per)) value
    then insert res (insert key value (workloads_of res per)) per
    else per

unfoldable pub record_value : Str → Str → ℤ → PerWorkload → PerWorkload
unfolding open_resource raise_value
record_value key res value per = raise_value key res value (open_resource res per)

unfoldable pub record_all : Str → Map ℤ → PerWorkload → PerWorkload
record_all key [] per = per
record_all key ((res, value) ∷ rest) per = record_all key rest (record_value key res value per)

unfoldable pub sum_values : Map ℤ → ℤ → ℤ
sum_values [] total = total
sum_values ((key, value) ∷ rest) total = sum_values rest (wrap64 (total +ℤ value))

-- The other name of a resource in the table `candidates`.
unfoldable pub alternative : Str → Option Str
alternative res =
    if res =s resource_cpu
    then some requests_cpu
    else if res =s resource_memory
    then some requests_memory
    else if res =s resource_storage
    then some requests_storage
    else if res =s requests_cpu
    then some resource_cpu
    else if res =s requests_memory
    then some resource_memory
    else if res =s requests_storage
    then some resource_storage
    else none

unfoldable pub add_total : Option Str → ℤ → Map ℤ → Map ℤ
add_total none total deficits = deficits
add_total (some quota_key) total deficits = add_to quota_key total deficits

module _ {Q : Type 0} where
  unfoldable pub if_in_quota : Quota Q → Option Str → Option Str
  if_in_quota quota none = none
  if_in_quota quota (some res) = if has res quota.status_hard then some res else none

  unfoldable pub resolve_quota_key : Quota Q → Str → Option Str
  unfolding if_in_quota
  resolve_quota_key quota res =
      if has res quota.status_hard then some res else if_in_quota quota (alternative res)

  unfoldable pub sum_deficits : Quota Q → PerWorkload → Map ℤ → Map ℤ
  sum_deficits quota [] deficits = deficits
  sum_deficits quota ((res, workloads) ∷ rest) deficits =
      sum_deficits quota rest
        (add_total (resolve_quota_key quota res) (sum_values workloads (pos 0)) deficits)

-- The reads of collectDeficits.
pub record Reads (W Q : Type 0) : Type 0 where
  pub objects : Objects W Q
  pub list_events : Str → W → Answer (List Event) × W
  pub now : W → Time × W

module _ {W Q : Type 0} ⦃rs : Resource Q⦄ (objects : Objects W Q) where
  -- The body of the loop for a relevant event whose message has been parsed.
  unfoldable pub note_parsed : Str → Event → Option (Str × Q) → PerWorkload → W → PerWorkload × W
  note_parsed namespace e none per w = (per, w)
  note_parsed namespace e (some (res, qty)) per w =
      let (alive, asked) = is_object_alive objects e.involved_object namespace w in
      let (found, after) = calculate_workload_deficit objects e res qty asked in
      if alive then (record_all found.0 found.1 per, after) else (per, asked)

  unfoldable pub note_event : Bool → Str → Event → PerWorkload → W → PerWorkload × W
  note_event false namespace e per w = (per, w)
  note_event true namespace e per w = note_parsed namespace e (parse_event_message e.message) per w

  unfoldable pub note_events :
      Time → Time → Quota Q → List Event → PerWorkload → W → PerWorkload × W
  note_events now since quota [] per w = (per, w)
  note_events now since quota (e ∷ rest) per w =
      let (noted, w') = note_event (is_relevant now since quota.name e) quota.namespace e per w in
      note_events now since quota rest noted w'

module _ {W Q : Type 0} ⦃rs : Resource Q⦄ (reads : Reads W Q) where
  unfoldable pub deficits_of : Quota Q → Time → Answer (List Event) → W → Answer (Map ℤ) × W
  deficits_of quota since (failed e) w = (failed e, w)
  deficits_of quota since (ok events) w =
      let (now, w') = reads.now w in
      let (per, after) = note_events reads.objects now since quota events [] w' in
      (ok (sum_deficits quota per []), after)

  unfoldable pub collect_deficits : Quota Q → Time → W → Answer (Map ℤ) × W
  collect_deficits quota since w =
      let (listed, w') = reads.list_events quota.namespace w in deficits_of quota since listed w'
