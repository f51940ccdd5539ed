-- ===== src/Controller/Deficits/Examples.antt =====
-- collectDeficits and mapEventToQuota at concrete events.
use namespace_resizer.Prelude.{ℕ, suc, ◌*◌, ◌+◌, ◌≡◌, refl, true, arith, none, some, [], ◌∷◌}
use namespace_resizer.Prelude.Int.{ℤ, pos, wrap32, wrap64, ◌*ℤ◌, ◌+ℤ◌, ◌-ℤ◌}
use namespace_resizer.Text.{
  Str, codes, ◌=s◌, contains, index, split_text, take, has_prefix, split, trim_prefix, last_index,
  split_first,
}
use namespace_resizer.GoMap.{Map, lookup, has, insert}
use namespace_resizer.Text.Space.{trim_space, is_space}
use namespace_resizer.Text.Decimal.{read_digits}
use namespace_resizer.Quantity.Exact.{Amount, amount, amount_resource}
use namespace_resizer.Clock.{Time, day_ns}
use namespace_resizer.Sizing.Deficit.{
  parse_event_message, parse_parts, parse_part, add_claim, add_claims, add_containers,
  add_resources, add_to, amount_at, claim_key, init_requests, parse_pair, pod_requests,
  pvc_requests, quota_key, raise_by_inits, raise_to, set_resources, workload_key,
}
use namespace_resizer.Controller.Outside.{ok, Quota}
use namespace_resizer.Controller.Events.{
  Event, ObjectReference, is_failed_create, quota_of_parts, map_event_to_quota, request_of_event,
  request_for,
}
use namespace_resizer.Controller.Events.Workloads.{
  Objects, Workload, workload_deficits, with_claims, without_claims, is_object_alive, add_all,
  apply_smart_calculation, by_replicas, calculate_workload_deficit, if_missing, times,
  whole_request,
}
use namespace_resizer.Controller.Deficits.{
  Reads, is_relevant, deficits_of, resolve_quota_key, alternative, sum_deficits, note_events,
  note_event, note_parsed, record_all, add_total, if_in_quota, open_resource, raise_value,
  record_value, sum_values, workloads_of,
}
use namespace_resizer.Controller.Deficits.Retries.{retries_lem}

abbrev web : Workload Amount
web = record {
  desired = some (pos 3);
  current = pos 1;
  template = record {
    containers = record { requests = (codes "cpu", amount 500) ∷ []; limits = [] } ∷ [];
    init_containers = [];
  };
  claim_templates = [];
}

abbrev objects : Objects ℕ Amount
objects = record {
  group_version_parses = λ v. true;
  get_object = λ ref ns w. (true, suc w);
  get_stateful_set = λ ns name w. (some web, suc w);
  get_daemon_set = λ ns name w. (none, suc w);
  get_replica_set = λ ns name w. (none, suc w);
}

abbrev reads : Reads ℕ Amount
reads = record {
  objects = objects;
  list_events = λ ns w. (ok [], suc w);
  now = λ w. (10 * day_ns + w, suc w);
}

abbrev failed_create : Time → Str → Event
failed_create t name = record {
  namespace = codes "team";
  last_timestamp = t;
  event_type = codes "Warning";
  reason = codes "FailedCreate";
  message = codes "exceeded quota: compute, requested: cpu=1, used: cpu=9, limited: cpu=9";
  involved_object = record {
    kind = codes "StatefulSet";
    namespace = codes "team";
    name = name;
    api_version = codes "apps/v1";
  };
}

abbrev quota : Quota Amount
quota = record {
  namespace = codes "team";
  name = codes "compute";
  spec_hard = (codes "requests.cpu", amount 9000) ∷ [];
  status_hard = (codes "requests.cpu", amount 9000) ∷ [];
}

asked : ObjectReference → Map ℤ → Map ℤ
asked ref d = (workload_deficits objects ref d 0).0

asked_steady :
    (ref : ObjectReference) (d : Map ℤ) (w : ℕ)
    → (workload_deficits objects ref d w).0 ≡ asked ref d
unfolding asked workload_deficits
asked_steady ref d w = ground arith

abbrev first : Event
first = failed_create (10 * day_ns) (codes "web")

abbrev second : Event
second = failed_create (10 * day_ns + 1) (codes "db")

counts : is_relevant (10 * day_ns) 0 quota.name first ≡ true
unfolding is_relevant is_failed_create contains ◌=s◌
counts = refl

retries_lem_example :
    (deficits_of reads quota 0
      (ok (second ∷ first ∷ second ∷ record first { last_timestamp = 10 * day_ns + 9 } ∷ []))
      0).0
    ≡ (deficits_of reads quota 0 (ok (second ∷ first ∷ second ∷ [])) 0).0
unfolding is_object_alive
retries_lem_example =
    retries_lem reads (λ ref ns. true) asked (λ ref ns w. refl) asked_steady quota 0 (second ∷ [])
      (second ∷ []) first (10 * day_ns + 9) 0 counts

-- Two replicas are missing, each of half a CPU, for each of two workloads.
deficits_run :
    (deficits_of reads quota 0 (ok (second ∷ first ∷ second ∷ [])) 0).0
    ≡ ok ((codes "requests.cpu", pos 2000) ∷ [])
unfolding deficits_of is_relevant is_failed_create ◌=s◌ contains is_object_alive alternative
    resolve_quota_key with_claims without_claims workload_deficits has lookup has_prefix index take
    sum_deficits note_events note_event note_parsed record_all add_total if_in_quota open_resource
    raise_value record_value sum_values workloads_of parse_event_message parse_parts parse_part
    add_claim add_claims add_containers add_resources add_to amount_at claim_key init_requests
    parse_pair pod_requests pvc_requests quota_key raise_by_inits raise_to set_resources
    workload_key trim_space is_space split trim_prefix last_index split_first add_all
    apply_smart_calculation by_replicas calculate_workload_deficit if_missing times whole_request
    insert wrap32 wrap64 ◌*ℤ◌ ◌+ℤ◌ ◌-ℤ◌ read_digits
deficits_run = refl

event_runs :
    map_event_to_quota (some first)
    ≡ record { namespace = codes "team"; name = codes "compute" } ∷ []
unfolding map_event_to_quota request_of_event quota_of_parts request_for split_text index contains
    is_failed_create ◌=s◌ take has_prefix
event_runs = refl
