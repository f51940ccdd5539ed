-- ===== src/Sizing/Deficit/Examples.antt =====
-- internal/sizing/deficit.go at concrete pods and messages.
use namespace_resizer.Prelude.{◌≡◌, refl, some, [], ◌∷◌}
use namespace_resizer.Prelude.Int.{wrap64}
use namespace_resizer.Text.{codes, has_prefix, trim_prefix, split, last_index, take}
use namespace_resizer.Text.Space.{is_space, trim_space}
use namespace_resizer.Text.Decimal.{read_digits}
use namespace_resizer.Quantity.Exact.{Amount, amount, amount_resource}
use namespace_resizer.Sizing.Names.{requests_cpu}
use namespace_resizer.Sizing.Deficit.{
  PodSpec, amount_at, pod_requests, parse_event_message, parse_parts, parse_part, workload_key,
}
use namespace_resizer.Sizing.Deficit.Sums.{total, at_least_inits}
use namespace_resizer.Sizing.Deficit.Effective.{pod_requests_lem}

-- Two app containers, and an init container that asks for more than both.
abbrev spec : PodSpec Amount
spec = record {
  containers =
      record { requests = (codes "cpu", amount 500) ∷ []; limits = (codes "cpu", amount 800) ∷ [] }
      ∷ record { requests = (codes "requests.cpu", amount 100) ∷ []; limits = [] }
      ∷ [];
  init_containers = record { requests = (codes "cpu", amount 900) ∷ []; limits = [] } ∷ [];
}

pod_requests_lem_example :
    amount_at requests_cpu (pod_requests spec)
    ≡ at_least_inits requests_cpu spec.init_containers (wrap64 (total requests_cpu spec.containers))
pod_requests_lem_example = pod_requests_lem spec requests_cpu

message_runs :
    parse_event_message (codes "exceeded quota: q, requested: cpu=1, used: cpu=9, limited: cpu=9")
    ≡ some (codes "cpu", amount 1000)
unfolding parse_event_message parse_parts parse_part split has_prefix trim_prefix trim_space
    is_space read_digits
message_runs = refl

workload_runs : workload_key (codes "app-6b47-xfg2z") ≡ codes "app-6b47"
unfolding workload_key last_index take
workload_runs = refl

-- Two StatefulSets of which each has its own shortage, and one key.
workloads_collide : workload_key (codes "my-app") ≡ workload_key (codes "my-db")
unfolding workload_key last_index take
workloads_collide = refl
