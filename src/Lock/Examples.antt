-- ===== src/Lock/Examples.antt =====
-- The theorems on internal/lock at a concrete state, Lease and cluster.
use namespace_resizer.Prelude.{ℕ, suc, if◌then◌else◌, ◌≡◌, refl, none, [], ◌∷◌, arith}
use namespace_resizer.Prelude.Int.{pos}
use namespace_resizer.Text.{Str, codes, ◌=s◌}
use namespace_resizer.Clock.Unary.{unary, unary-IsCalendar}
use namespace_resizer.GoMap.{lookup}
use namespace_resizer.Lock.State.{State, Lease, state_from_lease, apply_state_to_lease}
use namespace_resizer.Controller.Outside.{ok, failed, other, done}
use namespace_resizer.Lock.Collector.{
  label_target_ns, Presence, Cluster, cleanup, orphans, cleanup_lem,
}
use namespace_resizer.Lock.State.RoundTrip.{IsWritable, rounded, state-apply, apply-foreign}

abbrev held : State
held = record {
  pr_id = pos 42;
  pr_direction = codes "shrink";
  last_modified = 0;
  last_grow = 3_500_000_000;
  last_shrink = 7_000_000_000;
  window = codes "{}";
}

abbrev lease : Lease
lease = record {
  name = codes "state-team-quota";
  labels = [];
  annotations = (codes "owner", codes "team") ∷ [];
  holder = none;
  acquire_time = none;
  resource_version = 3;
}

held-IsWritable : IsWritable held
held-IsWritable = record {
  id = ground arith;
  modified = omega arith;
  grow = omega arith;
  shrink = omega arith;
}

state-apply_example : state_from_lease unary (apply_state_to_lease unary held lease) ≡ rounded held
state-apply_example = state-apply unary unary-IsCalendar held lease held-IsWritable

apply-foreign_example :
    let written = apply_state_to_lease unary held lease in
    (lookup (codes "owner") written.annotations ≡ lookup (codes "owner") lease.annotations)
    × (written.labels ≡ lease.labels)
    × (written.name ≡ lease.name)
unfolding ◌=s◌
apply-foreign_example = apply-foreign unary (codes "owner") held lease refl refl refl refl refl

-- Two leases, of a team that is there and of one that is gone.
abbrev lease_of : Str → Lease
lease_of ns = record lease { labels = (label_target_ns, ns) ∷ [] }

abbrev only_team : Str → Presence
only_team ns = if ns =s codes "team" then Presence.present else Presence.missing

abbrev cluster : Cluster ℕ
cluster = record {
  list_leases = λ w. (ok (lease_of (codes "team") ∷ lease_of (codes "gone") ∷ []), suc w);
  get_namespace = λ ns w. (only_team ns, suc w);
  delete_lease = λ l w. (failed (other (codes "down")), suc w);
}

cleanup_lem_example :
    ((cleanup cluster 0).calls
      ≡ orphans only_team (lease_of (codes "team") ∷ lease_of (codes "gone") ∷ []))
    × ((cleanup cluster 0).value ≡ ok done)
cleanup_lem_example =
    cleanup_lem cluster only_team (λ ns w. refl)
      (lease_of (codes "team") ∷ lease_of (codes "gone") ∷ []) 0 refl
