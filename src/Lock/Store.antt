-- ===== src/Lock/Store.antt =====
-- GetState and MutateState of internal/lock/state.go, AcquireLock and ensureLeaseExists of
-- internal/lock/lease.go: the Leases behind a client of the API server.
pub mod Retry
pub mod Serial
pub mod Refused
mod Examples
use namespace_resizer.Prelude.{
  ℕ, Bool, true, false, not, Option, none, some, List, [], ◌∷◌, ◌++◌, if◌then◌else◌,
}
use namespace_resizer.Prelude.Int.{ℤ}
use namespace_resizer.Text.{Str, codes, ◌=s◌}
use namespace_resizer.GoMap.{Map, insert}
use namespace_resizer.Clock.{Time, Calendar}
use namespace_resizer.Lock.State.{
  State, Lease, zero_state, identity, state_from_lease, apply_state_to_lease,
}
use namespace_resizer.Lock.Collector.{label_target_ns}
use namespace_resizer.Controller.Effects.{Action, pure, perform, observe, ◌>>=◌}
use namespace_resizer.Controller.Outside.{Done, done, Mutation}

-- What IsNotFound, IsAlreadyExists and IsConflict tell apart.
pub data Refusal : Type 0 where
  not_found already_exists conflict : Refusal
  other : Str → Refusal

pub data Reply (A : Type 0) : Type 0 where
  ok : A → Reply A
  err : Refusal → Reply A

-- The client, for the Leases of the controller's namespace by their name, and the clock.
pub record LeaseClient (W : Type 0) : Type 0 where
  pub get : Str → W → Reply Lease × W
  pub create : Lease → W → Reply Done × W
  pub update : Lease → W → Reply Done × W
  pub now : W → Time

pub data Write : Type 0 where
  created updated : Lease → Write

abbrev pub label_managed_by : Str
label_managed_by = codes "app.kubernetes.io/managed-by"

abbrev pub label_quota : Str
label_quota = codes "resizer.io/quota"

abbrev pub managed_by_value : Str
managed_by_value = codes "namespace-resizer"

unfoldable pub managed_lease_labels : Str → Str → Map Str
managed_lease_labels target_ns quota_name =
    insert label_target_ns target_ns
      (insert label_quota quota_name (insert label_managed_by managed_by_value []))

unfoldable pub get_lease_name : Str → Str → Str
get_lease_name target_ns quota_name = codes "state-" ++ target_ns ++ codes "-" ++ quota_name

-- The Lease that the code creates; the server gives it its version.
unfoldable pub new_lease : Str → Str → Lease
new_lease target_ns quota_name = record {
  name = get_lease_name target_ns quota_name;
  labels = managed_lease_labels target_ns quota_name;
  annotations = [];
  holder = none;
  acquire_time = none;
  resource_version = 0;
}

abbrev pub Attempt : Type 0 → Type 0
Attempt W = Action W Write (Reply Done)

-- On the answer of Create.
unfoldable pub after_create : Reply Done → Reply Done
after_create (ok d) = ok done
after_create (err Refusal.already_exists) = ok done
after_create (err e) = err e

module _ {W : Type 0} (client : LeaseClient W) where
  unfoldable pub ensure_on : Lease → Reply Lease → Attempt W
  unfolding after_create
  ensure_on fresh (ok l) = pure (ok done)
  ensure_on fresh (err Refusal.not_found) =
      perform (created fresh) (client.create fresh) >>= λ r. pure (after_create r)
  ensure_on fresh (err e) = pure (err e)

  unfoldable pub ensure_lease_exists : Str → Str → Attempt W
  ensure_lease_exists target_ns quota_name =
      observe (client.get (get_lease_name target_ns quota_name))
      >>= ensure_on (new_lease target_ns quota_name)

module _ (cal : Calendar) where
  unfoldable pub state_of_reply : Reply Lease → Reply State
  state_of_reply (ok l) = ok (state_from_lease cal l)
  state_of_reply (err Refusal.not_found) = ok zero_state
  state_of_reply (err e) = err e

  -- The Lease that MutateState sends.
  unfoldable pub mutated : Mutation → Time → Lease → Lease
  mutated fn now l = apply_state_to_lease cal (fn now (state_from_lease cal l)) l

module _ {W : Type 0} (client : LeaseClient W) (cal : Calendar) where
  unfoldable pub get_state : Str → Str → Action W Write (Reply State)
  get_state target_ns quota_name =
      observe (client.get (get_lease_name target_ns quota_name)) >>= λ r.
      pure (state_of_reply cal r)

  unfoldable pub mutate_on : Mutation → Reply Lease → Attempt W
  mutate_on fn (err e) = pure (err e)
  mutate_on fn (ok l) = observe (λ w. (client.now w, w)) >>= λ now.
      perform (updated (mutated cal fn now l)) (client.update (mutated cal fn now l))

  -- The function that MutateState retries.
  unfoldable pub try_mutate : Str → Mutation → Attempt W
  try_mutate lease_name fn = observe (client.get lease_name) >>= mutate_on fn

  unfoldable pub mutate_found : (Attempt W → Attempt W) → Str → Mutation → Reply Done → Attempt W
  mutate_found retry_on_conflict lease_name fn (err e) = pure (err e)
  mutate_found retry_on_conflict lease_name fn (ok d) = retry_on_conflict (try_mutate lease_name fn)

  -- `retry_on_conflict` is retry.RetryOnConflict with DefaultRetry.
  unfoldable pub mutate_state : (Attempt W → Attempt W) → Str → Str → Mutation → Attempt W
  mutate_state retry_on_conflict target_ns quota_name fn =
      ensure_lease_exists client target_ns quota_name
      >>= mutate_found retry_on_conflict (get_lease_name target_ns quota_name) fn

-- A Lease that is held by another.
unfoldable pub held_by_other : Str → Option Str → Bool
held_by_other us none = false
held_by_other us (some holder) = not (holder =s us)

unfoldable pub already_locked : Option Str → Refusal
already_locked none = other []
already_locked (some holder) = other (codes "lease is already locked by " ++ holder)

unfoldable pub take_lease : Str → Time → Lease → Lease
take_lease us now l = record l { holder = some us; acquire_time = some now }

-- A create that another writer was faster with is retried.
unfoldable pub as_conflict : Reply Done → Reply Done
as_conflict (ok d) = ok d
as_conflict (err Refusal.already_exists) = err Refusal.conflict
as_conflict (err e) = err e

module _ {W : Type 0} (client : LeaseClient W) where
  unfoldable pub acquire_free : Str → Lease → Attempt W
  acquire_free us l = observe (λ w. (client.now w, w)) >>= λ now.
      perform (updated (take_lease us now l)) (client.update (take_lease us now l))

  unfoldable pub acquire_new : Str → Lease → Attempt W
  acquire_new us fresh = observe (λ w. (client.now w, w)) >>= λ now.
      perform (created (take_lease us now fresh)) (client.create (take_lease us now fresh)) >>= λ r.
      pure (as_conflict r)

  unfoldable pub acquire_on : Str → Lease → Reply Lease → Attempt W
  acquire_on us fresh (ok l) =
      if held_by_other us l.holder then pure (err (already_locked l.holder)) else acquire_free us l
  acquire_on us fresh (err Refusal.not_found) = acquire_new us fresh
  acquire_on us fresh (err e) = pure (err e)

  -- The function that AcquireLock retries.
  unfoldable pub try_acquire : Str → Lease → Attempt W
  try_acquire us fresh = observe (client.get fresh.name) >>= acquire_on us fresh

  unfoldable pub acquire_lock : (Attempt W → Attempt W) → Str → Str → ℤ → Attempt W
  acquire_lock retry_on_conflict target_ns quota_name pr_id =
      retry_on_conflict (try_acquire (identity pr_id) (new_lease target_ns quota_name))
