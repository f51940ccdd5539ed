-- ===== src/Lock/Store/Serial.antt =====
-- No write of internal/lock replaces what its writer has not read, whatever other writers do.
use namespace_resizer.Prelude.{
  Bool-cases, ℕ, ◌≡◌, refl, sym, ap, ◌∙◌, Bool, true, false, Option, none, some, arith,
  if◌then◌else◌, inl, inr, ◌⊎◌,
}
use namespace_resizer.Prelude.Int.{ℤ}
use namespace_resizer.Text.{Str}
use namespace_resizer.Text.Equality.{=s_refl}
use namespace_resizer.Clock.{Time, Calendar, IsCalendar}
use namespace_resizer.Lock.State.{
  State, Lease, zero_state, identity, state_from_lease, apply_state_to_lease,
}
use namespace_resizer.Lock.State.RoundTrip.{writable, writable_lem, rounded, state-apply}
use namespace_resizer.Controller.Effects.{pure}
use namespace_resizer.Controller.Outside.{Done, done, Mutation}
use namespace_resizer.Lock.Store.{
  Attempt, Refusal, Reply, ok, err, LeaseClient, get_lease_name, new_lease, mutated, mutate_on,
  mutate_found, try_mutate, mutate_state, ensure_lease_exists, held_by_other, already_locked,
  take_lease, as_conflict, acquire_on, acquire_free, acquire_new, try_acquire, acquire_lock,
}
use namespace_resizer.Lock.Store.Retry.{IsRetry, last_run}

-- Optimistic concurrency, as the API server documents it. `stored` is what the server holds, and
-- `arrive` the world when it takes the request that is sent in a world: others may have written.
pub record IsServer {W : Type 0} (client : LeaseClient W) (stored : Str → W → Option Lease)
    (arrive : W → W) : Type 0 where
  -- A Lease is updated only if it is still the one that was read with this version.
  pub updated_lem :
      (name : Str) (w : W) (l l' : Lease)
      → (client.get name w).0 ≡ ok l
      → l'.name ≡ l.name
      → l'.resource_version ≡ l.resource_version
      → (client.update l' (client.get name w).1).0 ≡ ok done
      → (stored name (arrive (client.get name w).1) ≡ some l)
        × ((v : ℕ) × (stored name (client.update l' (client.get name w).1).1
              ≡ some (record l' { resource_version = v })))
  -- A Lease is created only where there is none.
  pub created_lem :
      (l : Lease) (w : W)
      → (client.create l w).0 ≡ ok done
      → (stored l.name (arrive w) ≡ none)
        × ((v : ℕ) × (stored l.name (client.create l w).1
              ≡ some (record l { resource_version = v })))

-- The abstract store: the state of a quota, which is the zero State without a Lease.
abbrev pub view_of : Calendar → Option Lease → State
view_of cal none = zero_state
view_of cal (some l) = state_from_lease cal l

abbrev pub holder_of : Option Lease → Option Str
holder_of none = none
holder_of (some l) = l.holder

-- `after` is left by an update of the server, which others could not come in between: the state in it
-- is the one before under the mutation, if a Lease can hold that.
abbrev pub Mutates :
    {W : Type 0}
    → LeaseClient W
    → (Str → W → Option Lease)
    → (W → W)
    → Calendar
    → Mutation
    → Str
    → W
    → Type 0
Mutates {W} client stored arrive cal fn name after =
    (u : W) × (l : Lease) × (now : Time) × (after ≡ (client.update l u).1)
    × ((writable (fn now (view_of cal (stored name (arrive u)))) ≡ false)
        ⊎ (view_of cal (stored name after)
            ≡ rounded (fn now (view_of cal (stored name (arrive u))))))

-- `after` is left by a create or an update of the server, for a Lease that no other held until then.
abbrev pub Acquires :
    {W : Type 0} → LeaseClient W → (Str → W → Option Lease) → (W → W) → Str → Str → W → Type 0
Acquires {W} client stored arrive us name after =
    (u : W) × (l : Lease) × ((after ≡ (client.create l u).1) ⊎ (after ≡ (client.update l u).1))
    × (held_by_other us (holder_of (stored name (arrive u))) ≡ false)
    × (holder_of (stored name after) ≡ some us)

reversioned :
    (cal : Calendar) (v : ℕ) (l : Lease)
    → state_from_lease cal (record l { resource_version = v }) ≡ state_from_lease cal l
unfolding state_from_lease
reversioned cal v l = refl

ok_of_as_conflict : (r : Reply Done) → as_conflict r ≡ ok done → r ≡ ok done
unfolding as_conflict
ok_of_as_conflict (ok d) h = h
ok_of_as_conflict (err Refusal.not_found) h = cc h
ok_of_as_conflict (err Refusal.already_exists) h = cc h
ok_of_as_conflict (err Refusal.conflict) h = cc h
ok_of_as_conflict (err (Refusal.other e)) h = cc h

module _ {W : Type 0} (client : LeaseClient W) (stored : Str → W → Option Lease) (arrive : W → W)
    (cal : Calendar) (laws : IsCalendar cal) (server : IsServer client stored arrive)
    (fn : Mutation) where
  mutate_on_lem :
      (name : Str) (w : W) (reply : Reply Lease)
      → (client.get name w).0 ≡ reply
      → (mutate_on client cal fn reply (client.get name w).1).value ≡ ok done
      → Mutates client stored arrive cal fn name
          (mutate_on client cal fn reply (client.get name w).1).world
  unfolding mutate_on mutated apply_state_to_lease
  mutate_on_lem name w (err e) g h = cc h
  mutate_on_lem name w (ok l) g h =
      let v = (client.get name w).1 in
      let now = client.now v in
      let sent = mutated cal fn now l in
      let put = server.updated_lem name w l sent g refl refl h in
      (
        v,
        sent,
        now,
        refl,
        elim (Bool-cases (writable (fn now (state_from_lease cal l)))) [
          | inr outside ↦ inl (ap (λ o. writable (fn now (view_of cal o))) put.0 ∙ outside)
          | inl fits ↦ inr (
              ap (view_of cal) put.1.1
              ∙ reversioned cal put.1.0 sent
              ∙ state-apply cal laws (fn now (state_from_lease cal l)) l
                  (writable_lem (fn now (state_from_lease cal l)) fits)
              ∙ ap (λ o. rounded (fn now (view_of cal o))) (sym put.0))
        ],
      )

  try_mutate_lem :
      (name : Str) (w : W)
      → (try_mutate client cal name fn w).value ≡ ok done
      → Mutates client stored arrive cal fn name (try_mutate client cal name fn w).world
  unfolding try_mutate
  try_mutate_lem name w h = mutate_on_lem name w (client.get name w).0 refl h

  mutate_found_lem :
      (retry : Attempt W → Attempt W) (law : IsRetry retry) (name : Str) (reply : Reply Done)
      (w : W)
      → (mutate_found client cal retry name fn reply w).value ≡ ok done
      → Mutates client stored arrive cal fn name
          (mutate_found client cal retry name fn reply w).world
  unfolding mutate_found
  mutate_found_lem retry law name (err e) w h = cc h
  mutate_found_lem retry law name (ok d) w h =
      let ended = last_run (law (try_mutate client cal name fn) w) in
      rw ended.2 (try_mutate_lem name ended.0 (sym ended.1 ∙ h))

  -- With a server that updates a Lease only at the version that was read, with a retry of conflicts
  -- as client-go documents it: when MutateState returns no error, its last call was an update, and the
  -- state that the server then holds is the state that it held just before, under the function, with
  -- the times cut to whole seconds, unless the function makes a state that a Lease cannot hold: with a
  -- number outside int64, or a time after the year 9999. So no write of another in between is lost, whatever the others do.
  pub mutate_state_lem :
      (retry : Attempt W → Attempt W) (law : IsRetry retry) (ns quota : Str) (w : W)
      → (mutate_state client cal retry ns quota fn w).value ≡ ok done
      → Mutates client stored arrive cal fn
          (get_lease_name ns quota)
          (mutate_state client cal retry ns quota fn w).world
  unfolding mutate_state
  mutate_state_lem retry law ns quota w h =
      let ensured = ensure_lease_exists client ns quota w in
      mutate_found_lem retry law (get_lease_name ns quota) ensured.value ensured.world h

not_other : (us : Str) → held_by_other us (some us) ≡ false
unfolding held_by_other
not_other us = ground (arith, =s_refl us)

module _ {W : Type 0} (client : LeaseClient W) (stored : Str → W → Option Lease) (arrive : W → W)
    (server : IsServer client stored arrive) where
  acquire_new_lem :
      (us : Str) (fresh : Lease) (w : W)
      → (acquire_new client us fresh w).value ≡ ok done
      → Acquires client stored arrive us fresh.name (acquire_new client us fresh w).world
  unfolding acquire_new take_lease held_by_other
  acquire_new_lem us fresh w h =
      let sent = take_lease us (client.now w) fresh in
      let put = server.created_lem sent w (ok_of_as_conflict (client.create sent w).0 h) in
      (w, sent, inl refl, ap (λ o. held_by_other us (holder_of o)) put.0, ap holder_of put.1.1)

  acquire_free_lem :
      (us name : Str) (w : W) (l : Lease)
      → (client.get name w).0 ≡ ok l
      → held_by_other us l.holder ≡ false
      → (acquire_free client us l (client.get name w).1).value ≡ ok done
      → Acquires client stored arrive us name (acquire_free client us l (client.get name w).1).world
  unfolding acquire_free take_lease
  acquire_free_lem us name w l g free h =
      let v = (client.get name w).1 in
      let sent = take_lease us (client.now v) l in
      let put = server.updated_lem name w l sent g refl refl h in
      (
        v,
        sent,
        inr refl,
        ap (λ o. held_by_other us (holder_of o)) put.0 ∙ free,
        ap holder_of put.1.1,
      )

  acquire_if_lem :
      (us name : Str) (w : W) (l : Lease)
      → (client.get name w).0 ≡ ok l
      → (b : Bool) → held_by_other us l.holder ≡ b
      → let taken = if b then pure (err (already_locked l.holder)) else acquire_free client us l in
        (taken (client.get name w).1).value ≡ ok done
        → Acquires client stored arrive us name (taken (client.get name w).1).world
  acquire_if_lem us name w l g true held h = cc h
  acquire_if_lem us name w l g false free h = acquire_free_lem us name w l g free h

  acquire_on_lem :
      (us : Str) (fresh : Lease) (w : W) (reply : Reply Lease)
      → (client.get fresh.name w).0 ≡ reply
      → (acquire_on client us fresh reply (client.get fresh.name w).1).value ≡ ok done
      → Acquires client stored arrive us fresh.name
          (acquire_on client us fresh reply (client.get fresh.name w).1).world
  unfolding acquire_on
  acquire_on_lem us fresh w (err Refusal.not_found) g h = acquire_new_lem us fresh _ h
  acquire_on_lem us fresh w (err Refusal.already_exists) g h = cc h
  acquire_on_lem us fresh w (err Refusal.conflict) g h = cc h
  acquire_on_lem us fresh w (err (Refusal.other e)) g h = cc h
  acquire_on_lem us fresh w (ok l) g h =
      acquire_if_lem us fresh.name w l g (held_by_other us l.holder) refl h

  -- With a server that creates a Lease only where there is none and updates one only at the version
  -- that was read, and a retry of conflicts as client-go documents it: when AcquireLock returns no
  -- error, the server has created or updated the Lease with its last call, no other pull request held
  -- the Lease just before, and this pull request holds it afterwards, whatever the others do.
  pub acquire_lock_lem :
      (retry : Attempt W → Attempt W) (law : IsRetry retry) (ns quota : Str) (pr_id : ℤ) (w : W)
      → (acquire_lock client retry ns quota pr_id w).value ≡ ok done
      → Acquires client stored arrive
          (identity pr_id)
          (get_lease_name ns quota)
          (acquire_lock client retry ns quota pr_id w).world
  unfolding acquire_lock try_acquire new_lease
  acquire_lock_lem retry law ns quota pr_id w h =
      let us = identity pr_id in
      let fresh = new_lease ns quota in
      let ended = last_run (law (try_acquire client us fresh) w) in
      rw ended.2
        (acquire_on_lem us fresh ended.0 (client.get fresh.name ended.0).0 refl (sym ended.1 ∙ h))
