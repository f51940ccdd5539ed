-- ===== src/Lock/Store/Examples.antt =====
-- The theorems on the store at a server with one slot, which another writer updates once.
use namespace_resizer.Prelude.{
  ℕ, zero, suc, ◌+◌, ◌≡◌, Bool-cases, inl, inr, refl, ◌++◌, Bool, true, false, Option, none, some,
  [], arith, ◌==◌, if◌then◌else◌,
}
use namespace_resizer.Prelude.Int.{pos}
use namespace_resizer.Text.{Str, codes, ◌=s◌}
use namespace_resizer.Text.Decimal.{decimal_ℤ, decimal}
use namespace_resizer.Clock.{Time, day_ns}
use namespace_resizer.Clock.Unary.{unary, unary-IsCalendar}
use namespace_resizer.Lock.State.{State, Lease, identity, apply_state_to_lease}
use namespace_resizer.Controller.Effects.{Ran}
use namespace_resizer.Controller.Outside.{Done, done}
use namespace_resizer.Lock.Store.{
  Attempt, Write, Refusal, Reply, ok, err, LeaseClient, get_lease_name, new_lease, mutate_state,
  ensure_lease_exists, ensure_on, mutate_found, try_mutate, mutate_on, mutated, after_create,
  acquire_lock, try_acquire, acquire_on, acquire_new, as_conflict,
}
use namespace_resizer.Lock.Store.Retry.{Tried, last, again, IsRetry}
use namespace_resizer.Lock.Store.Serial.{
  IsServer, Mutates, Acquires, mutate_state_lem, acquire_lock_lem,
}
use namespace_resizer.Lock.Store.Refused.{locked_lem}

-- The Lease that the server holds, and how many requests it has taken.
record Server : Type 0 where
  slot : Option Lease
  taken : ℕ

touch : Bool → Option Lease → Option Lease
touch true (some l) = some (record l { resource_version = l.resource_version + 1 })
touch true none = none
touch false o = o

-- Before the fourth request another writer touches the Lease.
abbrev arrive : Server → Server
unfolding touch
arrive s = record s { slot = touch (s.taken == 3) s.slot }

-- There is one Lease, whatever name is asked for.
abbrev stored : Str → Server → Option Lease
stored name s = s.slot

found : Option Lease → Reply Lease
found none = err Refusal.not_found
found (some l) = ok l

put : Lease → Option Lease → Server → Reply Done × Server
put l none s = (err Refusal.not_found, record s { taken = s.taken + 1 })
put l (some current) s =
    if current.resource_version == l.resource_version
    then (
      ok done,
      record {
        slot = some (record l { resource_version = l.resource_version + 1 });
        taken = s.taken + 1;
      },
    )
    else (err Refusal.conflict, record s { taken = s.taken + 1 })

make : Lease → Option Lease → Server → Reply Done × Server
make l (some current) s = (err Refusal.already_exists, record s { taken = s.taken + 1 })
make l none s =
    (ok done, record { slot = some (record l { resource_version = 1 }); taken = s.taken + 1 })

client : LeaseClient Server
client = record {
  get = λ name s. (found (arrive s).slot, record (arrive s) { taken = s.taken + 1 });
  create = λ l s. make l (arrive s).slot (arrive s);
  update = λ l s. put l (arrive s).slot (arrive s);
  now = λ s. day_ns;
}

put_lem :
    (l' current : Lease) (s : Server)
    → (put l' (some current) s).0 ≡ ok done
    → (current.resource_version ≡ l'.resource_version)
      × ((put l' (some current) s).1.slot
          ≡ some (record l' { resource_version = l'.resource_version + 1 }))
unfolding put
put_lem l' current s h = elim (Bool-cases (current.resource_version == l'.resource_version)) [
  | inl same ↦ (ground (arith, same), rw same refl)
  | inr moved ↦ ground (arith, moved, h)
]

-- The Lease is the one that was read, if it was not touched.
update_lem :
    (touched : Bool) (slot : Option Lease) (s : Server) (l l' : Lease)
    → found slot ≡ ok l
    → l'.resource_version ≡ l.resource_version
    → (put l' (touch touched slot) s).0 ≡ ok done
    → (touch touched slot ≡ some l)
      × ((v : ℕ) × ((put l' (touch touched slot) s).1.slot
            ≡ some (record l' { resource_version = v })))
unfolding found touch put
update_lem touched none s l l' g v h = cc g
update_lem true (some current) s l l' g v h =
    ground
      (arith, put_lem l' (record current { resource_version = current.resource_version + 1 }) s h)
update_lem false (some current) s l l' g v h =
    (ground arith, (l'.resource_version + 1, (put_lem l' current s h).1))

make_lem :
    (l : Lease) (slot : Option Lease) (s : Server)
    → (make l slot s).0 ≡ ok done
    → (slot ≡ none)
      × ((v : ℕ) × ((make l slot s).1.slot ≡ some (record l { resource_version = v })))
unfolding make
make_lem l none s h = (refl, (1, refl))
make_lem l (some current) s h = cc h

client-IsServer : IsServer client stored arrive
unfolding client touch
client-IsServer = record {
  updated_lem = λ name w l l' g n v h.
      let read = arrive w in
      let next = record read { taken = read.taken + 1 } in
      update_lem (next.taken == 3) read.slot (arrive next) l l' g v h;
  created_lem = λ l w h. make_lem l (arrive w).slot (arrive w) h;
}

-- Up to five runs.
is_conflict : Reply Done → Bool
is_conflict (err Refusal.conflict) = true
is_conflict _ = false

retry_upto : ℕ → Attempt Server → Attempt Server
retry_upto zero body w = body w
retry_upto (suc n) body w =
    let first = body w in
    let rest = retry_upto n body first.world in
    if is_conflict first.value then record rest { calls = first.calls ++ rest.calls } else first

conflict_of : (r : Reply Done) → is_conflict r ≡ true → r ≡ err Refusal.conflict
unfolding is_conflict
conflict_of (ok d) h = cc h
conflict_of (err Refusal.not_found) h = cc h
conflict_of (err Refusal.already_exists) h = cc h
conflict_of (err Refusal.conflict) h = refl
conflict_of (err (Refusal.other e)) h = cc h

retry_upto_lem : (n : ℕ) (body : Attempt Server) (w : Server) → Tried body w (retry_upto n body w)
unfolding retry_upto
retry_upto_lem zero body w = last refl
retry_upto_lem (suc n) body w = elim (Bool-cases (is_conflict (body w).value)) [
  | inl c ↦
      again (body w).world (retry_upto n body (body w).world) (conflict_of (body w).value c)
        (retry_upto_lem n body (body w).world) (rw c refl)
  | inr other_answer ↦ last (rw other_answer refl)
]

retry : Attempt Server → Attempt Server
retry = retry_upto 4

retry-IsRetry : IsRetry retry
unfolding retry
retry-IsRetry = retry_upto_lem 4

abbrev ns : Str
ns = codes "team"

abbrev quota : Str
quota = codes "compute"

abbrev empty_server : Server
empty_server = record { slot = none; taken = 0 }

abbrev release : Time → State → State
release t s = record s { pr_id = pos 0; last_modified = t }

abbrev mutate_ends : Ran Server Write (Reply Done)
mutate_ends = mutate_state client unary retry ns quota release empty_server

-- Get and Create, then Get and an Update that the other writer comes before, then both again.
mutate_runs : (mutate_ends.world.taken ≡ 6) × (mutate_ends.value ≡ ok done)
unfolding mutate_state ensure_lease_exists ensure_on client found touch make mutate_found retry
    retry_upto try_mutate mutate_on put mutated new_lease is_conflict after_create get_lease_name
    apply_state_to_lease
mutate_runs = (refl, refl)

mutate_state_lem_example :
    Mutates client stored arrive unary release
      (get_lease_name ns quota)
      (mutate_state client unary retry ns quota release empty_server).world
mutate_state_lem_example =
    mutate_state_lem client stored arrive unary unary-IsCalendar client-IsServer release retry
      retry-IsRetry ns quota empty_server mutate_runs.1

abbrev one : Ran Server Write (Reply Done)
one = acquire_lock client retry ns quota (pos 1) empty_server

acquire_runs : one.value ≡ ok done
unfolding acquire_lock try_acquire acquire_on acquire_new as_conflict client found touch make
    new_lease retry retry_upto is_conflict get_lease_name
acquire_runs = refl

acquire_lock_lem_example :
    Acquires client stored arrive
      (identity (pos 1))
      (get_lease_name ns quota)
      (acquire_lock client retry ns quota (pos 1) empty_server).world
acquire_lock_lem_example =
    acquire_lock_lem client stored arrive client-IsServer retry retry-IsRetry ns quota (pos 1)
      empty_server acquire_runs

abbrev held_lease : Lease
held_lease = record (new_lease ns quota) { holder = some (codes "pr-1"); resource_version = 7 }

abbrev held_server : Server
held_server = record { slot = some held_lease; taken = 9 }

held_found : (client.get (get_lease_name ns quota) held_server).0 ≡ ok held_lease
unfolding client found touch
held_found = refl

differs : (codes "pr-1" =s identity (pos 2)) ≡ false
unfolding identity ◌=s◌ decimal_ℤ decimal
differs = refl

locked_lem_example :
    ((acquire_lock client retry ns quota (pos 2) held_server).value
      ≡ err (Refusal.other (codes "lease is already locked by " ++ codes "pr-1")))
    × ((acquire_lock client retry ns quota (pos 2) held_server).calls ≡ [])
locked_lem_example =
    locked_lem client retry retry-IsRetry ns quota (pos 2) held_server held_lease (codes "pr-1")
      held_found refl differs
