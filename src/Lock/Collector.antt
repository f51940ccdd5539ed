-- ===== src/Lock/Collector.antt =====
-- cleanup of the lease garbage collector: internal/lock/gc.go.
use namespace_resizer.Prelude.{
  ◌≡◌, refl, ap, ◌∙◌, Bool, true, false, List, [], ◌∷◌, ◌++◌, if◌then◌else◌, Bool-cases, inl, inr,
  append-nil,
}
use namespace_resizer.Text.{Str, codes, ◌=s◌}
use namespace_resizer.Lock.State.{Lease, read}
use namespace_resizer.Controller.Effects.{Action, pure, perform, observe, ◌>>=◌, ◌>>◌}
use namespace_resizer.Controller.Outside.{Answer, ok, failed, Done, done}

abbrev pub label_target_ns : Str
label_target_ns = codes "resizer.io/target-ns"

-- What Get answers for a namespace: it is there, IsNotFound, or another error.
pub data Presence : Type 0 where
  present missing unknown : Presence

-- The calls of the client. List is asked for the managed leases of the controller's namespace.
pub record Cluster (W : Type 0) : Type 0 where
  pub list_leases : W → Answer (List Lease) × W
  pub get_namespace : Str → W → Presence × W
  pub delete_lease : Lease → W → Answer Done × W

module _ {W : Type 0} (cluster : Cluster W) where
  -- On the answer for the namespace; an error of Delete is logged only.
  unfoldable pub collect_on : Lease → Presence → Action W Lease Done
  collect_on lease Presence.missing = perform lease (cluster.delete_lease lease) >> pure done
  collect_on lease Presence.present = pure done
  collect_on lease Presence.unknown = pure done

  -- The body of the loop.
  unfoldable pub collect_lease : Lease → Action W Lease Done
  collect_lease lease =
      if read label_target_ns lease.labels =s []
      then pure done
      else (observe (cluster.get_namespace (read label_target_ns lease.labels))
          >>= collect_on lease)

  unfoldable pub collect_all : List Lease → Action W Lease Done
  collect_all [] = pure done
  collect_all (lease ∷ rest) = collect_lease lease >> collect_all rest

  unfoldable pub cleanup_listed : Answer (List Lease) → Action W Lease (Answer Done)
  cleanup_listed (failed e) = pure (failed e)
  cleanup_listed (ok leases) = collect_all leases >> pure (ok done)

  unfoldable pub cleanup : Action W Lease (Answer Done)
  cleanup = observe cluster.list_leases >>= cleanup_listed

is_missing : Presence → Bool
is_missing Presence.missing = true
is_missing _ = false

-- A managed lease whose namespace is gone.
pub orphans : (Str → Presence) → List Lease → List Lease
orphans presence [] = []
orphans presence (lease ∷ rest) =
    let later = orphans presence rest in
    if read label_target_ns lease.labels =s []
    then later
    else if is_missing (presence (read label_target_ns lease.labels))
    then lease ∷ later
    else later

module _ {W : Type 0} (cluster : Cluster W) (presence : Str → Presence)
    (steady : (ns : Str) (w : W) → (cluster.get_namespace ns w).0 ≡ presence ns) where
  collect_on_lem :
      (lease : Lease) (later : List Lease) (p : Presence) (w : W)
      → (collect_on cluster lease p w).calls ++ later
        ≡ (if is_missing p then lease ∷ later else later)
  unfolding collect_on is_missing
  collect_on_lem lease later Presence.missing w = refl
  collect_on_lem lease later Presence.present w = refl
  collect_on_lem lease later Presence.unknown w = refl

  collect_lease_lem :
      (lease : Lease) (w : W) (later : List Lease)
      → (collect_lease cluster lease w).calls ++ later ≡ (
          if read label_target_ns lease.labels =s []
          then later
          else if is_missing (presence (read label_target_ns lease.labels))
          then lease ∷ later
          else later)
  unfolding collect_lease
  collect_lease_lem lease w later = elim (Bool-cases (read label_target_ns lease.labels =s [])) [
    | inl h ↦ rw h refl
    | inr h ↦
        let ns = read label_target_ns lease.labels in
        let asked = cluster.get_namespace ns w in
        rw h (
          collect_on_lem lease later asked.0 asked.1
          ∙ ap (λ p. if is_missing p then lease ∷ later else later) (steady ns w))
  ]

  collect_all_lem :
      (leases : List Lease) (w : W) → (collect_all cluster leases w).calls ≡ orphans presence leases
  unfolding collect_all orphans
  collect_all_lem [] w = refl
  collect_all_lem (lease ∷ rest) w =
      ap (λ later. (collect_lease cluster lease w).calls ++ later)
        (collect_all_lem rest (collect_lease cluster lease w).world)
      ∙ collect_lease_lem lease w (orphans presence rest)

  -- While the answer of Get for each namespace stays the same, a cleanup that gets the list of managed
  -- leases tries to delete exactly those that name a target namespace which Get does not find, each
  -- once and in the order of the list; an error of a Delete does not stop it, and it returns no error.
  pub cleanup_lem :
      (leases : List Lease) (w : W)
      → (cluster.list_leases w).0 ≡ ok leases
      → ((cleanup cluster w).calls ≡ orphans presence leases)
        × ((cleanup cluster w).value ≡ ok done)
  unfolding cleanup cleanup_listed
  cleanup_lem leases w e = (
    rw e (
        append-nil (collect_all cluster leases (cluster.list_leases w).1).calls
        ∙ collect_all_lem leases (cluster.list_leases w).1),
    rw e refl,
  )
