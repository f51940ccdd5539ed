-- ===== src/Sizing/Deficit/Effective.antt =====
-- PodRequests of internal/sizing/deficit.go is the effective request of Kubernetes for each key.
use namespace_resizer.Prelude.{
  ◌≡◌, refl, ap, ◌∙◌, Bool, true, false, none, List, [], ◌∷◌, arith, Bool-cases, inl, inr,
  if◌then◌else◌,
}
use namespace_resizer.Prelude.Int.{ℤ, ltb_ℤ, wrap64}
use namespace_resizer.Text.{Str, ◌=s◌}
use namespace_resizer.Text.Equality.{eq_of_=s}
use namespace_resizer.GoMap.{Map, lookup, insert, DistinctKeys}
use namespace_resizer.GoMap.Laws.{lookup-insert, lookup-Absent}
use namespace_resizer.GoMap.Distinct.{insert-DistinctKeys}
use namespace_resizer.Quantity.{Resource}
use namespace_resizer.Sizing.Deficit.{
  Container, PodSpec, quota_key, amount_at, raise_to, set_resources, init_requests, raise_by_inits,
  pod_requests,
}
use namespace_resizer.Sizing.Deficit.Sums.{
  amount_at-insert, max_ℤ, at_least, total, last_asked, init_asked, at_least_inits, containers_lem,
}

raise_step :
    (j k : Str) (v : ℤ) (reqs : Map ℤ)
    → amount_at k (if ltb_ℤ (amount_at j reqs) v then insert j v reqs else reqs)
      ≡ (if j =s k then max_ℤ (amount_at k reqs) v else amount_at k reqs)
raise_step j k v reqs = elim (Bool-cases (ltb_ℤ (amount_at j reqs) v)) [
  | inl more ↦ rw more (ground (arith, amount_at-insert j k v reqs, eq_of_=s j k, more))
  | inr enough ↦ rw enough (ground (arith, eq_of_=s j k, enough))
]

raise_to_lem :
    (k : Str) (m reqs : Map ℤ)
    → DistinctKeys m
    → amount_at k (raise_to m reqs) ≡ at_least (lookup k m) (amount_at k reqs)
unfolding raise_to lookup
raise_to_lem k [] reqs d = refl
raise_to_lem k ((j, v) ∷ rest) reqs d =
    let next = if ltb_ℤ (amount_at j reqs) v then insert j v reqs else reqs in
    elim (Bool-cases (j =s k)) [
      | inl same ↦
          let absent : lookup k rest ≡ none = rw (← eq_of_=s j k same) (lookup-Absent j rest d.0) in
          raise_to_lem k rest next d.1 ∙ rw (absent, raise_step j k v reqs, same) refl
      | inr differs ↦ raise_to_lem k rest next d.1 ∙ rw (raise_step j k v reqs, differs) refl
    ]

module _ {Q : Type 0} ⦃rs : Resource Q⦄ where
  set_resources_lem :
      (l : Bool) (k : Str) (list : Map Q) (m : Map ℤ)
      → (lookup k (set_resources l list m) ≡ last_asked l k list (lookup k m))
  unfolding set_resources
  set_resources_lem l k [] m = refl
  set_resources_lem l k ((name, qty) ∷ rest) m =
      let v = rs.milli_value qty in
      set_resources_lem l k rest (insert (quota_key l name) v m)
      ∙ ap (last_asked l k rest) (lookup-insert (quota_key l name) k v m)

  set_resources-DistinctKeys :
      (l : Bool) (list : Map Q) (m : Map ℤ) → DistinctKeys m → DistinctKeys (set_resources l list m)
  unfolding set_resources
  set_resources-DistinctKeys l [] m d = d
  set_resources-DistinctKeys l ((name, qty) ∷ rest) m d =
      let v = rs.milli_value qty in
      set_resources-DistinctKeys l rest (insert (quota_key l name) v m)
        (insert-DistinctKeys (quota_key l name) v m d)

  init_requests_lem : (k : Str) (c : Container Q) → lookup k (init_requests c) ≡ init_asked k c
  unfolding init_requests lookup
  init_requests_lem k c =
      set_resources_lem true k c.limits (set_resources false c.requests [])
      ∙ ap (last_asked true k c.limits) (set_resources_lem false k c.requests [])

  raise_by_inits_lem :
      (k : Str) (cs : List (Container Q)) (reqs : Map ℤ)
      → amount_at k (raise_by_inits cs reqs) ≡ at_least_inits k cs (amount_at k reqs)
  unfolding raise_by_inits init_requests
  raise_by_inits_lem k [] reqs = refl
  raise_by_inits_lem k (c ∷ rest) reqs =
      let asked = set_resources true c.limits (set_resources false c.requests []) in
      let distinct : DistinctKeys asked =
        set_resources-DistinctKeys true c.limits (set_resources false c.requests [])
          (set_resources-DistinctKeys false c.requests [] tt) in
      raise_by_inits_lem k rest (raise_to asked reqs)
      ∙ ap (at_least_inits k rest) (
          raise_to_lem k asked reqs distinct
          ∙ ap (λ o. at_least o (amount_at k reqs)) (init_requests_lem k c))

  -- For every key of a quota, PodRequests gives the larger of two amounts: the sum of what the app
  -- containers ask for under that key, wrapped once to int64 however it was added up, and the
  -- largest of what the init containers ask for under it, each by its last value for the key.
  pub pod_requests_lem :
      (spec : PodSpec Q) (k : Str)
      → amount_at k (pod_requests spec)
        ≡ at_least_inits k spec.init_containers (wrap64 (total k spec.containers))
  unfolding pod_requests
  pod_requests_lem spec k =
      raise_by_inits_lem k spec.init_containers _
      ∙ ap (at_least_inits k spec.init_containers) (containers_lem k spec.containers)
