-- ===== src/Sizing/Deficit.antt =====
-- What blocked workloads asked for: internal/sizing/deficit.go.
pub mod Sums
pub mod Effective
mod Examples
use namespace_resizer.Prelude.{
  ℕ, ◌+◌, Bool, true, false, Option, none, some, List, [], ◌∷◌, ◌++◌, if◌then◌else◌,
}
use namespace_resizer.Prelude.Int.{ℤ, pos, ◌+ℤ◌, ltb_ℤ, wrap64}
use namespace_resizer.Text.{Str, codes, ◌=s◌, has_prefix, trim_prefix, split, last_index, take}
use namespace_resizer.Text.Space.{trim_space}
use namespace_resizer.GoMap.{Map, lookup, insert}
use namespace_resizer.Quantity.{Resource}
use namespace_resizer.Sizing.Names.{
  resource_cpu, resource_memory, resource_storage, requests_cpu, requests_memory, requests_storage,
  limits_cpu, limits_memory,
}

abbrev pub requested : Str
requested = codes "requested: "

module _ {Q : Type 0} ⦃rs : Resource Q⦄ where
  unfoldable pub parse_pair : List Str → Option (Str × Q)
  parse_pair (name ∷ quantity ∷ []) = elim (rs.parse_quantity quantity) [
    | none ↦ none
    | some qty ↦ some (name, qty)
  ]
  parse_pair (name ∷ quantity ∷ more ∷ rest) = none
  parse_pair (name ∷ []) = none
  parse_pair [] = none

  -- The body of the loop, on a trimmed part of the message.
  unfoldable pub parse_part : Str → Option (Str × Q)
  unfolding parse_pair
  parse_part part =
      if has_prefix part requested
      then parse_pair (split (trim_prefix part requested) b'=')
      else none

  unfoldable pub parse_parts : List Str → Option (Str × Q)
  parse_parts [] = none
  parse_parts (part ∷ rest) =
      let later = parse_parts rest in
      elim (parse_part (trim_space part)) [ none ↦ later | some found ↦ some found ]

  -- `none` is the error "failed to parse message".
  unfoldable pub parse_event_message : Str → Option (Str × Q)
  parse_event_message message = parse_parts (split message b',')

unfoldable pub workload_key : Str → Str
workload_key name = elim (last_index name b'-') [ none ↦ name | some i ↦ take i name ]

-- The switches on the name of a resource; `is_limit` chooses between them.
unfoldable pub quota_key : Bool → Str → Str
quota_key true name =
    if name =s resource_cpu
    then limits_cpu
    else if name =s resource_memory
    then limits_memory
    else name
quota_key false name =
    if name =s resource_cpu
    then requests_cpu
    else if name =s resource_memory
    then requests_memory
    else if name =s resource_storage
    then requests_storage
    else name

-- m[k] of a map of int64
unfoldable pub amount_at : Str → Map ℤ → ℤ
amount_at k m = elim (lookup k m) [ none ↦ pos 0 | some v ↦ v ]

-- m[k] += v, in int64
unfoldable pub add_to : Str → ℤ → Map ℤ → Map ℤ
unfolding amount_at
add_to k v m = insert k (wrap64 (amount_at k m +ℤ v)) m

pub record Container (Q : Type 0) : Type 0 where
  pub requests : Map Q
  pub limits : Map Q

pub record PodSpec (Q : Type 0) : Type 0 where
  pub containers : List (Container Q)
  pub init_containers : List (Container Q)

-- A PersistentVolumeClaim, by its requests.
pub record Claim (Q : Type 0) : Type 0 where
  pub requests : Map Q

unfoldable pub claim_key : Str → Str
claim_key name = if name =s resource_storage then requests_storage else name

-- The loop over the values of one init container.
unfoldable pub raise_to : Map ℤ → Map ℤ → Map ℤ
raise_to [] reqs = reqs
raise_to ((k, v) ∷ rest) reqs =
    raise_to rest (if ltb_ℤ (amount_at k reqs) v then insert k v reqs else reqs)

module _ {Q : Type 0} ⦃rs : Resource Q⦄ where
  unfoldable pub add_resources : Bool → Map Q → Map ℤ → Map ℤ
  add_resources is_limit [] reqs = reqs
  add_resources is_limit ((name, qty) ∷ rest) reqs =
      add_resources is_limit rest (add_to (quota_key is_limit name) (rs.milli_value qty) reqs)

  unfoldable pub add_containers : List (Container Q) → Map ℤ → Map ℤ
  add_containers [] reqs = reqs
  add_containers (c ∷ rest) reqs =
      add_containers rest (add_resources true c.limits (add_resources false c.requests reqs))

  -- addInit
  unfoldable pub set_resources : Bool → Map Q → Map ℤ → Map ℤ
  set_resources is_limit [] init_reqs = init_reqs
  set_resources is_limit ((name, qty) ∷ rest) init_reqs =
      set_resources is_limit rest (insert (quota_key is_limit name) (rs.milli_value qty) init_reqs)

  unfoldable pub init_requests : Container Q → Map ℤ
  init_requests c = set_resources true c.limits (set_resources false c.requests [])

  unfoldable pub raise_by_inits : List (Container Q) → Map ℤ → Map ℤ
  raise_by_inits [] reqs = reqs
  raise_by_inits (c ∷ rest) reqs = raise_by_inits rest (raise_to (init_requests c) reqs)

  unfoldable pub pod_requests : PodSpec Q → Map ℤ
  pod_requests spec = raise_by_inits spec.init_containers (add_containers spec.containers [])

  unfoldable pub add_claim : Map Q → Map ℤ → Map ℤ
  add_claim [] reqs = reqs
  add_claim ((name, qty) ∷ rest) reqs =
      add_claim rest (add_to (claim_key name) (rs.milli_value qty) reqs)

  unfoldable pub add_claims : List (Claim Q) → Map ℤ → Map ℤ
  add_claims [] reqs = reqs
  add_claims (c ∷ rest) reqs = add_claims rest (add_claim c.requests reqs)

  unfoldable pub pvc_requests : List (Claim Q) → Map ℤ
  pvc_requests templates = add_claims templates []
