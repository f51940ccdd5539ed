-- ===== src/Sizing/Names.antt =====
-- Quota keys: measureOf and IsCountable of internal/sizing/quantity.go, resourceFamily of
-- internal/sizing/policy.go. The names are the constants of k8s.io/api/core/v1.
pub mod Scope
use namespace_resizer.Prelude.{
  suc, Bool, true, false, ◌||◌, Option, none, some, List, [], ◌∷◌, drop, if◌then◌else◌,
}
use namespace_resizer.Text.{Str, codes, ◌=s◌, has_prefix, contains, last_index}

abbrev pub count_prefix : Str
count_prefix = codes "count/"

unfoldable pub measure_of : Str → Str
measure_of name =
    if has_prefix name count_prefix
    then name
    else elim (last_index name b'/') [ none ↦ name | some i ↦ drop (suc i) name ]

-- The cases of the switch in IsCountable.
abbrev pub counted_names : List Str
counted_names =
    codes "pods"
    ∷ codes "services"
    ∷ codes "replicationcontrollers"
    ∷ codes "resourcequotas"
    ∷ codes "secrets"
    ∷ codes "configmaps"
    ∷ codes "persistentvolumeclaims"
    ∷ codes "services.nodeports"
    ∷ codes "services.loadbalancers"
    ∷ []

unfoldable pub one_of : Str → List Str → Bool
one_of name [] = false
one_of name (c ∷ cs) = (name =s c) || one_of name cs

unfoldable pub is_countable : Str → Bool
is_countable name =
    if has_prefix name count_prefix then true else one_of (measure_of name) counted_names

abbrev pub resource_cpu : Str
resource_cpu = codes "cpu"

abbrev pub resource_memory : Str
resource_memory = codes "memory"

abbrev pub resource_storage : Str
resource_storage = codes "storage"

abbrev pub requests_cpu : Str
requests_cpu = codes "requests.cpu"

abbrev pub requests_memory : Str
requests_memory = codes "requests.memory"

abbrev pub requests_storage : Str
requests_storage = codes "requests.storage"

abbrev pub limits_cpu : Str
limits_cpu = codes "limits.cpu"

abbrev pub limits_memory : Str
limits_memory = codes "limits.memory"

unfoldable pub family_of_measure : Str → Option Str
family_of_measure name =
    if contains name resource_cpu
    then some resource_cpu
    else if contains name resource_memory
    then some resource_memory
    else if contains name resource_storage
    then some resource_storage
    else none

unfoldable pub resource_family : Str → Option Str
resource_family res = family_of_measure (measure_of res)
