-- ===== src/Controller/Events.antt =====
-- Events of Kubernetes, as internal/controller/resourcequota_utils.go reads them.
pub mod Workloads
use namespace_resizer.Prelude.{
  ℕ, ◌+◌, Bool, true, false, not, ◌&&◌, ◌||◌, Option, none, some, List, [], ◌∷◌, ◌++◌, length, drop,
  ltb, if◌then◌else◌,
}
use namespace_resizer.Text.{Str, codes, ◌=s◌, contains, index, split_text, take}
use namespace_resizer.Clock.{Time}

-- What an event names of the object that it is about.
pub record ObjectReference : Type 0 where
  pub kind : Str
  pub namespace : Str
  pub name : Str
  pub api_version : Str

pub record Event : Type 0 where
  pub namespace : Str
  pub last_timestamp : Time
  pub event_type : Str
  pub reason : Str
  pub message : Str
  pub involved_object : ObjectReference

-- corev1.EventTypeWarning
abbrev pub event_type_warning : Str
event_type_warning = codes "Warning"

abbrev pub reason_failed_create : Str
reason_failed_create = codes "FailedCreate"

abbrev pub exceeded_quota : Str
exceeded_quota = codes "exceeded quota"

abbrev pub exceeded_quota_of : Str
exceeded_quota_of = codes "exceeded quota: "

-- Until the comma, or the end.
unfoldable pub until_comma : Str → Str
until_comma rest = elim (index rest (codes ",")) [ none ↦ rest | some i ↦ take i rest ]

-- The body of the loop, where a part mentions an exceeded quota.
unfoldable pub quota_in : Str → Str
unfolding until_comma
quota_in message = elim (index message exceeded_quota_of) [
  | none ↦ []
  | some i ↦ until_comma (drop (i + length exceeded_quota_of) message)
]

-- The loop over the parts, which stops at the first that mentions an exceeded quota.
unfoldable pub quota_of_parts : Str → List Str → Str
unfolding quota_in
quota_of_parts message [] = []
quota_of_parts message (part ∷ rest) =
    let later = quota_of_parts message rest in
    if contains part exceeded_quota then quota_in message else later

-- A request to reconcile a quota.
pub record Request : Type 0 where
  pub namespace : Str
  pub name : Str

unfoldable pub is_failed_create : Event → Bool
is_failed_create e = (e.event_type =s event_type_warning) && (e.reason =s reason_failed_create)

unfoldable pub request_for : Str → Str → List Request
request_for namespace [] = []
request_for namespace (c ∷ quota_name) =
    record { namespace = namespace; name = c ∷ quota_name } ∷ []

unfoldable pub request_of_event : Event → List Request
unfolding is_failed_create
request_of_event e =
    if not (is_failed_create e)
    then []
    else if not (contains e.message exceeded_quota)
    then []
    else (let parts = split_text e.message (codes ": ") in
        if ltb (length parts) 2
        then []
        else request_for e.namespace (quota_of_parts e.message parts))

-- `none` is an object of another kind than Event.
unfoldable pub map_event_to_quota : Option Event → List Request
map_event_to_quota none = []
map_event_to_quota (some e) = request_of_event e
