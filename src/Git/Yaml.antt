-- ===== src/Git/Yaml.antt =====
-- applyChangesToYaml and matchesResourceKey of internal/git/github.go, on the node trees of yaml.v3.
pub mod Written
mod Examples
use namespace_resizer.Prelude.{
  Bool, true, false, ◌||◌, Option, none, some, List, [], ◌∷◌, if◌then◌else◌,
}
use namespace_resizer.Text.{Str, codes, ◌=s◌}
use namespace_resizer.GoMap.{Map}
use namespace_resizer.Quantity.{Resource}
use namespace_resizer.Sizing.Names.{requests_cpu, requests_memory, requests_storage}

pub data Kind : Type 0 where
  document mapping scalar other_kind : Kind

pub data Style : Type 0 where
  double_quoted other_style : Style

-- A yaml.Node. The content of a mapping is its keys, each before its value.
mutual
  pub data Node : Type 0 where
    node : Kind → Str → Style → Nodes → Node

  pub data Nodes : Type 0 where
    nil : Nodes
    cons : Node → Nodes → Nodes

abbrev pub value_of : Node → Str
value_of (node kind value style content) = value

unfoldable pub matches_resource_key : Str → Str → Bool
matches_resource_key key res =
    if key =s res
    then true
    else if res =s requests_cpu
    then (key =s codes "cpu") || (key =s codes "requests.cpu")
    else if res =s requests_memory
    then (key =s codes "memory") || (key =s codes "requests.memory")
    else if res =s requests_storage
    then (key =s codes "storage") || (key =s codes "requests.storage")
    else false

-- The loop of findValueNode over a mapping.
unfoldable pub find_pair : Str → Nodes → Option Node
find_pair key nil = none
find_pair key (cons k nil) = none
find_pair key (cons k (cons v rest)) =
    let later = find_pair key rest in if value_of k =s key then some v else later

-- findValueNode
unfoldable pub find_value_node : Str → Node → Option Node
unfolding find_pair
find_value_node key (node Kind.document value style (cons first rest)) = find_value_node key first
find_value_node key (node Kind.document value style nil) = none
find_value_node key (node Kind.mapping value style content) = find_pair key content
find_value_node key (node Kind.scalar value style content) = none
find_value_node key (node Kind.other_kind value style content) = none

-- What becomes of a tree when the node that findValueNode returns is changed in place.
unfoldable pub change_pair : Str → (Node → Node) → Nodes → Nodes
change_pair key f nil = nil
change_pair key f (cons k nil) = cons k nil
change_pair key f (cons k (cons v rest)) =
    let later = change_pair key f rest in
    if value_of k =s key then cons k (cons (f v) rest) else cons k (cons v later)

unfoldable pub change_value : Str → (Node → Node) → Node → Node
unfolding change_pair
change_value key f (node Kind.document value style (cons first rest)) =
    node Kind.document value style (cons (change_value key f first) rest)
change_value key f (node Kind.document value style nil) = node Kind.document value style nil
change_value key f (node Kind.mapping value style content) =
    node Kind.mapping value style (change_pair key f content)
change_value key f (node Kind.scalar value style content) = node Kind.scalar value style content
change_value key f (node Kind.other_kind value style content) =
    node Kind.other_kind value style content

abbrev pub set_value : Str → Node → Node
set_value text (node kind value style content) = node kind text Style.double_quoted content

-- The loop over the pairs of the hard map for one limit, with `found`.
unfoldable pub set_values : Str → Str → Nodes → Nodes × Bool
set_values res text nil = (nil, false)
set_values res text (cons k nil) = (cons k nil, false)
set_values res text (cons k (cons v rest)) =
    let (later, found) = set_values res text rest in
    if matches_resource_key (value_of k) res
    then (cons k (cons (set_value text v) later), true)
    else (cons k (cons v later), found)

unfoldable pub append_pair : Nodes → Str → Str → Nodes
append_pair nil res text =
    cons (node Kind.scalar res Style.other_style nil)
      (cons (node Kind.scalar text Style.double_quoted nil) nil)
append_pair (cons n rest) res text = cons n (append_pair rest res text)

unfoldable pub apply_limit : Str → Str → Nodes → Nodes
unfolding set_values append_pair
apply_limit res text content =
    let (changed, found) = set_values res text content in
    if found then changed else append_pair changed res text

unfoldable pub encoded_or : Str → Option Str → Str
encoded_or content none = content
encoded_or content (some text) = text

module _ {Q : Type 0} ⦃rs : Resource Q⦄ where
  unfoldable pub apply_limits : Map Q → Nodes → Nodes
  apply_limits [] content = content
  apply_limits ((res, qty) ∷ rest) content =
      apply_limits rest (apply_limit res (rs.string qty) content)

  unfoldable pub change_hard : Map Q → Node → Node
  change_hard limits (node Kind.mapping value style content) =
      node Kind.mapping value style (apply_limits limits content)
  change_hard limits (node Kind.document value style content) =
      node Kind.document value style content
  change_hard limits (node Kind.scalar value style content) = node Kind.scalar value style content
  change_hard limits (node Kind.other_kind value style content) =
      node Kind.other_kind value style content

  -- The body of the loop over the documents.
  unfoldable pub change_document : Map Q → Node → Node
  change_document limits doc = elim (find_value_node (codes "kind") doc) [
    | none ↦ doc
    | some kind ↦
        if value_of kind =s codes "ResourceQuota"
        then change_value (codes "spec") (change_value (codes "hard") (change_hard limits)) doc
        else doc
  ]

  unfoldable pub change_documents : Map Q → List Node → List Node
  change_documents limits [] = []
  change_documents limits (doc ∷ rest) = change_document limits doc ∷ change_documents limits rest

  -- `decode` and `encode` are the decoder and the encoder of yaml.v3 over all documents of a text,
  -- `none` their errors.
  unfoldable pub apply_decoded : (List Node → Option Str) → Str → Map Q → Option (List Node) → Str
  unfolding encoded_or
  apply_decoded encode content limits none = content
  apply_decoded encode content limits (some docs) =
      encoded_or content (encode (change_documents limits docs))

  unfoldable pub apply_changes_to_yaml :
      (Str → Option (List Node)) → (List Node → Option Str) → Str → Map Q → Str
  apply_changes_to_yaml decode encode content limits =
      apply_decoded encode content limits (decode content)
