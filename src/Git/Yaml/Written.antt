-- ===== src/Git/Yaml/Written.antt =====
-- What applyChangesToYaml of internal/git/github.go leaves in the hard map of a quota.
use namespace_resizer.Prelude.{
  ◌≡◌, refl, ap, ◌∙◌, true, Option, none, some, [], ◌∷◌, arith, Bool-cases, inl, inr, if◌then◌else◌,
}
use namespace_resizer.Text.{Str, codes, ◌=s◌}
use namespace_resizer.Text.Equality.{eq_of_=s}
use namespace_resizer.GoMap.{Map}
use namespace_resizer.Quantity.{Resource}
use namespace_resizer.Git.Yaml.{
  Kind, Node, Nodes, node, nil, cons, value_of, matches_resource_key, find_pair, find_value_node,
  change_pair, change_value, set_value, set_values, append_pair, apply_limit, apply_limits,
  change_hard, change_document,
}

abbrev pub texts : Option Node → Option Str
texts none = none
texts (some v) = some (value_of v)

-- The text under a key, in the content of a mapping.
abbrev pub text_of : Str → Nodes → Option Str
text_of key content = texts (find_pair key content)

abbrev pub mapped : (Node → Node) → Option Node → Option Node
mapped f none = none
mapped f (some v) = some (f v)

find_pair-change_pair :
    (key : Str) (f : Node → Node) (content : Nodes)
    → find_pair key (change_pair key f content) ≡ mapped f (find_pair key content)
unfolding find_pair change_pair
find_pair-change_pair key f nil = refl
find_pair-change_pair key f (cons k nil) = refl
find_pair-change_pair key f (cons k (cons v rest)) =
    ground (arith, find_pair-change_pair key f rest)

find_value-change_value :
    (key : Str) (f : Node → Node) (n : Node)
    → find_value_node key (change_value key f n) ≡ mapped f (find_value_node key n)
unfolding find_value_node change_value
find_value-change_value key f (node Kind.document value style (cons first rest)) =
    find_value-change_value key f first
find_value-change_value key f (node Kind.document value style nil) = refl
find_value-change_value key f (node Kind.mapping value style content) =
    find_pair-change_pair key f content
find_value-change_value key f (node Kind.scalar value style content) = refl
find_value-change_value key f (node Kind.other_kind value style content) = refl

-- One limit on a text that may be there.
abbrev pub overwritten : Str → Str → Str → Option Str → Option Str
overwritten key res text none = none
overwritten key res text (some old) = some (if matches_resource_key key res then text else old)

set_value-text : (text : Str) (v : Node) → value_of (set_value text v) ≡ text
set_value-text text (node kind value style content) = refl

text_of-set_values :
    (key res text : Str) (content : Nodes)
    → text_of key (set_values res text content).0 ≡ overwritten key res text (text_of key content)
unfolding find_pair set_values
text_of-set_values key res text nil = refl
text_of-set_values key res text (cons k nil) = refl
text_of-set_values key res text (cons k (cons v rest)) = elim (Bool-cases (value_of k =s key)) [
  | inl here ↦ elim (Bool-cases (matches_resource_key (value_of k) res)) [
    | inl hit ↦ ground (arith, here, hit, set_value-text text v, eq_of_=s (value_of k) key here)
    | inr miss ↦ ground (arith, here, miss, eq_of_=s (value_of k) key here)
  ]
  | inr other_key ↦ ground (arith, other_key, text_of-set_values key res text rest)
]

text_of-append :
    (key res text old : Str) (content : Nodes)
    → text_of key content ≡ some old
    → text_of key (append_pair content res text) ≡ some old
unfolding find_pair append_pair
text_of-append key res text old nil h = cc h
text_of-append key res text old (cons k nil) h = cc h
text_of-append key res text old (cons k (cons v rest)) h =
    ground (arith, h, text_of-append key res text old rest)

text_of-apply_limit :
    (key res text old : Str) (content : Nodes)
    → text_of key content ≡ some old
    → text_of key (apply_limit res text content)
      ≡ some (if matches_resource_key key res then text else old)
unfolding apply_limit
text_of-apply_limit key res text old content h =
    let changed = set_values res text content in
    let set : text_of key changed.0 ≡ some (if matches_resource_key key res then text else old) =
      text_of-set_values key res text content ∙ ap (overwritten key res text) h in
    elim (Bool-cases changed.1) [
      | inl found ↦ rw found set
      | inr absent ↦ rw absent (text_of-append key res text _ changed.0 set)
    ]

-- The text under a key of a mapping node.
abbrev pub text_in : Str → Option Node → Option Str
text_in key none = none
text_in key (some (node Kind.mapping value style content)) = text_of key content
text_in key (some (node Kind.document value style content)) = none
text_in key (some (node Kind.scalar value style content)) = none
text_in key (some (node Kind.other_kind value style content)) = none

-- The text under spec.hard of a document.
abbrev pub hard_node : Option Node → Option Node
hard_node none = none
hard_node (some spec) = find_value_node (codes "hard") spec

abbrev pub hard_text : Str → Node → Option Str
hard_text key doc = text_in key (hard_node (find_value_node (codes "spec") doc))

hard_node-change_value :
    (f : Node → Node) (spec : Option Node)
    → hard_node (mapped (change_value (codes "hard") f) spec) ≡ mapped f (hard_node spec)
hard_node-change_value f none = refl
hard_node-change_value f (some spec) = find_value-change_value (codes "hard") f spec

module _ {Q : Type 0} ⦃rs : Resource Q⦄ where
  -- The last limit that names a key, in the order of the map, or else the old text.
  abbrev pub latest : Str → Map Q → Str → Str
  latest key [] old = old
  latest key ((res, qty) ∷ rest) old =
      latest key rest (if matches_resource_key key res then rs.string qty else old)

  text_of-apply_limits :
      (key : Str) (limits : Map Q) (old : Str) (content : Nodes)
      → text_of key content ≡ some old
      → text_of key (apply_limits limits content) ≡ some (latest key limits old)
  unfolding apply_limits
  text_of-apply_limits key [] old content h = h
  text_of-apply_limits key ((res, qty) ∷ rest) old content h =
      text_of-apply_limits key rest (if matches_resource_key key res then rs.string qty else old)
        (apply_limit res (rs.string qty) content)
        (text_of-apply_limit key res (rs.string qty) old content h)

  text_in-change_hard :
      (key : Str) (limits : Map Q) (old : Str) (hard : Option Node)
      → text_in key hard ≡ some old
      → text_in key (mapped (change_hard limits) hard) ≡ some (latest key limits old)
  unfolding change_hard
  text_in-change_hard key limits old none h = cc h
  text_in-change_hard key limits old (some (node Kind.mapping value style content)) h =
      text_of-apply_limits key limits old content h
  text_in-change_hard key limits old (some (node Kind.document value style content)) h = cc h
  text_in-change_hard key limits old (some (node Kind.scalar value style content)) h = cc h
  text_in-change_hard key limits old (some (node Kind.other_kind value style content)) h = cc h

  -- In a document whose kind is ResourceQuota, a key of spec.hard keeps its text if no new limit is
  -- for it; otherwise it gets the quantity of the last such limit, in the order in which the map is
  -- visited: the limit of that name, or of the long name for cpu, memory and storage.
  pub change_document_lem :
      (key : Str) (limits : Map Q) (old : Str) (doc kind : Node)
      → find_value_node (codes "kind") doc ≡ some kind
      → (value_of kind =s codes "ResourceQuota") ≡ true
      → hard_text key doc ≡ some old
      → hard_text key (change_document limits doc) ≡ some (latest key limits old)
  unfolding change_document
  change_document_lem key limits old doc kind k is_quota h =
      let change = change_value (codes "hard") (change_hard limits) in
      let spec = find_value_node (codes "spec") doc in
      let changed : change_document limits doc ≡ change_value (codes "spec") change doc =
        rw (k, change_document, is_quota) refl in
      ap (hard_text key) changed
      ∙ ap (λ s. text_in key (hard_node s)) (find_value-change_value (codes "spec") change doc)
      ∙ ap (text_in key) (hard_node-change_value (change_hard limits) spec)
      ∙ text_in-change_hard key limits old (hard_node spec) h
