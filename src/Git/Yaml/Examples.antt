-- ===== src/Git/Yaml/Examples.antt =====
-- applyChangesToYaml of internal/git/github.go on a quota with two keys.
use namespace_resizer.Prelude.{◌≡◌, refl, some, [], ◌∷◌}
use namespace_resizer.Text.{Str, codes, ◌=s◌}
use namespace_resizer.GoMap.{Map}
use namespace_resizer.Quantity.Exact.{Amount, amount, amount_resource}
use namespace_resizer.Git.Yaml.{
  Kind, Style, Node, Nodes, node, nil, cons, change_document, find_value_node,
}
use namespace_resizer.Git.Yaml.Written.{hard_text, latest, change_document_lem}

abbrev scalar : Str → Node
scalar text = node Kind.scalar text Style.other_style nil

abbrev mapping : Nodes → Node
mapping content = node Kind.mapping [] Style.other_style content

-- kind: ResourceQuota, spec.hard: {cpu: 4, pods: 10}
abbrev quota : Node
quota = node Kind.document [] Style.other_style (
    cons
      (mapping (
        cons (scalar (codes "kind")) (
          cons (scalar (codes "ResourceQuota")) (
            cons (scalar (codes "spec")) (
              cons
                (mapping (
                  cons (scalar (codes "hard")) (
                    cons
                      (mapping (
                        cons (scalar (codes "cpu")) (
                          cons (scalar (codes "4"))
                            (cons (scalar (codes "pods")) (cons (scalar (codes "10")) nil)))))
                      nil)))
                nil)))))
      nil)

abbrev limits : Map Amount
limits = (codes "requests.cpu", amount 6000) ∷ []

change_document_lem_example :
    hard_text (codes "cpu") (change_document limits quota)
    ≡ some (latest (codes "cpu") limits (codes "4"))
unfolding find_value_node ◌=s◌
change_document_lem_example =
    change_document_lem (codes "cpu") limits (codes "4") quota (scalar (codes "ResourceQuota")) refl
      refl refl
