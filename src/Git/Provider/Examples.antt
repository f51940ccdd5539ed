-- ===== src/Git/Provider/Examples.antt =====
-- CreatePR of internal/git/github.go where the API refuses every label.
use namespace_resizer.Prelude.{refl, [], ◌∷◌}
use namespace_resizer.Text.{codes, ◌=s◌}
use namespace_resizer.GoMap.{Map}
use namespace_resizer.Quantity.Exact.{Amount, amount, amount_resource}
use namespace_resizer.Controller.Outside.{failed, other}
use namespace_resizer.Git.{direction_shrink}
use namespace_resizer.Controller.Outside.{Answer, Done}
use namespace_resizer.Git.Provider.Scripted.{counting, setup}
use namespace_resizer.Git.Provider.Create.{labels_of, create_pr}
use namespace_resizer.Git.Provider.Calls.{Ended}
use namespace_resizer.Git.Provider.Updated.{Updated}
use namespace_resizer.Git.Provider.Labelled.{create_pr-Ended}

abbrev refused : Answer Done
refused = failed (other (codes "forbidden"))

abbrev limits : Map Amount
limits = (codes "requests.cpu", amount 2000) ∷ []

create_pr-Ended_example :
    let ran =
      create_pr
        (counting refused)
        setup
        (codes "compute")
        (codes "team")
        direction_shrink
        []
        limits
        0 in
    Ended (counting refused) (labels_of (codes "team") direction_shrink) ran.value ran.calls
unfolding ◌=s◌
create_pr-Ended_example =
    create_pr-Ended (counting refused) setup (codes "compute") (codes "team") direction_shrink []
      limits refl 0
