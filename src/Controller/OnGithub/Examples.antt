-- ===== src/Controller/OnGithub/Examples.antt =====
-- A shrink that handleNewProposal creates and records through GitHubProvider.
use namespace_resizer.Prelude.{refl, All}
use namespace_resizer.Prelude.{[]}
use namespace_resizer.Prelude.Int.{pos}
use namespace_resizer.Float.Rational.{fraction_float}
use namespace_resizer.Quantity.Exact.{amount_resource}
use namespace_resizer.Sizing.Decide.{Direction, direction_string}
use namespace_resizer.Controller.Outside.{ok, done}
use namespace_resizer.Controller.Proposal.{handle_new_proposal}
use namespace_resizer.Controller.Proposal.Recorded.{RecordsKnown}
use namespace_resizer.Controller.Examples.{ready, scripted, to_shrink}
use namespace_resizer.Controller.OnGithub.{on_github}
use namespace_resizer.Controller.OnGithub.Recorded.{recorded_shrink_lem}
use namespace_resizer.Text.{codes}
use namespace_resizer.Git.Provider.Scripted.{counting, setup}
use namespace_resizer.Git.Provider.Create.{labels_of}
use namespace_resizer.Git.Provider.Calls.{IsLabelled}

recorded_shrink_lem_example :
    let github = counting (ok done) in
    let out = on_github github setup (scripted ready) in
    All
      (RecordsKnown out to_shrink
        (IsLabelled github (labels_of (codes "team") (direction_string Direction.shrink)))
        (ok (pos 0, [])))
      (handle_new_proposal out to_shrink 0).calls
recorded_shrink_lem_example =
    recorded_shrink_lem (counting (ok done)) setup (scripted ready) to_shrink 0 refl
