-- ===== src/Controller/OnGithub/Recorded.antt =====
-- The shrinks that handleNewProposal records, with CreatePR of internal/git/github.go.
use namespace_resizer.Prelude.{◌≡◌, refl, true, List, All}
use namespace_resizer.Prelude.Int.{ℤ}
use namespace_resizer.Text.{Str, ◌=s◌}
use namespace_resizer.Quantity.{Resource}
use namespace_resizer.Sizing.Decide.{Direction, direction_string}
use namespace_resizer.Controller.Outside.{Answer, ok, failed, Outside}
use namespace_resizer.Controller.Active.{Round}
use namespace_resizer.Controller.Proposal.{handle_new_proposal}
use namespace_resizer.Controller.Proposal.Recorded.{
  Given, RecordsKnown, handle_new_proposal-RecordsKnown,
}
use namespace_resizer.Controller.OnGithub.{on_github}
use namespace_resizer.Git.{direction_shrink}
use namespace_resizer.Git.Provider.{GitHub, Setup, Write}
use namespace_resizer.Git.Provider.Create.{create_pr, labels_of}
use namespace_resizer.Git.Provider.Calls.{Ended, IsLabelled}
use namespace_resizer.Git.Provider.Labelled.{create_pr-Ended}

module _ {W : Type 0} (github : GitHub W) (labels : List Str) where
  Ended-Given :
      (a : Answer ℤ) (calls : List Write)
      → Ended github labels a calls
      → Given (IsLabelled github labels) a
  Ended-Given (ok id) calls h = h
  Ended-Given (failed e) calls h = tt

shrink_string :
    (d : Direction) → d ≡ Direction.shrink → (direction_string d =s direction_shrink) ≡ true
unfolding ◌=s◌ direction_string
shrink_string d e = rw e refl

module _ {W F Q : Type 0} ⦃rs : Resource Q⦄ (github : GitHub W) (setup : Setup) (out : Outside W Q)
    (r : Round F Q) where
  -- With GitHubProvider as its Provider, handleNewProposal on a decision to shrink writes to the
  -- Lease only to adopt the open pull request that FindOpenPR has answered with, under the direction
  -- of that answer, or to record a new one whose labels, with the direction among them, GitHub has
  -- accepted.
  pub recorded_shrink_lem :
      (w : W)
      → r.decision.direction ≡ Direction.shrink
      → All
          (RecordsKnown
            (on_github github setup out)
            r
            (IsLabelled github
              (labels_of r.quota.namespace (direction_string r.decision.direction)))
            (out.find_open_pr r.quota.namespace r.quota.name w).0)
          (handle_new_proposal (on_github github setup out) r w).calls
  unfolding on_github
  recorded_shrink_lem w d =
      let direction = direction_string r.decision.direction in
      let labels = labels_of r.quota.namespace direction in
      handle_new_proposal-RecordsKnown (on_github github setup out) r (IsLabelled github labels)
        (out.find_open_pr r.quota.namespace r.quota.name w).0
        (λ v.
          let ran =
            create_pr github setup r.quota.name r.quota.namespace direction r.annotations
              r.decision.targets v in
          Ended-Given github labels ran.value ran.calls (
            create_pr-Ended github setup r.quota.name r.quota.namespace direction r.annotations
              r.decision.targets (shrink_string r.decision.direction d) v))
        w refl
