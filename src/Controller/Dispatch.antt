-- ===== src/Controller/Dispatch.antt =====
-- The end of Reconcile of internal/controller/resourcequota_controller.go, from the decision on.
pub mod Guards
use namespace_resizer.Prelude.{◌*◌, Bool, true, false, not, ◌&&◌, if◌then◌else◌}
use namespace_resizer.Prelude.Int.{pos, eqb_ℤ}
use namespace_resizer.Quantity.{Resource}
use namespace_resizer.Clock.{minute_ns}
use namespace_resizer.Sizing.Decide.{Direction}
use namespace_resizer.Controller.Effects.{Action, pure}
use namespace_resizer.Controller.Outside.{Answer, Call, Outside, Result}
use namespace_resizer.Controller.Active.{Round, requeue_in, handle_active_pr, is_grow}
use namespace_resizer.Controller.Proposal.{handle_new_proposal, is_shrink}

-- decision.Direction != sizing.DirectionNone
abbrev pub is_wanted : Direction → Bool
is_wanted Direction.none_wanted = false
is_wanted _ = true

module _ {W F Q : Type 0} ⦃rs : Resource Q⦄ (out : Outside W Q) (deficit_scan_failed : Bool)
    (r : Round F Q) where
  unfoldable pub act : Action W (Call Q) (Answer Result)
  act =
      if not (eqb_ℤ r.state.pr_id (pos 0))
      then handle_active_pr out r
      else if is_shrink r.decision.direction && deficit_scan_failed
      then pure (requeue_in (pos (5 * minute_ns)))
      else if is_wanted r.decision.direction
      then handle_new_proposal out r
      else pure (requeue_in (pos (5 * minute_ns)))
