-- ===== src/Controller/Proposal.antt =====
-- handleNewProposal of internal/controller/resourcequota_controller.go.
pub mod Guards
pub mod Recorded
use namespace_resizer.Prelude.{
  ◌*◌, Bool, true, false, not, ◌&&◌, Option, none, some, List, [], ◌∷◌, ◌++◌, if◌then◌else◌,
  Ordering,
}
use namespace_resizer.Prelude.Int.{ℤ, pos, ◌+ℤ◌, ◌-ℤ◌, wrap64, ltb_ℤ, eqb_ℤ}
use namespace_resizer.Text.{Str, codes}
use namespace_resizer.GoMap.{Map, lookup}
use namespace_resizer.Quantity.{Resource}
use namespace_resizer.Clock.{Time, Duration, is_zero, sub_time, second_ns, minute_ns}
use namespace_resizer.Lock.State.{State}
use namespace_resizer.Sizing.Decide.{Direction, direction_string}
use namespace_resizer.Controller.Effects.{Action, pure, perform, observe, ◌>>=◌, ◌>>◌}
use namespace_resizer.Controller.Outside.{
  Answer, ok, failed, Error, file_not_found, other, Done, done, EventType, Mutation, Call, Outside,
  Result,
}
use namespace_resizer.Controller.Active.{Round, mutate, or_error, requeue_now, requeue_in, is_grow}

abbrev pub is_shrink : Direction → Bool
is_shrink Direction.shrink = true
is_shrink _ = false

abbrev pub is_eq : Ordering → Bool
is_eq Ordering.eq = true
is_eq _ = false

module _ {Q : Type 0} ⦃rs : Resource Q⦄ where
  -- Every recommendation stands in quota.Spec.Hard already.
  unfoldable pub is_noop : Map Q → Map Q → Bool
  is_noop hard [] = true
  is_noop hard ((res, rec) ∷ rest) =
      let later = is_noop hard rest in
      elim (lookup res hard) [
        | none ↦ false
        | some cur ↦ if is_eq (rs.cmp cur rec) then later else false
      ]

-- The function that records the new pull request; it reads the clock when it runs.
unfoldable pub record_new : ℤ → Direction → Mutation
record_new id direction now s =
    let held = record s { pr_id = id; pr_direction = direction_string direction } in
    if is_shrink direction
    then record held { last_shrink = now }
    else record held { last_grow = now }

-- The function that adopts a pull request without a lock.
unfoldable pub adopt_existing : ℤ → Str → Mutation
adopt_existing id direction _ s = record s { pr_id = id; pr_direction = direction }

module _ {W F Q : Type 0} ⦃rs : Resource Q⦄ (out : Outside W Q) (r : Round F Q) where
  -- String() of quota.Status.Hard[res], where a missing key is the zero Quantity.
  current_limit : Str → Str
  current_limit res = elim (lookup res r.quota.status_hard) [
    | none ↦ codes "0"
    | some q ↦ rs.string q
  ]

  message : Str → Q → Str
  message res new_limit =
      codes "Recommendation: "
      ++ ((if is_shrink r.decision.direction then codes "Decrease" else codes "Increase")
          ++ (codes " "
              ++ (res
                  ++ (codes " from "
                      ++ (current_limit res ++ (codes " to " ++ rs.string new_limit))))))

  event_type : EventType
  event_type = if is_shrink r.decision.direction then EventType.normal else EventType.warning

  -- One event for each recommendation, in the order of the iteration.
  unfoldable pub announce : Map Q → Action W (Call Q) Done
  unfolding message current_limit event_type
  announce [] = pure done
  announce ((res, new_limit) ∷ rest) = do
    perform (Call.event event_type (codes "QuotaResizeRecommended") (message res new_limit))
        (out.event event_type (codes "QuotaResizeRecommended") (message res new_limit))
    announce rest

  -- After CreatePR.
  unfoldable pub after_create : Answer ℤ → Action W (Call Q) (Answer Result)
  after_create (failed (file_not_found _)) = pure (requeue_in (pos (1 * minute_ns)))
  after_create (failed (other e)) = pure (failed (other e))
  after_create (ok id) = do
    answer ← mutate out r (record_new id r.decision.direction)
    pure (or_error answer (requeue_in (pos (5 * minute_ns))))

  unfoldable pub create : Action W (Call Q) (Answer Result)
  create = do
    announce r.decision.targets
    answer ←
        perform
          (Call.create_pr r.quota.name r.quota.namespace (direction_string r.decision.direction)
            r.annotations r.decision.targets)
          (out.create_pr r.quota.name r.quota.namespace (direction_string r.decision.direction)
            r.annotations r.decision.targets)
    after_create answer

  -- The cooldown of a grow, with what time.Since returned.
  unfoldable pub create_if_cooled : Duration → Action W (Call Q) (Answer Result)
  create_if_cooled elapsed =
      if ltb_ℤ elapsed r.policy.grow_cooldown
      then pure
          (requeue_in (wrap64 (wrap64 (r.policy.grow_cooldown -ℤ elapsed) +ℤ pos (1 * second_ns))))
      else create

  unfoldable pub wait_or_create : Action W (Call Q) (Answer Result)
  wait_or_create =
      if is_grow r.decision.direction && not (is_zero r.state.last_modified)
      then (observe out.now >>= λ now. create_if_cooled (sub_time now r.state.last_modified))
      else create

  -- After FindOpenPR.
  unfoldable pub after_search : Answer (ℤ × Str) → Action W (Call Q) (Answer Result)
  after_search (failed e) = pure (failed e)
  after_search (ok (id, direction)) =
      if not (eqb_ℤ id (pos 0))
      then (mutate out r (adopt_existing id direction) >>= λ answer.
          pure (or_error answer requeue_now))
      else if is_noop r.quota.spec_hard r.decision.targets
      then pure (requeue_in (pos (10 * minute_ns)))
      else wait_or_create

  unfoldable pub handle_new_proposal : Action W (Call Q) (Answer Result)
  handle_new_proposal = do
    answer ← observe (out.find_open_pr r.quota.namespace r.quota.name)
    after_search answer
