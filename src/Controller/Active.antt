-- ===== src/Controller/Active.antt =====
-- handleActivePR, shrinkPRShouldClose and formatDays of
-- internal/controller/resourcequota_controller.go.
pub mod Guards
pub mod Releases
pub mod Cooldown
use namespace_resizer.Prelude.{
  ℕ, suc, ◌+◌, ◌*◌, ◌/◌, ltb, Bool, true, false, not, ◌&&◌, ◌||◌, Option, none, some, List, [], ◌∷◌,
  ◌++◌, if◌then◌else◌,
}
use namespace_resizer.Prelude.Int.{ℤ, pos, negsuc, ◌-ℤ◌, ltb_ℤ, eqb_ℤ}
use namespace_resizer.Text.{Str, codes, ◌=s◌}
use namespace_resizer.Text.Decimal.{decimal_ℤ}
use namespace_resizer.GoMap.{Map, lookup}
use namespace_resizer.Git.{direction_shrink}
use namespace_resizer.Clock.{Time, Duration, is_zero, sub_time, day_ns, second_ns, minute_ns}
use namespace_resizer.Lock.State.{State}
use namespace_resizer.Sizing.Policy.{Policy}
use namespace_resizer.Sizing.Decide.{Direction, Decision}
use namespace_resizer.Controller.Effects.{Action, pure, perform, observe, ◌>>=◌, ◌>>◌}
use namespace_resizer.Controller.Outside.{
  Answer, ok, failed, Error, file_not_found, other, Done, done, PrStatus, mergeable_state_clean,
  mergeable_state_blocked, checks_state_success, Mutation, Call, Outside, Result, Quota,
}

-- resizerConfig.AnnotationAutoMerge
abbrev pub annotation_auto_merge : Str
annotation_auto_merge = codes "resizer.io/auto-merge"

-- int(d / (24 * time.Hour)), rounded to zero
whole_days : Duration → ℤ
whole_days (pos n) = pos (n / day_ns)
whole_days (negsuc n) = pos 0 -ℤ pos (suc n / day_ns)

unfoldable pub format_days : Duration → Str
unfolding whole_days
format_days d =
    let days = whole_days d in
    if eqb_ℤ days (pos 1) then codes "1 day" else decimal_ℤ days ++ codes " days"

-- strings.ToLower on the ASCII characters, of which GitHub's states are made.
to_lower : Str → Str
to_lower [] = []
to_lower (c ∷ s) = (if ltb 64 c && ltb c 91 then c + 32 else c) ∷ to_lower s

-- canAttemptMerge
unfoldable pub can_attempt_merge : PrStatus → Bool
can_attempt_merge status =
    status.mergeable
    && ((status.mergeable_state =s mergeable_state_clean)
        || ((status.mergeable_state =s mergeable_state_blocked)
            && ((status.checks_state =s checks_state_success)
                || eqb_ℤ status.checks_total_count (pos 0))))

-- The function that releases the lock of a merged or closed pull request.
unfoldable pub release_closed : PrStatus → Time → Mutation
release_closed status now _ s =
    let was_shrink = s.pr_direction =s direction_shrink in
    let freed = record s { pr_id = pos 0; pr_direction = [] } in
    if not status.is_merged
    then (if was_shrink then record freed { last_shrink = now } else freed)
    else if was_shrink
    then record freed { last_modified = now; last_shrink = now }
    else record freed { last_modified = now; last_grow = now }

-- The function that releases the lock of a shrink that the controller closed.
unfoldable pub release_shrink : Time → Mutation
release_shrink now _ s = record s { pr_id = pos 0; pr_direction = []; last_shrink = now }

-- The function that releases the lock of a pull request that the controller merged.
unfoldable pub release_merged : Time → Mutation
release_merged now _ s = record s {
  pr_id = pos 0;
  pr_direction = [];
  last_modified = now;
  last_grow = now;
}

-- The arguments of handleActivePR and handleNewProposal, with the reconciler's EnableAutoMerge.
pub record Round (F Q : Type 0) : Type 0 where
  pub quota : Quota Q
  pub annotations : Map Str
  pub policy : Policy F Q
  pub state : State
  pub decision : Decision Q
  pub enable_auto_merge : Bool

abbrev pub requeue_now : Answer Result
requeue_now = ok (record { requeue = true; requeue_after = pos 0 })

abbrev pub requeue_in : Duration → Answer Result
requeue_in d = ok (record { requeue = false; requeue_after = d })

-- `if err != nil { return ctrl.Result{}, err }`, and what is returned otherwise.
abbrev pub or_error : {A : Type 0} → Answer A → Answer Result → Answer Result
or_error (ok _) r = r
or_error (failed e) _ = failed e

abbrev pub is_grow : Direction → Bool
is_grow Direction.grow = true
is_grow _ = false

-- ns.Annotations[resizerConfig.AnnotationAutoMerge] is there and is "false"
unfoldable pub opted_out : Map Str → Bool
opted_out annotations = elim (lookup annotation_auto_merge annotations) [
  | none ↦ false
  | some v ↦ v =s codes "false"
]

unfoldable pub superseded_comment : Str → Str
superseded_comment reason =
    codes "Superseded: a shortage was detected and the quota has to grow instead."
    ++ (10 ∷ 10 ∷ reason)

unfoldable pub expired_comment : Duration → Str
expired_comment ttl =
    codes "Closing automatically: this shrink proposal has been open for "
    ++ (format_days ttl
        ++ codes " without review. A fresh proposal will be opened once the cooldown expires.")

module _ {W F Q : Type 0} (out : Outside W Q) (r : Round F Q) where
  -- MutateState of the quota at hand.
  unfoldable pub mutate : Mutation → Action W (Call Q) (Answer Done)
  mutate f =
      perform (Call.mutate_state r.quota.namespace r.quota.name f)
        (out.mutate_state r.quota.namespace r.quota.name f)

  -- `none` stands for `"", false`.
  unfoldable pub shrink_pr_should_close : PrStatus → Action W (Call Q) (Option Str)
  shrink_pr_should_close status =
      if is_grow r.decision.direction
      then pure (some (superseded_comment r.decision.reason))
      else if is_zero status.created_at
      then pure none
      else do
        now ← observe out.now
        pure (
            if ltb_ℤ r.policy.shrink_pr_ttl (sub_time now status.created_at)
            then some (expired_comment r.policy.shrink_pr_ttl)
            else none)

  unfoldable pub close_released : PrStatus → Action W (Call Q) (Answer Result)
  close_released status = do
    now ← observe out.now
    answer ← mutate (release_closed status now)
    pure (or_error answer requeue_now)

  -- After ClosePR.
  unfoldable pub after_close : Answer Done → Action W (Call Q) (Answer Result)
  after_close (failed e) = pure (failed e)
  after_close (ok _) = do
    now ← observe out.now
    answer ← mutate (release_shrink now)
    pure (or_error answer requeue_now)

  unfoldable pub close_shrink : Str → Action W (Call Q) (Answer Result)
  close_shrink reason = do
    answer ← perform (Call.close_pr r.state.pr_id reason) (out.close_pr r.state.pr_id reason)
    after_close answer

  update_answer : Answer Done → Answer Result
  update_answer (ok _) = requeue_in (pos (5 * minute_ns))
  update_answer (failed (file_not_found _)) = requeue_in (pos (1 * minute_ns))
  update_answer (failed (other e)) = failed (other e)

  unfoldable pub send_update : Action W (Call Q) (Answer Result)
  unfolding update_answer
  send_update = do
    answer ←
        perform
          (Call.update_pr r.state.pr_id r.quota.name r.quota.namespace r.annotations
            r.decision.targets)
          (out.update_pr r.state.pr_id r.quota.name r.quota.namespace r.annotations
            r.decision.targets)
    pure (update_answer answer)

  -- The switch on the direction, and what comes after it.
  unfoldable pub update_if_grown : Action W (Call Q) (Answer Result)
  update_if_grown =
      if is_grow r.decision.direction then send_update else pure (requeue_in (pos (5 * minute_ns)))

  -- After MergePR: a failed merge is logged, and the handler goes on.
  unfoldable pub after_merge : Answer Done → Action W (Call Q) (Answer Result)
  after_merge (failed _) = update_if_grown
  after_merge (ok _) = do
    now ← observe out.now
    answer ← mutate (release_merged now)
    pure (or_error answer requeue_now)

  unfoldable pub should_auto_merge : Bool
  should_auto_merge =
      r.enable_auto_merge
      && (not (r.state.pr_direction =s direction_shrink) && not (opted_out r.annotations))

  unfoldable pub auto_merge : PrStatus → Action W (Call Q) (Answer Result)
  unfolding to_lower
  auto_merge status =
      if not should_auto_merge
      then update_if_grown
      else if to_lower status.mergeable_state =s codes "unknown"
      then pure (requeue_in (pos (15 * second_ns)))
      else if not (can_attempt_merge status)
      then update_if_grown
      else do
        answer ←
            perform (Call.merge_pr r.state.pr_id (codes "squash"))
              (out.merge_pr r.state.pr_id (codes "squash"))
        after_merge answer

  -- With the answer of shrinkPRShouldClose.
  unfoldable pub close_or_go_on : PrStatus → Option Str → Action W (Call Q) (Answer Result)
  close_or_go_on status none = auto_merge status
  close_or_go_on status (some reason) = close_shrink reason

  unfoldable pub review_shrink : PrStatus → Action W (Call Q) (Answer Result)
  review_shrink status = do reason ← shrink_pr_should_close status; close_or_go_on status reason

  unfoldable pub with_status : Answer PrStatus → Action W (Call Q) (Answer Result)
  with_status (failed e) = pure (failed e)
  with_status (ok status) =
      if not status.is_open
      then close_released status
      else if r.state.pr_direction =s direction_shrink
      then review_shrink status
      else auto_merge status

  unfoldable pub handle_active_pr : Action W (Call Q) (Answer Result)
  handle_active_pr = do answer ← observe (out.get_pr_status r.state.pr_id); with_status answer
