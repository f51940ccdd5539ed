-- ===== src/Controller/Active/Releases.antt =====
-- How handleActivePR ends a pull request (internal/controller/resourcequota_controller.go).
use namespace_resizer.Prelude.{
  ◌≡◌, refl, Bool, true, false, not, ◌&&◌, ◌||◌, [], ◌∷◌, arith, ◌⊎◌, inl, inr, if◌then◌else◌,
}
use namespace_resizer.Prelude.Int.{pos}
use namespace_resizer.Text.{Str, codes, ◌=s◌}
use namespace_resizer.Text.Equality.{eq_of_=s}
use namespace_resizer.Git.{direction_shrink}
use namespace_resizer.Clock.{Time}
use namespace_resizer.Lock.State.{State}
use namespace_resizer.Controller.Outside.{
  Answer, ok, done, PrStatus, mergeable_state_clean, mergeable_state_blocked, Call, Outside,
}
use namespace_resizer.Controller.Active.{
  Round, can_attempt_merge, opted_out, mutate, should_auto_merge, close_released, after_merge,
  auto_merge, with_status, handle_active_pr, to_lower, release_closed, release_merged, requeue_now,
  or_error,
}

module _ {W F Q : Type 0} (out : Outside W Q) (r : Round F Q) where
  -- What releasing a closed pull request does to a state.
  abbrev pub Released : PrStatus → Time → State → State → Type 0
  Released status now s t =
      (t.pr_id ≡ pos 0)
      × (t.pr_direction ≡ [])
      × (t.window ≡ s.window)
      × (t.last_modified ≡ (if status.is_merged then now else s.last_modified))
      × (t.last_shrink ≡ (if s.pr_direction =s direction_shrink then now else s.last_shrink))
      × (t.last_grow ≡ (
          if status.is_merged && not (s.pr_direction =s direction_shrink)
          then now
          else s.last_grow))

  release_closed_lem :
      (status : PrStatus) (now at : Time) (s : State)
      → Released status now s (release_closed status now at s)
  unfolding release_closed
  release_closed_lem status now at s = ground arith

  -- A run of handleActivePR, when GetPRStatus has answered.
  answered :
      (w : W) (a : Answer PrStatus)
      → (out.get_pr_status r.state.pr_id w).0 ≡ a
      → handle_active_pr out r w ≡ with_status out r a (out.get_pr_status r.state.pr_id w).1
  unfolding handle_active_pr
  answered w a e = rw e refl

  -- A pull request that GitHub reports as closed or merged is released by one write to the state
  -- of its quota, and the reconciler comes back at once, unless the write fails, whose error
  -- is returned. The write frees the lock and keeps the window, whatever state it finds. A merge
  -- sets the last change to the time of the clock, and LastShrink or LastGrow by the direction in the
  -- state; a shrink that was closed without a merge sets LastShrink, and nothing else moves a time.
  pub closed_pr_lem :
      (w : W) (status : PrStatus) (at : Time) (s : State)
      → (out.get_pr_status r.state.pr_id w).0 ≡ ok status
      → status.is_open ≡ false
      → let w' = (out.get_pr_status r.state.pr_id w).1 in
        let now = (out.now w').0 in
        let f = release_closed status now in
        let run = handle_active_pr out r w in
        (run.calls ≡ Call.mutate_state r.quota.namespace r.quota.name f ∷ [])
        × (run.value
            ≡ or_error
                (out.mutate_state r.quota.namespace r.quota.name f (out.now w').1).0
                requeue_now)
        × Released status now s (f at s)
  unfolding with_status close_released mutate
  closed_pr_lem w status at s e h = rw (answered w (ok status) e) (
      simp h (
        refl,
        refl,
        release_closed_lem status (out.now (out.get_pr_status r.state.pr_id w).1).0 at s,
      ))

  -- A state of a pull request that can be merged is not "unknown".
  ready_known :
      (m : Str)
      → (m ≡ codes "clean") ⊎ (m ≡ codes "blocked")
      → to_lower m =s codes "unknown" ≡ false
  unfolding to_lower ◌=s◌
  ready_known m (inl e) = rw e refl
  ready_known m (inr e) = rw e refl

  clean_or_blocked :
      (mergeable clean blocked checked : Bool)
      → (mergeable && (clean || (blocked && checked))) ≡ true
      → (clean ≡ true) ⊎ (blocked ≡ true)
  clean_or_blocked mergeable clean blocked checked h = ground arith

  ready_state :
      (status : PrStatus)
      → can_attempt_merge status ≡ true
      → (status.mergeable_state ≡ codes "clean") ⊎ (status.mergeable_state ≡ codes "blocked")
  unfolding can_attempt_merge
  ready_state status h =
      elim (clean_or_blocked status.mergeable (status.mergeable_state =s mergeable_state_clean)
        (status.mergeable_state =s mergeable_state_blocked) _ h) [
          | inl c ↦ inl (eq_of_=s status.mergeable_state mergeable_state_clean c)
          | inr b ↦ inr (eq_of_=s status.mergeable_state mergeable_state_blocked b)
        ]

  -- What releasing a pull request that was merged does to a state.
  abbrev pub Merged : Time → State → State → Type 0
  Merged now s t =
      (t.pr_id ≡ pos 0)
      × (t.pr_direction ≡ [])
      × (t.window ≡ s.window)
      × (t.last_modified ≡ now)
      × (t.last_grow ≡ now)
      × (t.last_shrink ≡ s.last_shrink)

  release_merged_lem : (now at : Time) (s : State) → Merged now s (release_merged now at s)
  unfolding release_merged
  release_merged_lem now at s = (refl, refl, refl, refl, refl, refl)

  -- An open pull request that is ready, with auto-merge on for it and not recorded as a shrink, is
  -- merged by one call. If GitHub takes the merge, the next call frees the lock and sets the last
  -- change and LastGrow to the time of the clock, and keeps the rest, whatever state it finds; and
  -- the reconciler comes back at once,
  -- unless that write fails, whose error is returned.
  pub merged_pr_lem :
      (w : W) (status : PrStatus) (at : Time) (s : State)
      → (out.get_pr_status r.state.pr_id w).0 ≡ ok status
      → status.is_open ≡ true
      → r.enable_auto_merge ≡ true
      → r.state.pr_direction =s direction_shrink ≡ false
      → opted_out r.annotations ≡ false
      → can_attempt_merge status ≡ true
      → (out.merge_pr r.state.pr_id (codes "squash") (out.get_pr_status r.state.pr_id w).1).0
        ≡ ok done
      → let w' =
          (out.merge_pr r.state.pr_id (codes "squash") (out.get_pr_status r.state.pr_id w).1).1 in
        let f = release_merged (out.now w').0 in
        let run = handle_active_pr out r w in
        (run.calls
          ≡ Call.merge_pr r.state.pr_id (codes "squash")
            ∷ Call.mutate_state r.quota.namespace r.quota.name f
            ∷ [])
        × (run.value
            ≡ or_error
                (out.mutate_state r.quota.namespace r.quota.name f (out.now w').1).0
                requeue_now)
        × Merged (out.now w').0 s (f at s)
  unfolding with_status auto_merge should_auto_merge after_merge mutate
  merged_pr_lem w status at s e o on d out_of ready m = rw (answered w (ok status) e) (
      simp
        (o, d, on, out_of, ready_known status.mergeable_state (ready_state status ready), ready, m)
        (refl, refl, release_merged_lem _ at s))
