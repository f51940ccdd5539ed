-- ===== src/Controller/Active/Guards.antt =====
-- Which calls handleActivePR makes, and when (internal/controller/resourcequota_controller.go).
use namespace_resizer.Prelude.{◌≡◌, refl, Bool, true, false, All, arith, ◌⊎◌, inl, inr, Bool-cases}
use namespace_resizer.Prelude.Int.{ltb_ℤ}
use namespace_resizer.Text.{Str, codes, ◌=s◌}
use namespace_resizer.Git.{direction_shrink}
use namespace_resizer.Clock.{is_zero, sub_time}
use namespace_resizer.Controller.Outside.{Answer, ok, failed, Done, PrStatus, Call, Outside}
use namespace_resizer.Controller.Active.{
  Round, can_attempt_merge, opted_out, is_grow, mutate, should_auto_merge, shrink_pr_should_close,
  close_released, after_close, close_shrink, send_update, update_if_grown, after_merge, auto_merge,
  close_or_go_on, review_shrink, with_status, handle_active_pr, superseded_comment, expired_comment,
}

module _ {W F Q : Type 0} (out : Outside W Q) (r : Round F Q) where
  -- The pull request at hand, as the lease records it, is a shrink.
  abbrev recorded_shrink : Bool
  recorded_shrink = r.state.pr_direction =s direction_shrink

  -- The status, which was read at a world before `read`, allows a call.
  abbrev pub Permitted : W → PrStatus → Call Q → Type 0
  Permitted read status (Call.merge_pr id method) =
      (id ≡ r.state.pr_id)
      × (method ≡ codes "squash")
      × (status.is_open ≡ true)
      × (can_attempt_merge status ≡ true)
      × (r.enable_auto_merge ≡ true)
      × (recorded_shrink ≡ false)
      × (opted_out r.annotations ≡ false)
  Permitted read status (Call.update_pr id quota ns annotations targets) =
      (id ≡ r.state.pr_id)
      × (quota ≡ r.quota.name)
      × (ns ≡ r.quota.namespace)
      × (targets ≡ r.decision.targets)
      × (status.is_open ≡ true)
      × (is_grow r.decision.direction ≡ true)
      × (recorded_shrink ≡ false)
  Permitted read status (Call.close_pr id reason) =
      (id ≡ r.state.pr_id)
      × (status.is_open ≡ true)
      × (recorded_shrink ≡ true)
      × ((is_grow r.decision.direction ≡ true)
          ⊎ ((is_zero status.created_at ≡ false)
              × (ltb_ℤ r.policy.shrink_pr_ttl (sub_time (out.now read).0 status.created_at)
                  ≡ true)))
  Permitted read status (Call.mutate_state ns quota f) =
      (ns ≡ r.quota.namespace) × (quota ≡ r.quota.name)
  Permitted read status (Call.create_pr _ _ _ _ _) = ⊥
  Permitted read status (Call.event _ _ _) = ⊥

  module _ (read : W) (status : PrStatus) (opened : status.is_open ≡ true) where
    update_if_grown-Permitted :
        (w : W)
        → recorded_shrink ≡ false
        → All (Permitted read status) (update_if_grown out r w).calls
    unfolding update_if_grown send_update
    update_if_grown-Permitted w h = elim (Bool-cases (is_grow r.decision.direction)) [
      | inl g ↦ rw g ((refl, refl, refl, refl, opened, g, h), tt)
      | inr g ↦ rw g tt
    ]

    after_merge-Permitted :
        (a : Answer Done) (w : W)
        → recorded_shrink ≡ false
        → All (Permitted read status) (after_merge out r a w).calls
    unfolding after_merge mutate
    after_merge-Permitted (failed e) w h = update_if_grown-Permitted w h
    after_merge-Permitted (ok d) w h = ((refl, refl), tt)

    auto_merge-Permitted :
        (w : W)
        → recorded_shrink ≡ false
        → All (Permitted read status) (auto_merge out r status w).calls
    unfolding auto_merge should_auto_merge
    auto_merge-Permitted w h = ground (
      arith,
      update_if_grown-Permitted w h,
      after_merge-Permitted (out.merge_pr r.state.pr_id (codes "squash") w).0
          (out.merge_pr r.state.pr_id (codes "squash") w).1 h,
    )

    after_close-Permitted :
        (a : Answer Done) (w : W) → All (Permitted read status) (after_close out r a w).calls
    unfolding after_close mutate
    after_close-Permitted (failed e) w = tt
    after_close-Permitted (ok d) w = ((refl, refl), tt)

    -- Why a shrink is closed.
    abbrev Closable : Type 0
    Closable =
        (is_grow r.decision.direction ≡ true)
        ⊎ ((is_zero status.created_at ≡ false)
            × (ltb_ℤ r.policy.shrink_pr_ttl (sub_time (out.now read).0 status.created_at) ≡ true))

    close_shrink-Permitted :
        (reason : Str) (w : W)
        → recorded_shrink ≡ true
        → Closable
        → All (Permitted read status) (close_shrink out r reason w).calls
    unfolding close_shrink
    close_shrink-Permitted reason w h why = (
      (refl, opened, h, why),
      after_close-Permitted (out.close_pr r.state.pr_id reason w).0
          (out.close_pr r.state.pr_id reason w).1,
    )

    -- A shrink that is left open gets no call.
    left_open-Permitted :
        (w : W)
        → recorded_shrink ≡ true
        → is_grow r.decision.direction ≡ false
        → All (Permitted read status) (auto_merge out r status w).calls
    unfolding auto_merge should_auto_merge update_if_grown
    left_open-Permitted w h g = ground arith

    review_shrink-Permitted :
        recorded_shrink ≡ true → All (Permitted read status) (review_shrink out r status read).calls
    unfolding review_shrink shrink_pr_should_close close_or_go_on
    review_shrink-Permitted h = elim (Bool-cases (is_grow r.decision.direction)) [
      | inl g ↦ rw g (close_shrink-Permitted (superseded_comment r.decision.reason) read h (inl g))
      | inr g ↦ elim (Bool-cases (is_zero status.created_at)) [
        | inl z ↦ rw (g, z) (left_open-Permitted read h g)
        | inr z ↦
            elim (Bool-cases
              (ltb_ℤ r.policy.shrink_pr_ttl (sub_time (out.now read).0 status.created_at))) [
                | inl t ↦
                    rw (g, z, t)
                      (close_shrink-Permitted (expired_comment r.policy.shrink_pr_ttl)
                        (out.now read).1 h (inr (z, t)))
                | inr t ↦ rw (g, z, t) (left_open-Permitted (out.now read).1 h g)
              ]
      ]
    ]

  with_status-Permitted :
      (status : PrStatus) (read : W)
      → All (Permitted read status) (with_status out r (ok status) read).calls
  unfolding with_status close_released mutate
  with_status-Permitted status read = elim (Bool-cases status.is_open) [
    | inr c ↦ simp c ((refl, refl), tt)
    | inl o ↦ elim (Bool-cases recorded_shrink) [
      | inl s ↦ simp (o, s) (review_shrink-Permitted read status o s)
      | inr s ↦ simp (o, s) (auto_merge-Permitted read status o read s)
    ]
  ]

  -- What the answer of GetPRStatus allows: an error allows nothing.
  abbrev pub Allowed : W → Answer PrStatus → Call Q → Type 0
  Allowed read (ok status) call = Permitted read status call
  Allowed read (failed _) call = ⊥

  answered-Allowed : (a : Answer PrStatus) (w : W) → All (Allowed w a) (with_status out r a w).calls
  unfolding with_status
  answered-Allowed (ok status) w = with_status-Permitted status w
  answered-Allowed (failed e) w = tt

  -- Every call of handleActivePR is one that the status of its pull request allows, whatever the
  -- answers of the outside are. It merges, by squash, only the recorded pull request, and only
  -- if it is open, ready to merge, not recorded as a shrink, with auto-merge on and not opted out.
  -- It updates only an open one that is not recorded as a shrink, on a grow decision and with the
  -- targets of that. It closes only an open one that is recorded as a shrink, on a grow
  -- decision or when the clock, read next after the status, is past the TTL. It changes only the state of its own
  -- quota, creates no pull request and sends no event. Without a status it makes no call.
  pub handle_active_pr-Allowed :
      (w : W)
      → let (answer, read) = out.get_pr_status r.state.pr_id w in
        All (Allowed read answer) (handle_active_pr out r w).calls
  unfolding handle_active_pr
  handle_active_pr-Allowed w =
      answered-Allowed (out.get_pr_status r.state.pr_id w).0 (out.get_pr_status r.state.pr_id w).1
