-- ===== src/Controller/Dispatch/Guards.antt =====
-- Which calls the end of Reconcile makes, and when
-- (internal/controller/resourcequota_controller.go).
use namespace_resizer.Prelude.{
  ◌≡◌, Bool, true, false, ◌&&◌, All, All-map, arith, ◌⊎◌, inl, inr, Bool-cases,
}
use namespace_resizer.Prelude.Int.{ℤ, pos, eqb_ℤ}
use namespace_resizer.Text.{Str}
use namespace_resizer.Quantity.{Resource}
use namespace_resizer.Sizing.Decide.{direction_string}
use namespace_resizer.Controller.Outside.{Answer, ok, failed, Call, Outside, PrStatus}
use namespace_resizer.Controller.Active.{Round}
use namespace_resizer.Controller.Active.Guards.{Allowed, handle_active_pr-Allowed}
use namespace_resizer.Controller.Active.{handle_active_pr}
use namespace_resizer.Controller.Proposal.{handle_new_proposal}
use namespace_resizer.Controller.Proposal.{is_shrink}
use namespace_resizer.Controller.Proposal.Guards.{Proposed, handle_new_proposal-Proposed}
use namespace_resizer.Controller.Dispatch.{act, is_wanted}

module _ {W F Q : Type 0} ⦃rs : Resource Q⦄ (out : Outside W Q) (scan_failed : Bool)
    (r : Round F Q) where
  -- No pull request is recorded.
  abbrev pub unlocked : Bool
  unlocked = eqb_ℤ r.state.pr_id (pos 0)

  -- What the lock, the decision and the event scan allow.
  abbrev pub Dispatched : Call Q → Type 0
  Dispatched (Call.merge_pr id _) = (unlocked ≡ false) × (id ≡ r.state.pr_id)
  Dispatched (Call.update_pr id _ _ _ targets) =
      (unlocked ≡ false) × (id ≡ r.state.pr_id) × (targets ≡ r.decision.targets)
  Dispatched (Call.close_pr id _) = (unlocked ≡ false) × (id ≡ r.state.pr_id)
  Dispatched (Call.create_pr _ _ label _ targets) =
      (unlocked ≡ true)
      × (is_wanted r.decision.direction ≡ true)
      × (label ≡ direction_string r.decision.direction)
      × (targets ≡ r.decision.targets)
      × ((is_shrink r.decision.direction ≡ false) ⊎ (scan_failed ≡ false))
  Dispatched (Call.mutate_state ns quota _) = (ns ≡ r.quota.namespace) × (quota ≡ r.quota.name)
  Dispatched (Call.event _ _ _) = unlocked ≡ true

  of_Allowed :
      unlocked ≡ false
      → (read : W) (a : Answer PrStatus) (c : Call Q) → Allowed out r read a c
      → Dispatched c
  of_Allowed h read (failed _) c p = absurd p
  of_Allowed h read (ok status) (Call.merge_pr id method) p = (h, p.0)
  of_Allowed h read (ok status) (Call.update_pr id quota ns annotations targets) p = (h, p.0, p.3)
  of_Allowed h read (ok status) (Call.close_pr id reason) p = (h, p.0)
  of_Allowed h read (ok status) (Call.mutate_state ns quota f) p = p
  of_Allowed h read (ok status) (Call.create_pr _ _ _ _ _) p = absurd p
  of_Allowed h read (ok status) (Call.event _ _ _) p = absurd p

  of_Proposed :
      unlocked ≡ true
      → is_wanted r.decision.direction ≡ true
      → (is_shrink r.decision.direction ≡ false) ⊎ (scan_failed ≡ false)
      → (read : W) (a : Answer (ℤ × Str)) (c : Call Q) → Proposed out r read a c
      → Dispatched c
  of_Proposed u wanted known read (failed _) c p = absurd p
  of_Proposed u wanted known read (ok _) (Call.create_pr _ _ _ _ _) p = (u, wanted, p.3, p.4, known)
  of_Proposed u wanted known read (ok _) (Call.mutate_state _ _ _) p = (p.0, p.1)
  of_Proposed u wanted known read (ok _) (Call.event _ _ _) p = u
  of_Proposed u wanted known read (ok _) (Call.merge_pr _ _) p = absurd p
  of_Proposed u wanted known read (ok _) (Call.update_pr _ _ _ _ _) p = absurd p
  of_Proposed u wanted known read (ok _) (Call.close_pr _ _) p = absurd p

  -- The two ways to act.
  locked : (w : W) → unlocked ≡ false → All Dispatched (handle_active_pr out r w).calls
  locked w h =
      let (answer, read) = out.get_pr_status r.state.pr_id w in
      All-map (Allowed out r read answer) Dispatched (handle_active_pr out r w).calls
        (of_Allowed h read answer) (handle_active_pr-Allowed out r w)

  proposing :
      (w : W)
      → unlocked ≡ true
      → is_wanted r.decision.direction ≡ true
      → (is_shrink r.decision.direction ≡ false) ⊎ (scan_failed ≡ false)
      → All Dispatched (handle_new_proposal out r w).calls
  proposing w u wanted known =
      let (answer, read) = out.find_open_pr r.quota.namespace r.quota.name w in
      All-map (Proposed out r read answer) Dispatched (handle_new_proposal out r w).calls
        (of_Proposed u wanted known read answer) (handle_new_proposal-Proposed out r w)

  shrink_known :
      is_shrink r.decision.direction && scan_failed ≡ false
      → (is_shrink r.decision.direction ≡ false) ⊎ (scan_failed ≡ false)
  shrink_known h = ground arith

  -- After the decision, the reconciler makes only calls that the lock, the decision and the event scan
  -- allow, whatever the outside answers. While a pull request is recorded, it proposes nothing and
  -- sends no event; without one it merges, updates and closes nothing. It merges, updates and closes only
  -- the recorded pull request, and updates it with the targets of the decision. It creates only what
  -- was decided: the direction and the targets of the decision, that is not none, and never a shrink after a
  -- failed event scan. It changes only the state of its own quota.
  pub act-Dispatched : (w : W) → All Dispatched (act out scan_failed r w).calls
  unfolding act
  act-Dispatched w = elim (Bool-cases unlocked) [
    | inr h ↦ rw h (locked w h)
    | inl h ↦ elim (Bool-cases (is_shrink r.decision.direction && scan_failed)) [
      | inl k ↦ rw (h, k) tt
      | inr k ↦ elim (Bool-cases (is_wanted r.decision.direction)) [
        | inl d ↦ rw (h, k, d) (proposing w h d (shrink_known k))
        | inr d ↦ rw (h, k, d) tt
      ]
    ]
  ]
