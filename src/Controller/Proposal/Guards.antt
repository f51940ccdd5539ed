-- ===== src/Controller/Proposal/Guards.antt =====
-- Which calls handleNewProposal makes, and when (internal/controller/resourcequota_controller.go).
use namespace_resizer.Prelude.{
  ◌≡◌, refl, true, false, [], ◌∷◌, ◌++◌, All, All-append, arith, subst, ◌⊎◌, inl, inr,
  if◌then◌else◌, Bool-cases,
}
use namespace_resizer.Prelude.Int.{ℤ, pos, ltb_ℤ, eqb_ℤ, eq_of_parts}
use namespace_resizer.Text.{Str}
use namespace_resizer.GoMap.{Map}
use namespace_resizer.Quantity.{Resource}
use namespace_resizer.Clock.{Time, is_zero, sub_time}
use namespace_resizer.Lock.State.{State}
use namespace_resizer.Sizing.Decide.{Direction, direction_string}
use namespace_resizer.Controller.Outside.{Answer, ok, failed, file_not_found, other, Call, Outside}
use namespace_resizer.Controller.Active.{Round, is_grow, mutate}
use namespace_resizer.Controller.Proposal.{
  is_shrink, is_noop, record_new, adopt_existing, announce, after_create, create, create_if_cooled,
  wait_or_create, after_search, handle_new_proposal,
}

module _ {W F Q : Type 0} ⦃rs : Resource Q⦄ (out : Outside W Q) (r : Round F Q) where
  -- No cooldown holds a grow back: it is none, nothing was changed yet, or the clock at `read`, the
  -- world that FindOpenPR leaves, is past it.
  abbrev pub Cooled : W → Type 0
  Cooled read =
      (is_grow r.decision.direction ≡ false)
      ⊎ (is_zero r.state.last_modified ≡ true)
      ⊎ (ltb_ℤ (sub_time (out.now read).0 r.state.last_modified) r.policy.grow_cooldown ≡ false)

  -- What the answer of FindOpenPR allows.
  abbrev pub Proposed : W → Answer (ℤ × Str) → Call Q → Type 0
  Proposed read (failed _) call = ⊥
  Proposed read (ok (id, direction)) (Call.create_pr quota ns label annotations targets) =
      (id ≡ pos 0)
      × (quota ≡ r.quota.name)
      × (ns ≡ r.quota.namespace)
      × (label ≡ direction_string r.decision.direction)
      × (targets ≡ r.decision.targets)
      × (is_noop r.quota.spec_hard targets ≡ false)
      × Cooled read
  Proposed read (ok (id, direction)) (Call.mutate_state ns quota f) =
      (ns ≡ r.quota.namespace)
      × (quota ≡ r.quota.name)
      × (((eqb_ℤ id (pos 0) ≡ false) × (f ≡ adopt_existing id direction))
          ⊎ ((id ≡ pos 0) × (new : ℤ) × (f ≡ record_new new r.decision.direction)))
  Proposed read (ok (id, direction)) (Call.event _ _ _) = id ≡ pos 0
  Proposed read (ok (id, direction)) (Call.merge_pr _ _) = ⊥
  Proposed read (ok (id, direction)) (Call.update_pr _ _ _ _ _) = ⊥
  Proposed read (ok (id, direction)) (Call.close_pr _ _) = ⊥

  module _ (read : W) (direction : Str) where
    announce-Proposed :
        (m : Map Q) (w : W) → All (Proposed read (ok (pos 0, direction))) (announce out r m w).calls
    unfolding announce
    announce-Proposed [] w = tt
    announce-Proposed (_ ∷ rest) w = (refl, announce-Proposed rest _)

    after_create-Proposed :
        (a : Answer ℤ) (w : W)
        → All (Proposed read (ok (pos 0, direction))) (after_create out r a w).calls
    unfolding after_create mutate
    after_create-Proposed (failed (file_not_found _)) w = tt
    after_create-Proposed (failed (other _)) w = tt
    after_create-Proposed (ok id) w = ((refl, refl, inr (refl, id, refl)), tt)

    module _ (fresh : is_noop r.quota.spec_hard r.decision.targets ≡ false) where
      create-Proposed :
          (w : W) → Cooled read → All (Proposed read (ok (pos 0, direction))) (create out r w).calls
      unfolding create
      create-Proposed w c =
          All-append (Proposed read (ok (pos 0, direction)))
            (announce out r r.decision.targets w).calls _ (announce-Proposed r.decision.targets w)
            ((refl, refl, refl, refl, refl, fresh, c), after_create-Proposed _ _)

      wait_or_create-Proposed :
          All (Proposed read (ok (pos 0, direction))) (wait_or_create out r read).calls
      unfolding wait_or_create create_if_cooled
      wait_or_create-Proposed = elim (Bool-cases (is_grow r.decision.direction)) [
        | inr g ↦ rw g (create-Proposed read (inl g))
        | inl g ↦ elim (Bool-cases (is_zero r.state.last_modified)) [
          | inl z ↦ rw (g, z) (create-Proposed read (inr (inl z)))
          | inr z ↦
              elim (Bool-cases
                (ltb_ℤ (sub_time (out.now read).0 r.state.last_modified) r.policy.grow_cooldown)) [
                  | inl t ↦ rw (g, z, t) tt
                  | inr t ↦ rw (g, z, t) (create-Proposed (out.now read).1 (inr (inr t)))
                ]
        ]
      ]

  none_found :
      (direction : Str) (w : W)
      → All
          (Proposed w (ok (pos 0, direction)))
          (after_search out r (ok (pos 0, direction)) w).calls
  unfolding after_search
  none_found direction w = elim (Bool-cases (is_noop r.quota.spec_hard r.decision.targets)) [
    | inl n ↦ rw n tt
    | inr n ↦ rw n (wait_or_create-Proposed w direction n)
  ]

  after_search-Proposed :
      (a : Answer (ℤ × Str)) (w : W) → All (Proposed w a) (after_search out r a w).calls
  unfolding after_search mutate
  after_search-Proposed (failed e) w = tt
  after_search-Proposed (ok (id, direction)) w = elim (Bool-cases (eqb_ℤ id (pos 0))) [
    | inr z ↦ rw z ((refl, refl, inl (z, refl)), tt)
    | inl z ↦
        let e : pos 0 ≡ id = ground (arith, eq_of_parts (pos 0) id) in
        subst
          (λ i.
            All (Proposed w (ok (i, direction))) (after_search out r (ok (i, direction)) w).calls)
          e (none_found direction w)
  ]

  -- Every call of handleNewProposal is one that the answer of FindOpenPR allows, whatever the
  -- outside answers. It creates a pull request only if that found none, some target differs from
  -- the quota's spec, and no cooldown holds a grow back by the clock that is read next, and then with the direction and the targets
  -- of the decision. It changes only the state of its own quota: to adopt the pull request that was
  -- found, or to record a new one. It merges, updates and closes nothing. Without an answer it makes
  -- no call.
  pub handle_new_proposal-Proposed :
      (w : W)
      → let (answer, read) = out.find_open_pr r.quota.namespace r.quota.name w in
        All (Proposed read answer) (handle_new_proposal out r w).calls
  unfolding handle_new_proposal
  handle_new_proposal-Proposed w =
      after_search-Proposed (out.find_open_pr r.quota.namespace r.quota.name w).0
        (out.find_open_pr r.quota.namespace r.quota.name w).1

  -- What recording a new pull request does to a state.
  abbrev pub Recorded : ℤ → Direction → Time → State → State → Type 0
  Recorded id direction now s t =
      (t.pr_id ≡ id)
      × (t.pr_direction ≡ direction_string direction)
      × (t.window ≡ s.window)
      × (t.last_modified ≡ s.last_modified)
      × (t.last_shrink ≡ (if is_shrink direction then now else s.last_shrink))
      × (t.last_grow ≡ (if is_shrink direction then s.last_grow else now))

  record_new_lem :
      (id : ℤ) (direction : Direction) (now : Time) (s : State)
      → Recorded id direction now s (record_new id direction now s)
  unfolding record_new
  record_new_lem id direction now s = ground arith

  -- A shrink that FindOpenPR finds no open pull request for, and that is not what the spec has
  -- already, is proposed: after the events comes one call that creates the pull request, and when
  -- that answers with a number, one write that records the number, the direction and the time in
  -- LastShrink, and keeps the rest, whatever state it finds.
  pub proposed_shrink_lem :
      (w : W) (direction : Str) (id : ℤ) (now : Time) (s : State)
      → (out.find_open_pr r.quota.namespace r.quota.name w).0 ≡ ok (pos 0, direction)
      → is_noop r.quota.spec_hard r.decision.targets ≡ false
      → r.decision.direction ≡ Direction.shrink
      → let told =
          announce out r r.decision.targets (out.find_open_pr r.quota.namespace r.quota.name w).1 in
        (out.create_pr r.quota.name r.quota.namespace
            (direction_string r.decision.direction)
            r.annotations
            r.decision.targets
            told.world).0
          ≡ ok id
        → ((handle_new_proposal out r w).calls
            ≡ told.calls
              ++ Call.create_pr r.quota.name r.quota.namespace
                  (direction_string r.decision.direction)
                  r.annotations
                  r.decision.targets
                ∷ Call.mutate_state r.quota.namespace r.quota.name
                    (record_new id r.decision.direction)
                ∷ [])
          × Recorded id r.decision.direction now s (record_new id r.decision.direction now s)
  unfolding handle_new_proposal after_search wait_or_create create after_create mutate
  proposed_shrink_lem w direction id now s e n d c =
      let not_grow : is_grow r.decision.direction ≡ false = rw d refl in
      (simp (e, n, not_grow, c) refl, record_new_lem id r.decision.direction now s)
