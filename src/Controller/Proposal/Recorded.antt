-- ===== src/Controller/Proposal/Recorded.antt =====
-- What handleNewProposal of internal/controller/resourcequota_controller.go records on the Lease.
use namespace_resizer.Prelude.{
  ◌≡◌, refl, false, [], ◌∷◌, All, All-append, ◌⊎◌, inl, inr, Bool-cases,
}
use namespace_resizer.Prelude.Int.{ℤ, pos, ltb_ℤ, eqb_ℤ}
use namespace_resizer.Text.{Str}
use namespace_resizer.GoMap.{Map}
use namespace_resizer.Quantity.{Resource}
use namespace_resizer.Clock.{is_zero, sub_time}
use namespace_resizer.Sizing.Decide.{direction_string}
use namespace_resizer.Controller.Outside.{
  Answer, ok, failed, file_not_found, other, Call, Outside, Mutation,
}
use namespace_resizer.Controller.Active.{Round, is_grow, mutate}
use namespace_resizer.Controller.Proposal.{
  is_noop, record_new, adopt_existing, announce, after_create, create, create_if_cooled,
  wait_or_create, after_search, handle_new_proposal,
}

-- What is known of the number that an answer brings.
abbrev pub Given : (ℤ → Type 0) → Answer ℤ → Type 0
Given P (ok id) = P id
Given P (failed e) = Unit

module _ {W F Q : Type 0} ⦃rs : Resource Q⦄ (out : Outside W Q) (r : Round F Q) (P : ℤ → Type 0)
    (search : Answer (ℤ × Str)) where
  -- A function that writes the state adopts the pull request that the search has found, with the
  -- direction that the search gave, or records a new one of which P is known.
  abbrev pub IsRecord : Mutation → Type 0
  IsRecord f =
      ((id : ℤ) × (direction : Str) × (search ≡ ok (id, direction))
        × (eqb_ℤ id (pos 0) ≡ false)
        × (f ≡ adopt_existing id direction))
      ⊎ ((id : ℤ) × P id × (f ≡ record_new id r.decision.direction))

  abbrev pub RecordsKnown : Call Q → Type 0
  RecordsKnown (Call.mutate_state ns quota f) = IsRecord f
  RecordsKnown _ = Unit

  announce-RecordsKnown : (m : Map Q) (w : W) → All RecordsKnown (announce out r m w).calls
  unfolding announce
  announce-RecordsKnown [] w = tt
  announce-RecordsKnown (_ ∷ rest) w = (tt, announce-RecordsKnown rest _)

  after_create-RecordsKnown :
      (a : Answer ℤ) (w : W) → Given P a → All RecordsKnown (after_create out r a w).calls
  unfolding after_create mutate
  after_create-RecordsKnown (failed (file_not_found _)) w h = tt
  after_create-RecordsKnown (failed (other _)) w h = tt
  after_create-RecordsKnown (ok id) w h = (inr (id, h, refl), tt)

  module _
      (created : (w : W)
        → Given P
            (out.create_pr r.quota.name r.quota.namespace
              (direction_string r.decision.direction)
              r.annotations
              r.decision.targets
              w).0) where
    create-RecordsKnown : (w : W) → All RecordsKnown (create out r w).calls
    unfolding create
    create-RecordsKnown w =
        let told = announce out r r.decision.targets w in
        All-append RecordsKnown told.calls _ (announce-RecordsKnown r.decision.targets w)
          (tt, after_create-RecordsKnown _ _ (created told.world))

    wait_or_create-RecordsKnown : (w : W) → All RecordsKnown (wait_or_create out r w).calls
    unfolding wait_or_create create_if_cooled
    wait_or_create-RecordsKnown w = elim (Bool-cases (is_grow r.decision.direction)) [
      | inr g ↦ rw g (create-RecordsKnown w)
      | inl g ↦ elim (Bool-cases (is_zero r.state.last_modified)) [
        | inl z ↦ rw (g, z) (create-RecordsKnown w)
        | inr z ↦
            elim (Bool-cases
              (ltb_ℤ (sub_time (out.now w).0 r.state.last_modified) r.policy.grow_cooldown)) [
                | inl t ↦ rw (g, z, t) tt
                | inr t ↦ rw (g, z, t) (create-RecordsKnown (out.now w).1)
              ]
      ]
    ]

    after_search-RecordsKnown :
        (a : Answer (ℤ × Str)) (w : W)
        → search ≡ a
        → All RecordsKnown (after_search out r a w).calls
    unfolding after_search mutate
    after_search-RecordsKnown (failed e) w s = tt
    after_search-RecordsKnown (ok (id, direction)) w s = elim (Bool-cases (eqb_ℤ id (pos 0))) [
      | inr z ↦ rw z (inl (id, direction, s, z, refl), tt)
      | inl z ↦ elim (Bool-cases (is_noop r.quota.spec_hard r.decision.targets)) [
        | inl n ↦ rw (z, n) tt
        | inr n ↦ rw (z, n) (wait_or_create-RecordsKnown w)
      ]
    ]

    pub handle_new_proposal-RecordsKnown :
        (w : W)
        → search ≡ (out.find_open_pr r.quota.namespace r.quota.name w).0
        → All RecordsKnown (handle_new_proposal out r w).calls
    unfolding handle_new_proposal
    handle_new_proposal-RecordsKnown w s =
        after_search-RecordsKnown (out.find_open_pr r.quota.namespace r.quota.name w).0
          (out.find_open_pr r.quota.namespace r.quota.name w).1 s
