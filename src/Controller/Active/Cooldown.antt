-- ===== src/Controller/Active/Cooldown.antt =====
-- A shrink that was closed is not proposed again at once: handleActivePR
-- (internal/controller/resourcequota_controller.go), the Lease (internal/lock/state.go) and Decide
-- (internal/sizing/decide.go) together.
use namespace_resizer.Prelude.{
  ◌≡◌, ◌≢◌, refl, sym, subst, Bool-cases, ◌<◌, ap, ◌∙◌, true, false, arith, List, [], ◌∷◌, ◌⊎◌, inl,
  inr,
}
use namespace_resizer.Prelude.Int.{pos, IsInt64, ltb_ℤ}
use namespace_resizer.Float.{Float64}
use namespace_resizer.Quantity.{Resource}
use namespace_resizer.Clock.{
  Time, Calendar, IsCalendar, is_zero, sub_time, day_of, days_of_four_digits,
}
use namespace_resizer.Text.{◌=s◌}
use namespace_resizer.Git.{direction_shrink}
use namespace_resizer.Controller.Outside.{Outside, Call, PrStatus, ok, done}
use namespace_resizer.Lock.State.{State, Lease, state_from_lease, apply_state_to_lease}
use namespace_resizer.Lock.State.RoundTrip.{IsWritable, seconds, rounded, state-apply}
use namespace_resizer.Sizing.Decide.{Direction, decide}
use namespace_resizer.Sizing.Decide.Target.{Input}
use namespace_resizer.Sizing.Decide.Gates.{within}
use namespace_resizer.Sizing.Decide.Outcome.{decide-shrink_iff}
use namespace_resizer.Controller.Active.{
  Round, is_grow, release_shrink, release_closed, superseded_comment, expired_comment, with_status,
  close_released, review_shrink, shrink_pr_should_close, close_or_go_on, close_shrink, after_close,
  mutate, handle_active_pr,
}

-- What the calls of a run leave on the Lease of the quota: MutateState writes what its function makes
-- of the state on it.
abbrev pub written : {Q : Type 0} → Calendar → Time → List (Call Q) → Lease → Lease
written cal at [] lease = lease
written cal at (Call.mutate_state ns quota f ∷ rest) lease =
    written cal at rest (apply_state_to_lease cal (f at (state_from_lease cal lease)) lease)
written cal at (Call.merge_pr _ _ ∷ rest) lease = written cal at rest lease
written cal at (Call.create_pr _ _ _ _ _ ∷ rest) lease = written cal at rest lease
written cal at (Call.update_pr _ _ _ _ _ ∷ rest) lease = written cal at rest lease
written cal at (Call.close_pr _ _ ∷ rest) lease = written cal at rest lease
written cal at (Call.event _ _ _ ∷ rest) lease = written cal at rest lease

module _ {W F Q : Type 0} (out : Outside W Q) (r : Round F Q) where
  -- With a status that was read before `read`: the recorded shrink was closed or merged on GitHub, or
  -- is closed by the controller, for a shortage or for its age; and what the clock then says.
  abbrev pub Closing : PrStatus → W → Time → Type 0
  Closing status read closed_at =
      ((status.is_open ≡ false) × (closed_at ≡ (out.now read).0))
      ⊎ ((status.is_open ≡ true)
          × (is_grow r.decision.direction ≡ true)
          × let (answer, after) =
              out.close_pr r.state.pr_id (superseded_comment r.decision.reason) read in
            (answer ≡ ok done) × (closed_at ≡ (out.now after).0))
      ⊎ ((status.is_open ≡ true)
          × (is_grow r.decision.direction ≡ false)
          × (is_zero status.created_at ≡ false)
          × (ltb_ℤ r.policy.shrink_pr_ttl (sub_time (out.now read).0 status.created_at) ≡ true)
          × let (answer, after) =
              out.close_pr r.state.pr_id (expired_comment r.policy.shrink_pr_ttl)
                (out.now read).1 in
            (answer ≡ ok done) × (closed_at ≡ (out.now after).0))

  -- The state that one write leaves: the lock is free, and the shrink closed at a time.
  abbrev Freed : Calendar → Lease → Time → Lease → Type 0
  Freed cal lease closed_at after =
      (s : State) × (after ≡ apply_state_to_lease cal s lease)
      × (s.pr_id ≡ pos 0)
      × (s.last_shrink ≡ closed_at)
      × IsWritable s

  release_closed-Freed :
      (cal : Calendar) (at : Time) (lease : Lease) (status : PrStatus) (now : Time)
      → ((state_from_lease cal lease).pr_direction =s direction_shrink) ≡ true
      → IsWritable (state_from_lease cal lease)
      → day_of now < days_of_four_digits
      → let s = release_closed status now at (state_from_lease cal lease) in
        (s.pr_id ≡ pos 0) × (s.last_shrink ≡ now) × IsWritable s
  unfolding release_closed
  release_closed-Freed cal at lease status now held w dated =
      let zero_fits : IsInt64 (pos 0) = ground arith in
      elim (Bool-cases status.is_merged) [
        | inl m ↦
            rw (m, held)
              (
                refl,
                refl,
                record { id = zero_fits; modified = dated; grow = w.grow; shrink = dated },
              )
        | inr m ↦
            rw (m, held)
              (
                refl,
                refl,
                record { id = zero_fits; modified = w.modified; grow = w.grow; shrink = dated },
              )
      ]

  release_shrink-Freed :
      (cal : Calendar) (at : Time) (lease : Lease) (now : Time)
      → IsWritable (state_from_lease cal lease)
      → day_of now < days_of_four_digits
      → Freed cal lease now
          (apply_state_to_lease cal (release_shrink now at (state_from_lease cal lease)) lease)
  unfolding release_shrink
  release_shrink-Freed cal at lease now w dated =
      let zero_fits : IsInt64 (pos 0) = ground arith in
      (
        release_shrink now at (state_from_lease cal lease),
        refl,
        refl,
        refl,
        record { id = zero_fits; modified = w.modified; grow = w.grow; shrink = dated },
      )

  closing_lem :
      (cal : Calendar) (at : Time) (lease : Lease) (status : PrStatus) (read : W) (closed_at : Time)
      → (r.state.pr_direction =s direction_shrink) ≡ true
      → ((state_from_lease cal lease).pr_direction =s direction_shrink) ≡ true
      → IsWritable (state_from_lease cal lease)
      → day_of closed_at < days_of_four_digits
      → Closing status read closed_at
      → Freed cal lease closed_at (written cal at (with_status out r (ok status) read).calls lease)
  unfolding with_status close_released review_shrink shrink_pr_should_close close_or_go_on
      close_shrink after_close mutate
  closing_lem cal at lease status read closed_at recorded held w dated (inl (shut, e)) =
      let now = (out.now read).0 in
      let freed =
        release_closed-Freed cal at lease status now held w
          (subst (λ t. day_of t < days_of_four_digits) e dated) in
      simp shut (
        release_closed status now at (state_from_lease cal lease),
        refl,
        freed.0,
        freed.1 ∙ sym e,
        freed.2,
      )
  closing_lem cal at lease status read closed_at recorded held w dated (inr (inl c)) =
      rw (c.0, recorded, c.1, c.2.0, sym c.2.1)
        (release_shrink-Freed cal at lease closed_at w dated)
  closing_lem cal at lease status read closed_at recorded held w dated (inr (inr c)) =
      rw (c.0, recorded, c.1, c.2, c.3, c.4.0, sym c.4.1)
        (release_shrink-Freed cal at lease closed_at w dated)

module _ {W F Q : Type 0} ⦃fl : Float64 F⦄ ⦃rs : Resource Q⦄ where
  -- With the texts of times as package time documents them, and times up to the year 9999: when
  -- handleActivePR finds that the recorded shrink was closed or merged on GitHub, or closes it itself
  -- for a shortage or for its age, what its calls leave on the Lease holds no lock, and the whole second
  -- of that time as LastShrink. A later decision that takes LastShrink from there is no shrink while
  -- the shrink cooldown runs, measured from that second.
  pub closed_shrink_waits :
      (cal : Calendar) (laws : IsCalendar cal) (out : Outside W Q) (r : Round F Q) (w : W)
      (at : Time) (lease : Lease) (status : PrStatus) (closed_at : Time) (input : Input F Q)
      → (out.get_pr_status r.state.pr_id w).0 ≡ ok status
      → (r.state.pr_direction =s direction_shrink) ≡ true
      → ((state_from_lease cal lease).pr_direction =s direction_shrink) ≡ true
      → IsWritable (state_from_lease cal lease)
      → day_of closed_at < days_of_four_digits
      → Closing out r status (out.get_pr_status r.state.pr_id w).1 closed_at
      → let left = state_from_lease cal (written cal at (handle_active_pr out r w).calls lease) in
        input.last_shrink ≡ left.last_shrink
        → within input.now (seconds closed_at) input.policy.shrink_cooldown ≡ true
        → (left.pr_id ≡ pos 0)
          × (left.last_shrink ≡ seconds closed_at)
          × ((decide cal input).direction ≢ Direction.shrink)
  unfolding handle_active_pr rounded
  closed_shrink_waits cal laws out r w at lease status closed_at input e recorded held writable
        dated closing from cooling =
      let read = (out.get_pr_status r.state.pr_id w).1 in
      let (s, after, free, stamped, fits) =
        closing_lem out r cal at lease status read closed_at recorded held writable dated closing in
      let left_as : state_from_lease cal (written cal at (handle_active_pr out r w).calls lease)
          ≡ rounded s =
        rw e (ap (state_from_lease cal) after ∙ state-apply cal laws s lease fits) in
      let stored : (state_from_lease cal
            (written cal at (handle_active_pr out r w).calls lease)).last_shrink
          ≡ seconds closed_at =
        ap (λ t. t.last_shrink) left_as ∙ ap seconds stamped in
      (
        ap (λ t. t.pr_id) left_as ∙ free,
        stored,
        λ d.
            let cooled = ((decide-shrink_iff cal input).0 d).3.cooled_down in
            let from_close : input.last_shrink ≡ seconds closed_at = from ∙ stored in cc,
      )
