-- ===== src/Sizing/Decide/Order.antt =====
-- The random order of a Go map does not reach the decision (internal/sizing/decide.go).
use namespace_resizer.Prelude.{
  ◌≡◌, refl, sym, ap, ◌∙◌, Bool, true, false, Option, none, some, not, List, [], ◌∷◌, arith,
  Bool-cases, inl, inr, if◌then◌else◌,
}
use namespace_resizer.Text.{Str, sort, join_lines}
use namespace_resizer.GoMap.Lines.{lines-cong, sort-lines-Same}
use namespace_resizer.GoMap.{Map, lookup, is_empty, DistinctKeys}
use namespace_resizer.GoMap.Same.{Same, is_empty-Same, every_key, every_key-Same}
use namespace_resizer.Float.{Float64}
use namespace_resizer.Quantity.{Resource}
use namespace_resizer.Clock.{Calendar}
use namespace_resizer.Sizing.Window.History.{is_complete}
use namespace_resizer.Sizing.Decide.Target.{
  Input, target_for, demand, raise_to_peak, raise_to_need, raise_to_min,
}
use namespace_resizer.Sizing.Decide.Gates.{all_complete, shrink_gates}
use namespace_resizer.Sizing.Decide.{
  Candidates, Decision, no_candidates, evaluate, judge, consider, candidates_from, conclude, gated,
  decide, no_decision,
}
use namespace_resizer.Sizing.Decide.Locality.{
  Part, growing, shrinking, raw_part, part, alone, collected_local,
}
use namespace_resizer.Sizing.Decide.Reasons.{
  Side, upward, downward, said, line, no_candidates-said, candidates_from-said,
}
use namespace_resizer.Sizing.Decide.Gates.{Gate}

module _ {F Q : Type 0} ⦃rs : Resource Q⦄ (cal : Calendar) (input : Input F Q) where
  all_complete-every_key :
      (m : Map Q)
      → all_complete cal input m
        ≡ every_key (λ k. is_complete Q cal k input.now input.policy.window_days input.window) m
  unfolding all_complete every_key
  all_complete-every_key [] = refl
  all_complete-every_key ((res, q) ∷ rest) = ground (arith, all_complete-every_key rest)

  shrink_gates-Same : (m n : Map Q) → Same m n → shrink_gates cal input m ≡ shrink_gates cal input n
  unfolding shrink_gates
  shrink_gates-Same m n h =
      rw (all_complete-every_key m, all_complete-every_key n, every_key-Same _ m n h)

module _ {F Q : Type 0} ⦃fl : Float64 F⦄ ⦃rs : Resource Q⦄ (cal : Calendar) (input : Input F Q)
    (other : Map Q) where
  -- The same input with the quota's keys in another order.
  abbrev reordered : Input F Q
  reordered = record input { hard = other }

  judge_same :
      (res : Str) (hard : Q) (used : Option Q) (acc : Candidates Q)
      → judge cal reordered res hard used acc ≡ judge cal input res hard used acc
  unfolding judge evaluate target_for demand raise_to_peak raise_to_need raise_to_min
  judge_same res hard none acc = refl
  judge_same res hard (some used) acc = refl

  consider_same :
      (res : Str) (hard : Q) (acc : Candidates Q)
      → consider cal reordered res hard acc ≡ consider cal input res hard acc
  unfolding consider
  consider_same res hard acc = ground (arith, judge_same res hard (lookup res input.used) acc)

  alone_same :
      (p : Part) (k : Str) (hard : Option Q)
      → alone cal reordered p k hard ≡ alone cal input p k hard
  unfolding alone
  alone_same p k none = refl
  alone_same p k (some hard) = ap (λ c. lookup k (part p c)) (consider_same k hard no_candidates)

  collected-Same :
      (p : Part)
      → DistinctKeys input.hard
      → DistinctKeys other
      → Same input.hard other
      → Same
          (part p (candidates_from cal input input.hard no_candidates))
          (part p (candidates_from cal reordered other no_candidates))
  collected-Same p d e h k =
      collected_local cal input p k d
      ∙ ap (alone cal input p k) (h k)
      ∙ sym (alone_same p k (lookup k other))
      ∙ sym (collected_local cal reordered p k e)

  line_same :
      (p : Side) (k : Str) (hard : Q) → line cal reordered p k hard ≡ line cal input p k hard
  line_same p k hard = ap (said p) (consider_same k hard no_candidates)

  -- The sorted lines of the reason.
  said-Same :
      (p : Side)
      → DistinctKeys input.hard
      → DistinctKeys other
      → Same input.hard other
      → sort (said p (candidates_from cal input input.hard no_candidates))
        ≡ sort (said p (candidates_from cal reordered other no_candidates))
  said-Same p d e h =
      rw
        (
          candidates_from-said cal input p input.hard no_candidates,
          candidates_from-said cal reordered p other no_candidates,
          no_candidates-said Q p,
          lines-cong (line cal reordered p) (line cal input p) (line_same p) other,
        )
        (sort-lines-Same (line cal input p) input.hard other d e h)

-- Two results that differ at most in the order of entries.
pub record Agree {Q : Type 0} (d e : Decision Q) : Type 0 where
  pub direction_eq : d.direction ≡ e.direction
  pub targets_same : Same d.targets e.targets
  pub preview_same : Same d.shrink_preview e.shrink_preview
  pub raw_same : Same d.raw_targets e.raw_targets
  pub blocked_eq : d.blocked_by ≡ e.blocked_by
  pub reason_eq : d.reason ≡ e.reason

module _ {Q : Type 0} where
  gated-Agree :
      (c e : Candidates Q) (gs : List Gate)
      → Same c.shrink_targets e.shrink_targets
      → Same c.raw e.raw
      → sort c.shrink_reasons ≡ sort e.shrink_reasons
      → Agree (gated c gs) (gated e gs)
  unfolding gated
  gated-Agree c e [] h r w = record {
    direction_eq = refl;
    targets_same = h;
    preview_same = h;
    raw_same = r;
    blocked_eq = refl;
    reason_eq = ap join_lines w;
  }
  gated-Agree c e (g ∷ gs) h r w = record {
    direction_eq = refl;
    targets_same = λ k. refl;
    preview_same = h;
    raw_same = r;
    blocked_eq = refl;
    reason_eq = refl;
  }

module _ {F Q : Type 0} ⦃rs : Resource Q⦄ where
  conclude-Agree :
      (cal : Calendar) (input : Input F Q) (c e : Candidates Q)
      → Same c.grow_targets e.grow_targets
      → Same c.shrink_targets e.shrink_targets
      → Same c.raw e.raw
      → sort c.grow_reasons ≡ sort e.grow_reasons
      → sort c.shrink_reasons ≡ sort e.shrink_reasons
      → Agree (conclude cal input c) (conclude cal input e)
  unfolding conclude
  conclude-Agree cal input c e g s r up down = elim (Bool-cases (is_empty e.grow_targets)) [
    | inr h ↦
        rw (is_empty-Same _ _ g, h)
          (record {
            direction_eq = refl;
            targets_same = g;
            preview_same = λ k. refl;
            raw_same = r;
            blocked_eq = refl;
            reason_eq = ap join_lines up;
          })
    | inl h ↦ elim (Bool-cases (is_empty e.shrink_targets)) [
      | inl k ↦
          rw (is_empty-Same _ _ g, h, is_empty-Same _ _ s, k)
            (record {
              direction_eq = refl;
              targets_same = λ k. refl;
              preview_same = λ k. refl;
              raw_same = r;
              blocked_eq = refl;
              reason_eq = refl;
            })
      | inr k ↦
          rw (is_empty-Same _ _ g, h, is_empty-Same _ _ s, k, shrink_gates-Same cal input _ _ s)
            (gated-Agree c e (shrink_gates cal input e.shrink_targets) s r down)
    ]
  ]

unless_off :
    {Q : Type 0} (on : Bool) (c e : Decision Q)
    → Agree c e
    → Agree (if not on then no_decision [] else c) (if not on then no_decision [] else e)
unless_off true c e a = a
unless_off false c e a = record {
  direction_eq = refl;
  targets_same = λ k. refl;
  preview_same = λ k. refl;
  raw_same = λ k. refl;
  blocked_eq = refl;
  reason_eq = refl;
}

module _ {F Q : Type 0} ⦃rs : Resource Q⦄ (cal : Calendar) (input : Input F Q) (other : Map Q) where
  all_complete_same :
      (m : Map Q) → all_complete cal (record input { hard = other }) m ≡ all_complete cal input m
  unfolding all_complete
  all_complete_same [] = refl
  all_complete_same ((res, q) ∷ rest) = ground (arith, all_complete_same rest)

  conclude_same :
      (c : Candidates Q) → conclude cal (record input { hard = other }) c ≡ conclude cal input c
  unfolding conclude shrink_gates
  conclude_same c = rw (all_complete_same c.shrink_targets)

-- With every key once in both, two orders of the quota's keys give the same decision: the same
-- direction, the same blocking gates, the same text of the reason, and the same target, preview and
-- raw target for every key.
pub decide_order :
    {F Q : Type 0} ⦃fl : Float64 F⦄ ⦃rs : Resource Q⦄ (cal : Calendar) (input : Input F Q)
    (other : Map Q)
    → DistinctKeys input.hard
    → DistinctKeys other
    → Same input.hard other
    → Agree (decide cal input) (decide cal (record input { hard = other }))
unfolding decide
decide_order cal input other d e h =
    let c = candidates_from cal input input.hard no_candidates in
    let c' = candidates_from cal (record input { hard = other }) other no_candidates in
    let same = λ (p : Part). collected-Same cal input other p d e h in
    unless_off input.policy.enabled (conclude cal input c)
      (conclude cal (record input { hard = other }) c')
      (rw (conclude_same cal input other c') (
        conclude-Agree cal input c c' (same growing) (same shrinking) (same raw_part)
          (said-Same cal input other upward d e h) (said-Same cal input other downward d e h)))
