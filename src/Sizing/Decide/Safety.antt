-- ===== src/Sizing/Decide/Safety.antt =====
-- No decision takes away what a namespace uses, and no shrink exceeds its step
-- (internal/sizing/decide.go).
use namespace_resizer.Prelude.{◌≡◌, refl, sym, subst, none, some, arith, Ordering}
use namespace_resizer.Prelude.Int.{ℤ, pos, negsuc, ◌≤ℤ◌}
use namespace_resizer.Text.{Str}
use namespace_resizer.GoMap.{lookup}
use namespace_resizer.Float.{Float64, IsFloat64, exact_limit}
use namespace_resizer.Quantity.{Format, Resource, IsResource}
use namespace_resizer.Clock.{Calendar}
use namespace_resizer.Sizing.Policy.{Policy, headroom_for}
use namespace_resizer.Sizing.Quantize.{quantize}
use namespace_resizer.Sizing.Quantize.Rounding.{quantize_lem}
use namespace_resizer.Sizing.Decide.Target.{Input, target_for}
use namespace_resizer.Sizing.Decide.Locality.{Part, growing, shrinking, raw_part, part, alone}
use namespace_resizer.Text.Equality.{=s_refl}
use namespace_resizer.GoMap.Laws.{lookup-insert}
use namespace_resizer.Sizing.Decide.{
  Candidates, no_candidates, propose_grow, propose_shrink, weigh, evaluate, judge, consider,
  cap_step, step_floor,
}

module _ {Q : Type 0} ⦃rs : Resource Q⦄ (k : Str) (hard qty : Q) (why : Str)
    (acc : Candidates Q) where
  propose_grow_inv :
      {q : Q}
      → lookup k acc.grow_targets ≡ none
      → lookup k (propose_grow k hard qty why acc).grow_targets ≡ some q
      → (q ≡ qty) × (rs.cmp qty hard ≡ Ordering.gt)
  unfolding propose_grow
  propose_grow_inv e h = ground (arith, lookup-insert k k qty acc.grow_targets, =s_refl k)

  propose_shrink_inv :
      {q : Q}
      → lookup k acc.shrink_targets ≡ none
      → lookup k (propose_shrink k hard qty why acc).shrink_targets ≡ some q
      → (q ≡ qty) × (rs.cmp qty hard ≡ Ordering.lt)
  unfolding propose_shrink
  propose_shrink_inv e h = ground (arith, lookup-insert k k qty acc.shrink_targets, =s_refl k)

-- The target of a key, with the driver.
abbrev pub chosen :
    {F Q : Type 0} ⦃fl : Float64 F⦄ ⦃rs : Resource Q⦄ → Calendar → Input F Q → Str → Q → ℤ × Str
chosen ⦃fl⦄ ⦃rs⦄ cal input k used =
    target_for cal input k (rs.milli_value used) (headroom_for input.policy k)

nothing : {Q : Type 0} (p : Part) (k : Str) → lookup k (part p (no_candidates {Q = Q})) ≡ none
unfolding lookup
nothing growing k = refl
nothing shrinking k = refl
nothing raw_part k = refl

module _ {F Q : Type 0} ⦃fl : Float64 F⦄ ⦃rs : Resource Q⦄ (cal : Calendar) (input : Input F Q)
    (k : Str) (hard used : Q) {q : Q} where
  judge_inv :
      (p : Part)
      → lookup k (part p (judge cal input k hard (some used) no_candidates)) ≡ some q
      → lookup k (part p (evaluate cal input k hard used no_candidates)) ≡ some q
  unfolding judge
  judge_inv p h = ground (arith, nothing {Q = Q} p k)

  consider_inv :
      (p : Part)
      → lookup k input.used ≡ some used
      → lookup k (part p (consider cal input k hard no_candidates)) ≡ some q
      → lookup k (part p (judge cal input k hard (some used) no_candidates)) ≡ some q
  unfolding consider
  consider_inv p known h = ground (arith, nothing {Q = Q} p k)

  weigh_grow_inv :
      (t : ℤ) (why : Str) (acc : Candidates Q)
      → lookup k acc.grow_targets ≡ none
      → lookup k (weigh input.policy k hard (t, why) acc).grow_targets ≡ some q
      → (q ≡ quantize F k t (rs.format hard)) × (rs.cmp q hard ≡ Ordering.gt)
  unfolding weigh propose_shrink
  weigh_grow_inv t why acc e h =
      ground (arith, propose_grow_inv k hard (quantize F k t (rs.format hard)) why acc {q = q} e)

  weigh_shrink_inv :
      (t : ℤ) (why : Str) (acc : Candidates Q)
      → lookup k acc.shrink_targets ≡ none
      → lookup k (weigh input.policy k hard (t, why) acc).shrink_targets ≡ some q
      → (q ≡ quantize F k (cap_step input.policy (rs.milli_value hard) (t, why)).0 (rs.format hard))
        × (rs.cmp q hard ≡ Ordering.lt)
  unfolding weigh propose_grow
  weigh_shrink_inv t why acc e h =
      let (capped, reason) = cap_step input.policy (rs.milli_value hard) (t, why) in
      ground (
        arith,
        propose_shrink_inv k hard (quantize F k capped (rs.format hard)) reason acc {q = q} e,
      )

  alone_inv :
      (p : Part)
      → lookup k input.used ≡ some used
      → alone cal input p k (some hard) ≡ some q
      → lookup k (part p (evaluate cal input k hard used no_candidates)) ≡ some q
  unfolding alone
  alone_inv p known h = judge_inv p (consider_inv p known h)

  pub grow_inv :
      lookup k input.used ≡ some used
      → alone cal input growing k (some hard) ≡ some q
      → (q ≡ quantize F k (chosen cal input k used).0 (rs.format hard))
        × (rs.cmp q hard ≡ Ordering.gt)
  unfolding evaluate
  grow_inv known h =
      weigh_grow_inv (chosen cal input k used).0 (chosen cal input k used).1 _
        (nothing {Q = Q} growing k) (alone_inv growing known h)

  pub shrink_inv :
      lookup k input.used ≡ some used
      → alone cal input shrinking k (some hard) ≡ some q
      → (q
          ≡ quantize F k
              (cap_step input.policy (rs.milli_value hard) (chosen cal input k used)).0
              (rs.format hard))
        × (rs.cmp q hard ≡ Ordering.lt)
  unfolding evaluate
  shrink_inv known h =
      weigh_shrink_inv (chosen cal input k used).0 (chosen cal input k used).1 _
        (nothing {Q = Q} shrinking k) (alone_inv shrinking known h)

module _ {F : Type 0} ⦃fl : Float64 F⦄ where
  pub cap_step_keeps :
      {Q : Type 0} (p : Policy F Q) (hard : ℤ) (c : ℤ × Str) → c.0 ≤ℤ (cap_step p hard c).0
  unfolding cap_step
  cap_step_keeps p hard (t, why) = ground arith

  pub cap_step_reaches :
      {Q : Type 0} (p : Policy F Q) (hard : ℤ) (c : ℤ × Str)
      → step_floor p hard ≤ℤ (cap_step p hard c).0
  unfolding cap_step
  cap_step_reaches p hard (t, why) = ground arith

  pub cap_step_bound :
      {Q : Type 0} (p : Policy F Q) (hard : ℤ) (c : ℤ × Str)
      → c.0 ≤ℤ pos exact_limit
      → step_floor p hard ≤ℤ pos exact_limit
      → (cap_step p hard c).0 ≤ℤ pos exact_limit
  unfolding cap_step
  cap_step_bound p hard (t, why) a b = ground arith

-- Quantize does not lower an amount that float64 counts exactly.
pub quantize_ge :
    {F Q : Type 0} ⦃fl : Float64 F⦄ ⦃rs : Resource Q⦄ (laws : IsFloat64 F)
    (documented : IsResource Q) (k : Str) (i : ℤ) (f : Format)
    → pos 0 ≤ℤ i
    → i ≤ℤ pos exact_limit
    → i ≤ℤ rs.milli_value (quantize F {Q = Q} k i f)
quantize_ge {F} {Q} ⦃rs = rs⦄ laws documented k (pos m) f a b =
    let l = quantize_lem F laws documented k m f (omega arith) in
    subst (λ v. pos m ≤ℤ v) (sym l.0) (omega arith)
quantize_ge laws documented k (negsuc m) f a b = absurd (omega arith)
