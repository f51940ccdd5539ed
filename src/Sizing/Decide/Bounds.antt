-- ===== src/Sizing/Decide/Bounds.antt =====
-- The bounds of the targets that Decide hands out (internal/sizing/decide.go).
use namespace_resizer.Prelude.{ℕ, ◌≤◌, ◌≡◌, sym, ap, ◌∙◌, subst, true, some, arith, Ordering}
use namespace_resizer.Prelude.Int.{ℤ, pos, ◌≤ℤ◌, two63}
use namespace_resizer.Text.{Str}
use namespace_resizer.GoMap.{lookup, DistinctKeys}
use namespace_resizer.Float.{Float64, IsFloat64, of_ℕ, exact_limit}
use namespace_resizer.Quantity.{Resource, IsResource}
use namespace_resizer.Clock.{Calendar}
use namespace_resizer.Sizing.Policy.{headroom_for}
use namespace_resizer.Sizing.Quantize.{quantize}
use namespace_resizer.Sizing.Decide.Target.{Input, demand}
use namespace_resizer.Sizing.Decide.Coverage.{
  AtLeast, AtLeast-mono, remembered, needed, minimum, target_for_covers, ≤ℤ_trans,
}
use namespace_resizer.Sizing.Decide.Locality.{growing, shrinking, alone, collected_local}
use namespace_resizer.Sizing.Decide.Outcome.{grow_targets_lem, shrink_targets_lem}
use namespace_resizer.Sizing.Decide.Safety.{
  chosen, grow_inv, shrink_inv, cap_step_keeps, cap_step_reaches, cap_step_bound, quantize_ge,
}
use namespace_resizer.Sizing.Decide.{grow, shrink, cap_step, step_floor, decide}

-- The numbers of one key stay where float64 counts exactly, and its headroom is not negative.
pub record Fits {F Q : Type 0} ⦃fl : Float64 F⦄ ⦃rs : Resource Q⦄ (cal : Calendar)
    (input : Input F Q) (k : Str) (hard used : Q) : Type 0 where
  pub size : ℕ
  pub demand_eq : (demand cal input k (rs.milli_value used)).0 ≡ pos size
  pub size_le : size ≤ exact_limit
  pub headroom_nonneg : fl.le (of_ℕ 0) (headroom_for input.policy k) ≡ true
  pub product_fits :
      fl.lt (fl.mul (of_ℕ size) (fl.add (of_ℕ 1) (headroom_for input.policy k))) (of_ℕ two63) ≡ true
  pub used_nonneg : pos 0 ≤ℤ rs.milli_value used
  pub target_le : (chosen cal input k used).0 ≤ℤ pos exact_limit
  pub floor_le : step_floor input.policy (rs.milli_value hard) ≤ℤ pos exact_limit

-- The amount covers usage, memory, shortage and minimum of the key.
pub record Covers {F Q : Type 0} ⦃rs : Resource Q⦄ (cal : Calendar) (input : Input F Q) (k : Str)
    (used : ℤ) (amount : ℤ) : Type 0 where
  pub usage : used ≤ℤ amount
  pub memory : AtLeast (remembered cal input k) amount
  pub shortage : AtLeast (needed input k used) amount
  pub floor : AtLeast (minimum input k) amount

Covers-mono :
    {F Q : Type 0} ⦃rs : Resource Q⦄ (cal : Calendar) (input : Input F Q) (k : Str) (used a b : ℤ)
    → a ≤ℤ b
    → Covers cal input k used a
    → Covers cal input k used b
Covers-mono cal input k used a b h c = record {
  usage = ≤ℤ_trans used a b c.usage h;
  memory = AtLeast-mono (remembered cal input k) a b h c.memory;
  shortage = AtLeast-mono (needed input k used) a b h c.shortage;
  floor = AtLeast-mono (minimum input k) a b h c.floor;
}

module _ {F Q : Type 0} ⦃fl : Float64 F⦄ ⦃rs : Resource Q⦄ (laws : IsFloat64 F)
    (documented : IsResource Q) (cal : Calendar) (input : Input F Q) (k : Str) (hard used : Q)
    (fits : Fits cal input k hard used) where
  chosen-Covers : Covers cal input k (rs.milli_value used) (chosen cal input k used).0
  chosen-Covers =
      let (a, b, c, d) =
        target_for_covers laws cal input k (rs.milli_value used) (headroom_for input.policy k)
          fits.size fits.demand_eq fits.size_le fits.headroom_nonneg fits.product_fits in
      record { usage = a; memory = b; shortage = c; floor = d }

  chosen_nonneg : pos 0 ≤ℤ (chosen cal input k used).0
  chosen_nonneg = ≤ℤ_trans (pos 0) (rs.milli_value used) _ fits.used_nonneg chosen-Covers.usage

  quantized-Covers :
      (i : ℤ)
      → (chosen cal input k used).0 ≤ℤ i
      → i ≤ℤ pos exact_limit
      → (i ≤ℤ rs.milli_value (quantize F {Q = Q} k i (rs.format hard)))
        × Covers cal input k
            (rs.milli_value used)
            (rs.milli_value (quantize F {Q = Q} k i (rs.format hard)))
  quantized-Covers i a b =
      let up =
        quantize_ge laws documented k i (rs.format hard)
          (≤ℤ_trans (pos 0) (chosen cal input k used).0 i chosen_nonneg a) b in
      (
        up,
        Covers-mono cal input k (rs.milli_value used) (chosen cal input k used).0 _
            (≤ℤ_trans (chosen cal input k used).0 i _ a up) chosen-Covers,
      )

  grow_bounds :
      {q : Q}
      → lookup k input.used ≡ some used
      → alone cal input growing k (some hard) ≡ some q
      → Covers cal input k (rs.milli_value used) (rs.milli_value q) × (rs.cmp q hard ≡ Ordering.gt)
  grow_bounds known h =
      let (e, c) = grow_inv cal input k hard used known h in
      (
        subst (λ a. Covers cal input k (rs.milli_value used) (rs.milli_value a)) (sym e)
            (quantized-Covers (chosen cal input k used).0 (omega arith) fits.target_le).1,
        c,
      )

  shrink_bounds :
      {q : Q}
      → lookup k input.used ≡ some used
      → alone cal input shrinking k (some hard) ≡ some q
      → Covers cal input k (rs.milli_value used) (rs.milli_value q)
        × (step_floor input.policy (rs.milli_value hard) ≤ℤ rs.milli_value q)
        × (rs.cmp q hard ≡ Ordering.lt)
  shrink_bounds {q} known h =
      let (e, c) = shrink_inv cal input k hard used known h in
      let t = chosen cal input k used in
      let capped = (cap_step input.policy (rs.milli_value hard) t).0 in
      let (up, cover) =
        quantized-Covers capped (cap_step_keeps input.policy (rs.milli_value hard) t)
          (cap_step_bound input.policy (rs.milli_value hard) t fits.target_le fits.floor_le) in
      (
        subst (λ a. Covers cal input k (rs.milli_value used) (rs.milli_value a)) (sym e) cover,
        subst (λ a. step_floor input.policy (rs.milli_value hard) ≤ℤ rs.milli_value a) (sym e)
            (≤ℤ_trans (step_floor input.policy (rs.milli_value hard)) capped _
              (cap_step_reaches input.policy (rs.milli_value hard) t) up),
        c,
      )

  -- For float64 and quantities as they are documented, every key of the quota once in it, and a key
  -- with a known usage, whose numbers stay where float64 counts exactly, and whose usage and headroom
  -- are not negative: the target of the key in a decision to grow is above its limit, and covers the
  -- usage, the peak in the window, the usage with a pending shortage and the configured minimum.
  pub decide_grow_bounds :
      {q : Q}
      → DistinctKeys input.hard
      → lookup k input.hard ≡ some hard
      → lookup k input.used ≡ some used
      → (decide cal input).direction ≡ grow
      → lookup k (decide cal input).targets ≡ some q
      → Covers cal input k (rs.milli_value used) (rs.milli_value q) × (rs.cmp q hard ≡ Ordering.gt)
  decide_grow_bounds {q} d limit known dir h = grow_bounds known (
      ap (alone cal input growing k) (sym limit)
      ∙ sym (collected_local cal input growing k d)
      ∙ ap (lookup k) (sym (grow_targets_lem cal input dir))
      ∙ h)

  -- For float64 and quantities as they are documented, every key of the quota once in it, and a key
  -- with a known usage, whose numbers stay where float64 counts exactly, and whose usage and headroom
  -- are not negative: the target of the key in a decision to shrink is below its limit, not below what
  -- one step may take off the limit, and covers the usage, the peak in the window, the usage with a
  -- pending shortage and the configured minimum.
  pub decide_shrink_bounds :
      {q : Q}
      → DistinctKeys input.hard
      → lookup k input.hard ≡ some hard
      → lookup k input.used ≡ some used
      → (decide cal input).direction ≡ shrink
      → lookup k (decide cal input).targets ≡ some q
      → Covers cal input k (rs.milli_value used) (rs.milli_value q)
        × (step_floor input.policy (rs.milli_value hard) ≤ℤ rs.milli_value q)
        × (rs.cmp q hard ≡ Ordering.lt)
  decide_shrink_bounds {q} d limit known dir h = shrink_bounds known (
      ap (alone cal input shrinking k) (sym limit)
      ∙ sym (collected_local cal input shrinking k d)
      ∙ ap (lookup k) (sym (shrink_targets_lem cal input dir))
      ∙ h)
