-- ===== src/Sizing/Decide.antt =====
-- The resize decision of internal/sizing/decide.go.
pub mod Target
pub mod Gates
pub mod Coverage
pub mod Outcome
pub mod Locality
pub mod Reasons
pub mod Order
pub mod Safety
pub mod Bounds
use namespace_resizer.Prelude.{
  Bool, true, false, not, Option, none, some, List, [], ◌∷◌, ◌++◌, if◌then◌else◌,
}
use namespace_resizer.Prelude.Int.{ℤ, pos, ltb_ℤ, eqb_ℤ}
use namespace_resizer.Text.{Str, codes, join_lines, sort}
use namespace_resizer.GoMap.{Map, lookup, insert, is_empty}
use namespace_resizer.Float.{Float64, of_ℕ, gt}
use namespace_resizer.Quantity.{Resource, is_lt, is_gt}
use namespace_resizer.Clock.{Calendar}
use namespace_resizer.Sizing.Overflow.{overflows_milli_value}
use namespace_resizer.Sizing.Policy.{Policy, headroom_for}
use namespace_resizer.Sizing.Quantize.{quantize}
use Target.{Input, target_for}
use Gates.{Gate, shrink_gates}

pub data Direction : Type 0 where
  none_wanted grow shrink : Direction

-- Direction.String
unfoldable pub direction_string : Direction → Str
direction_string grow = codes "grow"
direction_string shrink = codes "shrink"
direction_string none_wanted = codes "none"

pub record Decision (Q : Type 0) : Type 0 where
  pub direction : Direction
  pub targets : Map Q
  pub shrink_preview : Map Q
  pub raw_targets : Map Q
  pub reason : Str
  pub blocked_by : List Gate

-- The maps and lists that the loop of Decide fills.
pub record Candidates (Q : Type 0) : Type 0 where
  pub grow_targets : Map Q
  pub shrink_targets : Map Q
  pub raw : Map Q
  pub grow_reasons : List Str
  pub shrink_reasons : List Str

abbrev pub no_candidates : {Q : Type 0} → Candidates Q
no_candidates = record {
  grow_targets = [];
  shrink_targets = [];
  raw = [];
  grow_reasons = [];
  shrink_reasons = [];
}

abbrev pub no_decision : {Q : Type 0} → Map Q → Decision Q
no_decision raw = record {
  direction = none_wanted;
  targets = [];
  shrink_preview = [];
  raw_targets = raw;
  reason = [];
  blocked_by = [];
}

-- What follows a shrink that the gates were asked about.
unfoldable pub gated : {Q : Type 0} → Candidates Q → List Gate → Decision Q
gated c [] = record {
  direction = shrink;
  targets = c.shrink_targets;
  shrink_preview = c.shrink_targets;
  raw_targets = c.raw;
  reason = join_lines (sort c.shrink_reasons);
  blocked_by = [];
}
gated c (g ∷ gs) = record (no_decision c.raw) {
  shrink_preview = c.shrink_targets;
  blocked_by = g ∷ gs;
}

-- RawTargets are recorded before the cap and the band.
abbrev pub with_raw : {Q : Type 0} → Str → Q → Candidates Q → Candidates Q
with_raw res qty acc = record acc { raw = insert res qty acc.raw }

module _ {Q : Type 0} ⦃rs : Resource Q⦄ where
  unfoldable pub describe : Str → Q → Q → Str → Str
  describe res from to driver =
      codes "- `"
      ++ (res
          ++ (codes "`: "
              ++ (rs.string from
                  ++ (codes " -> "
                      ++ (rs.string to ++ (codes " (driven by " ++ (driver ++ codes ")")))))))

  -- The case that grows.
  unfoldable pub propose_grow : Str → Q → Q → Str → Candidates Q → Candidates Q
  propose_grow res hard qty driver acc = if not (is_gt (rs.cmp qty hard)) then acc else record acc {
    grow_targets = insert res qty acc.grow_targets;
    grow_reasons = acc.grow_reasons ++ describe res hard qty driver ∷ [];
  }

  unfoldable pub propose_shrink : Str → Q → Q → Str → Candidates Q → Candidates Q
  propose_shrink res hard qty driver acc =
      if not (is_lt (rs.cmp qty hard)) then acc else record acc {
        shrink_targets = insert res qty acc.shrink_targets;
        shrink_reasons = acc.shrink_reasons ++ describe res hard qty driver ∷ [];
      }

module _ {F Q : Type 0} ⦃fl : Float64 F⦄ where
  -- float64(targetMilli) > float64(hardMilli)*(1+in.Policy.Tolerance)
  unfoldable pub above_band : Policy F Q → ℤ → ℤ → Bool
  above_band p target hard =
      gt (fl.of_int target) (fl.mul (fl.of_int hard) (fl.add (of_ℕ 1) p.tolerance))

  unfoldable pub below_band : Policy F Q → ℤ → ℤ → Bool
  below_band p target hard =
      fl.lt (fl.of_int target) (fl.mul (fl.of_int hard) (fl.sub (of_ℕ 1) p.tolerance))

  -- int64(float64(hardMilli) * (1 - in.Policy.MaxShrinkStep))
  unfoldable pub step_floor : Policy F Q → ℤ → ℤ
  step_floor p hard = fl.to_int (fl.mul (fl.of_int hard) (fl.sub (of_ℕ 1) p.max_shrink_step))

  -- The step cap on a shrink, with the driver.
  unfoldable pub cap_step : Policy F Q → ℤ → ℤ × Str → ℤ × Str
  cap_step p hard (target, driver) =
      if ltb_ℤ target (step_floor p hard)
      then (step_floor p hard, codes "step cap")
      else (target, driver)

module _ {F Q : Type 0} ⦃fl : Float64 F⦄ ⦃rs : Resource Q⦄ where
  -- The switch of the loop.
  unfoldable pub weigh : Policy F Q → Str → Q → ℤ × Str → Candidates Q → Candidates Q
  weigh p res hard (target, driver) acc =
      if above_band p target (rs.milli_value hard)
      then propose_grow res hard (quantize F res target (rs.format hard)) driver acc
      else if below_band p target (rs.milli_value hard)
      then (let (capped, why) = cap_step p (rs.milli_value hard) (target, driver) in
          propose_shrink res hard (quantize F res capped (rs.format hard)) why acc)
      else acc

module _ {F Q : Type 0} (cal : Calendar) ⦃rs : Resource Q⦄ where
  -- What follows the loop: growth first.
  unfoldable pub conclude : Input F Q → Candidates Q → Decision Q
  conclude input c =
      if not (is_empty c.grow_targets)
      then record (no_decision c.raw) {
        direction = grow;
        targets = c.grow_targets;
        reason = join_lines (sort c.grow_reasons);
      }
      else if is_empty c.shrink_targets
      then no_decision c.raw
      else gated c (shrink_gates cal input c.shrink_targets)

module _ {F Q : Type 0} (cal : Calendar) ⦃fl : Float64 F⦄ ⦃rs : Resource Q⦄ where
  -- What the loop does once used is known.
  unfoldable pub evaluate : Input F Q → Str → Q → Q → Candidates Q → Candidates Q
  evaluate input res hard used acc =
      let chosen = target_for cal input res (rs.milli_value used) (headroom_for input.policy res) in
      weigh input.policy res hard chosen
        (with_raw res (quantize F res chosen.0 (rs.format hard)) acc)

  -- What the loop does with the entry of in.Used.
  unfoldable pub judge : Input F Q → Str → Q → Option Q → Candidates Q → Candidates Q
  judge input res hard none acc = acc
  judge input res hard (some used) acc =
      if overflows_milli_value used then acc else evaluate input res hard used acc

  -- One round of the loop over in.Hard, its `continue`s first.
  unfoldable pub consider : Input F Q → Str → Q → Candidates Q → Candidates Q
  consider input res hard acc =
      if overflows_milli_value hard
      then acc
      else if eqb_ℤ (rs.milli_value hard) (pos 0)
      then acc
      else judge input res hard (lookup res input.used) acc

  unfoldable pub candidates_from : Input F Q → Map Q → Candidates Q → Candidates Q
  candidates_from input [] acc = acc
  candidates_from input ((res, hard) ∷ rest) acc =
      candidates_from input rest (consider input res hard acc)

  unfoldable pub decide : Input F Q → Decision Q
  decide input =
      if not input.policy.enabled
      then no_decision []
      else conclude cal input (candidates_from input input.hard no_candidates)
