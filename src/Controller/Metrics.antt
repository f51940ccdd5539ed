-- ===== src/Controller/Metrics.antt =====
-- recordDecision of internal/controller/metrics.go over the vectors of Prometheus.
pub mod Published
mod Examples
use namespace_resizer.Prelude.{
  ℕ, suc, ◌+◌, Bool, true, false, ◌&&◌, ◌||◌, Option, none, some, List, [], ◌∷◌, if◌then◌else◌,
}
use namespace_resizer.Prelude.Int.{ℤ, pos, eqb_ℤ}
use namespace_resizer.Text.{Str, codes, ◌=s◌}
use namespace_resizer.GoMap.{Map, lookup}
use namespace_resizer.Float.{Float64}
use namespace_resizer.Quantity.{Resource}
use namespace_resizer.Sizing.Decide.{Decision, direction_string}
use namespace_resizer.Sizing.Decide.Gates.{Gate}

-- A vector by the values of its three labels; `none` is a series that does not exist.
abbrev pub Vec : Type 0 → Type 0
Vec V = Str → Str → Str → Option V

-- Set or, with `none`, DeleteLabelValues.
abbrev pub put : {V : Type 0} → Str → Str → Str → Option V → Vec V → Vec V
put ns quota label v vec n q l = if (ns =s n && quota =s q) && label =s l then v else vec n q l

-- A counter starts at 0.
abbrev pub inc : Option ℕ → Option ℕ
inc none = some 1
inc (some n) = some (suc n)

pub record Gauges (F : Type 0) : Type 0 where
  pub quota_target : Vec F
  pub quota_waste_ratio : Vec F
  pub shrink_blocked_by : Vec F
  pub decision_total : Vec ℕ

unfoldable pub gate_string : Gate → Str
gate_string Gate.enabled = codes "enabled"
gate_string Gate.window = codes "window"
gate_string Gate.recent_grow = codes "recent-grow"
gate_string Gate.cooldown = codes "cooldown"

abbrev pub all_gates : List Gate
all_gates = Gate.enabled ∷ Gate.window ∷ Gate.recent_grow ∷ Gate.cooldown ∷ []

-- blocked[gate]
unfoldable pub is_blocked : Gate → List Gate → Bool
unfolding gate_string ◌=s◌
is_blocked gate [] = false
is_blocked gate (g ∷ rest) = gate_string g =s gate_string gate || is_blocked gate rest

module _ {F : Type 0} (ns quota : Str) where
  abbrev pub without : Str → Gauges F → Gauges F
  without res g = record g {
    quota_target = put ns quota res none g.quota_target;
    quota_waste_ratio = put ns quota res none g.quota_waste_ratio;
  }

module _ {F : Type 0} ⦃fl : Float64 F⦄ (ns quota : Str) where
  -- The loop over allGates.
  unfoldable pub record_gates : List Gate → List Gate → Gauges F → Gauges F
  record_gates blocked [] g = g
  record_gates blocked (gate ∷ rest) g =
      let value = if is_blocked gate blocked then fl.of_int (pos 1) else fl.of_int (pos 0) in
      record_gates blocked rest (record g {
        shrink_blocked_by = put ns quota (gate_string gate) (some value) g.shrink_blocked_by;
      })

module _ {F Q : Type 0} ⦃fl : Float64 F⦄ ⦃rs : Resource Q⦄ (ns quota : Str) where
  -- The body of the loop over the keys of the quota, by decision.RawTargets[res].
  unfoldable pub record_resource : Str → Q → Option Q → Gauges F → Gauges F
  record_resource res current none g = without ns quota res g
  record_resource res current (some target) g =
      if eqb_ℤ (rs.milli_value target) (pos 0) then without ns quota res g else record g {
        quota_target = put ns quota res (some (fl.of_int (rs.milli_value target))) g.quota_target;
        quota_waste_ratio =
            put ns quota res
              (some
                (fl.div (fl.of_int (rs.milli_value current)) (fl.of_int (rs.milli_value target))))
              g.quota_waste_ratio;
      }

  unfoldable pub record_hard : Map Q → Map Q → Gauges F → Gauges F
  unfolding record_resource
  record_hard raw [] g = g
  record_hard raw ((res, current) ∷ rest) g =
      record_hard raw rest (record_resource res current (lookup res raw) g)

  unfoldable pub record_decision : Map Q → Decision Q → Gauges F → Gauges F
  unfolding record_hard record_gates
  record_decision hard decision g =
      let direction = direction_string decision.direction in
      let counted = record g {
        decision_total =
            put ns quota direction (inc (g.decision_total ns quota direction)) g.decision_total;
      } in
      record_gates ns quota decision.blocked_by all_gates
        (record_hard decision.raw_targets hard counted)
