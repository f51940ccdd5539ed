-- ===== src/Controller/Metrics/Examples.antt =====
-- recordDecision of internal/controller/metrics.go on a quota with one key.
use namespace_resizer.Prelude.{◌≡◌, ◌&&◌, none, some, [], ◌∷◌, if◌then◌else◌}
use namespace_resizer.Text.{Str, codes, ◌=s◌}
use namespace_resizer.GoMap.{Map, lookup}
use namespace_resizer.Float.Rational.{Fraction, fraction_float}
use namespace_resizer.Quantity.Exact.{Amount, amount, amount_resource}
use namespace_resizer.Sizing.Decide.{Direction, Decision, direction_string}
use namespace_resizer.Sizing.Decide.Gates.{Gate}
use namespace_resizer.Controller.Metrics.{Gauges, record_decision}
use namespace_resizer.Controller.Metrics.Published.{
  gate_of, by_key, target_of, waste_of, record_decision_lem,
}

abbrev team : Str
team = codes "team"

abbrev quota : Str
quota = codes "quota"

abbrev cpu : Str
cpu = codes "requests.cpu"

abbrev hard : Map Amount
hard = (cpu, amount 4000) ∷ []

abbrev blocked_shrink : Decision Amount
blocked_shrink = record {
  direction = Direction.none_wanted;
  targets = [];
  shrink_preview = (cpu, amount 3000) ∷ [];
  raw_targets = (cpu, amount 2000) ∷ [];
  reason = [];
  blocked_by = Gate.cooldown ∷ [];
}

abbrev none_yet : Gauges Fraction
none_yet = record {
  quota_target = λ n q l. none;
  quota_waste_ratio = λ n q l. none;
  shrink_blocked_by = λ n q l. none;
  decision_total = λ n q l. none;
}

record_decision_lem_example :
    let after = record_decision team quota hard blocked_shrink none_yet in
    let direction = direction_string Direction.none_wanted in
    (after.quota_target team quota cpu ≡ (
      if team =s team && quota =s quota
      then by_key team quota (target_of blocked_shrink.raw_targets) cpu (lookup cpu hard) none
      else none))
    × (after.quota_waste_ratio team quota cpu ≡ (
        if team =s team && quota =s quota
        then by_key team quota (waste_of blocked_shrink.raw_targets) cpu (lookup cpu hard) none
        else none))
    × (after.shrink_blocked_by team quota cpu ≡ (
        if team =s team && quota =s quota
        then gate_of {F = Fraction} team quota (Gate.cooldown ∷ []) cpu none
        else none))
    × (after.decision_total team quota cpu
        ≡ (if (team =s team && quota =s quota) && direction =s cpu then some 1 else none))
record_decision_lem_example =
    record_decision_lem team quota hard blocked_shrink none_yet team quota cpu (tt, tt)
