-- ===== src/Controller/Metrics/Published.antt =====
-- What recordDecision of internal/controller/metrics.go leaves in the vectors.
use namespace_resizer.Prelude.{
  ℕ, ◌+◌, ◌≡◌, refl, ap, subst, ◌∙◌, ◌&&◌, Option, none, some, List, [], ◌∷◌, arith, if◌then◌else◌,
  Bool-cases, inl, inr,
}
use namespace_resizer.Prelude.Int.{ℤ, pos, eqb_ℤ}
use namespace_resizer.Text.{Str, codes, ◌=s◌}
use namespace_resizer.Text.Equality.{eq_of_=s}
use namespace_resizer.GoMap.{Map, lookup, Absent, DistinctKeys}
use namespace_resizer.Float.{Float64}
use namespace_resizer.Quantity.{Resource}
use namespace_resizer.Sizing.Decide.{Decision, direction_string}
use namespace_resizer.Sizing.Decide.Gates.{Gate}
use namespace_resizer.Controller.Metrics.{
  Vec, put, inc, Gauges, gate_string, all_gates, is_blocked, record_resource, record_hard,
  record_gates, record_decision,
}

module _ {V Q : Type 0} (ns quota : Str) (f : Str → Q → Option V) where
  abbrev put_all : Map Q → Vec V → Vec V
  put_all [] vec = vec
  put_all ((res, current) ∷ rest) vec = put_all rest (put ns quota res (f res current) vec)

  -- The series of a key of the map is set by it; the others keep what they had.
  abbrev pub by_key : Str → Option Q → Option V → Option V
  by_key l none old = old
  by_key l (some current) old = f l current

  put_all-Absent :
      (m : Map Q) (vec : Vec V) (n q l : Str) → Absent l m → put_all m vec n q l ≡ vec n q l
  put_all-Absent [] vec n q l a = refl
  put_all-Absent ((res, current) ∷ rest) vec n q l a =
      put_all-Absent rest (put ns quota res (f res current) vec) n q l a.1 ∙ ground (arith, a.0)

  put_all_lem :
      (m : Map Q) (vec : Vec V) (n q l : Str)
      → DistinctKeys m
      → put_all m vec n q l
        ≡ (if ns =s n && quota =s q then by_key l (lookup l m) (vec n q l) else vec n q l)
  unfolding lookup
  put_all_lem [] vec n q l d = elim (Bool-cases (ns =s n && quota =s q)) [
    | inl mine ↦ rw mine refl
    | inr foreign ↦ rw foreign refl
  ]
  put_all_lem ((res, current) ∷ rest) vec n q l d =
      let next = put ns quota res (f res current) vec in
      elim (Bool-cases (res =s l)) [
        | inl same ↦
            put_all-Absent rest next n q l (subst (λ k. Absent k rest) (eq_of_=s res l same) d.0)
            ∙ ap (λ v. if (ns =s n && quota =s q) && (res =s l) then v else vec n q l)
                (ap (λ k. f k current) (eq_of_=s res l same))
            ∙ ground (arith, same)
        | inr differs ↦ put_all_lem rest next n q l d.1 ∙ ground (arith, differs)
      ]

module _ {F Q : Type 0} ⦃fl : Float64 F⦄ ⦃rs : Resource Q⦄ where
  -- What is published for a target, if there is one that is not 0.
  abbrev pub published : (ℤ → F) → Option Q → Option F
  published value none = none
  published value (some target) =
      if eqb_ℤ (rs.milli_value target) (pos 0) then none else some (value (rs.milli_value target))

  -- The target of a key, in milli-units.
  abbrev pub target_of : Map Q → Str → Q → Option F
  target_of raw l current = published fl.of_int (lookup l raw)

  -- The limit of a key over its target.
  abbrev pub waste_of : Map Q → Str → Q → Option F
  waste_of raw l current =
      published (λ t. fl.div (fl.of_int (rs.milli_value current)) (fl.of_int t)) (lookup l raw)

  abbrev pub Written : Str → Str → Map Q → Map Q → Gauges F → Gauges F → Type 0
  Written ns quota raw m g after =
      (after.quota_target ≡ put_all ns quota (target_of raw) m g.quota_target)
      × (after.quota_waste_ratio ≡ put_all ns quota (waste_of raw) m g.quota_waste_ratio)
      × (after.shrink_blocked_by ≡ g.shrink_blocked_by)
      × (after.decision_total ≡ g.decision_total)

module _ {F Q : Type 0} ⦃fl : Float64 F⦄ ⦃rs : Resource Q⦄ (ns quota : Str) (raw : Map Q) where
  abbrev Stepped : Str → Q → Option Q → Gauges F → Gauges F → Type 0
  Stepped res current target g after =
      (after.quota_target ≡ put ns quota res (published fl.of_int target) g.quota_target)
      × (after.quota_waste_ratio
          ≡ put ns quota res
              (published (λ t. fl.div (fl.of_int (rs.milli_value current)) (fl.of_int t)) target)
              g.quota_waste_ratio)
      × (after.shrink_blocked_by ≡ g.shrink_blocked_by)
      × (after.decision_total ≡ g.decision_total)

  record_resource-Stepped :
      (res : Str) (current : Q) (target : Option Q) (g : Gauges F)
      → Stepped res current target g (record_resource ns quota res current target g)
  unfolding record_resource
  record_resource-Stepped res current none g = (refl, refl, refl, refl)
  record_resource-Stepped res current (some target) g =
      elim (Bool-cases (eqb_ℤ (rs.milli_value target) (pos 0))) [
        | inl zero_target ↦ rw zero_target (refl, refl, refl, refl)
        | inr wanted ↦ rw wanted (refl, refl, refl, refl)
      ]

  record_hard-Written :
      (m : Map Q) (g : Gauges F) → Written ns quota raw m g (record_hard ns quota raw m g)
  unfolding record_hard
  record_hard-Written [] g = (refl, refl, refl, refl)
  record_hard-Written ((res, current) ∷ rest) g =
      let next = record_resource ns quota res current (lookup res raw) g in
      let step = record_resource-Stepped res current (lookup res raw) g in
      let later = record_hard-Written rest next in
      (
        later.0 ∙ ap (put_all ns quota (target_of raw) rest) step.0,
        later.1 ∙ ap (put_all ns quota (waste_of raw) rest) step.1,
        later.2 ∙ step.2,
        later.3 ∙ step.3,
      )

module _ {F : Type 0} ⦃fl : Float64 F⦄ (ns quota : Str) where
  -- 1 or 0 under the name of a gate, and any other name as it was.
  abbrev pub gate_of : List Gate → Str → Option F → Option F
  gate_of blocked l old =
      let value = λ (gate : Gate).
        some (if is_blocked gate blocked then fl.of_int (pos 1) else fl.of_int (pos 0)) in
      if codes "cooldown" =s l
      then value Gate.cooldown
      else if codes "recent-grow" =s l
      then value Gate.recent_grow
      else if codes "window" =s l
      then value Gate.window
      else if codes "enabled" =s l
      then value Gate.enabled
      else old

  record_gates_lem :
      (blocked : List Gate) (g : Gauges F) (n q l : Str)
      → (record_gates ns quota blocked all_gates g).shrink_blocked_by n q l ≡ (
          if ns =s n && quota =s q
          then gate_of blocked l (g.shrink_blocked_by n q l)
          else g.shrink_blocked_by n q l)
  unfolding record_gates gate_string
  record_gates_lem blocked g n q l = elim (Bool-cases (ns =s n && quota =s q)) [
    | inl mine ↦ rw mine refl
    | inr foreign ↦ rw foreign refl
  ]

-- A series that does not exist counts as 0.
abbrev pub count : Option ℕ → ℕ
count none = 0
count (some n) = n

inc_lem : (o : Option ℕ) → inc o ≡ some (count o + 1)
inc_lem none = refl
inc_lem (some n) = ap some (omega arith)

module _ {F Q : Type 0} ⦃fl : Float64 F⦄ ⦃rs : Resource Q⦄ (ns quota : Str) where
  -- After recordDecision the series of a key of the quota, for its target and for its limit over the
  -- target, hold what the decision says, and do not exist where the key has no target or the target
  -- is 0. The series of every gate of the quota is 1 if the gate blocks and 0 if not, and the counter of
  -- the direction of the quota is one more. All other series of the four vectors, those of other keys,
  -- names, directions and quotas, stay as they were.
  pub record_decision_lem :
      (hard : Map Q) (decision : Decision Q) (g : Gauges F) (n q l : Str)
      → DistinctKeys hard
      → let after = record_decision ns quota hard decision g in
        let direction = direction_string decision.direction in
        (after.quota_target n q l ≡ (
          if ns =s n && quota =s q
          then by_key ns quota
              (target_of decision.raw_targets)
              l
              (lookup l hard)
              (g.quota_target n q l)
          else g.quota_target n q l))
        × (after.quota_waste_ratio n q l ≡ (
            if ns =s n && quota =s q
            then by_key ns quota
                (waste_of decision.raw_targets)
                l
                (lookup l hard)
                (g.quota_waste_ratio n q l)
            else g.quota_waste_ratio n q l))
        × (after.shrink_blocked_by n q l ≡ (
            if ns =s n && quota =s q
            then gate_of ns quota decision.blocked_by l (g.shrink_blocked_by n q l)
            else g.shrink_blocked_by n q l))
        × (after.decision_total n q l ≡ (
            if (ns =s n && quota =s q) && direction =s l
            then some (count (g.decision_total ns quota direction) + 1)
            else g.decision_total n q l))
  unfolding record_decision record_gates
  record_decision_lem hard decision g n q l d =
      let direction = direction_string decision.direction in
      let counted = record g {
        decision_total =
            put ns quota direction (inc (g.decision_total ns quota direction)) g.decision_total;
      } in
      let written = record_hard-Written ns quota decision.raw_targets hard counted in
      (
        ap (λ vec. vec n q l) written.0
            ∙ put_all_lem ns quota (target_of decision.raw_targets) hard g.quota_target n q l d,
        ap (λ vec. vec n q l) written.1
            ∙ put_all_lem ns quota (waste_of decision.raw_targets) hard g.quota_waste_ratio n q l d,
        record_gates_lem ns quota decision.blocked_by
              (record_hard ns quota decision.raw_targets hard counted) n q l
            ∙ ap
                (λ vec.
                  if ns =s n && quota =s q
                  then gate_of ns quota decision.blocked_by l (vec n q l)
                  else vec n q l)
                written.2,
        ap (λ vec. vec n q l) written.3
            ∙ ap
                (λ o.
                  if (ns =s n && quota =s q) && direction =s l then o else g.decision_total n q l)
                (inc_lem (g.decision_total ns quota direction)),
      )
