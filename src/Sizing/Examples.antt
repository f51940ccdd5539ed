-- ===== src/Sizing/Examples.antt =====
-- The theorems on internal/sizing at concrete quotas: exact fractions for float64, whole
-- milli-units for quantities.
use namespace_resizer.Prelude.{
  ℕ, ◌+◌, ◌*◌, ◌≡◌, ◌≢◌, ◌⊎◌, ◌≤◌, ◌<◌, refl, ◌↔◌, inl, inr, true, false, some, [], ◌∷◌, arith,
  Ordering, subst, Bool-cases,
}
use namespace_resizer.Prelude.Int.{◌*ℤ◌, ◌-ℤ◌, ◌+ℤ◌, wrap64, pos, ◌≤ℤ◌}
use namespace_resizer.Text.{Str, codes, ◌=s◌, str_lt, has_prefix, contains, last_index}
use namespace_resizer.Text.Equality.{eq_of_=s}
use namespace_resizer.GoMap.{insert, has, Map, lookup, is_empty}
use namespace_resizer.GoMap.Same.{Same}
use namespace_resizer.Float.Rational.{Fraction, Fraction-IsFloat64, fraction_float}
use namespace_resizer.Quantity.{decimal_si}
use namespace_resizer.Quantity.Exact.{Amount, amount, amount_resource, Amount-IsResource}
use namespace_resizer.Clock.{sub_time, day_ns}
use namespace_resizer.Clock.Unary.{strokes, date, unary}
use namespace_resizer.Sizing.Names.{
  measure_of, one_of, family_of_measure, is_countable, resource_family,
}
use namespace_resizer.Sizing.Quantize.{in_bytes, whole, whole_mi, quantize}
use namespace_resizer.Sizing.Quantize.Rounding.{unit_of, round_up, quantize_lem}
use namespace_resizer.Sizing.Policy.{headroom_for, min_for, Policy, default_policy}
use namespace_resizer.Sizing.Window.{
  today, days_ago, covered, short_gap, parse_gap, empty_window, DayBucket,
}
use namespace_resizer.Sizing.Decide.{
  candidates_from, consider, judge, evaluate, weigh, conclude, propose_grow, propose_shrink,
  above_band, below_band, step_floor, cap_step, gated, decide, grow, shrink,
}
use namespace_resizer.Sizing.Decide.Target.{
  raise_to_peak, raise_to_need, raise_to_min, raise_to, with_headroom, Input, target_for, demand,
}
use namespace_resizer.Sizing.Decide.Gates.{all_complete, within, days_span, shrink_gates}
use namespace_resizer.Sizing.Decide.Outcome.{IsOpen, collected, decide-shrink_iff, decide-grow_iff}
use namespace_resizer.Sizing.Decide.Order.{Agree, decide_order}
use namespace_resizer.Sizing.Decide.Bounds.{Fits, Covers, decide_grow_bounds, decide_shrink_bounds}
use namespace_resizer.Sizing.Window.History.{
  peak, peak_from, in_history, counted, stored, by_date, day_complete, complete_from, is_complete,
}
use namespace_resizer.Sizing.Overflow.{overflows_milli_value}
use namespace_resizer.Text.Decimal.{read_digits}

abbrev cpu : Str
cpu = codes "requests.cpu"

abbrev pods : Str
pods = codes "pods"

quantize_lem_example :
    (amount_resource.milli_value (quantize Fraction {Q = Amount} pods (pos 2500) decimal_si)
      ≡ pos (round_up (unit_of pods) 2500))
    × (2500 ≤ round_up (unit_of pods) 2500)
    × (round_up (unit_of pods) 2500 < 2500 + unit_of pods)
quantize_lem_example =
    quantize_lem Fraction Fraction-IsFloat64 Amount-IsResource pods 2500 decimal_si (omega arith)

-- A full day before the day of `now`.
abbrev yesterday : DayBucket
yesterday = record {
  date = codes "|";
  n = 100;
  first = codes "00:00";
  last = codes "23:50";
  max_gap = [];
  peaks = (cpu, codes "1") ∷ [];
}

abbrev one_day : Policy Fraction Amount
one_day = record (default_policy Fraction Amount) { window_days = 1 }

-- Used 1000m of the limit in milli-units.
abbrev quota : ℕ → Input Fraction Amount
quota limit = record {
  now = 2 * day_ns;
  hard = (cpu, amount limit) ∷ [];
  used = (cpu, amount 1000) ∷ [];
  deficits = [];
  window = record empty_window { days = yesterday ∷ [] };
  policy = one_day;
  last_grow = 0;
  last_shrink = 0;
}

abbrev full : Input Fraction Amount
full = quota 1000

abbrev wide : Input Fraction Amount
wide = quota 4000

abbrev three : Amount
three = amount 3000

abbrev more : Amount
more = amount 1250

-- What the two quotas come to.
runs :
    ((decide unary full).direction ≡ grow)
    × (lookup cpu (decide unary full).targets ≡ some more)
    × ((decide unary wide).direction ≡ shrink)
    × (lookup cpu (decide unary wide).targets ≡ some three)
    × (lookup cpu full.hard ≡ some (amount 1000))
    × (lookup cpu full.used ≡ some (amount 1000))
    × (lookup cpu wide.hard ≡ some (amount 4000))
    × (lookup cpu wide.used ≡ some (amount 1000))
unfolding decide candidates_from consider judge evaluate weigh conclude propose_grow propose_shrink
    above_band below_band step_floor cap_step gated shrink_gates all_complete within days_span
    target_for demand raise_to_peak raise_to_need raise_to_min raise_to with_headroom headroom_for
    min_for default_policy peak peak_from in_history counted stored by_date day_complete
    complete_from is_complete today days_ago covered short_gap parse_gap unary strokes date quantize
    in_bytes whole whole_mi is_countable measure_of one_of resource_family family_of_measure
    overflows_milli_value lookup insert has ◌=s◌ str_lt has_prefix last_index ◌*ℤ◌ ◌-ℤ◌ ◌+ℤ◌ wrap64
    sub_time read_digits contains
runs = (refl, refl, refl, refl, refl, refl, refl, refl)

fits : (limit : ℕ) → limit ≤ 4000 → Fits unary (quota limit) cpu (amount limit) (amount 1000)
unfolding decide candidates_from consider judge evaluate weigh conclude propose_grow propose_shrink
    above_band below_band step_floor cap_step gated shrink_gates all_complete within days_span
    target_for demand raise_to_peak raise_to_need raise_to_min raise_to with_headroom headroom_for
    min_for default_policy peak peak_from in_history counted stored by_date day_complete
    complete_from is_complete today days_ago covered short_gap parse_gap unary strokes date quantize
    in_bytes whole whole_mi is_countable measure_of one_of resource_family family_of_measure
    overflows_milli_value lookup insert has ◌=s◌ str_lt has_prefix last_index ◌*ℤ◌ ◌-ℤ◌ ◌+ℤ◌ wrap64
    sub_time read_digits contains
fits limit h = record {
  size = 1000;
  demand_eq = refl;
  size_le = omega arith;
  headroom_nonneg = refl;
  product_fits = refl;
  used_nonneg = omega arith;
  target_le = omega arith;
  floor_le = ground arith;
}

decide_grow_bounds_example :
    Covers unary full cpu (pos 1000) (pos 1250)
    × (amount_resource.cmp more (amount 1000) ≡ Ordering.gt)
decide_grow_bounds_example =
    decide_grow_bounds Fraction-IsFloat64 Amount-IsResource unary full cpu (amount 1000)
      (amount 1000) (fits 1000 (omega arith)) (tt, tt) runs.4 runs.5 runs.0 runs.1

decide_shrink_bounds_example :
    Covers unary wide cpu (pos 1000) (pos 3000)
    × (step_floor wide.policy (pos 4000) ≤ℤ pos 3000)
    × (amount_resource.cmp three (amount 4000) ≡ Ordering.lt)
decide_shrink_bounds_example =
    decide_shrink_bounds Fraction-IsFloat64 Amount-IsResource unary wide cpu (amount 4000)
      (amount 1000) (fits 4000 (omega arith)) (tt, tt) runs.6 runs.7 runs.2 runs.3

decide-shrink_iff_example : ((decide unary wide).direction ≡ shrink) ↔ (
    (wide.policy.enabled ≡ true)
    × (is_empty (collected unary wide).grow_targets ≡ true)
    × (is_empty (collected unary wide).shrink_targets ≡ false)
    × IsOpen unary wide (collected unary wide).shrink_targets)
decide-shrink_iff_example = decide-shrink_iff unary wide

decide-grow_iff_example :
    (((decide unary full).direction ≡ grow)
      ↔ ((full.policy.enabled ≡ true) × (is_empty (collected unary full).grow_targets ≡ false)))
    × (((decide unary full).direction ≢ grow)
        ⊎ (((decide unary full).targets ≡ (collected unary full).grow_targets)
            × ((decide unary full).shrink_preview ≡ [])
            × ((decide unary full).blocked_by ≡ [])))
decide-grow_iff_example = decide-grow_iff unary full

-- Two keys, and their other order.
abbrev two_keys : Input Fraction Amount
two_keys = record full { hard = (cpu, amount 1000) ∷ (pods, amount 5000) ∷ [] }

abbrev other_order : Map Amount
other_order = (pods, amount 5000) ∷ (cpu, amount 1000) ∷ []

other_key : (k : Str) → cpu =s k ≡ true → pods =s k ≡ false
unfolding ◌=s◌
other_key k h = subst (λ x. pods =s x ≡ false) (eq_of_=s cpu k h) refl

Same-keys : Same two_keys.hard other_order
unfolding lookup
Same-keys k = elim (Bool-cases (cpu =s k)) [
  | inl h ↦ rw (h, other_key k h) refl
  | inr h ↦ rw h refl
]

decide_order_example :
    Agree (decide unary two_keys) (decide unary (record two_keys { hard = other_order }))
unfolding ◌=s◌
decide_order_example =
    decide_order unary two_keys other_order ((refl, tt), (tt, tt)) ((refl, tt), (tt, tt)) Same-keys
