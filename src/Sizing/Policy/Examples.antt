-- ===== src/Sizing/Policy/Examples.antt =====
-- The theorems on ParsePolicy (internal/sizing/policy.go) at concrete annotations.
use namespace_resizer.Prelude.{◌≡◌, refl, [], ◌∷◌, arith}
use namespace_resizer.Text.{Str, codes}
use namespace_resizer.GoMap.{Map, lookup}
use namespace_resizer.Float.Rational.{Fraction, fraction_float}
use namespace_resizer.Quantity.Exact.{Amount, amount_resource}
use namespace_resizer.Sizing.Policy.{default_policy}
use namespace_resizer.Sizing.Policy.Parse.{parse_headroom, parse_threshold}
use namespace_resizer.Sizing.Policy.Merge.{parse_policy}
use namespace_resizer.Sizing.Policy.OptOut.{Lowered, shrink_enabled_lem}
use namespace_resizer.Sizing.Policy.Ranges.{InRange, parse_policy-InRange}
use namespace_resizer.Sizing.Policy.Given.{
  prefer, by_headroom, by_increment, by_threshold, gives, given,
}
use namespace_resizer.Sizing.Policy.Precedence.{parse_policy-headroom}

-- Annotations of a namespace, in the order of some iteration.
abbrev annotations : Map Str
annotations =
    (codes "resizer.io/cpu-headroom", codes "0")
    ∷ (codes "resizer.io/shrink-enabled", codes "no")
    ∷ (codes "resizer.io/tolerance", codes "7")
    ∷ (codes "other.io/note", codes "x")
    ∷ []

base-InRange : InRange (default_policy Fraction Amount)
unfolding default_policy
base-InRange = record {
  tolerance_low = refl;
  tolerance_high = refl;
  step_low = refl;
  step_high = refl;
  days_low = omega arith;
}

parse_policy-InRange_example : InRange (parse_policy annotations (default_policy Fraction Amount)).0
parse_policy-InRange_example =
    parse_policy-InRange annotations (default_policy Fraction Amount) base-InRange

shrink_enabled_lem_example :
    Lowered
      (default_policy Fraction Amount).shrink_enabled
      (parse_policy annotations (default_policy Fraction Amount)).0.shrink_enabled
shrink_enabled_lem_example = shrink_enabled_lem annotations (default_policy Fraction Amount)

parse_policy-headroom_example :
    lookup (codes "cpu") (parse_policy annotations (default_policy Fraction Amount)).0.headroom
    ≡ prefer
        (given
          (codes "cpu")
          (gives (codes "cpu") by_headroom (codes "headroom") parse_headroom)
          annotations)
        (prefer
          (given
            (codes "cpu")
            (gives (codes "cpu") by_increment (codes "increment") parse_headroom)
            annotations)
          (prefer
            (given
              (codes "cpu")
              (gives (codes "cpu") by_threshold (codes "threshold") parse_threshold)
              annotations)
            (lookup (codes "cpu") (default_policy Fraction Amount).headroom)))
parse_policy-headroom_example =
    parse_policy-headroom (codes "cpu") annotations (default_policy Fraction Amount)
