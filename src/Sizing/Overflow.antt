-- ===== src/Sizing/Overflow.antt =====
-- overflowsMilliValue of internal/sizing/decide.go.
use namespace_resizer.Prelude.{ℕ, ◌/◌, ◌-◌, Bool, ◌||◌}
use namespace_resizer.Prelude.Int.{pos, two63}
use namespace_resizer.Quantity.{Resource, decimal_si, is_gt, is_lt}

-- math.MaxInt64 / 1000
abbrev pub max_milli_value : ℕ
max_milli_value = (two63 - 1) / 1000

module _ {Q : Type 0} ⦃rs : Resource Q⦄ where
  unfoldable pub overflows_milli_value : Q → Bool
  overflows_milli_value q =
      is_gt (rs.cmp q (rs.new_quantity (pos max_milli_value) decimal_si)) || is_lt (rs.sign q)
