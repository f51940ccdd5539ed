-- ===== src/Quantity.antt =====
-- resource.Quantity of k8s.io/apimachinery, which is not part of this repository: an interface of
-- the operations that the code calls, and what their documentation says of them.
pub mod Exact
use namespace_resizer.Prelude.{ℕ, ◌*◌, ◌<◌, ◌≡◌, Bool, true, false, Option, Ordering}
use namespace_resizer.Prelude.Int.{ℤ, pos, two63}
use namespace_resizer.Text.{Str}

pub data Format : Type 0 where
  decimal_si binary_si decimal_exponent : Format

pub record Resource (Q : Type 0) : Type 0 where
  -- q.Cmp(other)
  pub cmp : Q → Q → Ordering
  -- q.Sign(): the order against zero
  pub sign : Q → Ordering
  pub milli_value : Q → ℤ
  pub format : Q → Format
  -- resource.NewQuantity(value, format)
  pub new_quantity : ℤ → Format → Q
  -- resource.NewMilliQuantity(value, format)
  pub new_milli_quantity : ℤ → Format → Q
  -- q.String()
  pub string : Q → Str
  -- resource.ParseQuantity(s); `none` is its error
  pub parse_quantity : Str → Option Q

abbrev pub is_lt : Ordering → Bool
is_lt Ordering.lt = true
is_lt _ = false

abbrev pub is_gt : Ordering → Bool
is_gt Ordering.gt = true
is_gt _ = false

pub record IsResource (Q : Type 0) ⦃rs : Resource Q⦄ : Type 0 where
  -- The amount of a quantity that was made from an int64, in milli-units.
  pub milli-new_quantity :
      (v : ℕ) (f : Format)
      → v * 1000 < two63
      → rs.milli_value (rs.new_quantity (pos v) f) ≡ pos (v * 1000)
  pub milli-new_milli :
      (m : ℕ) (f : Format) → m < two63 → rs.milli_value (rs.new_milli_quantity (pos m) f) ≡ pos m
