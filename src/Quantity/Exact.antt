-- ===== src/Quantity/Exact.antt =====
-- Quantities as whole numbers of milli-units: an instance in which the examples run.
use Prim.Native.Nat.{compare}
use namespace_resizer.Prelude.{ℕ, ◌+◌, ◌*◌, refl, some, Ordering}
use namespace_resizer.Prelude.Int.{ℤ, pos, pos_part, neg_part}
use namespace_resizer.Text.Decimal.{decimal_ℤ, read_digits}
use namespace_resizer.Quantity.{Format, Resource, IsResource, decimal_si}

pub record Amount : Type 0 where
  pub milli : ℤ
  pub style : Format

abbrev pub amount : ℕ → Amount
amount m = record { milli = pos m; style = decimal_si }

abbrev compare_ℤ : ℤ → ℤ → Ordering
compare_ℤ a b = compare (pos_part a + neg_part b) (pos_part b + neg_part a)

instance abbrev pub amount_resource : Resource Amount
amount_resource = record {
  cmp = λ a b. compare_ℤ a.milli b.milli;
  sign = λ a. compare_ℤ a.milli (pos 0);
  milli_value = λ a. a.milli;
  format = λ a. a.style;
  new_quantity = λ v f. record { milli = pos (pos_part v * 1000); style = f };
  new_milli_quantity = λ v f. record { milli = v; style = f };
  string = λ a. decimal_ℤ a.milli;
  parse_quantity = λ s. some (amount (read_digits 0 s * 1000));
}

pub Amount-IsResource : IsResource Amount
Amount-IsResource = record { milli-new_quantity = λ v f h. refl; milli-new_milli = λ m f h. refl }
