-- ===== src/Sizing/Quantize.antt =====
-- Quantize of internal/sizing/quantity.go.
pub mod Rounding
use namespace_resizer.Prelude.{Bool, ◌||◌, if◌then◌else◌}
use namespace_resizer.Prelude.Int.{ℤ, pos, wrap64, ◌*ℤ◌}
use namespace_resizer.Text.{Str, codes, contains}
use namespace_resizer.Float.{Float64, of_ℕ, bytes_per_mi}
use namespace_resizer.Quantity.{Format, Resource, decimal_si, binary_si}
use namespace_resizer.Sizing.Names.{measure_of, is_countable}

-- The key measures bytes.
unfoldable pub in_bytes : Str → Bool
in_bytes measure = contains measure (codes "memory") || contains measure (codes "storage")

module _ (F : Type 0) ⦃fl : Float64 F⦄ where
  -- int64(math.Ceil(float64(milli) / 1000.0))
  unfoldable pub whole : ℤ → ℤ
  whole milli = fl.to_int (fl.ceil (fl.div (fl.of_int milli) (of_ℕ 1000)))

  -- int64(math.Ceil(bytes / float64(bytesPerMi)))
  unfoldable pub whole_mi : ℤ → ℤ
  whole_mi milli =
      let bytes = fl.div (fl.of_int milli) (of_ℕ 1000) in
      fl.to_int (fl.ceil (fl.div bytes (of_ℕ bytes_per_mi)))

module _ (F : Type 0) ⦃fl : Float64 F⦄ {Q : Type 0} ⦃rs : Resource Q⦄ where
  unfoldable pub quantize : Str → ℤ → Format → Q
  quantize res milli format =
      if is_countable res
      then rs.new_quantity (whole F milli) decimal_si
      else if in_bytes (measure_of res)
      then rs.new_quantity (wrap64 (whole_mi F milli *ℤ pos bytes_per_mi)) binary_si
      else rs.new_milli_quantity milli format
