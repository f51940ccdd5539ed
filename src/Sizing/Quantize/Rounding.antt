-- ===== src/Sizing/Quantize/Rounding.antt =====
-- Quantize does not round a target of at most 2^53 milli-units down.
use namespace_resizer.Prelude.{
  ℕ, zero, suc, ◌↔◌, if◌then◌else◌, ◌+◌, ◌-◌, ◌*◌, ◌/◌, ◌^◌, ◌≤◌, ◌<◌, ◌≡◌, ap, ◌∙◌, inl, inr, true,
  false, arith, Bool-cases,
}
use namespace_resizer.Prelude.Int.{ℤ, pos, negsuc, ◌≤ℤ◌, ◌<ℤ◌, ◌*ℤ◌, wrap64, wrap64_of_IsInt64}
use namespace_resizer.Text.{Str}
use namespace_resizer.Float.{Float64, IsFloat64, of_ℕ, exact_limit, bytes_per_mi}
use namespace_resizer.Quantity.{Format, Resource, IsResource}
use namespace_resizer.Sizing.Names.{measure_of, is_countable}
use namespace_resizer.Sizing.Quantize.{whole, whole_mi, in_bytes, quantize}

-- An integer that is not negative, not above `k`, and above what lies below `k`, is `k`.
eq_of_bounds :
    (i : ℤ) (k : ℕ) → pos 0 ≤ℤ i → (0 < k → pos (k - 1) <ℤ i) → ¬ (pos k <ℤ i) → i ≡ pos k
eq_of_bounds (pos n) zero h a b = ap pos (omega arith)
eq_of_bounds (pos n) (suc k) h a b =
    let c : pos (suc k - 1) <ℤ pos n = a (omega arith) in ap pos (omega arith)
eq_of_bounds (negsuc n) k h a b = absurd (omega arith)

module _ (F : Type 0) ⦃fl : Float64 F⦄ (laws : IsFloat64 F) where
  open laws use {lt-div, lt-div-mi, lt-ceil, lt_weaken, nonneg-of_ℕ, nonneg-div, nonneg-ceil}

  -- The quotient stays where float64 counts exactly.
  small_quotient :
      (m : ℕ) → m ≤ exact_limit → fl.lt (of_ℕ exact_limit) (fl.div (of_ℕ m) (of_ℕ 1000)) ≡ false
  small_quotient m h = elim (Bool-cases (fl.lt (of_ℕ exact_limit) (fl.div (of_ℕ m) (of_ℕ 1000)))) [
    | inr e ↦ e
    | inl e ↦
        absurd (
          omega
            (arith, (lt-div exact_limit m 1000 (omega arith) h (omega arith) (omega arith)).0 e))
  ]

  whole_above :
      (n m : ℕ) → n ≤ exact_limit → m ≤ exact_limit → n * 1000 < m → pos n <ℤ whole F (pos m)
  unfolding whole
  whole_above n m b h p =
      (lt-ceil n _ b (small_quotient m h)).0 ((lt-div n m 1000 b h (omega arith) (omega arith)).1 p)

  whole_not_above :
      (n m : ℕ) → n ≤ exact_limit → m ≤ exact_limit → m ≤ n * 1000 → ¬ (pos n <ℤ whole F (pos m))
  unfolding whole
  whole_not_above n m b h p above =
      let q =
        (lt-div n m 1000 b h (omega arith) (omega arith)).0
          ((lt-ceil n _ b (small_quotient m h)).1 above) in
      omega arith

  whole_nonneg : (m : ℕ) → m ≤ exact_limit → pos 0 ≤ℤ whole F (pos m)
  unfolding whole
  whole_nonneg m h =
      nonneg-ceil _ (nonneg-div (of_ℕ m) 1000 (omega arith) (nonneg-of_ℕ m)) (small_quotient m h)

  -- The thousands that cover `m`.
  whole_lem : (m : ℕ) → m ≤ exact_limit → whole F (pos m) ≡ pos ((m + 999) / 1000)
  whole_lem m h =
      eq_of_bounds _ _ (whole_nonneg m h)
        (λ p. whole_above ((m + 999) / 1000 - 1) m (omega arith) h (omega arith))
        (whole_not_above ((m + 999) / 1000) m (omega arith) h (omega arith))

  -- The side of an integer on which the number of Mi lies.
  lt-mi :
      (n m : ℕ)
      → n * bytes_per_mi ≤ exact_limit
      → m ≤ exact_limit
      → (fl.lt (of_ℕ n) (fl.div (fl.div (of_ℕ m) (of_ℕ 1000)) (of_ℕ bytes_per_mi)) ≡ true)
        ↔ (n * bytes_per_mi * 1000 < m)
  lt-mi n m b h =
      let scale = lt-div-mi n m 1000 b h (omega arith) (omega arith) in
      let side = lt-div (n * bytes_per_mi) m 1000 b h (omega arith) (omega arith) in
      ((λ e. side.0 (scale.0 e)), λ p. scale.1 (side.1 p))

  small_mi :
      (m : ℕ)
      → m ≤ exact_limit
      → fl.lt (of_ℕ exact_limit) (fl.div (fl.div (of_ℕ m) (of_ℕ 1000)) (of_ℕ bytes_per_mi)) ≡ false
  small_mi m h =
      elim (Bool-cases
        (fl.lt (of_ℕ exact_limit) (fl.div (fl.div (of_ℕ m) (of_ℕ 1000)) (of_ℕ bytes_per_mi)))) [
          | inr e ↦ e
          | inl e ↦ absurd (
              omega (
                arith,
                (lt-mi (2 ^ 33) m (omega arith) h).0
                    (lt_weaken (2 ^ 33) exact_limit _ (omega arith) e),
              ))
        ]

  -- The Mi that cover `m` thousandths of a byte.
  whole_mi_lem :
      (m : ℕ) → m ≤ exact_limit → whole_mi F (pos m) ≡ pos ((m + 1048575999) / 1048576000)
  unfolding whole_mi
  whole_mi_lem m h =
      let k : ℕ = (m + 1048575999) / 1048576000 in
      eq_of_bounds _ k
        (nonneg-ceil _
          (nonneg-div _ bytes_per_mi (omega arith)
            (nonneg-div (of_ℕ m) 1000 (omega arith) (nonneg-of_ℕ m)))
          (small_mi m h))
        (λ p.
          (lt-ceil (k - 1) _ (omega arith) (small_mi m h)).0
            ((lt-mi (k - 1) m (omega arith) h).1 (omega arith)))
        (λ above.
          let q =
            (lt-mi k m (omega arith) h).0 ((lt-ceil k _ (omega arith) (small_mi m h)).1 above) in
          omega arith)

-- The milli-units between two amounts that a key can hold.
pub unit_of : Str → ℕ
unit_of res = if is_countable res then 1000 else if in_bytes (measure_of res) then 1048576000 else 1

-- The least multiple of `unit` that covers `m`.
pub round_up : ℕ → ℕ → ℕ
round_up unit m = (m + (unit - 1)) / unit * unit

pub round_up_covers : (res : Str) (m : ℕ) → m ≤ round_up (unit_of res) m
unfolding round_up unit_of
round_up_covers res m = ground arith

mul_pos : (a b : ℕ) → pos a *ℤ pos b ≡ pos (a * b)
unfolding ◌*ℤ◌
mul_pos a b = ground arith

mi_product : (k : ℕ) → k ≤ 2 ^ 33 → wrap64 (pos k *ℤ pos bytes_per_mi) ≡ pos (k * bytes_per_mi)
mi_product k h =
    ap wrap64 (mul_pos k bytes_per_mi)
    ∙ wrap64_of_IsInt64 (pos (k * bytes_per_mi))
        (record { below = omega arith; above = omega arith })

module _ (F : Type 0) ⦃fl : Float64 F⦄ (laws : IsFloat64 F) {Q : Type 0} ⦃rs : Resource Q⦄
    (documented : IsResource Q) where
  open documented use {milli-new_quantity, milli-new_milli}

  of_count :
      (m : ℕ) (f : Format)
      → m ≤ exact_limit
      → rs.milli_value (rs.new_quantity (whole F (pos m)) f) ≡ pos ((m + 999) / 1000 * 1000)
  of_count m f h = rw (whole_lem F laws m h) (milli-new_quantity ((m + 999) / 1000) f (omega arith))

  of_bytes :
      (m : ℕ) (f : Format)
      → m ≤ exact_limit
      → rs.milli_value (rs.new_quantity (wrap64 (whole_mi F (pos m) *ℤ pos bytes_per_mi)) f)
        ≡ pos ((m + 1048575999) / 1048576000 * 1048576000)
  of_bytes m f h =
      rw (whole_mi_lem F laws m h, mi_product ((m + 1048575999) / 1048576000) (omega arith))
        (milli-new_quantity ((m + 1048575999) / 1048576000 * bytes_per_mi) f (omega arith)
          ∙ ap pos (omega arith))

  -- For a target that float64 counts exactly, Quantize gives the least amount that the quota key can
  -- hold and that covers the target: whole objects for a countable key, whole Mi for a key in bytes,
  -- and the target itself for any other key.
  pub quantize_lem :
      (res : Str) (m : ℕ) (f : Format)
      → m ≤ exact_limit
      → (rs.milli_value (quantize F {Q = Q} res (pos m) f) ≡ pos (round_up (unit_of res) m))
        × (m ≤ round_up (unit_of res) m)
        × (round_up (unit_of res) m < m + unit_of res)
  unfolding quantize unit_of round_up
  quantize_lem res m f h = elim (Bool-cases (is_countable res)) [
    | inl c ↦ rw c (of_count m _ h, omega arith, omega arith)
    | inr c ↦ elim (Bool-cases (in_bytes (measure_of res))) [
      | inl b ↦ rw (c, b) (of_bytes m _ h, omega arith, omega arith)
      | inr b ↦
          rw (c, b)
            (milli-new_milli m f (omega arith) ∙ ap pos (omega arith), omega arith, omega arith)
    ]
  ]
