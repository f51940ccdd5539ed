-- ===== src/Float/Rational.antt =====
-- Exact fractions that are not negative: an arithmetic without rounding, in which the examples run
-- and at which the facts about float64 are seen to be consistent.
use native.Mathlib.Nat.{mul-le-mul, le_refl}
use namespace_resizer.Prelude.{
  ℕ, suc, ◌+◌, ◌-◌, ◌*◌, ◌/◌, ◌≤◌, ◌<◌, ◌≡◌, ◌↔◌, true, some, arith, ltb, leb, le→leb, lt→ltb,
  ltb→lt,
}
use namespace_resizer.Prelude.Int.{pos, pos_part, ◌<ℤ◌}
use namespace_resizer.Text.Decimal.{read_digits}
use namespace_resizer.Float.{Float64, IsFloat64, bytes_per_mi}

-- top / (below + 1)
pub record Fraction : Type 0 where
  pub top : ℕ
  pub below : ℕ

abbrev pub den : Fraction → ℕ
den x = suc x.below

instance abbrev pub fraction_float : Float64 Fraction
fraction_float = record {
  of_int = λ i. record { top = pos_part i; below = 0 };
  to_int = λ x. pos (x.top / den x);
  literal = λ m d. record { top = m; below = d - 1 };
  add = λ x y. record { top = x.top * den y + y.top * den x; below = den x * den y - 1 };
  sub = λ x y. record { top = x.top * den y - y.top * den x; below = den x * den y - 1 };
  mul = λ x y. record { top = x.top * y.top; below = den x * den y - 1 };
  div = λ x y. record { top = x.top * den y; below = den x * y.top - 1 };
  ceil = λ x. record { top = (x.top + x.below) / den x; below = 0 };
  lt = λ x y. ltb (x.top * den y) (y.top * den x);
  le = λ x y. leb (x.top * den y) (y.top * den x);
  parse_float = λ s. some (record { top = read_digits 0 s; below = 0 });
}

le-div_of_mul-le : (m a d : ℕ) → m * suc d ≤ a → m ≤ a / suc d
le-div_of_mul-le m a d h = grind arith

mul-le_of_le-div : (m a d : ℕ) → m ≤ a / suc d → m * suc d ≤ a
mul-le_of_le-div m a d h = grind arith

lt_cleared : (n a b : ℕ) → 0 < b → (ltb (n * suc (1 * b - 1)) (a * 1 * 1) ≡ true) ↔ (n * b < a)
lt_cleared n a b h = let e : suc (1 * b - 1) ≡ b = omega arith in rw e (ground arith)

le_cleared :
    (m top below : ℕ) → suc below ≤ top → leb (m * suc (1 * suc below - 1)) (m * top * 1) ≡ true
le_cleared m top below h =
    let e : suc (1 * suc below - 1) ≡ suc below = omega arith in
    rw e (le→leb _ _ (omega (arith, mul-le-mul (le_refl m) h)))

mi_cleared :
    (n a b : ℕ)
    → 0 < b
    → (ltb (n * suc (suc (1 * b - 1) * 1048576 - 1)) (a * 1 * 1 * 1) ≡ true)
      ↔ (ltb (n * bytes_per_mi * suc (1 * b - 1)) (a * 1 * 1) ≡ true)
mi_cleared n a b h =
    let e : suc (1 * b - 1) ≡ b = omega arith in
    let k : suc (b * 1048576 - 1) ≡ b * 1048576 = omega arith in rw (e, k) (ground arith)

ceil_cleared :
    (n top below : ℕ)
    → (ltb (n * suc below) (top * 1) ≡ true) ↔ (pos n <ℤ pos ((top + below) / suc below / 1))
ceil_cleared n top below = (
  (λ h. omega (arith, le-div_of_mul-le (suc n) (top + below) below (ground arith))),
  λ h. lt→ltb _ _ (omega (arith, mul-le_of_le-div (suc n) (top + below) below (omega arith))),
)

pub Fraction-IsFloat64 : IsFloat64 Fraction
Fraction-IsFloat64 = record {
  one-le-add = λ h p. ground arith;
  le-mul = λ m g b p q. le_cleared m g.top g.below (ground arith);
  le-to_int = λ m x b p q. omega (arith, le-div_of_mul-le m x.top x.below (ground arith));
  lt-div = λ n a b p q r s. lt_cleared n a b r;
  lt-div-mi = λ n a b p q r s. mi_cleared n a b r;
  lt-ceil = λ n x p q. ceil_cleared n x.top x.below;
  lt_weaken = λ m n x p q. lt→ltb _ _ (grind (arith, ltb→lt _ _ q));
  nonneg-of_ℕ = λ n. ground arith;
  nonneg-div = λ x b p q. ground arith;
  nonneg-ceil = λ x p q. omega arith;
}
