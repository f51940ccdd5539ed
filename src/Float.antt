-- ===== src/Float.antt =====
-- Go's float64 as far as the repository computes with it: an interface of operations, and the facts
-- of IEEE 754 arithmetic that the proofs use, each of them true of rounding to nearest.
pub mod Rational
use namespace_resizer.Prelude.{ℕ, ◌*◌, ◌^◌, ◌≤◌, ◌<◌, ◌≡◌, ◌↔◌, Bool, true, false, Option}
use namespace_resizer.Prelude.Int.{ℤ, pos, ◌≤ℤ◌, ◌<ℤ◌, two63}
use namespace_resizer.Text.{Str}

pub record Float64 (F : Type 0) : Type 0 where
  -- float64(i)
  pub of_int : ℤ → F
  -- int64(x): towards zero, where the result fits
  pub to_int : F → ℤ
  -- the constant m / d
  pub literal : ℕ → ℕ → F
  pub add : F → F → F
  pub sub : F → F → F
  pub mul : F → F → F
  pub div : F → F → F
  -- math.Ceil
  pub ceil : F → F
  pub lt : F → F → Bool
  pub le : F → F → Bool
  -- strconv.ParseFloat(s, 64); `none` is its error
  pub parse_float : Str → Option F

-- Integers up to here are float64 values.
abbrev pub exact_limit : ℕ
exact_limit = 2 ^ 53

abbrev pub bytes_per_mi : ℕ
bytes_per_mi = 1024 * 1024

module _ {F : Type 0} ⦃fl : Float64 F⦄ where
  abbrev pub of_ℕ : ℕ → F
  of_ℕ n = fl.of_int (pos n)

  -- x > y
  abbrev pub gt : F → F → Bool
  gt x y = fl.lt y x

pub record IsFloat64 (F : Type 0) ⦃fl : Float64 F⦄ : Type 0 where
  -- A sum with a number that is not negative does not fall below 1.
  pub one-le-add : (h : F) → fl.le (of_ℕ 0) h ≡ true → fl.le (of_ℕ 1) (fl.add (of_ℕ 1) h) ≡ true
  -- Nor does a product with a number that is at least 1 fall below the other factor, where it is below
  -- 2^63. (So it is a number: the product of 0 and +Inf is none, and is below nothing.)
  pub le-mul :
      (m : ℕ) (g : F)
      → m ≤ exact_limit
      → fl.le (of_ℕ 1) g ≡ true
      → fl.lt (fl.mul (of_ℕ m) g) (of_ℕ two63) ≡ true
      → fl.le (of_ℕ m) (fl.mul (of_ℕ m) g) ≡ true
  -- Conversion to int64 keeps a lower bound, where the result fits.
  pub le-to_int :
      (m : ℕ) (x : F)
      → m ≤ exact_limit
      → fl.le (of_ℕ m) x ≡ true
      → fl.lt x (of_ℕ two63) ≡ true
      → pos m ≤ℤ fl.to_int x
  -- A quotient of exact integers is on the same side of an integer as the true one.
  pub lt-div :
      (n a b : ℕ)
      → n ≤ exact_limit
      → a ≤ exact_limit
      → 0 < b
      → b ≤ 1000
      → (fl.lt (of_ℕ n) (fl.div (of_ℕ a) (of_ℕ b)) ≡ true) ↔ (n * b < a)
  -- Division by 2^20 changes the exponent only.
  pub lt-div-mi :
      (n a b : ℕ)
      → n * bytes_per_mi ≤ exact_limit
      → a ≤ exact_limit
      → 0 < b
      → b ≤ 1000
      → (fl.lt (of_ℕ n) (fl.div (fl.div (of_ℕ a) (of_ℕ b)) (of_ℕ bytes_per_mi)) ≡ true)
        ↔ (fl.lt (of_ℕ (n * bytes_per_mi)) (fl.div (of_ℕ a) (of_ℕ b)) ≡ true)
  -- Rounding up gives the least integer that is not below.
  pub lt-ceil :
      (n : ℕ) (x : F)
      → n ≤ exact_limit
      → fl.lt (of_ℕ exact_limit) x ≡ false
      → (fl.lt (of_ℕ n) x ≡ true) ↔ (pos n <ℤ fl.to_int (fl.ceil x))
  -- The order against integers is transitive.
  pub lt_weaken : (m n : ℕ) (x : F) → m ≤ n → fl.lt (of_ℕ n) x ≡ true → fl.lt (of_ℕ m) x ≡ true
  -- Numbers that are not negative, their quotients, and what is rounded up from them.
  pub nonneg-of_ℕ : (n : ℕ) → fl.le (of_ℕ 0) (of_ℕ n) ≡ true
  pub nonneg-div :
      (x : F) (b : ℕ) → 0 < b → fl.le (of_ℕ 0) x ≡ true → fl.le (of_ℕ 0) (fl.div x (of_ℕ b)) ≡ true
  pub nonneg-ceil :
      (x : F)
      → fl.le (of_ℕ 0) x ≡ true
      → fl.lt (of_ℕ exact_limit) x ≡ false
      → pos 0 ≤ℤ fl.to_int (fl.ceil x)
