-- ===== src/Sizing/Policy/Ranges.antt =====
-- ParsePolicy keeps the settings in their ranges (internal/sizing/policy.go).
use namespace_resizer.Prelude.{
  ◌<◌, ◌≡◌, refl, true, ◌⊎◌, Option, none, some, [], ◌∷◌, if◌then◌else◌, arith, Bool-cases, inl,
  inr,
}
use namespace_resizer.Prelude.Int.{ℤ, pos, pos_part, ltb_ℤ}
use namespace_resizer.Text.{trim_prefix, Str}
use namespace_resizer.GoMap.{Map}
use namespace_resizer.Float.{Float64, of_ℕ}
use namespace_resizer.Quantity.{Resource}
use namespace_resizer.Sizing.Policy.{Policy}
use namespace_resizer.Sizing.Policy.Parse.{
  annotation_prefix, parse_tolerance, parse_step, parse_positive, parse_flag, parse_span,
  parse_bounded, set_or_reject, parse_shrink_opt_out, parse_scalar,
}
use namespace_resizer.Sizing.Policy.Parse.Words.{atoi}
use namespace_resizer.Sizing.Policy.Merge.{
  Parsing, collect, scalar, parse_named, parse_annotation, parse_all, merge, start, parse_policy,
}

module _ {F Q : Type 0} ⦃fl : Float64 F⦄ where
  -- The ranges that the comments of ParsePolicy give.
  pub record InRange (p : Policy F Q) : Type 0 where
    pub tolerance_low : fl.le (of_ℕ 0) p.tolerance ≡ true
    pub tolerance_high : fl.lt p.tolerance (of_ℕ 1) ≡ true
    pub step_low : fl.lt (of_ℕ 0) p.max_shrink_step ≡ true
    pub step_high : fl.lt p.max_shrink_step (of_ℕ 1) ≡ true
    pub days_low : 0 < p.window_days

-- A value that is there is within bounds.
abbrev Within : {A : Type 0} → (A → Type 0) → Option A → Type 0
Within P o = (o ≡ none) ⊎ ((v : _) × (o ≡ some v) × P v)

module _ {F : Type 0} ⦃fl : Float64 F⦄ where
  tolerance_range :
      (value : Str)
      → Within (λ v. (fl.le (of_ℕ 0) v ≡ true) × (fl.lt v (of_ℕ 1) ≡ true)) (parse_tolerance value)
  unfolding parse_tolerance
  tolerance_range value = ground arith

  step_range :
      (value : Str)
      → Within (λ v. (fl.lt (of_ℕ 0) v ≡ true) × (fl.lt v (of_ℕ 1) ≡ true)) (parse_step value)
  unfolding parse_step
  step_range value = ground arith

positive : (v : ℤ) → ltb_ℤ (pos 0) v ≡ true → 0 < pos_part v
positive v h = ground arith

count_range : (value : Str) → Within (λ v. 0 < pos_part v) (parse_positive value)
unfolding parse_positive
count_range value = go (atoi value)
  where
    go :
        (o : Option ℤ)
        → Within
            (λ v. 0 < pos_part v)
            (elim o [ none ↦ none | some v ↦ if ltb_ℤ (pos 0) v then some v else none ])
    go none = inl refl
    go (some v) = elim (Bool-cases (ltb_ℤ (pos 0) v)) [
      | inl p ↦ rw p (inr (v, refl, positive v p))
      | inr p ↦ rw p (inl refl)
    ]

module _ {F Q : Type 0} ⦃fl : Float64 F⦄ ⦃rs : Resource Q⦄ where
  same_range :
      (p q : Policy F Q)
      → InRange p
      → q.tolerance ≡ p.tolerance
      → q.max_shrink_step ≡ p.max_shrink_step
      → q.window_days ≡ p.window_days
      → InRange q
  same_range p q h a b c = record {
    tolerance_low = rw a h.tolerance_low;
    tolerance_high = rw a h.tolerance_high;
    step_low = rw b h.step_low;
    step_high = rw b h.step_high;
    days_low = rw c h.days_low;
  }

  parse_flag-InRange :
      (name value : Str) (out : Policy F Q) → InRange out → InRange (parse_flag name value out).0
  unfolding parse_flag parse_shrink_opt_out
  parse_flag-InRange name value out h =
      same_range out (parse_flag name value out).0 h (ground arith) (ground arith) (ground arith)

  parse_span-InRange :
      (name value : Str) (out : Policy F Q) → InRange out → InRange (parse_span name value out).0
  unfolding parse_span set_or_reject
  parse_span-InRange name value out h = ground (arith, parse_flag-InRange name value out h)

  parse_bounded-InRange :
      (name value : Str) (out : Policy F Q) → InRange out → InRange (parse_bounded name value out).0
  unfolding parse_bounded set_or_reject
  parse_bounded-InRange name value out h = ground (
    arith,
    parse_span-InRange name value out h,
    tolerance_range {F = F} value,
    step_range {F = F} value,
    count_range value,
  )

  parse_scalar-InRange :
      (name value : Str) (out : Policy F Q) → InRange out → InRange (parse_scalar name value out).0
  unfolding parse_scalar set_or_reject
  parse_scalar-InRange name value out h = ground (arith, parse_bounded-InRange name value out h)

  named-InRange :
      (name value : Str) (acc : Parsing F Q)
      → InRange acc.out
      → InRange (parse_named name value acc).out
  unfolding parse_named scalar collect
  named-InRange name value acc h = ground (arith, parse_scalar-InRange name value acc.out h)

  parse_annotation-InRange :
      (key value : Str) (acc : Parsing F Q)
      → InRange acc.out
      → InRange (parse_annotation key value acc).out
  unfolding parse_annotation
  parse_annotation-InRange key value acc h =
      ground (arith, named-InRange (trim_prefix key annotation_prefix) value acc h)

  parse_all-InRange :
      (m : Map Str) (acc : Parsing F Q) → InRange acc.out → InRange (parse_all m acc).out
  unfolding parse_all
  parse_all-InRange [] acc h = h
  parse_all-InRange ((key, value) ∷ rest) acc h =
      parse_all-InRange rest (parse_annotation key value acc)
        (parse_annotation-InRange key value acc h)

  -- Whatever the annotations of a namespace say, the policy that ParsePolicy makes of a base in
  -- range is in range: a tolerance in [0, 1), a step cap in (0, 1), and a window of at least one day.
  pub parse_policy-InRange :
      (annotations : Map Str) (base : Policy F Q)
      → InRange base
      → InRange (parse_policy annotations base).0
  unfolding parse_policy merge
  parse_policy-InRange annotations base h =
      same_range (parse_all annotations (start base)).out (parse_policy annotations base).0
        (parse_all-InRange annotations (start base) h) refl refl refl
