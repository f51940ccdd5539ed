-- ===== src/Sizing/Policy/OptOut.antt =====
-- A namespace can switch shrinking off and never on: the annotation shrink-enabled in ParsePolicy
-- (internal/sizing/policy.go).
use namespace_resizer.Prelude.{
  ◌≡◌, refl, Bool, false, some, [], ◌∷◌, ◌⊎◌, inl, inr, arith, Bool-cases, sym, subst,
}
use namespace_resizer.Text.{Str, codes, ◌=s◌, has_prefix, trim_prefix, has_suffix}
use namespace_resizer.Text.Equality.{eq_of_=s}
use namespace_resizer.GoMap.{Map, lookup}
use namespace_resizer.Float.{Float64}
use namespace_resizer.Quantity.{Resource}
use namespace_resizer.Sizing.Policy.{Policy}
use namespace_resizer.Sizing.Policy.Parse.{
  annotation_prefix, set_or_reject, parse_shrink_opt_out, parse_flag, parse_span, parse_bounded,
  parse_scalar,
}
use namespace_resizer.Sizing.Policy.Parse.Words.{equal_fold}
use namespace_resizer.Sizing.Policy.Merge.{
  Parsing, collect, scalar, parse_named, parse_annotation, parse_all, merge, start, parse_policy,
}

some_inj : {x y : Str} → some x ≡ some y → x ≡ y
some_inj e = cc

-- The setting is as before, or off.
abbrev pub Lowered : Bool → Bool → Type 0
Lowered before after = (after ≡ before) ⊎ (after ≡ false)

module _ {F Q : Type 0} ⦃fl : Float64 F⦄ ⦃rs : Resource Q⦄ where
  flag_lowers :
      (name value : Str) (out : Policy F Q)
      → Lowered out.shrink_enabled (parse_flag name value out).0.shrink_enabled
  unfolding parse_flag parse_shrink_opt_out
  flag_lowers name value out = ground arith

  span_lowers :
      (name value : Str) (out : Policy F Q)
      → Lowered out.shrink_enabled (parse_span name value out).0.shrink_enabled
  unfolding parse_span set_or_reject
  span_lowers name value out = ground (arith, flag_lowers name value out)

  bounded_lowers :
      (name value : Str) (out : Policy F Q)
      → Lowered out.shrink_enabled (parse_bounded name value out).0.shrink_enabled
  unfolding parse_bounded set_or_reject
  bounded_lowers name value out = ground (arith, span_lowers name value out)

  scalar_lowers :
      (name value : Str) (out : Policy F Q)
      → Lowered out.shrink_enabled (parse_scalar name value out).0.shrink_enabled
  unfolding parse_scalar set_or_reject
  scalar_lowers name value out = ground (arith, bounded_lowers name value out)

  named_lowers :
      (name value : Str) (acc : Parsing F Q)
      → Lowered acc.out.shrink_enabled (parse_named name value acc).out.shrink_enabled
  unfolding parse_named scalar collect
  named_lowers name value acc = ground (arith, scalar_lowers name value acc.out)

  annotation_lowers :
      (key value : Str) (acc : Parsing F Q)
      → Lowered acc.out.shrink_enabled (parse_annotation key value acc).out.shrink_enabled
  unfolding parse_annotation
  annotation_lowers key value acc =
      ground (arith, named_lowers (trim_prefix key annotation_prefix) value acc)

  all_lowers :
      (m : Map Str) (acc : Parsing F Q)
      → Lowered acc.out.shrink_enabled (parse_all m acc).out.shrink_enabled
  unfolding parse_all
  all_lowers [] acc = inl refl
  all_lowers ((key, value) ∷ rest) acc =
      ground
        (arith, all_lowers rest (parse_annotation key value acc), annotation_lowers key value acc)

  -- Whatever the annotations of a namespace say, ParsePolicy leaves ShrinkEnabled as the base has it,
  -- or switches it off.
  pub shrink_enabled_lem :
      (annotations : Map Str) (base : Policy F Q)
      → Lowered base.shrink_enabled (parse_policy annotations base).0.shrink_enabled
  unfolding parse_policy merge
  shrink_enabled_lem annotations base = all_lowers annotations (start base)

  -- The annotation itself, when it does not say "true".
  switched_off :
      (value : Str) (acc : Parsing F Q)
      → equal_fold value (codes "true") ≡ false
      → (parse_annotation (codes "resizer.io/shrink-enabled") value acc).out.shrink_enabled ≡ false
  unfolding parse_annotation parse_named scalar parse_scalar parse_bounded parse_span parse_flag
      has_prefix trim_prefix has_suffix ◌=s◌ parse_shrink_opt_out
  switched_off value acc h = rw h (ground arith)

  -- Off stays off.
  stays_off :
      (m : Map Str) (acc : Parsing F Q)
      → acc.out.shrink_enabled ≡ false
      → (parse_all m acc).out.shrink_enabled ≡ false
  stays_off m acc h = ground (arith, all_lowers m acc)

  all_off :
      (m : Map Str) (acc : Parsing F Q) (value : Str)
      → lookup (codes "resizer.io/shrink-enabled") m ≡ some value
      → equal_fold value (codes "true") ≡ false
      → (parse_all m acc).out.shrink_enabled ≡ false
  unfolding parse_all lookup
  all_off [] acc value e h = cc e
  all_off ((key, v) ∷ rest) acc value e h =
      elim (Bool-cases (key =s codes "resizer.io/shrink-enabled")) [
        | inl k ↦ stays_off rest (parse_annotation key v acc) (
            rw (eq_of_=s key (codes "resizer.io/shrink-enabled") k) (
              switched_off v acc
                (subst (λ x. equal_fold x (codes "true") ≡ false) (sym (some_inj (rw k at e))) h)))
        | inr k ↦ all_off rest (parse_annotation key v acc) value (rw k at e) h
      ]

  -- A namespace with the annotation resizer.io/shrink-enabled and any value but "true", in whatever
  -- case, is never shrunk, whatever its other annotations and the base say.
  pub shrink_opt_out_lem :
      (annotations : Map Str) (base : Policy F Q) (value : Str)
      → lookup (codes "resizer.io/shrink-enabled") annotations ≡ some value
      → equal_fold value (codes "true") ≡ false
      → (parse_policy annotations base).0.shrink_enabled ≡ false
  unfolding parse_policy merge
  shrink_opt_out_lem annotations base value e h = all_off annotations (start base) value e h
