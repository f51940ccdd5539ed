-- ===== src/Sizing/Policy/Parse.antt =====
-- ParsePolicy of internal/sizing/policy.go, with its helpers.
pub mod Words
use namespace_resizer.Prelude.{
  ℕ, ◌*◌, Bool, true, false, not, ◌&&◌, ◌||◌, Option, none, some, List, [], ◌∷◌, ◌++◌,
  if◌then◌else◌,
}
use namespace_resizer.Prelude.Int.{ℤ, pos, pos_part, ◌*ℤ◌, wrap64, ltb_ℤ}
use namespace_resizer.Text.{Str, codes, ◌=s◌, has_prefix, trim_prefix, has_suffix, trim_suffix}
use namespace_resizer.GoMap.{Map, lookup, insert, has}
use namespace_resizer.Float.{Float64, of_ℕ}
use namespace_resizer.Quantity.{Resource}
use namespace_resizer.Clock.{Duration, hour_ns, minute_ns}
use namespace_resizer.Sizing.Policy.{Policy, default_key}
use Words.{atoi, equal_fold}

-- AnnotationPrefix
abbrev pub annotation_prefix : Str
annotation_prefix = codes "resizer.io/"

-- PolicyWarning, with a constructor for each text: WarningDeprecated from deprecationWarning, and
-- WarningRejected from rejectionWarning and from parseShrinkOptOut. The arguments are what
-- fmt.Sprintf fills in; a warning with an empty message is `none`.
pub data PolicyWarning : Type 0 where
  deprecated : Str → Str → PolicyWarning
  rejected : Str → Str → Str → PolicyWarning
  unrecognised : Str → PolicyWarning

-- suffixKey
unfoldable pub suffix_key : Str → Str → Str
suffix_key name suffix =
    let trimmed = trim_suffix (trim_suffix name suffix) (codes "-") in
    if trimmed =s [] then default_key else trimmed

module _ {F : Type 0} ⦃fl : Float64 F⦄ where
  -- parseFraction
  unfoldable pub parse_fraction : Str → Option F
  parse_fraction value =
      if has_suffix value (codes "%")
      then elim (fl.parse_float (trim_suffix value (codes "%"))) [
        | none ↦ none
        | some v ↦ some (fl.div v (of_ℕ 100))
      ]
      else fl.parse_float value

  -- `if v, ok := parseFraction(value); ok && v >= 0`
  unfoldable pub parse_headroom : Str → Option F
  parse_headroom value = elim (parse_fraction value) [
    | none ↦ none
    | some v ↦ if fl.le (of_ℕ 0) v then some v else none
  ]

  -- The fraction that a percentage in (0, 100] stands for.
  unfoldable pub parse_threshold : Str → Option F
  parse_threshold value = elim (fl.parse_float value) [
    | none ↦ none
    | some v ↦
        if fl.lt (of_ℕ 0) v && fl.le v (of_ℕ 100)
        then some (fl.sub (fl.div (of_ℕ 100) v) (of_ℕ 1))
        else none
  ]

  -- v >= 0 && v < 1
  unfoldable pub parse_tolerance : Str → Option F
  parse_tolerance value = elim (parse_fraction value) [
    | none ↦ none
    | some v ↦ if fl.le (of_ℕ 0) v && fl.lt v (of_ℕ 1) then some v else none
  ]

  -- v > 0 && v < 1
  unfoldable pub parse_step : Str → Option F
  parse_step value = elim (parse_fraction value) [
    | none ↦ none
    | some v ↦ if fl.lt (of_ℕ 0) v && fl.lt v (of_ℕ 1) then some v else none
  ]

-- `if v, err := strconv.Atoi(value); err == nil && v > 0`
unfoldable pub parse_positive : Str → Option ℤ
parse_positive value = elim (atoi value) [
  | none ↦ none
  | some v ↦ if ltb_ℤ (pos 0) v then some v else none
]

-- `if v, err := strconv.Atoi(value); err == nil && v >= 0`
unfoldable pub parse_natural : Str → Option ℤ
parse_natural value = elim (atoi value) [
  | none ↦ none
  | some v ↦ if ltb_ℤ v (pos 0) then none else some v
]

-- time.Duration(v) * 24 * time.Hour
unfoldable pub of_days : ℤ → Duration
of_days v = wrap64 (wrap64 (v *ℤ pos 24) *ℤ pos hour_ns)

-- time.Duration(v) * time.Minute
unfoldable pub of_minutes : ℤ → Duration
of_minutes v = wrap64 (v *ℤ pos minute_ns)

module _ {F Q : Type 0} where
  -- A value that passes sets its field; any other is reported, and the field stays.
  unfoldable pub set_or_reject :
      {A : Type 0}
      → Option A
      → (A → Policy F Q)
      → PolicyWarning
      → Policy F Q
      → Policy F Q × Option PolicyWarning
  set_or_reject none set warning out = (out, some warning)
  set_or_reject (some v) set warning out = (set v, none)

  -- parseShrinkOptOut
  unfoldable pub parse_shrink_opt_out : Str → Policy F Q → Policy F Q × Option PolicyWarning
  parse_shrink_opt_out value out =
      if equal_fold value (codes "true")
      then (out, none)
      else if equal_fold value (codes "false")
      then (record out { shrink_enabled = false }, none)
      else (record out { shrink_enabled = false }, some (unrecognised value))

module _ {F Q : Type 0} ⦃fl : Float64 F⦄ ⦃rs : Resource Q⦄ where
  -- The cases of parseScalar, from the last on.
  unfoldable pub parse_flag : Str → Str → Policy F Q → Policy F Q × Option PolicyWarning
  parse_flag name value out =
      if name =s codes "enabled"
      then (record out { enabled = not (value =s codes "false") }, none)
      else if name =s codes "shrink-enabled"
      then parse_shrink_opt_out value out
      else (out, none)

  unfoldable pub parse_span : Str → Str → Policy F Q → Policy F Q × Option PolicyWarning
  parse_span name value out =
      if name =s codes "shrink-cooldown-days"
      then set_or_reject (parse_natural value) (λ v. record out { shrink_cooldown = of_days v })
          (rejected name value (codes "must be a non-negative integer")) out
      else if name =s codes "shrink-pr-ttl-days"
      then set_or_reject (parse_positive value) (λ v. record out { shrink_pr_ttl = of_days v })
          (rejected name value (codes "must be a positive integer")) out
      else if name =s codes "cooldown-minutes"
      then set_or_reject (parse_natural value) (λ v. record out { grow_cooldown = of_minutes v })
          (rejected name value (codes "must be a non-negative integer")) out
      else parse_flag name value out

  unfoldable pub parse_bounded : Str → Str → Policy F Q → Policy F Q × Option PolicyWarning
  parse_bounded name value out =
      if name =s codes "tolerance"
      then set_or_reject (parse_tolerance value) (λ v. record out { tolerance = v })
          (rejected name value (codes "must be a fraction in [0, 1), e.g. \"0.15\" or \"15%\"")) out
      else if name =s codes "max-shrink-step"
      then set_or_reject (parse_step value) (λ v. record out { max_shrink_step = v })
          (rejected name value (codes "must be a fraction in (0, 1), e.g. \"0.25\" or \"25%\"")) out
      else if name =s codes "window-days"
      then set_or_reject (parse_positive value) (λ v. record out { window_days = pos_part v })
          (rejected name value (codes "must be a positive integer")) out
      else parse_span name value out

  unfoldable pub parse_scalar : Str → Str → Policy F Q → Policy F Q × Option PolicyWarning
  parse_scalar name value out =
      if has_suffix name (codes "-min")
      then set_or_reject (rs.parse_quantity value)
          (λ q. record out { min = insert (trim_suffix name (codes "-min")) q out.min })
          (rejected name value (codes "must be a valid resource quantity")) out
      else parse_bounded name value out
