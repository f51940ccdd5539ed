-- ===== src/Sizing/Policy/Merge.antt =====
-- ParsePolicy of internal/sizing/policy.go: the two loops over the annotations. The maps that it
-- copies first are values here.
use namespace_resizer.Prelude.{Bool, ◌||◌, Option, none, some, List, [], ◌∷◌, ◌++◌, if◌then◌else◌}
use namespace_resizer.Text.{Str, codes, has_prefix, trim_prefix, has_suffix}
use namespace_resizer.GoMap.{Map, insert, has}
use namespace_resizer.Float.{Float64}
use namespace_resizer.Quantity.{Resource}
use namespace_resizer.Sizing.Policy.{Policy}
use namespace_resizer.Sizing.Policy.Parse.{
  annotation_prefix, PolicyWarning, deprecated, rejected, suffix_key, parse_headroom,
  parse_threshold, parse_scalar,
}

-- out and the maps that the first loop fills.
pub record Parsing (F Q : Type 0) : Type 0 where
  pub out : Policy F Q
  pub from_headroom : Map F
  pub from_increment : Map F
  pub from_threshold : Map F
  pub warnings : List PolicyWarning

-- append, for a warning with a message
abbrev pub warn : List PolicyWarning → Option PolicyWarning → List PolicyWarning
warn ws none = ws
warn ws (some w) = ws ++ w ∷ []

module _ {F Q : Type 0} where
  -- A value that passes goes into a map; any other is reported.
  unfoldable pub collect : Option F → (F → Parsing F Q) → PolicyWarning → Parsing F Q → Parsing F Q
  collect none store warning acc = record acc { warnings = acc.warnings ++ warning ∷ [] }
  collect (some v) store warning acc = store v

module _ {F Q : Type 0} ⦃fl : Float64 F⦄ ⦃rs : Resource Q⦄ where
  unfoldable pub scalar : Str → Str → Parsing F Q → Parsing F Q
  scalar name value acc =
      let (out, warning) = parse_scalar name value acc.out in
      record acc { out = out; warnings = warn acc.warnings warning }

  -- The switch of the first loop, on the name behind the prefix.
  unfoldable pub parse_named : Str → Str → Parsing F Q → Parsing F Q
  parse_named name value acc =
      if has_suffix name (codes "headroom")
      then collect (parse_headroom value)
          (λ v. record acc {
            from_headroom = insert (suffix_key name (codes "headroom")) v acc.from_headroom;
          })
          (rejected name value (codes "must be a fraction >= 0, e.g. \"0.25\" or \"25%\"")) acc
      else if has_suffix name (codes "increment")
      then collect (parse_headroom value)
          (λ v. record acc {
            from_increment = insert (suffix_key name (codes "increment")) v acc.from_increment;
          })
          (rejected name value (codes "must be a fraction >= 0, e.g. \"0.2\" or \"20%\"")) acc
      else if has_suffix name (codes "threshold")
      then collect (parse_threshold value)
          (λ v. record acc {
            from_threshold = insert (suffix_key name (codes "threshold")) v acc.from_threshold;
          })
          (rejected name value (codes "must be a percentage in (0, 100]")) acc
      else scalar name value acc

  -- The body of the first loop.
  unfoldable pub parse_annotation : Str → Str → Parsing F Q → Parsing F Q
  parse_annotation key value acc =
      if has_prefix key annotation_prefix
      then parse_named (trim_prefix key annotation_prefix) value acc
      else acc

  unfoldable pub parse_all : Map Str → Parsing F Q → Parsing F Q
  parse_all [] acc = acc
  parse_all ((key, value) ∷ rest) acc = parse_all rest (parse_annotation key value acc)

-- The loops over the old spellings: what `over` holds wins.
module _ {F : Type 0} where
  unfoldable pub merge_old :
      (Str → Bool) → Str → Map F → Map F × List PolicyWarning → Map F × List PolicyWarning
  merge_old over old [] acc = acc
  merge_old over old ((res, v) ∷ rest) (headroom, warnings) = merge_old over old rest (
      if over res
      then (headroom, warnings)
      else (insert res v headroom, warnings ++ deprecated res old ∷ []))

  unfoldable pub merge_new : Map F → Map F → Map F
  merge_new [] headroom = headroom
  merge_new ((res, v) ∷ rest) headroom = merge_new rest (insert res v headroom)

module _ {F Q : Type 0} where
  -- The second part: headroom before increment before threshold.
  unfoldable pub merge : Parsing F Q → Policy F Q × List PolicyWarning
  merge p =
      let after_threshold =
        merge_old (λ res. has res p.from_headroom || has res p.from_increment) (codes "threshold")
          p.from_threshold (p.out.headroom, p.warnings) in
      let (headroom, warnings) =
        merge_old (λ res. has res p.from_headroom) (codes "increment") p.from_increment
          after_threshold in
      (record p.out { headroom = merge_new p.from_headroom headroom }, warnings)

  abbrev pub start : Policy F Q → Parsing F Q
  start base = record {
    out = base;
    from_headroom = [];
    from_increment = [];
    from_threshold = [];
    warnings = [];
  }

module _ {F Q : Type 0} ⦃fl : Float64 F⦄ ⦃rs : Resource Q⦄ where
  unfoldable pub parse_policy : Map Str → Policy F Q → Policy F Q × List PolicyWarning
  parse_policy annotations base = merge (parse_all annotations (start base))
