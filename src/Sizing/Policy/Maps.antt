-- ===== src/Sizing/Policy/Maps.antt =====
-- The maps that the first loop of ParsePolicy (internal/sizing/policy.go) fills have one entry for
-- each key.
use namespace_resizer.Prelude.{Option, none, some, [], ◌∷◌, inl, inr, Bool-cases}
use namespace_resizer.Text.{Str, codes, has_prefix, has_suffix, trim_prefix}
use namespace_resizer.GoMap.{Map, DistinctKeys}
use namespace_resizer.GoMap.Distinct.{insert-DistinctKeys}
use namespace_resizer.Float.{Float64}
use namespace_resizer.Quantity.{Resource}
use namespace_resizer.Sizing.Policy.Parse.{PolicyWarning, annotation_prefix}
use namespace_resizer.Sizing.Policy.Merge.{
  Parsing, collect, scalar, parse_named, parse_annotation, parse_all,
}

-- The maps that the first loop fills are maps.
pub record AreMaps {F Q : Type 0} (p : Parsing F Q) : Type 0 where
  pub headroom_distinct : DistinctKeys p.from_headroom
  pub increment_distinct : DistinctKeys p.from_increment
  pub threshold_distinct : DistinctKeys p.from_threshold

module _ {F Q : Type 0} ⦃fl : Float64 F⦄ ⦃rs : Resource Q⦄ where
  collect-AreMaps :
      (o : Option F) (store : F → Parsing F Q) (w : PolicyWarning) (acc : Parsing F Q)
      → AreMaps acc
      → ((v : F) → AreMaps (store v))
      → AreMaps (collect o store w acc)
  unfolding collect
  collect-AreMaps none store w acc h k = record {
    headroom_distinct = h.headroom_distinct;
    increment_distinct = h.increment_distinct;
    threshold_distinct = h.threshold_distinct;
  }
  collect-AreMaps (some v) store w acc h k = k v

  named-AreMaps :
      (name value : Str) (acc : Parsing F Q) → AreMaps acc → AreMaps (parse_named name value acc)
  unfolding parse_named scalar
  named-AreMaps name value acc h = elim (Bool-cases (has_suffix name (codes "headroom"))) [
    | inl a ↦ rw a (
        collect-AreMaps _ _ _ acc h (λ v. record {
          headroom_distinct = insert-DistinctKeys _ v acc.from_headroom h.headroom_distinct;
          increment_distinct = h.increment_distinct;
          threshold_distinct = h.threshold_distinct;
        }))
    | inr a ↦ elim (Bool-cases (has_suffix name (codes "increment"))) [
      | inl b ↦
          rw (a, b)
            (collect-AreMaps _ _ _ acc h (λ v. record {
              headroom_distinct = h.headroom_distinct;
              increment_distinct = insert-DistinctKeys _ v acc.from_increment h.increment_distinct;
              threshold_distinct = h.threshold_distinct;
            }))
      | inr b ↦ elim (Bool-cases (has_suffix name (codes "threshold"))) [
        | inl c ↦
            rw (a, b, c)
              (collect-AreMaps _ _ _ acc h (λ v. record {
                headroom_distinct = h.headroom_distinct;
                increment_distinct = h.increment_distinct;
                threshold_distinct =
                    insert-DistinctKeys _ v acc.from_threshold h.threshold_distinct;
              }))
        | inr c ↦
            rw (a, b, c)
              (record {
                headroom_distinct = h.headroom_distinct;
                increment_distinct = h.increment_distinct;
                threshold_distinct = h.threshold_distinct;
              })
      ]
    ]
  ]

  pub all-AreMaps : (m : Map Str) (acc : Parsing F Q) → AreMaps acc → AreMaps (parse_all m acc)
  unfolding parse_all parse_annotation
  all-AreMaps [] acc h = h
  all-AreMaps ((key, value) ∷ rest) acc h = elim (Bool-cases (has_prefix key annotation_prefix)) [
    | inl p ↦
        rw p (all-AreMaps rest _ (named-AreMaps (trim_prefix key annotation_prefix) value acc h))
    | inr p ↦ rw p (all-AreMaps rest acc h)
  ]
