-- ===== src/Sizing/Policy/Precedence.antt =====
-- Which annotation decides the headroom of a key: headroom before increment before threshold, in
-- ParsePolicy (internal/sizing/policy.go).
use namespace_resizer.Prelude.{
  ◌≡◌, refl, ap, ◌⊎◌, ◌++◌, Bool, true, false, ◌||◌, Option, none, some, List, [], ◌∷◌, inl, inr,
  arith, if◌then◌else◌, Bool-cases, ◌∙◌,
}
use namespace_resizer.Text.{Str, codes, ◌=s◌, trim_prefix}
use namespace_resizer.Text.Equality.{=s_iff, eq_of_=s}
use namespace_resizer.GoMap.{Map, lookup, insert, has, DistinctKeys}
use namespace_resizer.GoMap.Laws.{lookup-insert, lookup-Absent}
use namespace_resizer.Float.{Float64}
use namespace_resizer.Quantity.{Resource}
use namespace_resizer.Sizing.Policy.{Policy}
use namespace_resizer.Sizing.Policy.Parse.{
  PolicyWarning, deprecated, annotation_prefix, set_or_reject, parse_shrink_opt_out, parse_flag,
  parse_span, parse_bounded, parse_scalar, parse_headroom, parse_threshold,
}
use namespace_resizer.Sizing.Policy.Given.{
  prefer, prefer-none, by_headroom, by_increment, by_threshold, gives, given, from_headroom_lem,
  from_increment_lem, from_threshold_lem,
}
use namespace_resizer.Sizing.Policy.Maps.{AreMaps, all-AreMaps}
use namespace_resizer.Sizing.Policy.Merge.{
  Parsing, collect, scalar, parse_named, parse_annotation, parse_all, merge_old, merge_new, merge,
  start, parse_policy,
}

same_test : (over : Str → Bool) (j k : Str) → ((j =s k) ≡ false) ⊎ (over j ≡ over k)
same_test over j k = elim (Bool-cases (j =s k)) [
  | inl e ↦ inr (ap over (eq_of_=s j k e))
  | inr e ↦ inl e
]

abbrev is_some : {V : Type 0} → Option V → Bool
is_some none = false
is_some (some v) = true

module _ {F : Type 0} where
  merge_new_lem :
      (k : Str) (m h : Map F)
      → DistinctKeys m
      → lookup k (merge_new m h) ≡ prefer (lookup k m) (lookup k h)
  unfolding merge_new lookup
  merge_new_lem k [] h d = refl
  merge_new_lem k ((res, v) ∷ rest) h d = ground (
    arith,
    merge_new_lem k rest (insert res v h) d.1,
    lookup-insert res k v h,
    lookup-Absent res rest d.0,
    =s_iff res k,
  )

  merge_old_lem :
      (over : Str → Bool) (old k : Str) (m h : Map F) (ws : List PolicyWarning)
      → DistinctKeys m
      → lookup k (merge_old over old m (h, ws)).0
        ≡ (if over k then lookup k h else prefer (lookup k m) (lookup k h))
  unfolding merge_old lookup
  merge_old_lem over old k [] h ws d = ground arith
  merge_old_lem over old k ((res, v) ∷ rest) h ws d = ground (
    arith,
    same_test over res k,
    merge_old_lem over old k rest h ws d.1,
    merge_old_lem over old k rest (insert res v h) (ws ++ deprecated res old ∷ []) d.1,
    lookup-insert res k v h,
    lookup-Absent res rest d.0,
    =s_iff res k,
  )

  -- What the two loops over the old spellings come to, under the three maps.
  settle :
      (a b c d second first : Option F)
      → second ≡ (if is_some a then first else prefer b first)
      → first ≡ (if is_some a || is_some b then d else prefer c d)
      → prefer a second ≡ prefer a (prefer b (prefer c d))
  settle a b c d second first e f = ground arith

module _ {F Q : Type 0} ⦃fl : Float64 F⦄ ⦃rs : Resource Q⦄ where
  -- The first loop leaves the headroom of the base alone.
  flag_headroom :
      (name value : Str) (out : Policy F Q) → (parse_flag name value out).0.headroom ≡ out.headroom
  unfolding parse_flag parse_shrink_opt_out
  flag_headroom name value out = ground arith

  span_headroom :
      (name value : Str) (out : Policy F Q) → (parse_span name value out).0.headroom ≡ out.headroom
  unfolding parse_span set_or_reject
  span_headroom name value out = ground (arith, flag_headroom name value out)

  bounded_headroom :
      (name value : Str) (out : Policy F Q)
      → (parse_bounded name value out).0.headroom ≡ out.headroom
  unfolding parse_bounded set_or_reject
  bounded_headroom name value out = ground (arith, span_headroom name value out)

  scalar_headroom :
      (name value : Str) (out : Policy F Q)
      → (parse_scalar name value out).0.headroom ≡ out.headroom
  unfolding parse_scalar set_or_reject
  scalar_headroom name value out = ground (arith, bounded_headroom name value out)

  named_headroom :
      (name value : Str) (acc : Parsing F Q)
      → (parse_named name value acc).out.headroom ≡ acc.out.headroom
  unfolding parse_named scalar collect
  named_headroom name value acc = ground (arith, scalar_headroom name value acc.out)

  annotation_headroom :
      (key value : Str) (acc : Parsing F Q)
      → (parse_annotation key value acc).out.headroom ≡ acc.out.headroom
  unfolding parse_annotation
  annotation_headroom key value acc =
      ground (arith, named_headroom (trim_prefix key annotation_prefix) value acc)

  all_headroom :
      (m : Map Str) (acc : Parsing F Q) → (parse_all m acc).out.headroom ≡ acc.out.headroom
  unfolding parse_all
  all_headroom [] acc = refl
  all_headroom ((key, value) ∷ rest) acc =
      all_headroom rest (parse_annotation key value acc) ∙ annotation_headroom key value acc

  merge_lem :
      (k : Str) (p : Parsing F Q)
      → AreMaps p
      → lookup k (merge p).0.headroom
        ≡ prefer (lookup k p.from_headroom) (
            prefer
              (lookup k p.from_increment)
              (prefer (lookup k p.from_threshold) (lookup k p.out.headroom)))
  unfolding merge has
  merge_lem k p h =
      let over = λ (res : Str). has res p.from_headroom || has res p.from_increment in
      let first =
        merge_old over (codes "threshold") p.from_threshold (p.out.headroom, p.warnings) in
      let later = λ (res : Str). has res p.from_headroom in
      let second = merge_old later (codes "increment") p.from_increment first in
      let by_headroom = merge_new_lem k p.from_headroom second.0 h.headroom_distinct in
      let by_increment =
        merge_old_lem later (codes "increment") k p.from_increment first.0 first.1
          h.increment_distinct in
      let by_threshold =
        merge_old_lem over (codes "threshold") k p.from_threshold p.out.headroom p.warnings
          h.threshold_distinct in
      by_headroom
      ∙ settle (lookup k p.from_headroom) (lookup k p.from_increment) (lookup k p.from_threshold)
          (lookup k p.out.headroom) (lookup k second.0) (lookup k first.0) by_increment by_threshold

  -- The headroom that ParsePolicy gives a key is what its headroom annotations give, failing that, what
  -- its increment annotations give, failing that, what its threshold annotations give, and failing
  -- that, that of the base. An annotation gives a value when it has the prefix, is spelled with that
  -- suffix and no suffix read before it, names the key in front of the suffix, and its value is valid:
  -- a fraction not below 0, a percentage for a threshold. Of several that give one, the last in the
  -- order of the visits decides.
  pub parse_policy-headroom :
      (k : Str) (annotations : Map Str) (base : Policy F Q)
      → lookup k (parse_policy annotations base).0.headroom
        ≡ prefer (given k (gives k by_headroom (codes "headroom") parse_headroom) annotations) (
            prefer (given k (gives k by_increment (codes "increment") parse_headroom) annotations) (
              prefer
                (given k (gives k by_threshold (codes "threshold") parse_threshold) annotations)
                (lookup k base.headroom)))
  unfolding parse_policy lookup
  parse_policy-headroom k annotations base =
      let h : AreMaps (start base) = record {
        headroom_distinct = tt;
        increment_distinct = tt;
        threshold_distinct = tt;
      } in
      merge_lem k (parse_all annotations (start base)) (all-AreMaps annotations (start base) h)
      ∙ rw
          (
            all_headroom annotations (start base),
            from_headroom_lem k annotations (start base),
            from_increment_lem k annotations (start base),
            from_threshold_lem k annotations (start base),
            prefer-none
                (given k (gives k by_headroom (codes "headroom") parse_headroom) annotations),
            prefer-none
                (given k (gives k by_increment (codes "increment") parse_headroom) annotations),
            prefer-none
                (given k (gives k by_threshold (codes "threshold") parse_threshold) annotations),
          )
          refl
