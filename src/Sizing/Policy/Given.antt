-- ===== src/Sizing/Policy/Given.antt =====
-- What the annotations of a namespace give as the headroom of a key by each of the three spellings
-- that ParsePolicy (internal/sizing/policy.go) reads, and that its first loop collects just that.
use namespace_resizer.Prelude.{
  ◌≡◌, refl, Bool, not, ◌&&◌, ◌++◌, Option, none, some, [], ◌∷◌, arith, if◌then◌else◌, ◌∙◌, ap,
}
use namespace_resizer.Text.{Str, codes, ◌=s◌, has_prefix, has_suffix, trim_prefix}
use namespace_resizer.GoMap.{Map, lookup, insert}
use namespace_resizer.GoMap.Laws.{lookup-insert}
use namespace_resizer.Float.{Float64}
use namespace_resizer.Quantity.{Resource}
use namespace_resizer.Sizing.Policy.Parse.{
  annotation_prefix, PolicyWarning, rejected, suffix_key, parse_headroom, parse_threshold,
}
use namespace_resizer.Sizing.Policy.Merge.{
  Parsing, collect, scalar, parse_named, parse_annotation, parse_all,
}

-- The first value that there is.
abbrev pub prefer : {V : Type 0} → Option V → Option V → Option V
prefer none o = o
prefer (some v) o = some v

prefer_assoc : {V : Type 0} (a b c : Option V) → prefer a (prefer b c) ≡ prefer (prefer a b) c
prefer_assoc none b c = refl
prefer_assoc (some v) b c = refl

pub prefer-none : {V : Type 0} (a : Option V) → prefer a none ≡ a
prefer-none none = refl
prefer-none (some v) = refl

-- Whether a name behind the prefix is spelled with the suffix, and none of the suffixes that are read
-- before it.
abbrev pub by_headroom : Str → Bool
by_headroom name = has_suffix name (codes "headroom")

abbrev pub by_increment : Str → Bool
by_increment name = not (has_suffix name (codes "headroom")) && has_suffix name (codes "increment")

abbrev pub by_threshold : Str → Bool
by_threshold name =
    not (has_suffix name (codes "headroom"))
    && (not (has_suffix name (codes "increment")) && has_suffix name (codes "threshold"))

module _ {F : Type 0} ⦃fl : Float64 F⦄ (k : Str) where
  -- What one annotation gives for the key: nothing unless it has the prefix, is spelled so, and names
  -- the key in front of its suffix.
  abbrev pub gives : (Str → Bool) → Str → (Str → Option F) → Str → Str → Option F
  gives spelled suffix parse key value =
      if has_prefix key annotation_prefix
        && (spelled (trim_prefix key annotation_prefix)
            && (suffix_key (trim_prefix key annotation_prefix) suffix =s k))
      then parse value
      else none

  -- What the annotations give, one after the other: the last of them that gives a value decides.
  abbrev pub given : (Str → Str → Option F) → Map Str → Option F
  given one [] = none
  given one ((key, value) ∷ rest) = prefer (given one rest) (one key value)

module _ {F Q : Type 0} where
  -- The stores of the first loop, and its complaints.
  abbrev into_headroom : Str → Parsing F Q → F → Parsing F Q
  into_headroom j acc v = record acc { from_headroom = insert j v acc.from_headroom }

  abbrev into_increment : Str → Parsing F Q → F → Parsing F Q
  into_increment j acc v = record acc { from_increment = insert j v acc.from_increment }

  abbrev into_threshold : Str → Parsing F Q → F → Parsing F Q
  into_threshold j acc v = record acc { from_threshold = insert j v acc.from_threshold }

abbrev refused_headroom : Str → Str → PolicyWarning
refused_headroom name value =
    rejected name value (codes "must be a fraction >= 0, e.g. \"0.25\" or \"25%\"")

abbrev refused_increment : Str → Str → PolicyWarning
refused_increment name value =
    rejected name value (codes "must be a fraction >= 0, e.g. \"0.2\" or \"20%\"")

abbrev refused_threshold : Str → Str → PolicyWarning
refused_threshold name value = rejected name value (codes "must be a percentage in (0, 100]")

module _ {F Q : Type 0} ⦃fl : Float64 F⦄ ⦃rs : Resource Q⦄ (k : Str) where
  headroom_into :
      (o : Option F) (j : Str) (w : PolicyWarning) (acc : Parsing F Q)
      → lookup k (collect o (into_headroom j acc) w acc).from_headroom
        ≡ prefer (if j =s k then o else none) (lookup k acc.from_headroom)
  unfolding collect
  headroom_into none j w acc = ground arith
  headroom_into (some v) j w acc = ground (arith, lookup-insert j k v acc.from_headroom)

  increment_into :
      (o : Option F) (j : Str) (w : PolicyWarning) (acc : Parsing F Q)
      → lookup k (collect o (into_increment j acc) w acc).from_increment
        ≡ prefer (if j =s k then o else none) (lookup k acc.from_increment)
  unfolding collect
  increment_into none j w acc = ground arith
  increment_into (some v) j w acc = ground (arith, lookup-insert j k v acc.from_increment)

  threshold_into :
      (o : Option F) (j : Str) (w : PolicyWarning) (acc : Parsing F Q)
      → lookup k (collect o (into_threshold j acc) w acc).from_threshold
        ≡ prefer (if j =s k then o else none) (lookup k acc.from_threshold)
  unfolding collect
  threshold_into none j w acc = ground arith
  threshold_into (some v) j w acc = ground (arith, lookup-insert j k v acc.from_threshold)

  -- What an annotation does not go into stays.
  other_into :
      (held : Parsing F Q → Map F) (o : Option F) (store : F → Parsing F Q) (w : PolicyWarning)
      (acc : Parsing F Q)
      → ((v : F) → held (store v) ≡ held acc)
      → held (record acc { warnings = acc.warnings ++ w ∷ [] }) ≡ held acc
      → held (collect o store w acc) ≡ held acc
  unfolding collect
  other_into held none store w acc stored reported = reported
  other_into held (some v) store w acc stored reported = stored v

  headroom_named :
      (name value : Str) (acc : Parsing F Q)
      → lookup k (parse_named name value acc).from_headroom
        ≡ prefer
            (if by_headroom name && (suffix_key name (codes "headroom") =s k)
              then parse_headroom value
              else none)
            (lookup k acc.from_headroom)
  unfolding parse_named scalar
  headroom_named name value acc = ground (
    arith,
    headroom_into (parse_headroom value) (suffix_key name (codes "headroom"))
        (refused_headroom name value) acc,
    other_into (λ p. p.from_headroom) (parse_headroom value)
        (into_increment (suffix_key name (codes "increment")) acc) (refused_increment name value)
        acc (λ v. refl) refl,
    other_into (λ p. p.from_headroom) (parse_threshold value)
        (into_threshold (suffix_key name (codes "threshold")) acc) (refused_threshold name value)
        acc (λ v. refl) refl,
  )

  headroom_step :
      (key value : Str) (acc : Parsing F Q)
      → lookup k (parse_annotation key value acc).from_headroom
        ≡ prefer
            (gives k by_headroom (codes "headroom") parse_headroom key value)
            (lookup k acc.from_headroom)
  unfolding parse_annotation
  headroom_step key value acc =
      ground (arith, headroom_named (trim_prefix key annotation_prefix) value acc)

  increment_named :
      (name value : Str) (acc : Parsing F Q)
      → lookup k (parse_named name value acc).from_increment
        ≡ prefer
            (if by_increment name && (suffix_key name (codes "increment") =s k)
              then parse_headroom value
              else none)
            (lookup k acc.from_increment)
  unfolding parse_named scalar
  increment_named name value acc = ground (
    arith,
    increment_into (parse_headroom value) (suffix_key name (codes "increment"))
        (refused_increment name value) acc,
    other_into (λ p. p.from_increment) (parse_headroom value)
        (into_headroom (suffix_key name (codes "headroom")) acc) (refused_headroom name value) acc
        (λ v. refl) refl,
    other_into (λ p. p.from_increment) (parse_threshold value)
        (into_threshold (suffix_key name (codes "threshold")) acc) (refused_threshold name value)
        acc (λ v. refl) refl,
  )

  increment_step :
      (key value : Str) (acc : Parsing F Q)
      → lookup k (parse_annotation key value acc).from_increment
        ≡ prefer
            (gives k by_increment (codes "increment") parse_headroom key value)
            (lookup k acc.from_increment)
  unfolding parse_annotation
  increment_step key value acc =
      ground (arith, increment_named (trim_prefix key annotation_prefix) value acc)

  threshold_named :
      (name value : Str) (acc : Parsing F Q)
      → lookup k (parse_named name value acc).from_threshold
        ≡ prefer
            (if by_threshold name && (suffix_key name (codes "threshold") =s k)
              then parse_threshold value
              else none)
            (lookup k acc.from_threshold)
  unfolding parse_named scalar
  threshold_named name value acc = ground (
    arith,
    threshold_into (parse_threshold value) (suffix_key name (codes "threshold"))
        (refused_threshold name value) acc,
    other_into (λ p. p.from_threshold) (parse_headroom value)
        (into_headroom (suffix_key name (codes "headroom")) acc) (refused_headroom name value) acc
        (λ v. refl) refl,
    other_into (λ p. p.from_threshold) (parse_headroom value)
        (into_increment (suffix_key name (codes "increment")) acc) (refused_increment name value)
        acc (λ v. refl) refl,
  )

  threshold_step :
      (key value : Str) (acc : Parsing F Q)
      → lookup k (parse_annotation key value acc).from_threshold
        ≡ prefer
            (gives k by_threshold (codes "threshold") parse_threshold key value)
            (lookup k acc.from_threshold)
  unfolding parse_annotation
  threshold_step key value acc =
      ground (arith, threshold_named (trim_prefix key annotation_prefix) value acc)

  -- A map that each annotation updates so holds what the annotations give.
  collected_given :
      (held : Parsing F Q → Option F) (one : Str → Str → Option F)
      → ((key value : Str) (acc : Parsing F Q)
          → held (parse_annotation key value acc) ≡ prefer (one key value) (held acc))
      → (m : Map Str) (acc : Parsing F Q)
      → held (parse_all m acc) ≡ prefer (given k one m) (held acc)
  unfolding parse_all
  collected_given held one step [] acc = refl
  collected_given held one step ((key, value) ∷ rest) acc =
      collected_given held one step rest (parse_annotation key value acc)
      ∙ ap (prefer (given k one rest)) (step key value acc)
      ∙ prefer_assoc (given k one rest) (one key value) (held acc)

  pub from_headroom_lem :
      (m : Map Str) (acc : Parsing F Q)
      → lookup k (parse_all m acc).from_headroom
        ≡ prefer
            (given k (gives k by_headroom (codes "headroom") parse_headroom) m)
            (lookup k acc.from_headroom)
  from_headroom_lem = collected_given (λ acc. lookup k acc.from_headroom) _ headroom_step

  pub from_increment_lem :
      (m : Map Str) (acc : Parsing F Q)
      → lookup k (parse_all m acc).from_increment
        ≡ prefer
            (given k (gives k by_increment (codes "increment") parse_headroom) m)
            (lookup k acc.from_increment)
  from_increment_lem = collected_given (λ acc. lookup k acc.from_increment) _ increment_step

  pub from_threshold_lem :
      (m : Map Str) (acc : Parsing F Q)
      → lookup k (parse_all m acc).from_threshold
        ≡ prefer
            (given k (gives k by_threshold (codes "threshold") parse_threshold) m)
            (lookup k acc.from_threshold)
  from_threshold_lem = collected_given (λ acc. lookup k acc.from_threshold) _ threshold_step
