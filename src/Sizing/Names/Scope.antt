-- ===== src/Sizing/Names/Scope.antt =====
-- A scope before the last slash never changes what a quota key measures.
use namespace_resizer.Prelude.{
  ℕ, suc, ◌≡◌, refl, sym, ap, ◌∙◌, false, none, some, [], ◌∷◌, ◌++◌, arith, drop, length,
}
use namespace_resizer.Text.{Str, codes, has_prefix, last_index, Free}
use namespace_resizer.Text.Affix.{not_prefix_of_Free}
use namespace_resizer.Sizing.Names.{
  count_prefix, measure_of, is_countable, resource_family, family_of_measure, one_of, counted_names,
}

last_index-Free : (b : ℕ) (s : Str) → Free b s → last_index s b ≡ none
unfolding last_index
last_index-Free b [] f = refl
last_index-Free b (c ∷ s) f = ground (arith, last_index-Free b s f.1)

last_index-append : (b : ℕ) (s t : Str) → Free b t → last_index (s ++ b ∷ t) b ≡ some (length s)
unfolding last_index
last_index-append b [] t f = ground (arith, last_index-Free b t f)
last_index-append b (c ∷ s) t f = ground (arith, last_index-append b s t f)

drop_past : (b : ℕ) (s t : Str) → drop (suc (length s)) (s ++ b ∷ t) ≡ t
drop_past b [] t = refl
drop_past b (c ∷ s) t = drop_past b s t

module _ (scope key : Str) (plain : Free b'/' key)
    (uncounted : has_prefix (scope ++ b'/' ∷ key) count_prefix ≡ false) where
  measure_of-scoped : measure_of (scope ++ b'/' ∷ key) ≡ key
  unfolding measure_of
  measure_of-scoped =
      rw (uncounted, last_index-append b'/' scope key plain) (drop_past b'/' scope key)

measure_of-plain : (key : Str) → Free b'/' key → measure_of key ≡ key
unfolding measure_of
measure_of-plain key f =
    rw (not_prefix_of_Free b'/' key (codes "count") [] f, last_index-Free b'/' key f)

-- A quota key scoped by a storage class is classified by what stands behind its last slash alone:
-- the words of the scope never make it countable, nor put it into a family. Keys that begin with
-- "count/" are the exception and are not meant.
scoped_key :
    (scope key : Str)
    → Free b'/' key
    → has_prefix (scope ++ b'/' ∷ key) count_prefix ≡ false
    → (is_countable (scope ++ b'/' ∷ key) ≡ is_countable key)
      × (resource_family (scope ++ b'/' ∷ key) ≡ resource_family key)
unfolding is_countable resource_family
scoped_key scope key f h = (
  rw (h, not_prefix_of_Free b'/' key (codes "count") [] f)
      (ap (λ m. one_of m counted_names)
        (measure_of-scoped scope key f h ∙ sym (measure_of-plain key f))),
  ap family_of_measure (measure_of-scoped scope key f h ∙ sym (measure_of-plain key f)),
)
