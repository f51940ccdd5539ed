-- ===== src/GoMap/Lines.antt =====
-- What a loop over a Go map appends to a list, once the list is sorted, does not depend on the order
-- of the loop.
use namespace_resizer.Prelude.{
  ◌≡◌, refl, sym, ◌∙◌, some, List, [], ◌∷◌, ◌++◌, arith, inl, inr, Bool-cases, subst,
}
use namespace_resizer.Text.{Str, ◌=s◌, sort}
use namespace_resizer.Text.Equality.{=s_iff, =s_refl, eq_of_=s}
use namespace_resizer.Text.Sorting.{sort-cong, sort-swap}
use namespace_resizer.GoMap.{Map, lookup, remove, Absent, DistinctKeys}
use namespace_resizer.GoMap.Laws.{lookup-remove, lookup-Absent}
use namespace_resizer.GoMap.Same.{Same}

module _ {V : Type 0} where
  remove-Absent : (k : Str) (m : Map V) → Absent k m → remove k m ≡ m
  unfolding remove
  remove-Absent k [] h = refl
  remove-Absent k ((j, w) ∷ m) h = ground (arith, =s_iff j k, =s_iff k j, remove-Absent k m h.1)

  Absent-remove : (j k : Str) (m : Map V) → Absent j m → Absent j (remove k m)
  unfolding remove
  Absent-remove j k [] h = tt
  Absent-remove j k ((i, w) ∷ m) h = ground (arith, Absent-remove j k m h.1, h.0)

  remove-DistinctKeys : (k : Str) (m : Map V) → DistinctKeys m → DistinctKeys (remove k m)
  unfolding remove
  remove-DistinctKeys k [] d = tt
  remove-DistinctKeys k ((j, w) ∷ m) d =
      ground (arith, Absent-remove j k m d.0, remove-DistinctKeys k m d.1)

  module _ (one : Str → V → List Str) where
    unfoldable pub lines : Map V → List Str
    lines [] = []
    lines ((k, v) ∷ m) = one k v ++ lines m

    -- The entry of a key may come first.
    lines-remove :
        (k : Str) (v : V) (m : Map V)
        → DistinctKeys m
        → lookup k m ≡ some v
        → sort (lines m) ≡ sort (one k v ++ lines (remove k m))
    unfolding lines lookup remove
    lines-remove k v [] d h = cc
    lines-remove k v ((j, w) ∷ m) d h = elim (Bool-cases (j =s k)) [
      | inl e ↦
          let same : w ≡ v = ground (arith, h, e) in
          rw
            (
              e,
              remove-Absent k m (subst (λ i. Absent i m) (eq_of_=s j k e) d.0),
              same,
              eq_of_=s j k e,
            )
            refl
      | inr e ↦
          let rest : lookup k m ≡ some v = ground (arith, h, e) in
          rw e (
            sort-cong (one j w) (lines m) (one k v ++ lines (remove k m))
              (lines-remove k v m d.1 rest)
            ∙ sort-swap (one j w) (one k v) (lines (remove k m)))
    ]

    pub sort-lines-Same :
        (m n : Map V) → DistinctKeys m → DistinctKeys n → Same m n → sort (lines m) ≡ sort (lines n)
    unfolding lines lookup
    sort-lines-Same [] [] d e h = refl
    sort-lines-Same [] ((k, v) ∷ n) d e h = ground (arith, h k, =s_refl k)
    sort-lines-Same ((k, v) ∷ m) n d e h =
        let first : lookup k n ≡ some v = sym (h k) ∙ rw (=s_refl k) refl in
        let rest : Same m (remove k n) =
          λ j. ground (arith, lookup-remove k j n, h j, =s_iff k j, lookup-Absent k m d.0) in
        sort-cong (one k v) (lines m) (lines (remove k n))
          (sort-lines-Same m (remove k n) d.1 (remove-DistinctKeys k n e) rest)
        ∙ sym (lines-remove k v n e first)

  pub lines-cong :
      (one other : Str → V → List Str)
      → ((k : Str) (v : V) → one k v ≡ other k v)
      → (m : Map V) → lines one m ≡ lines other m
  unfolding lines
  lines-cong one other h [] = refl
  lines-cong one other h ((k, v) ∷ m) = rw (h k v, lines-cong one other h m) refl
