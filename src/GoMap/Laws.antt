-- ===== src/GoMap/Laws.antt =====
-- What the operations of a map do to a lookup.
use namespace_resizer.Prelude.{◌≡◌, refl, none, some, [], ◌∷◌, ◌++◌, arith, if◌then◌else◌}
use namespace_resizer.Text.{Str, ◌=s◌}
use namespace_resizer.Text.Equality.{=s_iff}
use namespace_resizer.GoMap.{Map, lookup, insert, remove, Absent}

module _ {ℓ} {V : Type ℓ} where
  pub lookup-insert :
      (k j : Str) (v : V) (m : Map V)
      → lookup j (insert k v m) ≡ (if k =s j then some v else lookup j m)
  unfolding lookup insert
  lookup-insert k j v [] = ground arith
  lookup-insert k j v ((i, w) ∷ m) =
      ground (arith, =s_iff i k, =s_iff i j, =s_iff k j, lookup-insert k j v m)

  pub lookup-remove :
      (k j : Str) (m : Map V) → lookup j (remove k m) ≡ (if k =s j then none else lookup j m)
  unfolding lookup remove
  lookup-remove k j [] = ground arith
  lookup-remove k j ((i, w) ∷ m) =
      ground (arith, lookup-remove k j m, =s_iff i k, =s_iff i j, =s_iff k j)

  pub lookup-Absent : (k : Str) (m : Map V) → Absent k m → lookup k m ≡ none
  unfolding lookup
  lookup-Absent k [] h = refl
  lookup-Absent k ((j, w) ∷ m) h = ground (arith, lookup-Absent k m h.1)

  pub Absent-of_lookup : (k : Str) (m : Map V) → lookup k m ≡ none → Absent k m
  unfolding lookup
  Absent-of_lookup k [] h = tt
  Absent-of_lookup k ((j, w) ∷ m) h = ground (arith, Absent-of_lookup k m)

  -- Storing under a new key adds an entry at the end.
  pub insert-Absent : (k : Str) (v : V) (m : Map V) → Absent k m → insert k v m ≡ m ++ (k, v) ∷ []
  unfolding insert
  insert-Absent k v [] h = refl
  insert-Absent k v ((j, w) ∷ m) h = ground (arith, insert-Absent k v m h.1)
