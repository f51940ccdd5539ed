-- ===== src/GoMap.antt =====
-- A Go map with string keys, as the list of its entries in the order in which a `range` loop
-- happens to visit them.
pub mod Laws
pub mod Same
pub mod Lines
pub mod Distinct
use namespace_resizer.Prelude.{
  ◌≡◌, Bool, true, false, Option, none, some, List, [], ◌∷◌, map, if◌then◌else◌,
}
use namespace_resizer.Text.{Str, ◌=s◌}

abbrev pub Map {ℓ} : Type ℓ → Type ℓ
Map V = List (Str × V)

module _ {ℓ} {V : Type ℓ} where
  -- v, ok := m[k]
  unfoldable pub lookup : Str → Map V → Option V
  unfolding ◌=s◌
  lookup k [] = none
  lookup k ((j, v) ∷ m) = if j =s k then some v else lookup k m

  -- m[k] = v
  unfoldable pub insert : Str → V → Map V → Map V
  unfolding ◌=s◌
  insert k v [] = (k, v) ∷ []
  insert k v ((j, w) ∷ m) = if j =s k then (j, v) ∷ m else (j, w) ∷ insert k v m

  -- delete(m, k)
  unfoldable pub remove : Str → Map V → Map V
  unfolding ◌=s◌
  remove k [] = []
  remove k ((j, w) ∷ m) = let rest = remove k m in if j =s k then rest else (j, w) ∷ rest

  -- _, ok := m[k]
  unfoldable pub has : Str → Map V → Bool
  unfolding lookup
  has k m = elim (lookup k m) [ none ↦ false | some v ↦ true ]

  -- len(m) == 0
  abbrev pub is_empty : Map V → Bool
  is_empty [] = true
  is_empty (e ∷ m) = false

  -- The key is in none of the entries.
  abbrev pub Absent : Str → Map V → Type 0
  Absent k [] = Unit
  Absent k ((j, w) ∷ m) = ((j =s k) ≡ false) × Absent k m

  -- Every key has one entry.
  abbrev pub DistinctKeys : Map V → Type 0
  DistinctKeys [] = Unit
  DistinctKeys ((k, v) ∷ m) = Absent k m × DistinctKeys m
