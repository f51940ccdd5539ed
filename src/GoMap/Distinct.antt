-- ===== src/GoMap/Distinct.antt =====
-- Storing keeps a map a map: one entry for each key.
use namespace_resizer.Prelude.{◌≡◌, false, [], ◌∷◌, arith}
use namespace_resizer.Text.{Str, ◌=s◌}
use namespace_resizer.Text.Equality.{=s_iff}
use namespace_resizer.GoMap.{Map, insert, Absent, DistinctKeys}

module _ {ℓ} {V : Type ℓ} where
  pub insert-other :
      (j k : Str) (v : V) (m : Map V) → (k =s j) ≡ false → Absent j m → Absent j (insert k v m)
  unfolding insert
  insert-other j k v [] h a = (h, tt)
  insert-other j k v ((i, w) ∷ m) h a = ground (arith, insert-other j k v m h a.1)

  pub insert-DistinctKeys :
      (k : Str) (v : V) (m : Map V) → DistinctKeys m → DistinctKeys (insert k v m)
  unfolding insert
  insert-DistinctKeys k v [] d = (tt, tt)
  insert-DistinctKeys k v ((i, w) ∷ m) d =
      ground (arith, =s_iff i k, =s_iff k i, insert-other i k v m, insert-DistinctKeys k v m d.1)
