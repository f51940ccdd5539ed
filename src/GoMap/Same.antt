-- ===== src/GoMap/Same.antt =====
-- Two lists of entries for one Go map: the same answer to every lookup.
use namespace_resizer.Prelude.{
  ◌≡◌, refl, sym, ◌∙◌, Bool, true, some, [], ◌∷◌, arith, ◌&&◌, Bool-cases, inl, inr,
}
use namespace_resizer.Text.{Str, ◌=s◌}
use namespace_resizer.Text.Equality.{=s_iff, =s_refl}
use namespace_resizer.GoMap.{Map, lookup, is_empty}

abbrev pub Same {ℓ} : {V : Type ℓ} → Map V → Map V → Type ℓ
Same m n = (k : Str) → lookup k m ≡ lookup k n

module _ {ℓ} {V : Type ℓ} where
  lookup_first : (k : Str) (v : V) (m : Map V) → lookup k ((k, v) ∷ m) ≡ some v
  unfolding lookup
  lookup_first k v m = rw (=s_refl k)

  -- The empty map is the same as no map with an entry.
  pub is_empty-Same : (m n : Map V) → Same m n → is_empty m ≡ is_empty n
  unfolding lookup
  is_empty-Same [] [] h = refl
  is_empty-Same [] ((k, v) ∷ n) h = ground (arith, h k, lookup_first k v n)
  is_empty-Same ((k, v) ∷ m) [] h = ground (arith, h k, lookup_first k v m)
  is_empty-Same ((k, v) ∷ m) ((j, w) ∷ n) h = refl

-- A test on all keys.
module _ (test : Str → Bool) where
  unfoldable pub every_key {ℓ} : {V : Type ℓ} → Map V → Bool
  every_key [] = true
  every_key ((k, v) ∷ m) = test k && every_key m

  every_key_found {ℓ} :
      {V : Type ℓ} (m : Map V) (k : Str) (v : V)
      → every_key m ≡ true
      → lookup k m ≡ some v
      → test k ≡ true
  unfolding every_key lookup
  every_key_found [] k v h e = cc
  every_key_found ((j, w) ∷ m) k v h e = ground (arith, every_key_found m k v, =s_iff j k)

  every_key_intro {ℓ} :
      {V : Type ℓ} (m : Map V)
      → ((k : Str) (v : V) → lookup k m ≡ some v → test k ≡ true)
      → every_key m ≡ true
  unfolding every_key lookup
  every_key_intro {V = V} [] h = refl
  every_key_intro {V = V} ((j, w) ∷ m) h =
      ground (arith, h j w (lookup_first j w m), every_key_intro m rest)
    where
      rest : (k : Str) (v : V) → lookup k m ≡ some v → test k ≡ true
      rest k v e = elim (Bool-cases (j =s k)) [ inl q ↦ h k w (rw q) | inr q ↦ h k v (rw q e) ]

  pub every_key-Same {ℓ} : {V : Type ℓ} (m n : Map V) → Same m n → every_key m ≡ every_key n
  every_key-Same {V = V} m n h = elim (Bool-cases (every_key m)) [
    | inl e ↦ e ∙ sym (every_key_intro n (λ k v q. every_key_found m k v e (h k ∙ q)))
    | inr e ↦ elim (Bool-cases (every_key n)) [
      | inr d ↦ e ∙ sym d
      | inl d ↦ every_key_intro m (λ k v q. every_key_found n k v d (sym (h k) ∙ q)) ∙ sym d
    ]
  ]
