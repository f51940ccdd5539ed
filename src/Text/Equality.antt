-- ===== src/Text/Equality.antt =====
-- The tests on strings decide equality, and the order is a strict one.
use namespace_resizer.Prelude.{◌≡◌, refl, ◌↔◌, true, false, [], ◌∷◌, arith}
use namespace_resizer.Text.{Str, ◌=s◌, str_lt}

pub =s_refl : (s : Str) → (s =s s) ≡ true
unfolding ◌=s◌
=s_refl [] = refl
=s_refl (c ∷ s) = ground (arith, =s_refl s)

pub eq_of_=s : (s t : Str) → (s =s t) ≡ true → s ≡ t
unfolding ◌=s◌
eq_of_=s [] [] h = refl
eq_of_=s [] (d ∷ t) h = cc
eq_of_=s (c ∷ s) [] h = cc
eq_of_=s (c ∷ s) (d ∷ t) h = ground (arith, eq_of_=s s t)

pub =s_of_eq : (s t : Str) → s ≡ t → (s =s t) ≡ true
=s_of_eq s t h = rw h (=s_refl t)

pub =s_iff : (s t : Str) → ((s =s t) ≡ true) ↔ (s ≡ t)
=s_iff s t = (eq_of_=s s t, =s_of_eq s t)

pub str_lt_irrefl : (s : Str) → str_lt s s ≡ false
unfolding str_lt
str_lt_irrefl [] = refl
str_lt_irrefl (c ∷ s) = ground (arith, str_lt_irrefl s)

pub str_lt_trans : (s t u : Str) → str_lt s t ≡ true → str_lt t u ≡ true → str_lt s u ≡ true
unfolding str_lt
str_lt_trans [] [] u h k = cc
str_lt_trans [] (d ∷ t) [] h k = cc
str_lt_trans [] (d ∷ t) (e ∷ u) h k = refl
str_lt_trans (c ∷ s) [] u h k = cc
str_lt_trans (c ∷ s) (d ∷ t) [] h k = cc
str_lt_trans (c ∷ s) (d ∷ t) (e ∷ u) h k = ground (arith, str_lt_trans s t u)

-- Two strings neither of which is before the other are equal.
pub str_lt_total : (s t : Str) → str_lt s t ≡ false → str_lt t s ≡ false → s ≡ t
unfolding str_lt
str_lt_total [] [] h k = refl
str_lt_total [] (d ∷ t) h k = cc
str_lt_total (c ∷ s) [] h k = cc
str_lt_total (c ∷ s) (d ∷ t) h k = ground (arith, str_lt_total s t)
