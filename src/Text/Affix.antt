-- ===== src/Text/Affix.antt =====
-- Prefixes, and strings put together around a separator.
use namespace_resizer.Prelude.{
  ◌≡◌, refl, sym, ap, ◌∙◌, true, false, [], ◌∷◌, ◌++◌, arith, length, drop, ℕ,
}
use namespace_resizer.Text.{Str, ◌=s◌, has_prefix, trim_prefix, Free}
use namespace_resizer.Text.Equality.{eq_of_=s, =s_of_eq}

-- A prefix leaves a rest.
pub has_prefix-rest : (s p : Str) → has_prefix s p ≡ true → s ≡ p ++ drop (length p) s
unfolding has_prefix
has_prefix-rest s [] h = refl
has_prefix-rest [] (d ∷ p) h = cc
has_prefix-rest (c ∷ s) (d ∷ p) h = ground (arith, has_prefix-rest s p)

pub has_prefix-append : (p r : Str) → has_prefix (p ++ r) p ≡ true
unfolding has_prefix
has_prefix-append [] r = refl
has_prefix-append (d ∷ p) r = ground (arith, has_prefix-append p r)

pub drop-append : (p r : Str) → drop (length p) (p ++ r) ≡ r
drop-append [] r = refl
drop-append (d ∷ p) r = drop-append p r

pub trim_prefix-append : (p r : Str) → trim_prefix (p ++ r) p ≡ r
unfolding trim_prefix
trim_prefix-append p r = rw (has_prefix-append p r) (drop-append p r)

-- Before its first separator a string has one reading.
pub segment_unique :
    (b : ℕ) (s t : Str) (x y : Str)
    → Free b s
    → Free b t
    → s ++ b ∷ x ≡ t ++ b ∷ y
    → (s ≡ t) × (x ≡ y)
segment_unique b [] [] x y f g e = ground arith
segment_unique b [] (d ∷ t) x y f g e = ground arith
segment_unique b (c ∷ s) [] x y f g e = ground arith
segment_unique b (c ∷ s) (d ∷ t) x y f g e = ground (arith, segment_unique b s t x y f.1 g.1)

trim_prefix_of_prefix : (s p : Str) → has_prefix s p ≡ true → trim_prefix s p ≡ drop (length p) s
unfolding trim_prefix
trim_prefix_of_prefix s p h = rw h

-- After a known prefix, the trimmed string tells the whole.
pub eq_of_trim : (s p t : Str) → has_prefix s p ≡ true → (trim_prefix s p =s t) ≡ true → s ≡ p ++ t
eq_of_trim s p t h e =
    has_prefix-rest s p h
    ∙ ap (λ r. p ++ r) (sym (trim_prefix_of_prefix s p h) ∙ eq_of_=s (trim_prefix s p) t e)

pub trim_of_eq : (s p t : Str) → s ≡ p ++ t → (trim_prefix s p =s t) ≡ true
trim_of_eq s p t e = rw e (=s_of_eq _ t (trim_prefix-append p t))

-- One string has two prefixes only if one of them begins the other.
pub prefix_of_prefixes : (s p r : Str) → has_prefix s (p ++ r) ≡ true → has_prefix s p ≡ true
unfolding has_prefix
prefix_of_prefixes s [] r h = refl
prefix_of_prefixes [] (d ∷ p) r h = cc
prefix_of_prefixes (c ∷ s) (d ∷ p) r h = ground (arith, prefix_of_prefixes s p r)

-- A string that begins with a segment and its separator has that very segment.
pub has_segment_unique :
    (b : ℕ) (s t : Str) (x y : Str)
    → Free b s
    → Free b t
    → has_prefix (s ++ b ∷ x) (t ++ b ∷ y) ≡ true
    → (s ≡ t) × (has_prefix x y ≡ true)
unfolding has_prefix
has_segment_unique b [] [] x y f g e = ground arith
has_segment_unique b [] (d ∷ t) x y f g e = ground arith
has_segment_unique b (c ∷ s) [] x y f g e = ground arith
has_segment_unique b (c ∷ s) (d ∷ t) x y f g e =
    ground (arith, has_segment_unique b s t x y f.1 g.1)

-- A separator in the prefix is one in the string.
pub not_prefix_of_Free :
    (b : ℕ) (s t : Str) (y : Str) → Free b s → has_prefix s (t ++ b ∷ y) ≡ false
unfolding has_prefix
not_prefix_of_Free b [] [] y f = refl
not_prefix_of_Free b [] (d ∷ t) y f = refl
not_prefix_of_Free b (c ∷ s) [] y f = ground arith
not_prefix_of_Free b (c ∷ s) (d ∷ t) y f = ground (arith, not_prefix_of_Free b s t y f.1)

pub has_prefix-cancel : (p s t : Str) → has_prefix (p ++ s) (p ++ t) ≡ has_prefix s t
unfolding has_prefix
has_prefix-cancel [] s t = refl
has_prefix-cancel (d ∷ p) s t = ground (arith, has_prefix-cancel p s t)

pub Free-append : (b : ℕ) (s t : Str) → Free b s → Free b t → Free b (s ++ t)
Free-append b [] t f g = g
Free-append b (c ∷ s) t f g = (f.0, Free-append b s t f.1 g)
