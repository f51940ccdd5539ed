-- ===== src/Text/Sorting.antt =====
-- sort.Strings does not see the order of what it sorts.
use namespace_resizer.Prelude.{◌≡◌, refl, sym, ap, ◌∙◌, List, [], ◌∷◌, ◌++◌, arith}
use namespace_resizer.Text.{Str, place, sort}
use namespace_resizer.Text.Equality.{str_lt_irrefl, str_lt_trans, str_lt_total}

place_comm : (s t : Str) (l : List Str) → place s (place t l) ≡ place t (place s l)
unfolding place
place_comm s t [] =
    ground (arith, str_lt_total s t, str_lt_irrefl s, str_lt_trans s t s, str_lt_trans t s t)
place_comm s t (h ∷ l) = ground (
  arith,
  place_comm s t l,
  str_lt_total s t,
  str_lt_total s h,
  str_lt_total t h,
  str_lt_irrefl s,
  str_lt_irrefl t,
  str_lt_trans s t s,
  str_lt_trans t h s,
  str_lt_trans s h t,
  str_lt_trans h s t,
  str_lt_trans h t s,
)

unfoldable place_all : List Str → List Str → List Str
place_all [] l = l
place_all (s ∷ ss) l = place s (place_all ss l)

sort_append : (ss l : List Str) → sort (ss ++ l) ≡ place_all ss (sort l)
unfolding sort place_all
sort_append [] l = refl
sort_append (s ∷ ss) l = ap (place s) (sort_append ss l)

place-place_all : (s : Str) (ss l : List Str) → place s (place_all ss l) ≡ place_all ss (place s l)
unfolding place_all
place-place_all s [] l = refl
place-place_all s (t ∷ ss) l =
    place_comm s t (place_all ss l) ∙ ap (place t) (place-place_all s ss l)

place_all_comm :
    (ss ts l : List Str) → place_all ss (place_all ts l) ≡ place_all ts (place_all ss l)
unfolding place_all
place_all_comm [] ts l = refl
place_all_comm (s ∷ ss) ts l =
    ap (place s) (place_all_comm ss ts l) ∙ place-place_all s ts (place_all ss l)

pub sort-cong : (ss l m : List Str) → sort l ≡ sort m → sort (ss ++ l) ≡ sort (ss ++ m)
sort-cong ss l m h = sort_append ss l ∙ ap (place_all ss) h ∙ sym (sort_append ss m)

pub sort-swap : (ss ts l : List Str) → sort (ss ++ (ts ++ l)) ≡ sort (ts ++ (ss ++ l))
sort-swap ss ts l =
    rw (sort_append ss (ts ++ l), sort_append ts l, sort_append ts (ss ++ l), sort_append ss l)
      (place_all_comm ss ts (sort l))
