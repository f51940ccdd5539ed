-- ===== src/Text.antt =====
-- Go strings as lists of bytes, with the functions of the standard package strings that the
-- repository calls, over separators and affixes as they occur there.
pub mod Equality
pub mod Sorting
pub mod Affix
pub mod Decimal
pub mod Space
use Prim.Native.Char.{code}
use Prim.Native.String.{String}
use namespace_resizer.Prelude.{
  ℕ, zero, suc, ◌-◌, ◌≡◌, Bool, true, false, ◌&&◌, ◌||◌, Option, none, some, List, [], ◌∷◌, ◌++◌,
  length, drop, ltb, leb, ◌==◌, if◌then◌else◌,
}

abbrev pub Str : Type 0
Str = List ℕ

-- The bytes of an ASCII literal.
abbrev pub codes : String → Str
codes String.[] = []
codes (String.◌∷◌ c s) = code c ∷ codes s

infix 50 ◌=s◌
unfoldable pub ◌=s◌ : Str → Str → Bool
[] =s [] = true
[] =s (d ∷ t) = false
(c ∷ s) =s [] = false
(c ∷ s) =s (d ∷ t) = (c == d) && (s =s t)

-- s < t, byte by byte.
unfoldable pub str_lt : Str → Str → Bool
str_lt [] [] = false
str_lt [] (d ∷ t) = true
str_lt (c ∷ s) [] = false
str_lt (c ∷ s) (d ∷ t) = ltb c d || ((c == d) && str_lt s t)

-- strings.HasPrefix(s, p)
unfoldable pub has_prefix : Str → Str → Bool
has_prefix s [] = true
has_prefix [] (d ∷ p) = false
has_prefix (c ∷ s) (d ∷ p) = (c == d) && has_prefix s p

-- strings.TrimPrefix(s, p)
unfoldable pub trim_prefix : Str → Str → Str
unfolding has_prefix
trim_prefix s p = if has_prefix s p then drop (length p) s else s

-- strings.HasSuffix(s, p)
unfoldable pub has_suffix : Str → Str → Bool
unfolding ◌=s◌
has_suffix s p = leb (length p) (length s) && (drop (length s - length p) s =s p)

unfoldable pub take : ℕ → Str → Str
take zero s = []
take (suc n) [] = []
take (suc n) (c ∷ s) = c ∷ take n s

-- strings.TrimSuffix(s, p)
unfoldable pub trim_suffix : Str → Str → Str
unfolding has_suffix take
trim_suffix s p = if has_suffix s p then take (length s - length p) s else s

-- strings.Index(s, p); `none` is -1.
unfoldable pub index : Str → Str → Option ℕ
unfolding has_prefix
index [] p = if has_prefix [] p then some 0 else none
index (c ∷ s) p =
    if has_prefix (c ∷ s) p
    then some 0
    else elim (index s p) [ none ↦ none | some i ↦ some (suc i) ]

-- strings.Contains(s, p)
unfoldable pub contains : Str → Str → Bool
unfolding index
contains s p = elim (index s p) [ none ↦ false | some i ↦ true ]

-- strings.LastIndex(s, b) for a separator of one byte; `none` is -1.
unfoldable pub last_index : Str → ℕ → Option ℕ
last_index [] b = none
last_index (c ∷ s) b = elim (last_index s b) [
  | some i ↦ some (suc i)
  | none ↦ if c == b then some 0 else none
]

-- strings.Split(s, b) for a separator of one byte: the part before the first separator, and the rest.
unfoldable pub split_first : Str → ℕ → Str × List Str
split_first [] b = ([], [])
split_first (c ∷ s) b =
    let (part, rest) = split_first s b in if c == b then ([], part ∷ rest) else (c ∷ part, rest)

unfoldable pub split : Str → ℕ → List Str
unfolding split_first
split s b = let (part, rest) = split_first s b in part ∷ rest

-- strings.Split(s, sep) for a separator that is not empty; `skip` characters belong to a separator.
unfoldable pub split_from : Str → ℕ → Str → Str × List Str
split_from sep skip [] = ([], [])
split_from sep (suc skip) (c ∷ s) = split_from sep skip s
split_from sep zero (c ∷ s) =
    let hit = has_prefix (c ∷ s) sep in
    let (part, rest) = split_from sep (if hit then length sep - 1 else 0) s in
    if hit then ([], part ∷ rest) else (c ∷ part, rest)

unfoldable pub split_text : Str → Str → List Str
unfolding split_from has_prefix
split_text s sep = let (part, rest) = split_from sep 0 s in part ∷ rest

-- A string in which the byte does not occur.
abbrev pub Free : ℕ → Str → Type 0
Free b [] = Unit
Free b (c ∷ s) = ((c == b) ≡ false) × Free b s

-- strings.Join(parts, "\n")
unfoldable pub join_lines : List Str → Str
join_lines [] = []
join_lines (s ∷ []) = s
join_lines (s ∷ t ∷ rest) = s ++ 10 ∷ join_lines (t ∷ rest)

-- sort.Strings
unfoldable pub place : Str → List Str → List Str
unfolding str_lt
place s [] = s ∷ []
place s (t ∷ rest) = let later = place s rest in if str_lt t s then t ∷ later else s ∷ t ∷ rest

unfoldable pub sort : List Str → List Str
unfolding place
sort [] = []
sort (s ∷ rest) = place s (sort rest)
