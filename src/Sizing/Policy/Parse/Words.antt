-- ===== src/Sizing/Policy/Parse/Words.antt =====
-- strconv.Atoi, and strings.EqualFold against the words "true" and "false".
use namespace_resizer.Prelude.{
  ℕ, ◌+◌, Bool, true, false, ◌&&◌, Option, none, [], ◌∷◌, ltb, ◌==◌, if◌then◌else◌,
}
use namespace_resizer.Prelude.Int.{ℤ}
use namespace_resizer.Text.{Str, ◌=s◌}
use namespace_resizer.Text.Decimal.{is_digit, signed}

only_digits : Str → Bool
only_digits [] = true
only_digits (c ∷ s) = is_digit c && only_digits s

-- A sign and digits, nothing else, inside int64; `none` is the error.
unfoldable pub atoi : Str → Option ℤ
unfolding only_digits
atoi [] = none
atoi (c ∷ s) =
    if c == b'-'
    then (if only_digits s then signed true s else none)
    else if c == b'+'
    then (if only_digits s then signed false s else none)
    else if only_digits (c ∷ s)
    then signed false (c ∷ s)
    else none

to_lower_byte : ℕ → ℕ
to_lower_byte c = if ltb 64 c && ltb c 91 then c + 32 else c

-- Capital letters as small ones, and the long s, whose bytes are 197 and 191, as an s: what folds to the letters of
-- the two words.
fold : Str → Str
fold [] = []
fold (c ∷ []) = to_lower_byte c ∷ []
fold (c ∷ d ∷ s) =
    let behind = fold s in
    let next = fold (d ∷ s) in
    if (c == 197) && (d == 191) then b's' ∷ behind else to_lower_byte c ∷ next

-- strings.EqualFold, where `word` is in small ASCII letters
unfoldable pub equal_fold : Str → Str → Bool
unfolding fold to_lower_byte
equal_fold s word = fold s =s word
