-- ===== src/Text/Decimal.antt =====
-- Decimal numerals, as fmt prints them with %d and reads them back.
use namespace_resizer.Prelude.{
  ℕ, zero, suc, ◌+◌, ◌-◌, ◌*◌, ◌/◌, ◌%◌, ◌<◌, ◌≡◌, ◌∙◌, Bool, true, false, ◌&&◌, [], ◌∷◌, ◌++◌,
  arith, ltb, leb, ◌==◌, if◌then◌else◌, Bool-cases, inl, inr, subst, All, All-append, Option, none,
  some,
}
use namespace_resizer.Prelude.Int.{ℤ, pos, negsuc, ◌-ℤ◌, two63, IsInt64}
use namespace_resizer.Text.{Str, Free}

-- The digits of `n`, given more rounds than `n` has digits.
digits : ℕ → ℕ → Str
digits zero n = []
digits (suc rounds) n =
    let front = digits rounds (n / 10) in
    if ltb n 10 then (48 + n) ∷ [] else front ++ (48 + n % 10) ∷ []

-- fmt.Sprintf("%d", n)
unfoldable pub decimal : ℕ → Str
unfolding digits
decimal n = digits (suc n) n

pub is_digit : ℕ → Bool
is_digit c = leb 48 c && leb c 57

-- The number that the leading digits stand for, after `acc`.
unfoldable pub read_digits : ℕ → Str → ℕ
unfolding is_digit
read_digits acc [] = acc
read_digits acc (c ∷ s) =
    let more = read_digits (acc * 10 + (c - 48)) s in if is_digit c then more else acc

abbrev pub IsDigits : Str → Type 0
IsDigits s = All (λ c. is_digit c ≡ true) s

IsDigits-digits : (rounds n : ℕ) → IsDigits (digits rounds n)
unfolding digits is_digit
IsDigits-digits zero n = tt
IsDigits-digits (suc rounds) n = elim (Bool-cases (ltb n 10)) [
  | inl small ↦ rw small (ground arith)
  | inr large ↦ rw large (
      All-append (λ c. is_digit c ≡ true) (digits rounds (n / 10)) ((48 + n % 10) ∷ [])
        (IsDigits-digits rounds (n / 10)) (ground arith))
]

pub IsDigits-decimal : (n : ℕ) → IsDigits (decimal n)
unfolding decimal
IsDigits-decimal n = IsDigits-digits (suc n) n

-- No digit is a separator.
pub Free-of_IsDigits : (b : ℕ) (s : Str) → b < 48 → IsDigits s → Free b s
unfolding is_digit
Free-of_IsDigits b [] h d = tt
Free-of_IsDigits b (c ∷ s) h d = (ground arith, Free-of_IsDigits b s h d.1)

read_digits-append :
    (acc : ℕ) (s : Str) (c : ℕ) (r : Str)
    → IsDigits s
    → is_digit c ≡ true
    → read_digits acc (s ++ c ∷ r) ≡ read_digits (read_digits acc s * 10 + (c - 48)) r
unfolding read_digits is_digit
read_digits-append acc [] c r h k = ground arith
read_digits-append acc (d ∷ s) c r h k =
    ground (arith, read_digits-append (acc * 10 + (d - 48)) s c r)

read_digits-digits : (rounds n : ℕ) → n < rounds → read_digits 0 (digits rounds n) ≡ n
unfolding digits read_digits is_digit
read_digits-digits zero n h = elim h [ ]
read_digits-digits (suc rounds) n h = elim (Bool-cases (ltb n 10)) [
  | inl small ↦ rw small (ground arith)
  | inr large ↦ rw large (
      read_digits-append 0 (digits rounds (n / 10)) (48 + n % 10) []
        (IsDigits-digits rounds (n / 10)) (ground arith)
      ∙ (rw (read_digits-digits rounds (n / 10) (ground arith)) (ground arith)))
]

-- Reading a printed number gives it back.
pub read_digits-decimal : (n : ℕ) → read_digits 0 (decimal n) ≡ n
unfolding decimal
read_digits-decimal n = read_digits-digits (suc n) n (omega arith)

starts_digit : Str → Bool
starts_digit [] = false
starts_digit (c ∷ s) = is_digit c

-- fmt.Sprintf("%d", i)
unfoldable pub decimal_ℤ : ℤ → Str
decimal_ℤ (pos n) = decimal n
decimal_ℤ (negsuc n) = b'-' ∷ decimal (suc n)

-- The value and its sign, if there is a digit and the value fits int64.
unfoldable pub signed : Bool → Str → Option ℤ
unfolding starts_digit read_digits
signed negative s =
    let n = read_digits 0 s in
    if starts_digit s
    then (if negative
        then (if leb n two63 then some (pos 0 -ℤ pos n) else none)
        else (if ltb n two63 then some (pos n) else none))
    else none

-- The verb %d of fmt.Sscanf: spaces, a sign, and digits; what follows them is not read.
unfoldable pub scan_int : Str → Option ℤ
unfolding signed
scan_int [] = none
scan_int (c ∷ s) =
    let skipped = scan_int s in
    if c == b' '
    then skipped
    else if c == b'-'
    then signed true s
    else if c == b'+'
    then signed false s
    else signed false (c ∷ s)

digits-cons : (rounds n : ℕ) → n < rounds → (c : ℕ) × (s : Str) × (digits rounds n ≡ c ∷ s)
unfolding digits
digits-cons zero n h = elim h [ ]
digits-cons (suc rounds) n h = elim (Bool-cases (ltb n 10)) [
  | inl small ↦ (48 + n, [], rw small)
  | inr large ↦
      let (c, s, e) = digits-cons rounds (n / 10) (ground arith) in
      (c, s ++ (48 + n % 10) ∷ [], rw (large, e))
]

decimal-cons : (n : ℕ) → (c : ℕ) × (s : Str) × (decimal n ≡ c ∷ s) × (is_digit c ≡ true)
unfolding decimal
decimal-cons n =
    let (c, s, e) = digits-cons (suc n) n (omega arith) in
    (c, s, e, (subst IsDigits e (IsDigits-digits (suc n) n)).0)

starts_digit-decimal : (n : ℕ) → starts_digit (decimal n) ≡ true
unfolding starts_digit
starts_digit-decimal n = let (c, s, e, d) = decimal-cons n in rw e d

signed-decimal_pos : (n : ℕ) → n < two63 → signed false (decimal n) ≡ some (pos n)
unfolding signed
signed-decimal_pos n h = ground (arith, starts_digit-decimal n, read_digits-decimal n)

signed-decimal_neg : (n : ℕ) → n < two63 → signed true (decimal (suc n)) ≡ some (negsuc n)
unfolding signed ◌-ℤ◌
signed-decimal_neg n h = ground (arith, starts_digit-decimal (suc n), read_digits-decimal (suc n))

scan_int-digit : (c : ℕ) (s t : Str) → t ≡ c ∷ s → is_digit c ≡ true → scan_int t ≡ signed false t
unfolding scan_int is_digit
scan_int-digit c s t e d = rw e (ground arith)

-- Every int64 that is printed is read back.
pub scan_int-decimal_ℤ : (i : ℤ) → IsInt64 i → scan_int (decimal_ℤ i) ≡ some i
unfolding decimal_ℤ scan_int
scan_int-decimal_ℤ (pos n) h =
    let (c, s, e, d) = decimal-cons n in
    scan_int-digit c s (decimal n) e d ∙ signed-decimal_pos n (ground (arith, h.below))
scan_int-decimal_ℤ (negsuc n) h = signed-decimal_neg n (ground (arith, h.above))
