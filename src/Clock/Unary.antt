-- ===== src/Clock/Unary.antt =====
-- A calendar with unary texts, at which the laws of Calendar are seen to be consistent.
use namespace_resizer.Prelude.{
  ℕ, zero, suc, ◌*◌, ◌/◌, ◌≡◌, refl, Option, none, some, [], ◌∷◌, arith, ltb, ◌==◌, true, false,
}
use namespace_resizer.Prelude.Int.{ℤ, pos, negsuc}
use namespace_resizer.Text.{Str, str_lt}
use namespace_resizer.Text.Decimal.{decimal, read_digits, read_digits-decimal}
use namespace_resizer.Clock.{Calendar, IsCalendar, second_ns}

unfoldable pub strokes : ℕ → Str
strokes zero = []
strokes (suc n) = b'|' ∷ strokes n

str_lt-strokes : (a b : ℕ) → str_lt (strokes a) (strokes b) ≡ ltb a b
unfolding strokes str_lt
str_lt-strokes zero zero = ground arith
str_lt-strokes zero (suc b) = ground arith
str_lt-strokes (suc a) zero = ground arith
str_lt-strokes (suc a) (suc b) = ground (arith, str_lt-strokes a b)

unfoldable pub date : ℤ → Str
date (pos n) = strokes n
date (negsuc n) = []

unfoldable pub read_duration : Str → Option ℤ
read_duration [] = none
read_duration (c ∷ s) = elim (c == b'-') [
  | true ↦ some (negsuc (read_digits 0 s))
  | false ↦ some (pos (read_digits 0 s))
]

unfoldable pub write_duration : ℤ → Str
write_duration (pos n) = b'+' ∷ decimal n
write_duration (negsuc n) = b'-' ∷ decimal n

unfoldable pub unary : Calendar
unfolding strokes date read_duration write_duration
unary = record {
  date = date;
  stamp = λ t. b'T' ∷ decimal (t / second_ns);
  parse_stamp = λ s. elim s [ [] ↦ none | c ∷ r ↦ some (read_digits 0 r * second_ns) ];
  parse_duration = read_duration;
  duration_string = write_duration;
}

parse-write : (d : ℤ) → read_duration (write_duration d) ≡ some d
unfolding read_duration write_duration
parse-write (pos n) = rw (read_digits-decimal n)
parse-write (negsuc n) = rw (read_digits-decimal n)

pub unary-IsCalendar : IsCalendar unary
unfolding unary
unary-IsCalendar = record {
  date_order = λ a b h k. str_lt-strokes a b;
  parse_stamp-stamp = λ t h. rw (read_digits-decimal (t / second_ns));
  stamp_nonempty = λ t. (b'T', decimal (t / second_ns), refl);
}
