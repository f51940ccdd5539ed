-- ===== src/Text/Space.antt =====
-- strings.TrimSpace of Go, for a text that has no other spaces than those of ASCII at its ends.
use namespace_resizer.Prelude.{ℕ, Bool, ◌&&◌, ◌||◌, [], ◌∷◌, ◌==◌, leb, if◌then◌else◌}
use namespace_resizer.Text.{Str}

-- The spaces of ASCII.
unfoldable pub is_space : ℕ → Bool
is_space c = (leb 9 c && leb c 13) || c == 0x20

unfoldable pub trim_left : Str → Str
trim_left [] = []
trim_left (c ∷ s) = let rest = trim_left s in if is_space c then rest else c ∷ s

-- A character before a text that is trimmed at its end.
unfoldable pub before_end : ℕ → Str → Str
before_end c [] = if is_space c then [] else c ∷ []
before_end c (d ∷ s) = c ∷ d ∷ s

unfoldable pub trim_right : Str → Str
unfolding before_end
trim_right [] = []
trim_right (c ∷ s) = before_end c (trim_right s)

unfoldable pub trim_space : Str → Str
unfolding trim_left trim_right
trim_space s = trim_right (trim_left s)
