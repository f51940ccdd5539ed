-- ===== src/Sizing/Window/Maximum.antt =====
-- Peak of internal/sizing/window.go is a maximum over the completed days of the window.
use namespace_resizer.Prelude.{
  ℕ, ◌≡◌, refl, ap, sym, ◌∙◌, Bool, true, false, not, ◌||◌, Option, none, some, List, [], ◌∷◌, ◌⊎◌,
  inl, inr, All, arith, if◌then◌else◌, Bool-cases,
}
use namespace_resizer.Prelude.Int.{ℤ, pos, ◌≤ℤ◌, ltb_ℤ}
use namespace_resizer.Text.{Str}
use namespace_resizer.Quantity.{Resource}
use namespace_resizer.Clock.{Time, Calendar}
use namespace_resizer.Sizing.Window.{DayBucket, Window}
use namespace_resizer.Sizing.Window.History.{counted, raise, in_history, peak_from, peak}

-- The answer holds the value, if there is one.
abbrev pub Holds : Option ℤ → ℤ × Bool → Type 0
Holds none acc = Unit
Holds (some v) acc = (v ≤ℤ acc.0) × (acc.1 ≡ true)

-- A larger maximum still holds it.
Holds-raise : (o p : Option ℤ) (acc : ℤ × Bool) → Holds o acc → Holds o (raise p acc)
Holds-raise none p acc h = tt
Holds-raise (some v) none acc h = h
Holds-raise (some v) (some m) acc h = ground arith

raise-Holds : (o : Option ℤ) (acc : ℤ × Bool) → Holds o (raise o acc)
raise-Holds none acc = tt
raise-Holds (some v) acc = ground arith

module _ (Q : Type 0) ⦃rs : Resource Q⦄ (cal : Calendar) (res : Str) (now : Time)
    (window_days : ℕ) where
  -- The day is not one of the window's completed days, or its value is held.
  abbrev pub Covered : ℤ × Bool → DayBucket → Type 0
  Covered acc b = (in_history cal now window_days b ≡ false) ⊎ Holds (counted Q res b) acc

  -- The value is that of a completed day.
  abbrev pub Attained : ℤ → List DayBucket → Type 0
  Attained v [] = ⊥
  Attained v (b ∷ rest) =
      ((in_history cal now window_days b ≡ true) × (counted Q res b ≡ some v)) ⊎ Attained v rest

  -- One round of the loop.
  round : DayBucket → ℤ × Bool → ℤ × Bool
  round b acc = if in_history cal now window_days b then raise (counted Q res b) acc else acc

  Holds-round :
      (o : Option ℤ) (b : DayBucket) (acc : ℤ × Bool) → Holds o acc → Holds o (round b acc)
  unfolding round
  Holds-round o b acc h = elim (Bool-cases (in_history cal now window_days b)) [
    | inl e ↦ rw e (Holds-raise o (counted Q res b) acc h)
    | inr e ↦ rw e h
  ]

  round-Covered : (b : DayBucket) (acc : ℤ × Bool) → Covered (round b acc) b
  unfolding round
  round-Covered b acc = elim (Bool-cases (in_history cal now window_days b)) [
    | inl e ↦ inr (rw e (raise-Holds (counted Q res b) acc))
    | inr e ↦ inl e
  ]

  Holds-peak_from :
      (o : Option ℤ) (days : List DayBucket) (acc : ℤ × Bool)
      → Holds o acc
      → Holds o (peak_from Q cal res now window_days days acc)
  unfolding peak_from round
  Holds-peak_from o [] acc h = h
  Holds-peak_from o (b ∷ rest) acc h = Holds-peak_from o rest (round b acc) (Holds-round o b acc h)

  Covered-peak_from :
      (b : DayBucket) (days : List DayBucket) (acc : ℤ × Bool)
      → Covered acc b
      → Covered (peak_from Q cal res now window_days days acc) b
  Covered-peak_from b days acc (inl e) = inl e
  Covered-peak_from b days acc (inr h) = inr (Holds-peak_from (counted Q res b) days acc h)

  All-Covered :
      (days : List DayBucket) (acc : ℤ × Bool)
      → All (Covered (peak_from Q cal res now window_days days acc)) days
  unfolding peak_from round
  All-Covered [] acc = tt
  All-Covered (b ∷ rest) acc =
      (Covered-peak_from b rest (round b acc) (round-Covered b acc), All-Covered rest (round b acc))

  raise_cases :
      (o : Option ℤ) (acc : ℤ × Bool)
      → (raise o acc ≡ acc) ⊎ ((o ≡ some (raise o acc).0) × ((raise o acc).1 ≡ true))
  raise_cases none acc = inl refl
  raise_cases (some v) (best, found) = elim (Bool-cases (not found || ltb_ℤ best v)) [
    | inl e ↦ rw e (inr (refl, refl))
    | inr e ↦ rw e (inl refl)
  ]

  round_cases :
      (b : DayBucket) (acc : ℤ × Bool)
      → (round b acc ≡ acc)
        ⊎ ((in_history cal now window_days b ≡ true)
            × (counted Q res b ≡ some (round b acc).0)
            × ((round b acc).1 ≡ true))
  unfolding round
  round_cases b acc = elim (Bool-cases (in_history cal now window_days b)) [
    | inr e ↦ rw e (inl refl)
    | inl e ↦ rw e (elim (raise_cases (counted Q res b) acc) [
      | inl same ↦ inl same
      | inr (found, new) ↦ inr (refl, found, new)
    ])
  ]

  -- What the loop started from, or the value of a day.
  found_somewhere :
      (days : List DayBucket) (acc : ℤ × Bool)
      → let out = peak_from Q cal res now window_days days acc in
        (out ≡ acc) ⊎ ((out.1 ≡ true) × Attained out.0 days)
  unfolding peak_from round
  found_somewhere [] acc = inl refl
  found_somewhere (b ∷ rest) acc = elim (found_somewhere rest (round b acc)) [
    | inr (new, day) ↦ inr (new, inr day)
    | inl e ↦ elim (round_cases b acc) [
      | inl same ↦ inl (e ∙ same)
      | inr (past, found, new) ↦
          inr (ap (λ x. x.1) e ∙ new, inl (past, found ∙ ap (λ x. some x.0) (sym e)))
    ]
  ]

  -- What Peak answers is a maximum: for every completed day of the window, there is an answer and it
  -- is not below the day's value, if that can be read and does not overflow; and the answer is the
  -- value of such a day, or there is none and 0 is returned.
  pub peak_lem :
      (w : Window)
      → let out = peak Q cal res now window_days w in
        All (Covered out) w.days
        × ((out ≡ (pos 0, false)) ⊎ ((out.1 ≡ true) × Attained out.0 w.days))
  unfolding peak
  peak_lem w = (All-Covered w.days (pos 0, false), found_somewhere w.days (pos 0, false))
