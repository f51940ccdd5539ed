-- ===== src/Sizing/Window/Complete.antt =====
-- What IsComplete of internal/sizing/window.go says of each day.
use namespace_resizer.Prelude.{
  ℕ, zero, suc, ◌≡◌, refl, sym, subst, ◌∙◌, true, false, ◌&&◌, Option, none, some, List, [], ◌∷◌,
  ◌⊎◌, inl, inr, arith, if◌then◌else◌, Bool-cases, ◌↔◌,
}
use namespace_resizer.Text.{Str, ◌=s◌}
use namespace_resizer.Text.Equality.{=s_iff}
use namespace_resizer.GoMap.{Map, lookup, insert}
use namespace_resizer.GoMap.Laws.{lookup-insert}
use namespace_resizer.Quantity.{Resource}
use namespace_resizer.Clock.{Time, Calendar}
use namespace_resizer.Sizing.Window.{DayBucket, Window, days_ago, covered, has_duplicate_dates}
use namespace_resizer.Sizing.Window.History.{
  stored, by_date, day_complete, complete_from, is_complete,
}
use namespace_resizer.Sizing.Window.Dates.{Fresh, Once, has_duplicate_dates_iff}

-- The bucket with a date, if there is one.
bucket_of : Str → List DayBucket → Option DayBucket
bucket_of date [] = none
bucket_of date (b ∷ rest) =
    let later = bucket_of date rest in if b.date =s date then some b else later

abbrev or_from : Option DayBucket → Option DayBucket → Option DayBucket
or_from none o = o
or_from (some b) o = some b

bucket_of-Fresh : (date : Str) (bs : List DayBucket) → Fresh date bs → bucket_of date bs ≡ none
unfolding bucket_of
bucket_of-Fresh date [] f = refl
bucket_of-Fresh date (b ∷ rest) f = ground (arith, bucket_of-Fresh date rest f.1)

-- The index by date holds the bucket of each date.
by_date_lem :
    (date : Str) (bs : List DayBucket) (index : Map DayBucket)
    → Once bs
    → lookup date (by_date bs index) ≡ or_from (bucket_of date bs) (lookup date index)
unfolding by_date bucket_of
by_date_lem date [] index o = refl
by_date_lem date (b ∷ rest) index o = ground (
  arith,
  by_date_lem date rest (insert b.date b index) o.1,
  lookup-insert b.date date b index,
  bucket_of-Fresh b.date rest o.0,
  =s_iff b.date date,
)

true_apart : true ≡ false → ⊥
true_apart e = cc

module _ (Q : Type 0) ⦃rs : Resource Q⦄ (cal : Calendar) (res : Str) where
  -- A bucket of the date was observed from morning to night and has a readable value.
  abbrev pub Observed : List DayBucket → Str → Type 0
  Observed [] date = ⊥
  Observed (b ∷ rest) date =
      ((b.date ≡ date) × (covered cal b ≡ true) × (q : Q) × (stored Q res b ≡ some q))
      ⊎ Observed rest date

  -- Each of `left` days, the first of them `i` days back.
  abbrev pub EachDay : Time → List DayBucket → ℕ → ℕ → Type 0
  EachDay now bs zero i = Unit
  EachDay now bs (suc left) i = Observed bs (days_ago cal now i) × EachDay now bs left (suc i)

  Full : Option DayBucket → Type 0
  Full none = ⊥
  Full (some b) = (covered cal b ≡ true) × (q : Q) × (stored Q res b ≡ some q)

  not-Observed : (date : Str) (bs : List DayBucket) → Fresh date bs → Observed bs date → ⊥
  not-Observed date [] f h = h
  not-Observed date (b ∷ rest) f (inl x) = ground (arith, =s_iff b.date date)
  not-Observed date (b ∷ rest) f (inr h) = not-Observed date rest f.1 h

  Full-bucket_of_iff :
      (date : Str) (bs : List DayBucket) → Once bs → Full (bucket_of date bs) ↔ Observed bs date
  unfolding bucket_of Full
  Full-bucket_of_iff date [] o = (λ h. h, λ h. h)
  Full-bucket_of_iff date (b ∷ rest) o = elim (Bool-cases (b.date =s date)) [
    | inl e ↦
        let same : b.date ≡ date = (=s_iff b.date date).0 e in
        let gone : Observed rest date → ⊥ =
          λ h. not-Observed b.date rest o.0 (subst (Observed rest) (sym same) h) in
        rw e (
          λ h. inl (same, h.0, h.1, h.2),
          λ h. elim h [ inl x ↦ (x.1, x.2, x.3) | inr k ↦ absurd (gone k) ],
        )
    | inr e ↦
        let ih = Full-bucket_of_iff date rest o.1 in
        rw e (
          λ h. inr (ih.0 h),
          λ h. elim h [
            | inl x ↦ absurd (true_apart (sym ((=s_iff b.date date).1 x.0) ∙ e))
            | inr k ↦ ih.1 k
          ],
        )
  ]

  day_complete-Full :
      (index : Map DayBucket) (date : Str)
      → (day_complete Q cal res index date ≡ true) ↔ Full (lookup date index)
  unfolding day_complete Full
  day_complete-Full index date = go (lookup date index)
    where
      go :
          (o : Option DayBucket)
          → ((elim o [
            | none ↦ false
            | some b ↦ covered cal b && elim (stored Q res b) [ none ↦ false | some qty ↦ true ]
          ])
              ≡ true)
            ↔ Full o
      go none = (λ h. cc h, λ h. absurd h)
      go (some b) = ground arith

  or_none : (o : Option DayBucket) → or_from o none ≡ o
  or_none none = refl
  or_none (some b) = refl

  day_iff :
      (date : Str) (bs : List DayBucket)
      → Once bs
      → (day_complete Q cal res (by_date bs []) date ≡ true) ↔ Observed bs date
  unfolding lookup
  day_iff date bs o =
      let e : lookup date (by_date bs []) ≡ bucket_of date bs =
        by_date_lem date bs [] o ∙ or_none (bucket_of date bs) in
      let day = day_complete-Full (by_date bs []) date in
      let full = Full-bucket_of_iff date bs o in
      (λ h. full.0 (subst Full e (day.0 h)), λ h. day.1 (subst Full (sym e) (full.1 h)))

  complete_iff :
      (now : Time) (bs : List DayBucket) (left i : ℕ)
      → Once bs
      → (complete_from Q cal res now (by_date bs []) left i ≡ true) ↔ EachDay now bs left i
  unfolding complete_from
  complete_iff now bs zero i o = (λ h. tt, λ h. refl)
  complete_iff now bs (suc left) i o =
      ground (arith, day_iff (days_ago cal now i) bs o, complete_iff now bs left (suc i) o)

  -- In a window with one bucket for each date, IsComplete holds exactly when each of the completed days
  -- of the window has a bucket that was observed from before 00:30 to after 23:30 without a long gap,
  -- and holds a readable value of the resource.
  pub is_complete_iff :
      (now : Time) (window_days : ℕ) (w : Window)
      → has_duplicate_dates w.days ≡ false
      → (is_complete Q cal res now window_days w ≡ true) ↔ EachDay now w.days window_days 1
  unfolding is_complete
  is_complete_iff now window_days w h =
      complete_iff now w.days window_days 1 ((has_duplicate_dates_iff w.days).0 h)
