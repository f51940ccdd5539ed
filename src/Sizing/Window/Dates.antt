-- ===== src/Sizing/Window/Dates.antt =====
-- Every date has one bucket: Observe of internal/sizing/window.go keeps what hasDuplicateDates tests.
use namespace_resizer.Prelude.{
  ℕ, zero, suc, ◌≡◌, refl, Bool, true, false, ◌||◌, none, List, [], ◌∷◌, ◌++◌, inl, inr, All, arith,
  Bool-cases, Option-cases, ◌↔◌,
}
use namespace_resizer.Text.{Str, ◌=s◌}
use namespace_resizer.Text.Equality.{=s_iff}
use namespace_resizer.GoMap.{Map, lookup, insert, has}
use namespace_resizer.GoMap.Laws.{lookup-insert}
use namespace_resizer.Quantity.{Resource}
use namespace_resizer.Clock.{Time, Calendar}
use namespace_resizer.Sizing.Window.{
  DayBucket, Window, today, outside, kept, prune, index_of, update_at, seen_twice,
  has_duplicate_dates,
}
use namespace_resizer.Sizing.Window.Observe.{
  adopt, new_bucket, open_bucket, note_gap, widen_gap, note_time, sample, observe,
}

-- No bucket has the date.
abbrev pub Fresh : Str → List DayBucket → Type 0
Fresh date [] = Unit
Fresh date (b ∷ rest) = ((b.date =s date) ≡ false) × Fresh date rest

abbrev pub Once : List DayBucket → Type 0
Once [] = Unit
Once (b ∷ rest) = Fresh b.date rest × Once rest

=s_false : (s t : Str) → (s =s t) ≡ false → (t =s s) ≡ false
=s_false s t h = ground (arith, =s_iff s t, =s_iff t s)

module _ (cal : Calendar) where
  kept-Fresh :
      (date : Str) (now : Time) (days : ℕ) (bs : List DayBucket)
      → Fresh date bs
      → Fresh date (kept cal now days bs)
  unfolding kept
  kept-Fresh date now days [] f = tt
  kept-Fresh date now days (b ∷ rest) f = elim (Bool-cases (outside cal now days b)) [
    | inl e ↦ rw e (kept-Fresh date now days rest f.1)
    | inr e ↦ rw e (f.0, kept-Fresh date now days rest f.1)
  ]

  kept-Once : (now : Time) (days : ℕ) (bs : List DayBucket) → Once bs → Once (kept cal now days bs)
  unfolding kept
  kept-Once now days [] o = tt
  kept-Once now days (b ∷ rest) o = elim (Bool-cases (outside cal now days b)) [
    | inl e ↦ rw e (kept-Once now days rest o.1)
    | inr e ↦ rw e (kept-Fresh b.date now days rest o.0, kept-Once now days rest o.1)
  ]

append-Fresh :
    (date : Str) (bs : List DayBucket) (b : DayBucket)
    → Fresh date bs
    → (b.date =s date) ≡ false
    → Fresh date (bs ++ b ∷ [])
append-Fresh date [] b f h = (h, tt)
append-Fresh date (c ∷ rest) b f h = (f.0, append-Fresh date rest b f.1 h)

append-Once :
    (bs : List DayBucket) (b : DayBucket) → Once bs → Fresh b.date bs → Once (bs ++ b ∷ [])
append-Once [] b o f = (tt, tt)
append-Once (c ∷ rest) b o f =
    (append-Fresh c.date rest b o.0 (=s_false c.date b.date f.0), append-Once rest b o.1 f.1)

Fresh-of_index_of : (date : Str) (bs : List DayBucket) → index_of date bs ≡ none → Fresh date bs
unfolding index_of
Fresh-of_index_of date [] e = tt
Fresh-of_index_of date (b ∷ rest) e = ground (arith, Fresh-of_index_of date rest)

module _ (f : DayBucket → DayBucket) (keeps : (b : DayBucket) → (f b).date ≡ b.date) where
  update_at-Fresh :
      (date : Str) (i : ℕ) (bs : List DayBucket) → Fresh date bs → Fresh date (update_at i f bs)
  unfolding update_at
  update_at-Fresh date i [] h = tt
  update_at-Fresh date zero (b ∷ rest) h = (rw (keeps b) h.0, h.1)
  update_at-Fresh date (suc i) (b ∷ rest) h = (h.0, update_at-Fresh date i rest h.1)

  update_at-Once : (i : ℕ) (bs : List DayBucket) → Once bs → Once (update_at i f bs)
  unfolding update_at
  update_at-Once i [] o = tt
  update_at-Once zero (b ∷ rest) o = (rw (keeps b) o.0, o.1)
  update_at-Once (suc i) (b ∷ rest) o =
      (update_at-Fresh b.date i rest o.0, update_at-Once i rest o.1)

module _ (cal : Calendar) where
  gap_date : (now : Time) (last : Str) (b : DayBucket) → (note_gap cal now last b).date ≡ b.date
  unfolding note_gap widen_gap
  gap_date now last b = ground arith

  open_bucket-Once : (now : Time) (bs : List DayBucket) → Once bs → Once (open_bucket cal now bs).0
  unfolding open_bucket new_bucket
  open_bucket-Once now bs o = elim (Option-cases (index_of (today cal now) bs)) [
    | inl e ↦ rw (open_bucket, e) (append-Once bs _ o (Fresh-of_index_of (today cal now) bs e))
    | inr (i, e) ↦ rw (open_bucket, e) o
  ]

  prune-Once :
      (now : Time) (days : ℕ) (w : Window) → Once w.days → Once (prune cal now days w).0.days
  unfolding prune
  prune-Once now days w o = ground (arith, kept-Once cal now days w.days o)

adopt-Once : (uid : Str) (w : Window) → Once w.days → Once (adopt uid w).days
unfolding adopt
adopt-Once uid w o = ground arith

has-insert : (d c : Str) (seen : Map Bool) → has c (insert d true seen) ≡ ((d =s c) || has c seen)
unfolding has
has-insert d c seen = ground (arith, lookup-insert d c true seen)

split_unseen :
    (d : Str) (seen : Map Bool) (bs : List DayBucket)
    → All (λ b. has b.date (insert d true seen) ≡ false) bs
      ↔ (Fresh d bs × All (λ b. has b.date seen ≡ false) bs)
split_unseen d seen [] = (λ h. (tt, tt), λ h. tt)
split_unseen d seen (b ∷ rest) =
    ground
      (arith, split_unseen d seen rest, has-insert d b.date seen, =s_iff d b.date, =s_iff b.date d)

seen_twice_lem :
    (seen : Map Bool) (bs : List DayBucket)
    → (seen_twice seen bs ≡ false) ↔ (Once bs × All (λ b. has b.date seen ≡ false) bs)
unfolding seen_twice
seen_twice_lem seen [] = (λ h. (tt, tt), λ h. refl)
seen_twice_lem seen (b ∷ rest) =
    ground (arith, seen_twice_lem (insert b.date true seen) rest, split_unseen b.date seen rest)

none_seen : (bs : List DayBucket) → All (λ b. has {V = Bool} b.date [] ≡ false) bs
unfolding has lookup
none_seen [] = tt
none_seen (b ∷ rest) = (refl, none_seen rest)

pub has_duplicate_dates_iff : (bs : List DayBucket) → (has_duplicate_dates bs ≡ false) ↔ Once bs
unfolding has_duplicate_dates
has_duplicate_dates_iff bs = ground (arith, seen_twice_lem [] bs, none_seen bs)

module _ {Q : Type 0} ⦃rs : Resource Q⦄ (cal : Calendar) where
  -- Observe never gives a date a second bucket: hasDuplicateDates, by which DecodeWindow discards a
  -- window, is false after it if it was false before.
  pub observe_dates :
      (now : Time) (uid : Str) (used : Map Q) (window_days : ℕ) (w : Window)
      → has_duplicate_dates w.days ≡ false
      → has_duplicate_dates (observe cal now uid used window_days w).0.days ≡ false
  unfolding observe sample note_time
  observe_dates now uid used window_days w h =
      let once = (has_duplicate_dates_iff w.days).0 h in
      let adopted = adopt-Once uid w once in
      let pruned = prune-Once cal now window_days (adopt uid w) adopted in
      let p = (prune cal now window_days (adopt uid w)).0 in
      let opened = open_bucket-Once cal now p.days pruned in
      (has_duplicate_dates_iff _).1 (
        update_at-Once (sample cal now p.last_sample_at used)
          (λ b. gap_date cal now p.last_sample_at b) (open_bucket cal now p.days).1
          (open_bucket cal now p.days).0 opened)
