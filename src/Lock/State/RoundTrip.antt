-- ===== src/Lock/State/RoundTrip.antt =====
-- What is written on a Lease is read back (internal/lock/state.go).
use namespace_resizer.Prelude.{
  ℕ, zero, suc, ◌-◌, not, Bool, true, ◌&&◌, ltb, ◌*◌, ◌/◌, ◌<◌, ◌≡◌, refl, ◌∙◌, false, none, some,
  [], ◌∷◌, arith, Bool-cases, inl, inr, if◌then◌else◌,
}
use namespace_resizer.Prelude.Int.{two63, ltb_ℤ, ℤ, pos, negsuc, IsInt64, eqb_ℤ}
use namespace_resizer.Text.{Str, codes, ◌=s◌}
use namespace_resizer.Text.Affix.{has_prefix-append, trim_prefix-append}
use namespace_resizer.Text.Decimal.{decimal_ℤ, scan_int-decimal_ℤ}
use namespace_resizer.GoMap.{Map, lookup}
use namespace_resizer.GoMap.Laws.{lookup-insert, lookup-remove}
use namespace_resizer.Clock.{
  Time, Calendar, IsCalendar, is_zero, second_ns, day_of, days_of_four_digits,
}
use namespace_resizer.Lock.State.{
  State, Lease, read, identity, scan_identity, holder_id, parse_stamp, set_stamp, set_string,
  annotate, state_from_lease, apply_state_to_lease, annotation_window, annotation_pr_direction,
  annotation_last_grow, annotation_last_modified, annotation_last_shrink,
}

-- A printed identity is read back.
pub scan_identity-identity : (id : ℤ) → IsInt64 id → scan_identity (identity id) ≡ some id
unfolding scan_identity identity
scan_identity-identity id h =
    rw
      (
        has_prefix-append (codes "pr-") (decimal_ℤ id),
        trim_prefix-append (codes "pr-") (decimal_ℤ id),
      )
      (scan_int-decimal_ℤ id h)

-- A stamp keeps the whole seconds.
abbrev pub seconds : Time → Time
seconds t = t / second_ns * second_ns

read-set_string :
    (k j : Str) (v : Str) (m : Map Str)
    → read j (set_string k v m) ≡ (if k =s j then v else read j m)
unfolding read set_string
read-set_string k j [] m = ground (arith, lookup-remove k j m)
read-set_string k j (c ∷ v) m = ground (arith, lookup-insert k j (c ∷ v) m)

-- A state that a Lease can hold: an int64, and times up to the year 9999.
pub record IsWritable (s : State) : Type 0 where
  pub id : IsInt64 s.pr_id
  pub modified : day_of s.last_modified < days_of_four_digits
  pub grow : day_of s.last_grow < days_of_four_digits
  pub shrink : day_of s.last_shrink < days_of_four_digits

abbrev pub writable : State → Bool
writable s =
    (ltb_ℤ s.pr_id (pos two63) && not (ltb_ℤ s.pr_id (negsuc (two63 - 1))))
    && (ltb (day_of s.last_modified) days_of_four_digits
        && (ltb (day_of s.last_grow) days_of_four_digits
            && ltb (day_of s.last_shrink) days_of_four_digits))

pub writable_lem : (s : State) → writable s ≡ true → IsWritable s
writable_lem s h = record {
  id = record { below = ground (arith, h); above = ground (arith, h) };
  modified = ground (arith, h);
  grow = ground (arith, h);
  shrink = ground (arith, h);
}

-- A state, as far as a Lease keeps it: the times without the parts of a second.
unfoldable pub rounded : State → State
rounded s = record s {
  last_modified = seconds s.last_modified;
  last_grow = seconds s.last_grow;
  last_shrink = seconds s.last_shrink;
}

module _ (cal : Calendar) where
  -- The text of a stamp, none for the zero time.
  stamp_text : Time → Str
  stamp_text t = if is_zero t then [] else cal.stamp t

  read-set_stamp :
      (k j : Str) (t : Time) (m : Map Str)
      → read j (set_stamp cal k t m) ≡ (if k =s j then stamp_text t else read j m)
  unfolding read set_stamp stamp_text
  read-set_stamp k j t m = ground (arith, lookup-remove k j m, lookup-insert k j (cal.stamp t) m)

module _ (cal : Calendar) (laws : IsCalendar cal) where
  -- A text with a first character is parsed by the calendar.
  parse_stamp_of :
      (t u : Time) (s : Str) (c : ℕ) (rest : Str)
      → s ≡ c ∷ rest
      → cal.parse_stamp s ≡ some u
      → parse_stamp cal s ≡ u
  unfolding parse_stamp
  parse_stamp_of t u [] c rest e p = cc e
  parse_stamp_of t u (d ∷ s) c rest e p = ground (arith, p)

  parse_stamp-text :
      (t : Time) → day_of t < days_of_four_digits → parse_stamp cal (stamp_text cal t) ≡ seconds t
  unfolding parse_stamp stamp_text
  parse_stamp-text t h = elim (Bool-cases (is_zero t)) [
    | inl z ↦ rw z (ground arith)
    | inr z ↦
        let (c, s, e) = laws.stamp_nonempty t in
        rw z (parse_stamp_of t (seconds t) (cal.stamp t) c s e (laws.parse_stamp-stamp t h))
  ]

  -- What is read of the holder that is written for an id.
  holder_id_lem :
      (id : ℤ) → IsInt64 id → holder_id (if eqb_ℤ id (pos 0) then none else some (identity id)) ≡ id
  unfolding holder_id
  holder_id_lem (pos zero) h = refl
  holder_id_lem (pos (suc n)) h = ground (arith, scan_identity-identity (pos (suc n)) h)
  holder_id_lem (negsuc n) h = ground (arith, scan_identity-identity (negsuc n) h)

  module _ (s : State) (m : Map Str) where
    read_window : read annotation_window (annotate cal s m) ≡ s.window
    unfolding annotate ◌=s◌
    read_window = read-set_string annotation_window annotation_window s.window _

    read_direction : read annotation_pr_direction (annotate cal s m) ≡ s.pr_direction
    unfolding annotate ◌=s◌
    read_direction =
        read-set_string annotation_window annotation_pr_direction s.window _
        ∙ read-set_string annotation_pr_direction annotation_pr_direction s.pr_direction _

    read_shrink : read annotation_last_shrink (annotate cal s m) ≡ stamp_text cal s.last_shrink
    unfolding annotate ◌=s◌
    read_shrink =
        read-set_string annotation_window annotation_last_shrink s.window _
        ∙ read-set_string annotation_pr_direction annotation_last_shrink s.pr_direction _
        ∙ read-set_stamp cal annotation_last_shrink annotation_last_shrink s.last_shrink _

    read_grow : read annotation_last_grow (annotate cal s m) ≡ stamp_text cal s.last_grow
    unfolding annotate ◌=s◌
    read_grow =
        read-set_string annotation_window annotation_last_grow s.window _
        ∙ read-set_string annotation_pr_direction annotation_last_grow s.pr_direction _
        ∙ read-set_stamp cal annotation_last_shrink annotation_last_grow s.last_shrink _
        ∙ read-set_stamp cal annotation_last_grow annotation_last_grow s.last_grow _

    read_modified :
        read annotation_last_modified (annotate cal s m) ≡ stamp_text cal s.last_modified
    unfolding annotate ◌=s◌
    read_modified =
        read-set_string annotation_window annotation_last_modified s.window _
        ∙ read-set_string annotation_pr_direction annotation_last_modified s.pr_direction _
        ∙ read-set_stamp cal annotation_last_shrink annotation_last_modified s.last_shrink _
        ∙ read-set_stamp cal annotation_last_grow annotation_last_modified s.last_grow _
        ∙ read-set_stamp cal annotation_last_modified annotation_last_modified s.last_modified _

  -- With the texts of times as package time documents them, the state that is read from a Lease
  -- after a state was written to it is that state, with its three times cut to whole seconds, for
  -- every int64 as the number of the pull request and times up to the year 9999.
  pub state-apply :
      (s : State) (lease : Lease)
      → IsWritable s
      → state_from_lease cal (apply_state_to_lease cal s lease) ≡ rounded s
  unfolding state_from_lease apply_state_to_lease rounded
  state-apply s lease h =
      rw
        (
          holder_id_lem s.pr_id h.id,
          read_window s lease.annotations,
          read_direction s lease.annotations,
          read_shrink s lease.annotations,
          read_grow s lease.annotations,
          read_modified s lease.annotations,
          parse_stamp-text s.last_shrink h.shrink,
          parse_stamp-text s.last_grow h.grow,
          parse_stamp-text s.last_modified h.modified,
        )
        refl

skip_string :
    (k j : Str) (v : Str) (m : Map Str) → k =s j ≡ false → lookup j (set_string k v m) ≡ lookup j m
unfolding set_string
skip_string k j [] m h = lookup-remove k j m ∙ rw h refl
skip_string k j (c ∷ v) m h = lookup-insert k j (c ∷ v) m ∙ rw h refl

skip_stamp :
    (cal : Calendar) (k j : Str) (t : Time) (m : Map Str)
    → k =s j ≡ false
    → lookup j (set_stamp cal k t m) ≡ lookup j m
unfolding set_stamp
skip_stamp cal k j t m h = elim (Bool-cases (is_zero t)) [
  | inl z ↦ rw z (lookup-remove k j m ∙ rw h refl)
  | inr z ↦ rw z (lookup-insert k j (cal.stamp t) m ∙ rw h refl)
]

-- The write of a state to a Lease keeps the name and the labels, and an annotation whose key is none
-- of the five: with its value where it is there, and absent where it is not.
pub apply-foreign :
    (cal : Calendar) (k : Str) (s : State) (lease : Lease)
    → annotation_window =s k ≡ false
    → annotation_pr_direction =s k ≡ false
    → annotation_last_shrink =s k ≡ false
    → annotation_last_grow =s k ≡ false
    → annotation_last_modified =s k ≡ false
    → let written = apply_state_to_lease cal s lease in
      (lookup k written.annotations ≡ lookup k lease.annotations)
      × (written.labels ≡ lease.labels)
      × (written.name ≡ lease.name)
unfolding apply_state_to_lease annotate
apply-foreign cal k s lease w d sh g lm = (
  skip_string annotation_window k s.window _ w
      ∙ skip_string annotation_pr_direction k s.pr_direction _ d
      ∙ skip_stamp cal annotation_last_shrink k s.last_shrink _ sh
      ∙ skip_stamp cal annotation_last_grow k s.last_grow _ g
      ∙ skip_stamp cal annotation_last_modified k s.last_modified _ lm,
  refl,
  refl,
)
