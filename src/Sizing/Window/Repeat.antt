-- ===== src/Sizing/Window/Repeat.antt =====
-- The same usage twice: the loop over usedList in Observe of internal/sizing/window.go.
use namespace_resizer.Prelude.{
  ◌≡◌, refl, sym, subst, ◌∙◌, Bool, true, false, some, [], ◌∷◌, All, Bool-cases, inl, inr,
}
use namespace_resizer.Text.{Str}
use namespace_resizer.Text.Equality.{=s_refl}
use namespace_resizer.GoMap.{Map, lookup, insert, Absent, DistinctKeys}
use namespace_resizer.GoMap.Laws.{lookup-insert}
use namespace_resizer.Quantity.{Resource}
use namespace_resizer.Sizing.Window.Observe.{is_new_peak, note_peaks}

module _ {Q : Type 0} ⦃rs : Resource Q⦄ where
  -- A value that was written as a text is no new peak over what is read of that text.
  abbrev pub Rereads : Map Q → Type 0
  Rereads used = All (λ e. is_new_peak (some (rs.string e.1)) e.1 ≡ false) used

  abbrev Covered : Map Q → Map Str → Type 0
  Covered used peaks = All (λ e. is_new_peak (lookup e.0 peaks) e.1 ≡ false) used

  -- A later key does not touch an earlier one.
  note_peaks-other :
      (res : Str) (used : Map Q) (peaks : Map Str) (changed : Bool)
      → Absent res used
      → lookup res (note_peaks used (peaks, changed)).0 ≡ lookup res peaks
  unfolding note_peaks
  note_peaks-other res [] peaks changed a = refl
  note_peaks-other res ((j, qty) ∷ rest) peaks changed a =
      elim (Bool-cases (is_new_peak (lookup j peaks) qty)) [
        | inl new ↦
            rw (new, note_peaks)
              (note_peaks-other res rest (insert j (rs.string qty) peaks) true a.1
                ∙ lookup-insert j res (rs.string qty) peaks
                ∙ rw a.0 refl)
        | inr old ↦ rw (old, note_peaks) (note_peaks-other res rest peaks changed a.1)
      ]

  noted_covers :
      (used : Map Q) (peaks : Map Str) (changed : Bool)
      → DistinctKeys used
      → Rereads used
      → Covered used (note_peaks used (peaks, changed)).0
  unfolding note_peaks
  noted_covers [] peaks changed d r = tt
  noted_covers ((res, qty) ∷ rest) peaks changed d r =
      let all = (res, qty) ∷ rest in
      elim (Bool-cases (is_new_peak (lookup res peaks) qty)) [
        | inl new ↦
            let next = insert res (rs.string qty) peaks in
            let step : note_peaks all (peaks, changed) ≡ note_peaks rest (next, true) =
              rw (new, note_peaks) refl in
            let here : lookup res (note_peaks rest (next, true)).0 ≡ some (rs.string qty) =
              note_peaks-other res rest next true d.0
              ∙ lookup-insert res res (rs.string qty) peaks
              ∙ rw (=s_refl res) refl in
            subst (λ noted. Covered all noted.0) (sym step)
              (rw here r.0, noted_covers rest next true d.1 r.1)
        | inr old ↦
            let step : note_peaks all (peaks, changed) ≡ note_peaks rest (peaks, changed) =
              rw (old, note_peaks) refl in
            subst (λ noted. Covered all noted.0) (sym step)
              (
                rw (note_peaks-other res rest peaks changed d.0) old,
                noted_covers rest peaks changed d.1 r.1,
              )
      ]

  step_again :
      (used : Map Q) (peaks : Map Str) (changed : Bool)
      → Covered used peaks
      → (note_peaks used (peaks, changed)).1 ≡ changed
  unfolding note_peaks
  step_again [] peaks changed c = refl
  step_again ((res, qty) ∷ rest) peaks changed c =
      rw (c.0, note_peaks) (step_again rest peaks changed c.1)

  -- The second loop over the same usage finds no new peak.
  pub note_peaks_again :
      (used : Map Q) (peaks : Map Str) (changed again : Bool)
      → DistinctKeys used
      → Rereads used
      → (note_peaks used ((note_peaks used (peaks, changed)).0, again)).1 ≡ again
  note_peaks_again used peaks changed again d r =
      step_again used (note_peaks used (peaks, changed)).0 again
        (noted_covers used peaks changed d r)
