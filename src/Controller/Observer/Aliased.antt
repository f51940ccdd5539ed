-- ===== src/Controller/Observer/Aliased.antt =====
-- The buckets that Observe of internal/controller/observation.go shares with its cache.
use namespace_resizer.Prelude.{
  ℕ, zero, suc, ◌≡◌, refl, ◌∙◌, false, not, ◌&&◌, some, List, [], ◌∷◌, arith,
}
use namespace_resizer.Text.{Str, ◌=s◌}
use namespace_resizer.GoMap.{Map, DistinctKeys}
use namespace_resizer.Quantity.{Resource}
use namespace_resizer.Clock.{Time, Calendar}
use namespace_resizer.Sizing.Window.{
  DayBucket, Window, window_version, today, prune, index_of, update_at,
}
use namespace_resizer.Sizing.Window.Observe.{
  adopt, open_bucket, observe, sample, note_peaks, peaks_at, note_gap, widen_gap, note_time,
}
use namespace_resizer.Sizing.Window.Repeat.{Rereads, note_peaks_again}
use namespace_resizer.Controller.Observer.{left_behind, sample_shared}

index_of-rest :
    (date : Str) (i : ℕ) (b : DayBucket) (rest : List DayBucket)
    → index_of date (b ∷ rest) ≡ some (suc i)
    → index_of date rest ≡ some i
unfolding index_of
index_of-rest date i b rest e = ground (arith, e)

module _ (cal : Calendar) where
  prune_kept :
      (now : Time) (days : ℕ) (w : Window)
      → (prune cal now days w).1 ≡ false
      → prune cal now days w ≡ (w, false)
  unfolding prune
  prune_kept now days w h = ground (arith, h)

  prune_same :
      (now : Time) (days : ℕ) (w v : Window)
      → w.days ≡ v.days
      → (prune cal now days w).1 ≡ (prune cal now days v).1
  unfolding prune
  prune_same now days w v e = rw e (ground arith)

module _ (cal : Calendar) {Q : Type 0} ⦃rs : Resource Q⦄ where
  sample_peaks :
      (now : Time) (last : Str) (used : Map Q) (b : DayBucket)
      → (sample cal now last used b).peaks ≡ (note_peaks used (b.peaks, false)).0
  unfolding sample note_time note_gap widen_gap
  sample_peaks now last used b = ground arith

  peaks_at-update_at :
      (now : Time) (last : Str) (used : Map Q) (date : Str) (i : ℕ) (bs : List DayBucket)
      → index_of date bs ≡ some i
      → peaks_at i (update_at i (sample cal now last used) bs)
        ≡ (note_peaks used (peaks_at i bs, false)).0
  unfolding index_of update_at
  peaks_at-update_at now last used date i [] e = cc e
  peaks_at-update_at now last used date zero (b ∷ rest) e = sample_peaks now last used b
  peaks_at-update_at now last used date (suc i) (b ∷ rest) e =
      peaks_at-update_at now last used date i rest (index_of-rest date i b rest e)

  module _ (now : Time) (uid : Str) (used : Map Q) (window_days : ℕ) (window : Window) (i : ℕ)
      (own : (not (window.uid =s []) && not (window.uid =s uid)) ≡ false)
      (current : (prune cal now window_days window).1 ≡ false)
      (todays : index_of (today cal now) window.days ≡ some i) where
    abbrev pub shared : Window
    shared = record window {
      days = update_at i (sample cal now window.last_sample_at used) window.days;
    }

    pub left_behind_lem : left_behind cal now uid used window_days window ≡ shared
    unfolding left_behind sample_shared
    left_behind_lem = rw (prune_kept cal now window_days window current, own, todays) refl

    adopted : Window
    adopted = record shared { uid = uid; version = window_version }

    adopt_own : adopt uid shared ≡ adopted
    unfolding adopt adopted
    adopt_own = rw own refl

    -- The window that a failed write leaves in the cache, at a later time of the same day.
    module _ (later : Time) (kept_later : (prune cal later window_days shared).1 ≡ false)
        (same_day : index_of (today cal later) shared.days ≡ some i) (distinct : DistinctKeys used)
        (rereads : Rereads used) where
      calm : prune cal later window_days adopted ≡ (adopted, false)
      unfolding adopted
      calm =
          prune_kept cal later window_days adopted
            (prune_same cal later window_days adopted shared refl ∙ kept_later)

      reopened : open_bucket cal later adopted.days ≡ (adopted.days, i, false)
      unfolding adopted open_bucket
      reopened = rw (same_day, open_bucket) refl

      pub second_sample : (observe cal later uid used window_days shared).1 ≡ false
      unfolding observe adopted
      second_sample =
          rw (adopt_own, calm, reopened)
            (rw
              (peaks_at-update_at now window.last_sample_at used (today cal now) i window.days
                todays)
              (note_peaks_again used (peaks_at i window.days) false false distinct rereads))

      pub stamp_kept :
          (observe cal later uid used window_days shared).0.last_write_at ≡ window.last_write_at
      unfolding observe adopted
      stamp_kept = rw (adopt_own, calm) refl
