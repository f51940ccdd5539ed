-- ===== src/Controller/Reconcile/Warnings.antt =====
-- The calls with which Reconcile of internal/controller/resourcequota_controller.go reports the
-- warnings of a policy.
use namespace_resizer.Prelude.{List, [], ◌∷◌, All, All-append}
use namespace_resizer.Sizing.Policy.Parse.{PolicyWarning, deprecated, rejected, unrecognised}
use namespace_resizer.Controller.Outside.{Call}
use namespace_resizer.Controller.Reconcile.{Surroundings, warn_of, warn_all}

abbrev pub IsEvent : {Q : Type 0} → Call Q → Type 0
IsEvent (Call.event _ _ _) = Unit
IsEvent _ = ⊥

module _ {W Q : Type 0} (s : Surroundings W Q) where
  warn_of-IsEvent : (warning : PolicyWarning) (w : W) → All IsEvent (warn_of s warning w).calls
  unfolding warn_of
  warn_of-IsEvent (deprecated res old) w = tt
  warn_of-IsEvent (rejected name value requirement) w = (tt, tt)
  warn_of-IsEvent (unrecognised value) w = (tt, tt)

  pub warn_all-IsEvent :
      (warnings : List PolicyWarning) (w : W) → All IsEvent (warn_all s warnings w).calls
  unfolding warn_all
  warn_all-IsEvent [] w = tt
  warn_all-IsEvent (warning ∷ rest) w =
      All-append IsEvent (warn_of s warning w).calls
        (warn_all s rest (warn_of s warning w).world).calls (warn_of-IsEvent warning w)
        (warn_all-IsEvent rest (warn_of s warning w).world)
