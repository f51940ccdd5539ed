-- ===== src/Sizing/Decide/Target.antt =====
-- targetFor of internal/sizing/decide.go.
use namespace_resizer.Prelude.{none, some, ◌++◌, if◌then◌else◌}
use namespace_resizer.Prelude.Int.{ℤ, pos, ltb_ℤ, wrap64, ◌+ℤ◌}
use namespace_resizer.Text.{Str, codes}
use namespace_resizer.Text.Decimal.{decimal}
use namespace_resizer.GoMap.{Map, lookup}
use namespace_resizer.Float.{Float64, of_ℕ}
use namespace_resizer.Quantity.{Resource}
use namespace_resizer.Clock.{Time, Calendar}
use namespace_resizer.Sizing.Policy.{Policy, min_for}
use namespace_resizer.Sizing.Window.{Window}
use namespace_resizer.Sizing.Window.History.{peak}

-- Deficits is nil when no event is pending, which reads as an empty map.
pub record Input (F Q : Type 0) : Type 0 where
  pub now : Time
  pub hard : Map Q
  pub used : Map Q
  pub deficits : Map ℤ
  pub window : Window
  pub policy : Policy F Q
  pub last_grow : Time
  pub last_shrink : Time

-- int64(float64(milli) * (1 + headroom))
module _ {F : Type 0} ⦃fl : Float64 F⦄ where
  unfoldable pub with_headroom : F → ℤ → ℤ
  with_headroom headroom milli = fl.to_int (fl.mul (fl.of_int milli) (fl.add (of_ℕ 1) headroom))

-- Each step replaces the value and its driver if the new value is larger.
unfoldable pub raise_to : ℤ → Str → ℤ × Str → ℤ × Str
raise_to candidate reason (value, driver) =
    if ltb_ℤ value candidate then (candidate, reason) else (value, driver)

module _ {F Q : Type 0} where
  -- A pending shortage, which counts on top of the usage.
  unfoldable pub raise_to_need : Input F Q → Str → ℤ → ℤ × Str → ℤ × Str
  raise_to_need input res used acc = elim (lookup res input.deficits) [
    | none ↦ acc
    | some deficit ↦
        if ltb_ℤ (pos 0) deficit
        then raise_to (wrap64 (used +ℤ deficit)) (codes "pending shortage") acc
        else acc
  ]

module _ {F Q : Type 0} ⦃rs : Resource Q⦄ where
  unfoldable pub raise_to_min : Input F Q → Str → ℤ × Str → ℤ × Str
  raise_to_min input res acc = elim (min_for input.policy res) [
    | none ↦ acc
    | some floor ↦ raise_to (rs.milli_value floor) (codes "configured minimum") acc
  ]

  -- The peak of the window, if there is one.
  unfoldable pub raise_to_peak : Calendar → Input F Q → Str → ℤ × Str → ℤ × Str
  raise_to_peak cal input res acc =
      let (p, found) = peak Q cal res input.now input.policy.window_days input.window in
      if found then raise_to p (decimal input.policy.window_days ++ codes "-day peak") acc else acc

  -- peakMilli and driver before the headroom.
  unfoldable pub demand : Calendar → Input F Q → Str → ℤ → ℤ × Str
  demand cal input res used =
      raise_to_need input res used (raise_to_peak cal input res (used, codes "current usage"))

module _ {F Q : Type 0} ⦃fl : Float64 F⦄ ⦃rs : Resource Q⦄ where
  unfoldable pub target_for : Calendar → Input F Q → Str → ℤ → F → ℤ × Str
  target_for cal input res used headroom =
      let (peak_milli, driver) = demand cal input res used in
      raise_to_min input res (
        raise_to (with_headroom headroom used) (codes "current usage floor")
          (with_headroom headroom peak_milli, driver))
