-- ===== src/Sizing/Decide/Gates.antt =====
-- shrinkGates of internal/sizing/decide.go.
use namespace_resizer.Prelude.{ℕ, Bool, true, not, ◌&&◌, List, [], ◌∷◌, ◌++◌, if◌then◌else◌}
use namespace_resizer.Prelude.Int.{pos, ltb_ℤ, wrap64, ◌*ℤ◌}
use namespace_resizer.GoMap.{Map}
use namespace_resizer.Quantity.{Resource}
use namespace_resizer.Clock.{Time, Duration, Calendar, day_ns, is_zero, sub_time}
use namespace_resizer.Sizing.Window.History.{is_complete}
use namespace_resizer.Sizing.Decide.Target.{Input}

pub data Gate : Type 0 where
  enabled window recent_grow cooldown : Gate

-- A stamp that is set and less than a span ago.
unfoldable pub within : Time → Time → Duration → Bool
within now last span = not (is_zero last) && ltb_ℤ (sub_time now last) span

-- time.Duration(in.Policy.WindowDays) * 24 * time.Hour
unfoldable pub days_span : ℕ → Duration
days_span days = wrap64 (pos days *ℤ pos day_ns)

abbrev pub block_if : Bool → Gate → List Gate
block_if test gate = if test then gate ∷ [] else []

module _ {F Q : Type 0} (cal : Calendar) ⦃rs : Resource Q⦄ where
  -- The loop over the targets, which stops at the first resource without a full window.
  unfoldable pub all_complete : Input F Q → Map Q → Bool
  all_complete input [] = true
  all_complete input ((res, qty) ∷ rest) =
      is_complete Q cal res input.now input.policy.window_days input.window
      && all_complete input rest

  unfoldable pub shrink_gates : Input F Q → Map Q → List Gate
  shrink_gates input targets =
      block_if (not input.policy.shrink_enabled) enabled
      ++ (block_if (not (all_complete input targets)) window
          ++ (block_if (within input.now input.last_grow (days_span input.policy.window_days))
                recent_grow
              ++ block_if (within input.now input.last_shrink input.policy.shrink_cooldown)
                  cooldown))
