-- ===== src/Sizing/Policy.antt =====
-- The effective configuration of one quota: Policy of internal/sizing/policy.go.
pub mod Parse
pub mod Merge
pub mod OptOut
pub mod Ranges
pub mod Maps
pub mod Given
pub mod Precedence
mod Examples
use namespace_resizer.Prelude.{ℕ, ◌*◌, Bool, true, Option, none, some, [], ◌∷◌}
use namespace_resizer.Prelude.Int.{pos}
use namespace_resizer.Text.{Str, codes}
use namespace_resizer.GoMap.{Map, lookup}
use namespace_resizer.Float.{Float64}
use namespace_resizer.Clock.{Duration, hour_ns, minute_ns}
use namespace_resizer.Sizing.Names.{resource_family}

-- DefaultKey
abbrev pub default_key : Str
default_key = codes "default"

-- WindowDays is an int that DefaultPolicy and ParsePolicy only set to positive values.
pub record Policy (F Q : Type 0) : Type 0 where
  pub headroom : Map F
  pub min : Map Q
  pub tolerance : F
  pub window_days : ℕ
  pub max_shrink_step : F
  pub shrink_cooldown : Duration
  pub shrink_pr_ttl : Duration
  pub grow_cooldown : Duration
  pub enabled : Bool
  pub shrink_enabled : Bool

module _ (F Q : Type 0) ⦃fl : Float64 F⦄ where
  unfoldable pub default_policy : Policy F Q
  default_policy = record {
    headroom = (default_key, fl.literal 25 100) ∷ [];
    min = [];
    tolerance = fl.literal 15 100;
    window_days = 14;
    max_shrink_step = fl.literal 25 100;
    shrink_cooldown = pos (7 * 24 * hour_ns);
    shrink_pr_ttl = pos (7 * 24 * hour_ns);
    grow_cooldown = pos (60 * minute_ns);
    enabled = true;
    shrink_enabled = true;
  }

module _ {F Q : Type 0} ⦃fl : Float64 F⦄ where
  headroom_default : Policy F Q → F
  headroom_default p = elim (lookup default_key p.headroom) [
    | some v ↦ v
    | none ↦ fl.literal 25 100
  ]

  headroom_family : Policy F Q → Str → F
  headroom_family p res = elim (resource_family res) [
    | none ↦ headroom_default p
    | some family ↦ elim (lookup family p.headroom) [ some v ↦ v | none ↦ headroom_default p ]
  ]

  -- HeadroomFor: the key itself, then its family, then the namespace default.
  unfoldable pub headroom_for : Policy F Q → Str → F
  unfolding headroom_default headroom_family
  headroom_for p res = elim (lookup res p.headroom) [ some v ↦ v | none ↦ headroom_family p res ]

module _ {F Q : Type 0} where
  min_family : Policy F Q → Str → Option Q
  min_family p res = elim (resource_family res) [ none ↦ none | some family ↦ lookup family p.min ]

  -- MinFor: the key itself, then its family.
  unfoldable pub min_for : Policy F Q → Str → Option Q
  unfolding min_family
  min_for p res = elim (lookup res p.min) [ some q ↦ some q | none ↦ min_family p res ]
