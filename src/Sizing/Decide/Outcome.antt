-- ===== src/Sizing/Decide/Outcome.antt =====
-- Which direction Decide chooses, and what its result then holds (internal/sizing/decide.go).
use namespace_resizer.Prelude.{◌≡◌, refl, ◌↔◌, ◌⊎◌, ◌≢◌, true, false, [], ◌∷◌, arith, All}
use namespace_resizer.GoMap.{Map, is_empty}
use namespace_resizer.Float.{Float64}
use namespace_resizer.Quantity.{Resource}
use namespace_resizer.Clock.{Calendar}
use namespace_resizer.Sizing.Window.History.{is_complete}
use namespace_resizer.Sizing.Decide.Target.{Input}
use namespace_resizer.Sizing.Decide.Gates.{within, days_span, all_complete, shrink_gates}
use namespace_resizer.Sizing.Decide.{
  none_wanted, grow, shrink, Candidates, no_candidates, gated, conclude, candidates_from, decide,
}

module _ {F Q : Type 0} ⦃rs : Resource Q⦄ (cal : Calendar) (input : Input F Q) where
  -- The window of every listed resource is full.
  abbrev pub AllComplete : Map Q → Type 0
  AllComplete =
      All (λ e. is_complete Q cal e.0 input.now input.policy.window_days input.window ≡ true)

  all_complete_sound : (m : Map Q) → all_complete cal input m ≡ true → AllComplete m
  unfolding all_complete
  all_complete_sound [] h = tt
  all_complete_sound ((res, q) ∷ rest) h = (ground arith, all_complete_sound rest (ground arith))

  all_complete_complete : (m : Map Q) → AllComplete m → all_complete cal input m ≡ true
  unfolding all_complete
  all_complete_complete [] h = refl
  all_complete_complete ((res, q) ∷ rest) h = ground (arith, all_complete_complete rest h.1)

  -- No gate blocks.
  pub record IsOpen (targets : Map Q) : Type 0 where
    pub allowed : input.policy.shrink_enabled ≡ true
    pub observed : AllComplete targets
    pub no_recent_grow :
        within input.now input.last_grow (days_span input.policy.window_days) ≡ false
    pub cooled_down : within input.now input.last_shrink input.policy.shrink_cooldown ≡ false

  pub gates-IsOpen_iff : (targets : Map Q) → (shrink_gates cal input targets ≡ []) ↔ IsOpen targets
  unfolding shrink_gates
  gates-IsOpen_iff targets = (there, back)
    where
      there : shrink_gates cal input targets ≡ [] → IsOpen targets
      there e = record {
        allowed = ground arith;
        observed = all_complete_sound targets (ground arith);
        no_recent_grow = ground arith;
        cooled_down = ground arith;
      }

      back : IsOpen targets → shrink_gates cal input targets ≡ []
      back o = ground (arith, all_complete_complete targets o.observed)

module _ {F Q : Type 0} ⦃fl : Float64 F⦄ ⦃rs : Resource Q⦄ (cal : Calendar)
    (input : Input F Q) where
  -- What the loop over the quota's keys has collected.
  abbrev pub collected : Candidates Q
  collected = candidates_from cal input input.hard no_candidates

  shrinks :
      (decide cal input).direction ≡ shrink
      → (input.policy.enabled ≡ true)
        × (is_empty collected.grow_targets ≡ true)
        × (is_empty collected.shrink_targets ≡ false)
        × (shrink_gates cal input collected.shrink_targets ≡ [])
  unfolding decide conclude gated
  shrinks h = ground arith

  shrinks_back :
      (input.policy.enabled ≡ true)
        × (is_empty collected.grow_targets ≡ true)
        × (is_empty collected.shrink_targets ≡ false)
        × (shrink_gates cal input collected.shrink_targets ≡ [])
      → (decide cal input).direction ≡ shrink
  unfolding decide conclude gated
  shrinks_back h = ground arith

  -- Decide shrinks exactly when the namespace is not opted out, no key has to grow, some key can
  -- shrink, and no gate blocks: shrinking is allowed, the window of every key to shrink is full, and
  -- neither a recent grow nor the cooldown stands in the way.
  pub decide-shrink_iff : ((decide cal input).direction ≡ shrink) ↔ (
      (input.policy.enabled ≡ true)
      × (is_empty collected.grow_targets ≡ true)
      × (is_empty collected.shrink_targets ≡ false)
      × IsOpen cal input collected.shrink_targets)
  decide-shrink_iff =
      let gates = gates-IsOpen_iff cal input collected.shrink_targets in
      (
        (λ h. let s = shrinks h in (s.0, s.1, s.2, gates.0 s.3)),
        λ h. shrinks_back (h.0, h.1, h.2, gates.1 h.3),
      )

  -- Growth wins: Decide grows exactly when the namespace is not opted out and some key has to grow,
  -- whatever could shrink. When it grows, the targets are those that grow and no others, and no shrink
  -- is previewed or gated.
  pub decide-grow_iff :
      (((decide cal input).direction ≡ grow)
        ↔ ((input.policy.enabled ≡ true) × (is_empty collected.grow_targets ≡ false)))
      × (((decide cal input).direction ≢ grow)
          ⊎ (((decide cal input).targets ≡ collected.grow_targets)
              × ((decide cal input).shrink_preview ≡ [])
              × ((decide cal input).blocked_by ≡ [])))
  unfolding decide conclude gated
  decide-grow_iff = ((λ h. ground arith, λ h. ground arith), ground arith)

  -- Every decision is of one of three kinds. One that grows or shrinks carries the candidates of its
  -- direction as its targets, and no blocking gate; one that does neither carries no targets, and
  -- lists the gates that block exactly when it previews a shrink.
  decide_kinds :
      let d = decide cal input in
      ((d.direction ≡ grow) × (d.targets ≡ collected.grow_targets) × (d.blocked_by ≡ []))
      ⊎ ((d.direction ≡ shrink)
          × (d.targets ≡ collected.shrink_targets)
          × (d.shrink_preview ≡ collected.shrink_targets)
          × (d.blocked_by ≡ []))
      ⊎ ((d.direction ≡ none_wanted)
          × (d.targets ≡ [])
          × (d.shrink_preview ≡ [])
          × (d.blocked_by ≡ []))
      ⊎ ((d.direction ≡ none_wanted)
          × (d.targets ≡ [])
          × (d.shrink_preview ≡ collected.shrink_targets)
          × (d.blocked_by ≡ shrink_gates cal input collected.shrink_targets)
          × (d.blocked_by ≢ []))
  unfolding decide conclude gated
  decide_kinds = ground arith

  pub grow_targets_lem :
      (decide cal input).direction ≡ grow → (decide cal input).targets ≡ collected.grow_targets
  grow_targets_lem h = ground (arith, decide_kinds)

  pub shrink_targets_lem :
      (decide cal input).direction ≡ shrink → (decide cal input).targets ≡ collected.shrink_targets
  shrink_targets_lem h = ground (arith, decide_kinds)
