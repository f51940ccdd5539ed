-- ===== src/Sizing/Decide/Locality.antt =====
-- Decide judges every quota key on its own: the loop of internal/sizing/decide.go over a Go map.
use namespace_resizer.Prelude.{◌≡◌, refl, ◌∙◌, Option, none, some, [], ◌∷◌, arith, if◌then◌else◌}
use namespace_resizer.Prelude.Int.{ℤ}
use namespace_resizer.Text.{Str, ◌=s◌}
use namespace_resizer.Text.Equality.{=s_iff, =s_refl}
use namespace_resizer.GoMap.{Map, lookup, insert, DistinctKeys}
use namespace_resizer.GoMap.Laws.{lookup-insert, lookup-Absent}
use namespace_resizer.Float.{Float64}
use namespace_resizer.Quantity.{Resource}
use namespace_resizer.Clock.{Calendar}
use namespace_resizer.Sizing.Policy.{Policy}
use namespace_resizer.Sizing.Quantize.{quantize}
use namespace_resizer.Sizing.Decide.Target.{Input}
use namespace_resizer.Sizing.Decide.{
  Candidates, no_candidates, propose_grow, propose_shrink, weigh, with_raw, evaluate, judge,
  consider, candidates_from, cap_step,
}

-- One of the three maps that the loop fills.
pub data Part : Type 0 where
  growing shrinking raw_part : Part

abbrev pub part : {Q : Type 0} → Part → Candidates Q → Map Q
part growing c = c.grow_targets
part shrinking c = c.shrink_targets
part raw_part c = c.raw

abbrev pub or_else : {V : Type 0} → Option V → Option V → Option V
or_else none o = o
or_else (some v) o = some v

-- What a change of the candidates for one key does to a lookup.
abbrev Local : {Q : Type 0} → Part → Str → (Candidates Q → Candidates Q) → Candidates Q → Type 0
Local {Q} p res f acc =
    (k : Str)
    → lookup k (part p (f acc)) ≡ (
        if res =s k
        then or_else (lookup res (part p (f no_candidates))) (lookup k (part p acc))
        else lookup k (part p acc))

module _ {Q : Type 0} ⦃rs : Resource Q⦄ (p : Part) (res : Str) (hard qty : Q) (driver : Str) where
  propose_grow-Local : (acc : Candidates Q) → Local p res (propose_grow res hard qty driver) acc
  unfolding propose_grow lookup insert
  propose_grow-Local acc k =
      ground (arith, =s_refl res, =s_iff res k, lookup-insert res k qty acc.grow_targets)

  propose_shrink-Local : (acc : Candidates Q) → Local p res (propose_shrink res hard qty driver) acc
  unfolding propose_shrink lookup insert
  propose_shrink-Local acc k =
      ground (arith, =s_refl res, =s_iff res k, lookup-insert res k qty acc.shrink_targets)

with_raw-Local :
    {Q : Type 0} (p : Part) (res : Str) (qty : Q) (acc : Candidates Q)
    → Local p res (with_raw res qty) acc
unfolding lookup insert
with_raw-Local p res qty acc k =
    ground (arith, =s_refl res, =s_iff res k, lookup-insert res k qty acc.raw)

unchanged-Local :
    {Q : Type 0} (p : Part) (res : Str) (acc : Candidates Q) → Local p res (λ c. c) acc
unfolding lookup
unchanged-Local p res acc k = ground arith

-- Two changes for the same key, one after the other.
Local-∘ :
    {Q : Type 0} (p : Part) (res : Str) (f g : Candidates Q → Candidates Q)
    → ((acc : Candidates Q) → Local p res f acc)
    → ((acc : Candidates Q) → Local p res g acc)
    → (acc : Candidates Q) → Local p res (λ c. f (g c)) acc
Local-∘ p res f g hf hg acc k =
    ground
      (arith, =s_refl res, hf (g acc) k, hg acc k, hf (g no_candidates) res, hg no_candidates res)

module _ {F Q : Type 0} ⦃fl : Float64 F⦄ ⦃rs : Resource Q⦄ (p : Part) (res : Str) (hard : Q) where
  weigh-Local :
      (pol : Policy F Q) (chosen : ℤ × Str) (acc : Candidates Q)
      → Local p res (weigh pol res hard chosen) acc
  unfolding weigh lookup
  weigh-Local pol (t, why) acc k =
      let (capped, reason) = cap_step pol (rs.milli_value hard) (t, why) in
      ground (
        arith,
        propose_grow-Local p res hard (quantize F res t (rs.format hard)) why acc k,
        propose_shrink-Local p res hard (quantize F res capped (rs.format hard)) reason acc k,
      )

  evaluate-Local :
      (cal : Calendar) (input : Input F Q) (used : Q) (acc : Candidates Q)
      → Local p res (evaluate cal input res hard used) acc
  unfolding evaluate
  evaluate-Local cal input used =
      Local-∘ p res _ _ (weigh-Local input.policy _) (with_raw-Local p res _)

  judge-Local :
      (cal : Calendar) (input : Input F Q) (used : Option Q) (acc : Candidates Q)
      → Local p res (judge cal input res hard used) acc
  unfolding judge lookup
  judge-Local cal input none acc k = ground arith
  judge-Local cal input (some used) acc k = ground (arith, evaluate-Local cal input used acc k)

  consider-Local :
      (cal : Calendar) (input : Input F Q) (acc : Candidates Q)
      → Local p res (consider cal input res hard) acc
  unfolding consider lookup
  consider-Local cal input acc k =
      ground (arith, judge-Local cal input (lookup res input.used) acc k)

module _ {F Q : Type 0} ⦃fl : Float64 F⦄ ⦃rs : Resource Q⦄ (cal : Calendar)
    (input : Input F Q) where
  -- What one key with its limit comes to, with no other key in the quota.
  unfoldable pub alone : Part → Str → Option Q → Option Q
  alone p k none = none
  alone p k (some hard) = lookup k (part p (consider cal input k hard no_candidates))

  candidates_from_lem :
      (p : Part) (k : Str) (m : Map Q) (acc : Candidates Q)
      → DistinctKeys m
      → lookup k (part p (candidates_from cal input m acc))
        ≡ or_else (alone p k (lookup k m)) (lookup k (part p acc))
  unfolding candidates_from alone lookup
  candidates_from_lem p k [] acc d = refl
  candidates_from_lem p k ((res, hard) ∷ rest) acc d = ground (
    arith,
    =s_iff res k,
    candidates_from_lem p k rest (consider cal input res hard acc) d.1,
    consider-Local p res hard cal input acc k,
    lookup-Absent res rest d.0,
  )

  -- Each of the maps of targets that Decide fills holds for a key what that key comes to on its own:
  -- neither the other keys of the quota nor the order in which Go visits them matter.
  pub collected_local :
      (p : Part) (k : Str)
      → DistinctKeys input.hard
      → lookup k (part p (candidates_from cal input input.hard no_candidates))
        ≡ alone p k (lookup k input.hard)
  unfolding lookup
  collected_local p k d =
      candidates_from_lem p k input.hard no_candidates d
      ∙ or_else_empty p (alone p k (lookup k input.hard))
    where
      or_else_empty : (p : Part) (o : Option Q) → or_else o (lookup k (part p no_candidates)) ≡ o
      or_else_empty growing none = refl
      or_else_empty growing (some q) = refl
      or_else_empty shrinking none = refl
      or_else_empty shrinking (some q) = refl
      or_else_empty raw_part none = refl
      or_else_empty raw_part (some q) = refl
