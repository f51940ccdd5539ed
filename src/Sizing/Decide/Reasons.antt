-- ===== src/Sizing/Decide/Reasons.antt =====
-- What the loop of Decide (internal/sizing/decide.go) adds to the lines of the reason, key by key.
use namespace_resizer.Prelude.{
  ◌≡◌, refl, sym, ap, ◌∙◌, Option, none, some, List, [], ◌∷◌, ◌++◌, arith, append-nil, append_assoc,
}
use namespace_resizer.Prelude.Int.{ℤ}
use namespace_resizer.Text.{Str}
use namespace_resizer.GoMap.{Map, lookup}
use namespace_resizer.GoMap.Lines.{lines}
use namespace_resizer.Float.{Float64}
use namespace_resizer.Quantity.{Resource}
use namespace_resizer.Clock.{Calendar}
use namespace_resizer.Sizing.Policy.{Policy, headroom_for}
use namespace_resizer.Sizing.Quantize.{quantize}
use namespace_resizer.Sizing.Decide.Target.{Input, target_for}
use namespace_resizer.Sizing.Decide.{
  Candidates, no_candidates, propose_grow, propose_shrink, weigh, with_raw, evaluate, judge,
  consider, candidates_from, cap_step,
}

-- One of the two lists that the loop fills.
pub data Side : Type 0 where
  upward downward : Side

abbrev pub said : {Q : Type 0} → Side → Candidates Q → List Str
said upward c = c.grow_reasons
said downward c = c.shrink_reasons

-- A change of the candidates appends what it says on its own.
abbrev Says : {Q : Type 0} → Side → (Candidates Q → Candidates Q) → Candidates Q → Type 0
Says p f acc = said p (f acc) ≡ said p acc ++ said p (f no_candidates)

with_raw-said :
    {Q : Type 0} (p : Side) (res : Str) (q : Q) (acc : Candidates Q)
    → said p (with_raw res q acc) ≡ said p acc
with_raw-said upward res q acc = refl
with_raw-said downward res q acc = refl

pub no_candidates-said : (Q : Type 0) (p : Side) → said p (no_candidates {Q = Q}) ≡ []
no_candidates-said Q upward = refl
no_candidates-said Q downward = refl

module _ {Q : Type 0} ⦃rs : Resource Q⦄ (p : Side) (res : Str) (hard : Q) where
  propose_grow-Says :
      (qty : Q) (driver : Str) (acc : Candidates Q) → Says p (propose_grow res hard qty driver) acc
  unfolding propose_grow
  propose_grow-Says qty driver acc =
      ground (arith, append-nil acc.grow_reasons, append-nil acc.shrink_reasons)

  propose_shrink-Says :
      (qty : Q) (driver : Str) (acc : Candidates Q)
      → Says p (propose_shrink res hard qty driver) acc
  unfolding propose_shrink
  propose_shrink-Says qty driver acc =
      ground (arith, append-nil acc.grow_reasons, append-nil acc.shrink_reasons)

module _ {F Q : Type 0} ⦃fl : Float64 F⦄ ⦃rs : Resource Q⦄ (p : Side) (res : Str) (hard : Q) where
  weigh-Says :
      (pol : Policy F Q) (chosen : ℤ × Str) (acc : Candidates Q)
      → Says p (weigh pol res hard chosen) acc
  unfolding weigh
  weigh-Says pol (t, why) acc =
      let (capped, reason) = cap_step pol (rs.milli_value hard) (t, why) in
      ground (
        arith,
        append-nil (said p acc),
        propose_grow-Says p res hard (quantize F res t (rs.format hard)) why acc,
        propose_shrink-Says p res hard (quantize F res capped (rs.format hard)) reason acc,
      )

  evaluate-Says :
      (cal : Calendar) (input : Input F Q) (used : Q) (acc : Candidates Q)
      → Says p (evaluate cal input res hard used) acc
  unfolding evaluate
  evaluate-Says cal input used acc =
      let chosen = target_for cal input res (rs.milli_value used) (headroom_for input.policy res) in
      let q = quantize F res chosen.0 (rs.format hard) in
      rw
        (
          weigh-Says input.policy chosen (with_raw res q acc),
          weigh-Says input.policy chosen (with_raw res q no_candidates),
          with_raw-said p res q acc,
          with_raw-said p res q no_candidates,
          no_candidates-said Q p,
        )
        refl

  judge-Says :
      (cal : Calendar) (input : Input F Q) (used : Option Q) (acc : Candidates Q)
      → Says p (judge cal input res hard used) acc
  unfolding judge
  judge-Says cal input none acc = ground (arith, append-nil (said p acc))
  judge-Says cal input (some used) acc =
      ground (arith, append-nil (said p acc), evaluate-Says cal input used acc)

  consider-Says :
      (cal : Calendar) (input : Input F Q) (acc : Candidates Q)
      → Says p (consider cal input res hard) acc
  unfolding consider
  consider-Says cal input acc =
      ground (arith, append-nil (said p acc), judge-Says cal input (lookup res input.used) acc)

module _ {F Q : Type 0} ⦃fl : Float64 F⦄ ⦃rs : Resource Q⦄ (cal : Calendar) (input : Input F Q)
    (p : Side) where
  -- What a key with its limit has to say.
  abbrev pub line : Str → Q → List Str
  line k hard = said p (consider cal input k hard no_candidates)

  pub candidates_from-said :
      (m : Map Q) (acc : Candidates Q)
      → said p (candidates_from cal input m acc) ≡ said p acc ++ lines line m
  unfolding candidates_from lines
  candidates_from-said [] acc = sym (append-nil (said p acc))
  candidates_from-said ((k, hard) ∷ m) acc =
      candidates_from-said m (consider cal input k hard acc)
      ∙ ap (λ l. l ++ lines line m) (consider-Says p k hard cal input acc)
      ∙ append_assoc (said p acc) (line k hard) (lines line m)
