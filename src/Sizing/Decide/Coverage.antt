-- ===== src/Sizing/Decide/Coverage.antt =====
-- What a target of targetFor covers (internal/sizing/decide.go).
use namespace_resizer.Prelude.{
  ℕ, ◌≤◌, ◌≡◌, subst, true, Option, none, some, arith, Option-cases, Bool-cases, inl, inr,
  if◌then◌else◌,
}
use namespace_resizer.Prelude.Int.{ℤ, pos, ltb_ℤ, wrap64, ◌+ℤ◌, ◌≤ℤ◌, two63}
use namespace_resizer.Text.{Str, codes}
use namespace_resizer.GoMap.{lookup}
use namespace_resizer.Float.{Float64, IsFloat64, of_ℕ, exact_limit}
use namespace_resizer.Quantity.{Resource}
use namespace_resizer.Clock.{Calendar}
use namespace_resizer.Sizing.Policy.{min_for}
use namespace_resizer.Sizing.Window.History.{peak}
use namespace_resizer.Sizing.Decide.Target.{
  Input, with_headroom, raise_to, raise_to_need, raise_to_min, raise_to_peak, demand, target_for,
}

pub ≤ℤ_trans : (a b c : ℤ) → a ≤ℤ b → b ≤ℤ c → a ≤ℤ c
≤ℤ_trans a b c h k = omega arith

raise_to_keeps : (c : ℤ) (why : Str) (acc : ℤ × Str) → acc.0 ≤ℤ (raise_to c why acc).0
unfolding raise_to
raise_to_keeps c why (v, d) = ground arith

raise_to_reaches : (c : ℤ) (why : Str) (acc : ℤ × Str) → c ≤ℤ (raise_to c why acc).0
unfolding raise_to
raise_to_reaches c why (v, d) = ground arith

-- The bound, if there is one.
abbrev pub AtLeast : Option ℤ → ℤ → Type 0
AtLeast none t = Unit
AtLeast (some v) t = v ≤ℤ t

pub AtLeast-mono : (o : Option ℤ) (a b : ℤ) → a ≤ℤ b → AtLeast o a → AtLeast o b
AtLeast-mono none a b h k = tt
AtLeast-mono (some v) a b h k = omega arith

-- The configured minimum of a key, in milli-units.
pub minimum : {F Q : Type 0} ⦃rs : Resource Q⦄ → Input F Q → Str → Option ℤ
minimum ⦃rs⦄ input res = elim (min_for input.policy res) [
  | none ↦ none
  | some q ↦ some (rs.milli_value q)
]

-- The highest value that the window remembers.
pub remembered : {F Q : Type 0} ⦃rs : Resource Q⦄ → Calendar → Input F Q → Str → Option ℤ
remembered {Q = Q} cal input res =
    let (p, found) = peak Q cal res input.now input.policy.window_days input.window in
    if found then some p else none

-- The usage together with a pending shortage.
pub needed : {F Q : Type 0} → Input F Q → Str → ℤ → Option ℤ
needed input res used = elim (lookup res input.deficits) [
  | none ↦ none
  | some d ↦ if ltb_ℤ (pos 0) d then some (wrap64 (used +ℤ d)) else none
]

module _ {F Q : Type 0} ⦃rs : Resource Q⦄ (cal : Calendar) (input : Input F Q) (res : Str)
    (acc : ℤ × Str) where
  raise_to_min_lem :
      (acc.0 ≤ℤ (raise_to_min input res acc).0)
      × AtLeast (minimum input res) (raise_to_min input res acc).0
  unfolding raise_to_min minimum
  raise_to_min_lem = elim (Option-cases (min_for input.policy res)) [
    | inl e ↦ rw (e, raise_to_min, minimum) (omega arith, tt)
    | inr (q, e) ↦ rw (e, raise_to_min, minimum) (raise_to_keeps _ _ acc, raise_to_reaches _ _ acc)
  ]

  raise_to_peak_lem :
      (acc.0 ≤ℤ (raise_to_peak cal input res acc).0)
      × AtLeast (remembered cal input res) (raise_to_peak cal input res acc).0
  unfolding raise_to_peak remembered
  raise_to_peak_lem =
      elim (Bool-cases (peak Q cal res input.now input.policy.window_days input.window).1) [
        | inl e ↦
            rw (e, raise_to_peak, remembered) (raise_to_keeps _ _ acc, raise_to_reaches _ _ acc)
        | inr e ↦ rw (e, raise_to_peak, remembered) (omega arith, tt)
      ]

module _ {F Q : Type 0} (input : Input F Q) (res : Str) (used : ℤ) (acc : ℤ × Str) where
  raise_to_need_lem :
      (acc.0 ≤ℤ (raise_to_need input res used acc).0)
      × AtLeast (needed input res used) (raise_to_need input res used acc).0
  unfolding raise_to_need needed
  raise_to_need_lem = elim (Option-cases (lookup res input.deficits)) [
    | inl e ↦ rw (e, raise_to_need, needed) (omega arith, tt)
    | inr (d, e) ↦
        rw (e, raise_to_need, needed)
          (elim (Bool-cases (ltb_ℤ (pos 0) d)) [
            | inl h ↦ rw h (raise_to_keeps _ _ acc, raise_to_reaches _ _ acc)
            | inr h ↦ rw h (omega arith, tt)
          ])
  ]

-- The headroom never takes away, within the range that float64 counts exactly.
with_headroom_keeps :
    {F : Type 0} ⦃fl : Float64 F⦄ (laws : IsFloat64 F) (h : F) (m : ℕ)
    → fl.le (of_ℕ 0) h ≡ true
    → m ≤ exact_limit
    → fl.lt (fl.mul (of_ℕ m) (fl.add (of_ℕ 1) h)) (of_ℕ two63) ≡ true
    → pos m ≤ℤ with_headroom h (pos m)
unfolding with_headroom
with_headroom_keeps laws h m p b q =
    laws.le-to_int m _ b (laws.le-mul m _ b (laws.one-le-add h p) q) q

-- The demand that the headroom is put on covers usage, memory and shortage.
demand_lem :
    {F Q : Type 0} ⦃rs : Resource Q⦄ (cal : Calendar) (input : Input F Q) (res : Str) (used : ℤ)
    → let d = (demand cal input res used).0 in
      (used ≤ℤ d) × AtLeast (remembered cal input res) d × AtLeast (needed input res used) d
unfolding demand
demand_lem cal input res used =
    let (a, b) = raise_to_peak_lem cal input res (used, codes "current usage") in
    let (c, e) =
      raise_to_need_lem input res used
        (raise_to_peak cal input res (used, codes "current usage")) in
    (≤ℤ_trans used _ _ a c, AtLeast-mono (remembered cal input res) _ _ c b, e)

-- The target of a key is not below its usage, its peak in the window, its usage together with a
-- pending shortage, or its configured minimum, whichever of these there are; for a headroom that is
-- not negative, and a demand that float64 counts exactly and that stays inside int64 with the
-- headroom on it.
pub target_for_covers :
    {F Q : Type 0} ⦃fl : Float64 F⦄ ⦃rs : Resource Q⦄ (laws : IsFloat64 F) (cal : Calendar)
    (input : Input F Q) (res : Str) (used : ℤ) (headroom : F) (d : ℕ)
    → (demand cal input res used).0 ≡ pos d
    → d ≤ exact_limit
    → fl.le (of_ℕ 0) headroom ≡ true
    → fl.lt (fl.mul (of_ℕ d) (fl.add (of_ℕ 1) headroom)) (of_ℕ two63) ≡ true
    → let target = (target_for cal input res used headroom).0 in
      (used ≤ℤ target)
      × AtLeast (remembered cal input res) target
      × AtLeast (needed input res used) target
      × AtLeast (minimum input res) target
unfolding target_for
target_for_covers laws cal input res used headroom d e b p q =
    let w = demand cal input res used in
    let base : ℤ × Str = (with_headroom headroom w.0, w.1) in
    let floor = raise_to (with_headroom headroom used) (codes "current usage floor") base in
    let target = (raise_to_min input res floor).0 in
    let grown : pos d ≤ℤ base.0 = rw e (with_headroom_keeps laws headroom d p b q) in
    let lifted = raise_to_keeps (with_headroom headroom used) (codes "current usage floor") base in
    let (kept, least) = raise_to_min_lem cal input res floor in
    let (x, y, z) = demand_lem cal input res used in
    let whole : pos d ≤ℤ target =
      ≤ℤ_trans (pos d) base.0 target grown (≤ℤ_trans base.0 floor.0 target lifted kept) in
    (
      ≤ℤ_trans used (pos d) target (subst (λ t. used ≤ℤ t) e x) whole,
      AtLeast-mono (remembered cal input res) (pos d) target whole
          (subst (AtLeast (remembered cal input res)) e y),
      AtLeast-mono (needed input res used) (pos d) target whole
          (subst (AtLeast (needed input res used)) e z),
      least,
    )
