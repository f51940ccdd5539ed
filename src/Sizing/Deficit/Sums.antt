-- ===== src/Sizing/Deficit/Sums.antt =====
-- The sums that PodRequests of internal/sizing/deficit.go makes, against exact sums.
use namespace_resizer.Prelude.{
  ◌≡◌, refl, sym, ap, ◌∙◌, Bool, true, false, Option, none, some, List, [], ◌∷◌, arith, Bool-cases,
  inl, inr, if◌then◌else◌,
}
use namespace_resizer.Prelude.Int.{ℤ, pos, ◌+ℤ◌, ltb_ℤ, wrap64, int_laws}
use namespace_resizer.Prelude.Wrap.{wrap64-wrap64_add, wrap64-wrap64}
use namespace_resizer.Text.{Str, ◌=s◌}
use namespace_resizer.Text.Equality.{eq_of_=s}
use namespace_resizer.GoMap.{Map, lookup, insert}
use namespace_resizer.GoMap.Laws.{lookup-insert}
use namespace_resizer.Quantity.{Resource}
use namespace_resizer.Sizing.Deficit.{
  Container, quota_key, amount_at, add_to, add_resources, add_containers,
}

pub amount_at-insert :
    (j k : Str) (v : ℤ) (m : Map ℤ)
    → amount_at k (insert j v m) ≡ (if j =s k then v else amount_at k m)
unfolding amount_at
amount_at-insert j k v m = ground (arith, lookup-insert j k v m)

amount_at-add_to :
    (j k : Str) (v : ℤ) (m : Map ℤ)
    → amount_at k (add_to j v m) ≡ (if j =s k then wrap64 (amount_at k m +ℤ v) else amount_at k m)
unfolding add_to
amount_at-add_to j k v m = elim (Bool-cases (j =s k)) [
  | inl same ↦
      amount_at-insert j k _ m ∙ rw same (ap (λ s. wrap64 (amount_at s m +ℤ v)) (eq_of_=s j k same))
  | inr differs ↦ amount_at-insert j k _ m ∙ rw differs refl
]

-- The larger of two, and with a value that may be missing.
abbrev pub max_ℤ : ℤ → ℤ → ℤ
max_ℤ a b = if ltb_ℤ a b then b else a

abbrev pub at_least : Option ℤ → ℤ → ℤ
at_least none a = a
at_least (some v) a = max_ℤ a v

module _ {Q : Type 0} ⦃rs : Resource Q⦄ where
  -- The exact sum of what a list asks for under a key of the quota.
  abbrev pub asked_sum : Bool → Str → Map Q → ℤ
  asked_sum is_limit k [] = pos 0
  asked_sum is_limit k ((name, qty) ∷ rest) =
      (if quota_key is_limit name =s k then rs.milli_value qty else pos 0)
      +ℤ asked_sum is_limit k rest

  -- The same over the requests and the limits of the containers.
  abbrev pub total : Str → List (Container Q) → ℤ
  total k [] = pos 0
  total k (c ∷ rest) = asked_sum false k c.requests +ℤ asked_sum true k c.limits +ℤ total k rest

  -- The last value of a list for a key, or else `before`.
  abbrev pub last_asked : Bool → Str → Map Q → Option ℤ → Option ℤ
  last_asked is_limit k [] before = before
  last_asked is_limit k ((name, qty) ∷ rest) before =
      last_asked is_limit k rest
        (if quota_key is_limit name =s k then some (rs.milli_value qty) else before)

  -- What an init container asks for.
  abbrev pub init_asked : Str → Container Q → Option ℤ
  init_asked k c = last_asked true k c.limits (last_asked false k c.requests none)

  abbrev pub at_least_inits : Str → List (Container Q) → ℤ → ℤ
  at_least_inits k [] a = a
  at_least_inits k (c ∷ rest) a = at_least_inits k rest (at_least (init_asked k c) a)

pub add_zero : (a : ℤ) → a +ℤ pos 0 ≡ a
add_zero a = omega int_laws

add_assoc : (a b c : ℤ) → (a +ℤ b) +ℤ c ≡ a +ℤ (b +ℤ c)
add_assoc a b c = omega int_laws

pub zero_add : (a : ℤ) → pos 0 +ℤ a ≡ a
zero_add a = omega int_laws

-- One addition, and what is added later.
add_step :
    (j k : Str) (v later : ℤ) (m : Map ℤ)
    → wrap64 (amount_at k (add_to j v m) +ℤ later)
      ≡ wrap64 (amount_at k m +ℤ ((if j =s k then v else pos 0) +ℤ later))
add_step j k v later m = elim (Bool-cases (j =s k)) [
  | inl same ↦
      ap (λ a. wrap64 (a +ℤ later)) (amount_at-add_to j k v m)
      ∙ rw same (
          wrap64-wrap64_add (amount_at k m +ℤ v) later
          ∙ ap wrap64 (add_assoc (amount_at k m) v later))
  | inr differs ↦
      ap (λ a. wrap64 (a +ℤ later)) (amount_at-add_to j k v m)
      ∙ rw differs (ap (λ r. wrap64 (amount_at k m +ℤ r)) (sym (zero_add later)))
]

-- Values that an int64 holds stay such.
add_to_wrapped :
    (j k : Str) (v : ℤ) (m : Map ℤ)
    → wrap64 (amount_at k m) ≡ amount_at k m
    → wrap64 (amount_at k (add_to j v m)) ≡ amount_at k (add_to j v m)
add_to_wrapped j k v m h = elim (Bool-cases (j =s k)) [
  | inl same ↦ rw (amount_at-add_to j k v m, same) (wrap64-wrap64 (amount_at k m +ℤ v))
  | inr differs ↦ rw (amount_at-add_to j k v m, differs) h
]

module _ {Q : Type 0} ⦃rs : Resource Q⦄ where
  add_resources_lem :
      (l : Bool) (k : Str) (list : Map Q) (later : ℤ) (reqs : Map ℤ)
      → wrap64 (amount_at k (add_resources l list reqs) +ℤ later)
        ≡ wrap64 (amount_at k reqs +ℤ (asked_sum l k list +ℤ later))
  unfolding add_resources
  add_resources_lem l k [] later reqs =
      ap (λ r. wrap64 (amount_at k reqs +ℤ r)) (sym (zero_add later))
  add_resources_lem l k ((name, qty) ∷ rest) later reqs =
      let v = rs.milli_value qty in
      let here : ℤ = if quota_key l name =s k then v else pos 0 in
      add_resources_lem l k rest later (add_to (quota_key l name) v reqs)
      ∙ add_step (quota_key l name) k v (asked_sum l k rest +ℤ later) reqs
      ∙ ap (λ r. wrap64 (amount_at k reqs +ℤ r)) (sym (add_assoc here (asked_sum l k rest) later))

  add_resources_wrapped :
      (l : Bool) (k : Str) (list : Map Q) (reqs : Map ℤ)
      → wrap64 (amount_at k reqs) ≡ amount_at k reqs
      → wrap64 (amount_at k (add_resources l list reqs)) ≡ amount_at k (add_resources l list reqs)
  unfolding add_resources
  add_resources_wrapped l k [] reqs h = h
  add_resources_wrapped l k ((name, qty) ∷ rest) reqs h =
      let v = rs.milli_value qty in
      add_resources_wrapped l k rest (add_to (quota_key l name) v reqs)
        (add_to_wrapped (quota_key l name) k v reqs h)

  add_containers_lem :
      (k : Str) (cs : List (Container Q)) (reqs : Map ℤ)
      → wrap64 (amount_at k (add_containers cs reqs)) ≡ wrap64 (amount_at k reqs +ℤ total k cs)
  unfolding add_containers
  add_containers_lem k [] reqs = ap wrap64 (sym (add_zero (amount_at k reqs)))
  add_containers_lem k (c ∷ rest) reqs =
      let requested = add_resources false c.requests reqs in
      let low = asked_sum false k c.requests in
      let high = asked_sum true k c.limits in
      add_containers_lem k rest (add_resources true c.limits requested)
      ∙ add_resources_lem true k c.limits (total k rest) requested
      ∙ add_resources_lem false k c.requests (high +ℤ total k rest) reqs
      ∙ ap (λ r. wrap64 (amount_at k reqs +ℤ r)) (sym (add_assoc low high (total k rest)))

  add_containers_wrapped :
      (k : Str) (cs : List (Container Q)) (reqs : Map ℤ)
      → wrap64 (amount_at k reqs) ≡ amount_at k reqs
      → wrap64 (amount_at k (add_containers cs reqs)) ≡ amount_at k (add_containers cs reqs)
  unfolding add_containers
  add_containers_wrapped k [] reqs h = h
  add_containers_wrapped k (c ∷ rest) reqs h =
      add_containers_wrapped k rest
        (add_resources true c.limits (add_resources false c.requests reqs))
        (add_resources_wrapped true k c.limits (add_resources false c.requests reqs)
          (add_resources_wrapped false k c.requests reqs h))

  -- From no request at all.
  pub containers_lem :
      (k : Str) (cs : List (Container Q)) → amount_at k (add_containers cs []) ≡ wrap64 (total k cs)
  unfolding amount_at lookup wrap64
  containers_lem k cs =
      sym (add_containers_wrapped k cs [] refl)
      ∙ add_containers_lem k cs []
      ∙ ap wrap64 (zero_add (total k cs))
