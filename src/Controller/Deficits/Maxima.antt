-- ===== src/Controller/Deficits/Maxima.antt =====
-- The maxima that collectDeficits keeps for each resource and workload
-- (internal/controller/resourcequota_controller.go).
use namespace_resizer.Prelude.{
  ◌≡◌, refl, ap, ◌∙◌, true, false, [], ◌∷◌, All, arith, Bool-cases, inl, inr, if◌then◌else◌,
}
use namespace_resizer.Prelude.Int.{ℤ, ltb_ℤ}
use namespace_resizer.Text.{Str, ◌=s◌}
use namespace_resizer.Text.Equality.{eq_of_=s, =s_refl}
use namespace_resizer.GoMap.{Map, insert, has}
use namespace_resizer.GoMap.Laws.{lookup-insert}
use namespace_resizer.Sizing.Deficit.{amount_at}
use namespace_resizer.Sizing.Deficit.Sums.{amount_at-insert}
use namespace_resizer.Controller.Deficits.{
  PerWorkload, workloads_of, open_resource, raise_value, record_value, record_all,
}

-- A value that the maxima already cover.
abbrev pub Held : Str → Str → ℤ → PerWorkload → Type 0
Held key res value per =
    (has res per ≡ true) × (ltb_ℤ (amount_at key (workloads_of res per)) value ≡ false)

abbrev pub AllHeld : Str → Map ℤ → PerWorkload → Type 0
AllHeld key deficits per = All (λ d. Held key d.0 d.1 per) deficits

has-insert :
    (j r : Str) (m : Map ℤ) (per : PerWorkload)
    → has r (insert j m per) ≡ (if j =s r then true else has r per)
unfolding has
has-insert j r m per = ground (arith, lookup-insert j r m per)

workloads_of-insert :
    (j r : Str) (m : Map ℤ) (per : PerWorkload)
    → workloads_of r (insert j m per) ≡ (if j =s r then m else workloads_of r per)
unfolding workloads_of
workloads_of-insert j r m per = ground (arith, lookup-insert j r m per)

workloads_of-absent : (r : Str) (per : PerWorkload) → has r per ≡ false → workloads_of r per ≡ []
unfolding has workloads_of
workloads_of-absent r per h = ground arith

-- Opening a resource changes no maximum.
open_resource-workloads :
    (res r : Str) (per : PerWorkload) → workloads_of r (open_resource res per) ≡ workloads_of r per
unfolding open_resource
open_resource-workloads res r per = elim (Bool-cases (has res per)) [
  | inl there ↦ rw there refl
  | inr new ↦ rw new (
      ground
        (arith, workloads_of-insert res r [] per, workloads_of-absent res per new, eq_of_=s res r))
]

has-open_resource :
    (res r : Str) (per : PerWorkload)
    → has r (open_resource res per) ≡ (if res =s r then true else has r per)
unfolding open_resource
has-open_resource res r per = elim (Bool-cases (has res per)) [
  | inl there ↦ rw there (ground (arith, eq_of_=s res r, there))
  | inr new ↦ rw new (has-insert res r [] per)
]

-- No later record lowers a maximum.
raise_value-Held :
    (k r : Str) (x : ℤ) (key res : Str) (v : ℤ) (per : PerWorkload)
    → Held k r x per
    → Held k r x (raise_value key res v per)
unfolding raise_value
raise_value-Held k r x key res v per h =
    elim (Bool-cases (ltb_ℤ (amount_at key (workloads_of res per)) v)) [
      | inr enough ↦ rw enough h
      | inl more ↦
          let raised = insert key v (workloads_of res per) in
          rw more (
            ground (
              arith,
              has-insert res r raised per,
              workloads_of-insert res r raised per,
              amount_at-insert key k v (workloads_of res per),
              eq_of_=s res r,
              eq_of_=s key k,
              more,
            ))
    ]

open_resource-Held :
    (k r : Str) (x : ℤ) (res : Str) (per : PerWorkload)
    → Held k r x per
    → Held k r x (open_resource res per)
open_resource-Held k r x res per h =
    (has-open_resource res r per ∙ ground (arith, h.0), rw (open_resource-workloads res r per) h.1)

pub record_value-Held :
    (k r : Str) (x : ℤ) (key res : Str) (v : ℤ) (per : PerWorkload)
    → Held k r x per
    → Held k r x (record_value key res v per)
unfolding record_value
record_value-Held k r x key res v per h =
    raise_value-Held k r x key res v (open_resource res per) (open_resource-Held k r x res per h)

raise_value_holds :
    (key res : Str) (v : ℤ) (per : PerWorkload)
    → has res per ≡ true
    → Held key res v (raise_value key res v per)
unfolding raise_value
raise_value_holds key res v per h =
    elim (Bool-cases (ltb_ℤ (amount_at key (workloads_of res per)) v)) [
      | inr enough ↦ rw enough (h, enough)
      | inl more ↦
          let raised = insert key v (workloads_of res per) in
          rw more (
            ground (
              arith,
              has-insert res res raised per,
              workloads_of-insert res res raised per,
              amount_at-insert key key v (workloads_of res per),
              =s_refl res,
              =s_refl key,
            ))
    ]

pub record_value_holds :
    (key res : Str) (v : ℤ) (per : PerWorkload) → Held key res v (record_value key res v per)
unfolding record_value
record_value_holds key res v per =
    raise_value_holds key res v (open_resource res per)
      (has-open_resource res res per ∙ rw (=s_refl res) refl)

pub record_value_again :
    (key res : Str) (v : ℤ) (per : PerWorkload)
    → Held key res v per
    → record_value key res v per ≡ per
unfolding record_value open_resource raise_value
record_value_again key res v per h = rw (h.0, h.1) refl

-- The same for all entries of the deficits of an event.
record_all-Held :
    (k r : Str) (x : ℤ) (key : Str) (d : Map ℤ) (per : PerWorkload)
    → Held k r x per
    → Held k r x (record_all key d per)
unfolding record_all
record_all-Held k r x key [] per h = h
record_all-Held k r x key ((res, v) ∷ rest) per h =
    record_all-Held k r x key rest (record_value key res v per)
      (record_value-Held k r x key res v per h)

pub record_all-AllHeld :
    (k : Str) (held : Map ℤ) (key : Str) (d : Map ℤ) (per : PerWorkload)
    → AllHeld k held per
    → AllHeld k held (record_all key d per)
record_all-AllHeld k [] key d per h = tt
record_all-AllHeld k ((r, x) ∷ held) key d per h =
    (record_all-Held k r x key d per h.0, record_all-AllHeld k held key d per h.1)

pub record_all_holds :
    (key : Str) (d : Map ℤ) (per : PerWorkload) → AllHeld key d (record_all key d per)
unfolding record_all
record_all_holds key [] per = tt
record_all_holds key ((res, v) ∷ rest) per = (
  record_all-Held key res v key rest (record_value key res v per)
      (record_value_holds key res v per),
  record_all_holds key rest (record_value key res v per),
)

pub record_all_again :
    (key : Str) (d : Map ℤ) (per : PerWorkload) → AllHeld key d per → record_all key d per ≡ per
unfolding record_all
record_all_again key [] per h = refl
record_all_again key ((res, v) ∷ rest) per h =
    ap (record_all key rest) (record_value_again key res v per h.0)
    ∙ record_all_again key rest per h.1
