-- ===== src/Git/Simulated.antt =====
-- StatefulLogProvider of internal/git/log_provider.go: pull requests that exist in memory only. The
-- lock around the map makes each method one step, and what it logs is left out.
use namespace_resizer.Prelude.{
  ℕ, ◌+◌, ◌≡◌, ap, refl, true, false, ◌&&◌, Option, none, some, List, [], ◌∷◌, arith, ◌∙◌,
  if◌then◌else◌, ◌==◌,
}
use namespace_resizer.Text.{Str, codes, ◌=s◌}
use namespace_resizer.GoMap.{Map}
use namespace_resizer.Prelude.Int.{pos}
use namespace_resizer.Controller.Outside.{PrStatus, mergeable_state_clean}

-- PRDetails. CreatePR alone makes one, and never with a nil Status.
pub record PrDetails (Q : Type 0) : Type 0 where
  pub namespace : Str
  pub quota_name : Str
  pub direction : Str
  pub new_limits : Map Q
  pub status : PrStatus

abbrev pub Store : Type 0 → Type 0
Store Q = List (ℕ × PrDetails Q)

-- Open and clean: the status of a new pull request, and the answer for an unknown one.
abbrev pub open_status : PrStatus
open_status = record {
  is_open = true;
  is_merged = false;
  mergeable = true;
  mergeable_state = mergeable_state_clean;
  checks_state = [];
  checks_total_count = pos 0;
  created_at = 0;
}

abbrev pub merged : PrStatus → PrStatus
merged s = record s { is_open = false; is_merged = true }

abbrev pub closed : PrStatus → PrStatus
closed s = record s { is_open = false }

same_number : (n : ℕ) → (n == n) ≡ true
same_number n = ground arith

module _ {Q : Type 0} where
  -- p.prs[id]
  unfoldable pub details_of : ℕ → Store Q → Option (PrDetails Q)
  details_of id [] = none
  details_of id ((j, d) ∷ rest) = if j == id then some d else details_of id rest

  unfoldable pub put : ℕ → PrDetails Q → Store Q → Store Q
  put id d [] = (id, d) ∷ []
  put id d ((j, e) ∷ rest) = if j == id then (j, d) ∷ rest else (j, e) ∷ put id d rest

  unfoldable pub get_pr_status : ℕ → Store Q → PrStatus
  get_pr_status id prs = elim (details_of id prs) [ none ↦ open_status | some d ↦ d.status ]

  -- CreatePR; `draw` is what rand.Intn(1000) returned.
  unfoldable pub create_pr : ℕ → Str → Str → Str → Map Q → Store Q → ℕ × Store Q
  create_pr draw quota_name namespace direction new_limits prs =
      let id = draw + 1000 in
      (
        id,
        put id
            (record {
              namespace = namespace;
              quota_name = quota_name;
              direction = direction;
              new_limits = new_limits;
              status = open_status;
            })
            prs,
      )

  -- FindOpenPR, over the entries in the order of some iteration.
  unfoldable pub find_open : Str → Str → Store Q → ℕ × Str
  find_open namespace quota_name [] = (0, [])
  find_open namespace quota_name ((id, d) ∷ rest) =
      let later = find_open namespace quota_name rest in
      if (d.namespace =s namespace) && ((d.quota_name =s quota_name) && d.status.is_open)
      then (id, d.direction)
      else later

  -- The entries, with one changed where it stands.
  unfoldable pub change : ℕ → (PrStatus → PrStatus) → Store Q → Store Q
  change id f [] = []
  change id f ((j, d) ∷ rest) =
      if j == id then (j, record d { status = f d.status }) ∷ rest else (j, d) ∷ change id f rest

  unfoldable pub merge_pr : ℕ → Store Q → Store Q
  merge_pr id prs = change id merged prs

  unfoldable pub close_pr : ℕ → Store Q → Store Q
  close_pr id prs = change id closed prs

  -- The details with a changed status, if there are any.
  abbrev revised : (PrStatus → PrStatus) → Option (PrDetails Q) → Option (PrDetails Q)
  revised f none = none
  revised f (some d) = some (record d { status = f d.status })

  details_of-change :
      (f : PrStatus → PrStatus) (id j : ℕ) (prs : Store Q)
      → details_of j (change id f prs)
        ≡ (if id == j then revised f (details_of j prs) else details_of j prs)
  unfolding details_of change
  details_of-change f id j [] = ground arith
  details_of-change f id j ((i, d) ∷ rest) = ground (arith, details_of-change f id j rest)

  details_of-put :
      (id j : ℕ) (d : PrDetails Q) (prs : Store Q)
      → details_of j (put id d prs) ≡ (if id == j then some d else details_of j prs)
  unfolding details_of put
  details_of-put id j d [] = ground arith
  details_of-put id j d ((i, e) ∷ rest) = ground (arith, details_of-put id j d rest)

  status_found :
      (id : ℕ) (prs : Store Q) (d : PrDetails Q)
      → details_of id prs ≡ some d
      → get_pr_status id prs ≡ d.status
  unfolding get_pr_status
  status_found id prs d e =
      ap (λ (o : Option (PrDetails Q)). elim o [ none ↦ open_status | some d ↦ d.status ]) e

  -- A simulated pull request is open, mergeable and clean from its creation on, merged and no longer
  -- open once it was merged, and neither merged nor open once it was closed; none of the three changes
  -- another one.
  pub simulated_life :
      (draw : ℕ) (quota_name namespace direction : Str) (limits : Map Q) (prs : Store Q) (j : ℕ)
      → ((draw + 1000) == j) ≡ false
      → let (id, made) = create_pr draw quota_name namespace direction limits prs in
        ((get_pr_status id made).is_open ≡ true)
        × ((get_pr_status id made).is_merged ≡ false)
        × ((get_pr_status id made).mergeable ≡ true)
        × ((get_pr_status id made).mergeable_state ≡ codes "clean")
        × ((get_pr_status id (merge_pr id made)).is_open ≡ false)
        × ((get_pr_status id (merge_pr id made)).is_merged ≡ true)
        × ((get_pr_status id (close_pr id made)).is_open ≡ false)
        × ((get_pr_status id (close_pr id made)).is_merged ≡ false)
        × (details_of j made ≡ details_of j prs)
        × (details_of j (merge_pr id made) ≡ details_of j prs)
        × (details_of j (close_pr id made) ≡ details_of j prs)
  unfolding create_pr get_pr_status merge_pr close_pr
  simulated_life draw quota_name namespace direction limits prs j h =
      let id = draw + 1000 in
      let d : PrDetails Q = record {
        namespace = namespace;
        quota_name = quota_name;
        direction = direction;
        new_limits = limits;
        status = open_status;
      } in
      let made = put id d prs in
      let here : details_of id made ≡ some d =
        details_of-put id id d prs ∙ rw (same_number id) refl in
      let there : details_of j made ≡ details_of j prs = details_of-put id j d prs ∙ rw h refl in
      let changed : (f : PrStatus → PrStatus)
          → details_of id (change id f made) ≡ some (record d { status = f d.status }) =
        λ f. details_of-change f id id made ∙ rw (same_number id, here) refl in
      let opened = status_found id made d here in
      let ended = status_found id (merge_pr id made) _ (changed merged) in
      let shut = status_found id (close_pr id made) _ (changed closed) in
      (
        ap (λ t. t.is_open) opened,
        ap (λ t. t.is_merged) opened,
        ap (λ t. t.mergeable) opened,
        ap (λ t. t.mergeable_state) opened,
        ap (λ t. t.is_open) ended,
        ap (λ t. t.is_merged) ended,
        ap (λ t. t.is_open) shut,
        ap (λ t. t.is_merged) shut,
        there,
        details_of-change merged id j made ∙ rw h there,
        details_of-change closed id j made ∙ rw h there,
      )
