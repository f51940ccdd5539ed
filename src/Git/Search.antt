-- ===== src/Git/Search.antt =====
-- What FindOpenPR finds (internal/git/github.go): an independent description of the search, and
-- that pagination does not change its answer.
use namespace_resizer.Prelude.{
  ℕ, zero, suc, ◌≤◌, ◌==◌, ◌≡◌, refl, sym, ap, ◌∙◌, Bool, false, Option, none, some, List, [], ◌∷◌,
  ◌++◌, arith, length, append-nil, if◌then◌else◌,
}
use namespace_resizer.Text.{Str, has_prefix}
use namespace_resizer.Git.{
  PullRequest, Page, Scan, found, legacy, Found, answer, direction_grow, direction_shrink,
  new_prefix, legacy_prefix, direction_from_labels, keep_legacy, scan_page, after_page, find_from,
  find_open_pr,
}

-- The direction that the branch of a pull request tells, if it is one of this quota's.
pub own_direction : Str → Str → PullRequest → Option Str
own_direction ns quota pr = elim pr.head [
  | none ↦ none
  | some ref ↦
      if has_prefix ref (new_prefix direction_grow ns quota)
      then some direction_grow
      else if has_prefix ref (new_prefix direction_shrink ns quota)
      then some direction_shrink
      else none
]

pub is_legacy : Str → Str → PullRequest → Bool
is_legacy ns quota pr = elim pr.head [
  | none ↦ false
  | some ref ↦ has_prefix ref (legacy_prefix ns quota)
]

-- The first pull request in the list whose branch is in this quota's new shape.
pub first_own : Str → Str → List PullRequest → Option (ℕ × Str)
first_own ns quota [] = none
first_own ns quota (pr ∷ rest) = elim (own_direction ns quota pr) [
  | some d ↦ some (pr.number, d)
  | none ↦ first_own ns quota rest
]

-- The first one in the old shape.
pub first_legacy : Str → Str → List PullRequest → ℕ × Str
first_legacy ns quota [] = (0, [])
first_legacy ns quota (pr ∷ rest) =
    let later = first_legacy ns quota rest in
    if is_legacy ns quota pr
    then (if pr.number == 0 then later else (pr.number, direction_from_labels pr.labels))
    else later

-- What the two loops come to when they are through.
abbrev pub finish : Scan → Found
finish (found id d) = answer id d
finish (legacy id d) = if id == 0 then answer 0 [] else answer id d

abbrev pub Own_or : Option (ℕ × Str) → Found → Found
Own_or (some (n, d)) other = answer n d
Own_or none other = other

abbrev pub answer_pair : ℕ × Str → Found
answer_pair (n, d) = if n == 0 then answer 0 [] else answer n d

-- The search, written as a specification.
pub best : Str → Str → List PullRequest → ℕ × Str → Found
best ns quota prs kept =
    Own_or (first_own ns quota prs)
      (if kept.0 == 0 then answer_pair (first_legacy ns quota prs) else answer_pair kept)

scan_page_lem :
    (ns quota : Str) (prs : List PullRequest) (id : ℕ) (d : Str)
    → finish (scan_page ns quota prs (id, d)) ≡ best ns quota prs (id, d)
unfolding scan_page best first_own first_legacy own_direction is_legacy keep_legacy
scan_page_lem ns quota [] id d = ground arith
scan_page_lem ns quota (pr ∷ rest) id d = ground (
  arith,
  scan_page_lem ns quota rest id d,
  scan_page_lem ns quota rest pr.number (direction_from_labels pr.labels),
)

-- The client answers with these pages from page `at` on, each naming the next and the last none.
abbrev pub Serves : (ℕ → Option Page) → ℕ → List (List PullRequest) → Type 0
Serves list at [] = ⊥
Serves list at (p ∷ []) = list at ≡ some (record { prs = p; next_page = 0 })
Serves list at (p ∷ q ∷ ps) =
    (next : ℕ) × (list at ≡ some (record { prs = p; next_page = suc next }))
    × Serves list (suc next) (q ∷ ps)

abbrev pub all_pages : List (List PullRequest) → List PullRequest
all_pages [] = []
all_pages (p ∷ ps) = p ++ all_pages ps

-- Going on with the rest of a list from where the front left off.
resume : Str → Str → List PullRequest → Scan → Scan
resume ns quota rest (found id d) = found id d
resume ns quota rest (legacy id d) = scan_page ns quota rest (id, d)

scan_page-append :
    (ns quota : Str) (xs ys : List PullRequest) (id : ℕ) (d : Str)
    → scan_page ns quota (xs ++ ys) (id, d) ≡ resume ns quota ys (scan_page ns quota xs (id, d))
unfolding scan_page resume keep_legacy
scan_page-append ns quota [] ys id d = refl
scan_page-append ns quota (pr ∷ xs) ys id d = ground (
  arith,
  scan_page-append ns quota xs ys id d,
  scan_page-append ns quota xs ys pr.number (direction_from_labels pr.labels),
)

find_from_step :
    (rounds : ℕ) (list : ℕ → Option Page) (ns quota : Str) (at : ℕ) (kept : ℕ × Str) (p : Page)
    → list at ≡ some p
    → find_from (suc rounds) list ns quota at kept
      ≡ after_page
          (scan_page ns quota p.prs kept)
          p.next_page
          (λ next kept'. find_from rounds list ns quota next kept')
unfolding find_from
find_from_step rounds list ns quota at kept p v = rw (v, find_from)

after_last : (s : Scan) (go : ℕ → ℕ × Str → Found) → after_page s 0 go ≡ finish s
after_last (found id d) go = refl
after_last (legacy id d) go = refl

after_more :
    (ns quota : Str) (rest : List PullRequest) (s : Scan) (next : ℕ) (go : ℕ → ℕ × Str → Found)
    → ((id : ℕ) (d : Str) → go (suc next) (id, d) ≡ finish (scan_page ns quota rest (id, d)))
    → after_page s (suc next) go ≡ finish (resume ns quota rest s)
unfolding resume
after_more ns quota rest (found id d) next go h = refl
after_more ns quota rest (legacy id d) next go h = ground (arith, h id d)

-- With pages that end, and as many rounds as pages, the search returns, and its answer is that of
-- one scan of all pages.
find_from_lem :
    (ps : List (List PullRequest)) (rounds : ℕ) (list : ℕ → Option Page) (ns quota : Str)
    (at id : ℕ) (d : Str)
    → Serves list at ps
    → length ps ≤ rounds
    → find_from rounds list ns quota at (id, d) ≡ finish (scan_page ns quota (all_pages ps) (id, d))
find_from_lem [] rounds list ns quota at id d v h = absurd v
find_from_lem (p ∷ ps) zero list ns quota at id d v h = elim h [ ]
find_from_lem (p ∷ []) (suc rounds) list ns quota at id d v h =
    find_from_step rounds list ns quota at (id, d) _ v
    ∙ after_last (scan_page ns quota p (id, d)) _
    ∙ rw append-nil
find_from_lem (p ∷ q ∷ ps) (suc rounds) list ns quota at id d (next, v, w) h =
    find_from_step rounds list ns quota at (id, d) _ v
    ∙ after_more ns quota (all_pages (q ∷ ps)) (scan_page ns quota p (id, d)) next _
        (λ i e. find_from_lem (q ∷ ps) rounds list ns quota (suc next) i e w (omega arith))
    ∙ ap finish (sym (scan_page-append ns quota p (all_pages (q ∷ ps)) id d))

-- FindOpenPR returns, given as many rounds as the client has pages: its answer is the first pull
-- request on any page whose branch is in this quota's new shape; only where there is none, the first
-- one in the old shape with a number; and 0 with an empty direction where there is neither.
pub find_open_pr_lem :
    (ps : List (List PullRequest)) (rounds : ℕ) (list : ℕ → Option Page) (ns quota : Str)
    → Serves list 0 ps
    → length ps ≤ rounds
    → find_open_pr rounds list ns quota
      ≡ Own_or
          (first_own ns quota (all_pages ps))
          (answer_pair (first_legacy ns quota (all_pages ps)))
unfolding find_open_pr best
find_open_pr_lem ps rounds list ns quota v h =
    find_from_lem ps rounds list ns quota 0 0 [] v h ∙ scan_page_lem ns quota (all_pages ps) 0 []
