-- ===== src/Git.antt =====
-- internal/git/github.go: pull request directions, branch names and what GitHub lists.
pub mod Branch
pub mod Labels
pub mod Search
pub mod Simulated
pub mod Yaml
pub mod Provider
mod Examples
use namespace_resizer.Prelude.{
  ℕ, zero, suc, ◌==◌, Bool, true, false, not, ◌&&◌, Option, none, some, List, [], ◌∷◌, ◌++◌,
  if◌then◌else◌,
}
use namespace_resizer.Text.{Str, codes, ◌=s◌, has_prefix, trim_prefix}
use namespace_resizer.Text.Decimal.{decimal}

-- DirectionGrow
abbrev pub direction_grow : Str
direction_grow = codes "grow"

-- DirectionShrink
abbrev pub direction_shrink : Str
direction_shrink = codes "shrink"

abbrev pub label_direction_prefix : Str
label_direction_prefix = codes "resizer/direction:"

-- The branch that CreatePR opens: "resize/%s/%s/%s/%d".
unfoldable pub branch_name : Str → Str → Str → ℕ → Str
branch_name direction ns quota unix =
    codes "resize/" ++ (direction ++ b'/' ∷ (ns ++ b'/' ∷ (quota ++ b'/' ∷ decimal unix)))

-- growPrefix and shrinkPrefix of FindOpenPR: "resize/%s/%s/%s/".
unfoldable pub new_prefix : Str → Str → Str → Str
new_prefix direction ns quota =
    codes "resize/" ++ (direction ++ b'/' ∷ (ns ++ b'/' ∷ (quota ++ b'/' ∷ [])))

-- legacyPrefix of FindOpenPR: "resize/%s-%s-".
unfoldable pub legacy_prefix : Str → Str → Str
legacy_prefix ns quota = codes "resize/" ++ (ns ++ b'-' ∷ (quota ++ b'-' ∷ []))

-- What the code reads of a github.PullRequest in a list: `head` is nil or the ref of the branch.
pub record PullRequest : Type 0 where
  pub number : ℕ
  pub head : Option Str
  pub labels : List Str

unfoldable pub direction_from_labels : List Str → Str
direction_from_labels [] = direction_grow
direction_from_labels (name ∷ rest) =
    let later = direction_from_labels rest in
    if not (has_prefix name label_direction_prefix)
    then later
    else if not (trim_prefix name label_direction_prefix =s direction_grow)
    then direction_shrink
    else later

-- The two results of a scan: a return out of the loops, or legacyID and legacyDirection so far.
pub data Scan : Type 0 where
  found : ℕ → Str → Scan
  legacy : ℕ → Str → Scan

-- The body of `case strings.HasPrefix(ref, legacyPrefix)`.
unfoldable pub keep_legacy : PullRequest → ℕ → Str → ℕ × Str
keep_legacy pr id direction =
    if id == 0 then (pr.number, direction_from_labels pr.labels) else (id, direction)

-- The inner loop of FindOpenPR, over one page.
unfoldable pub scan_page : Str → Str → List PullRequest → ℕ × Str → Scan
scan_page ns quota [] (id, direction) = legacy id direction
scan_page ns quota (pr ∷ rest) (id, direction) = elim pr.head [
  | none ↦ scan_page ns quota rest (id, direction)
  | some ref ↦
      if has_prefix ref (new_prefix direction_grow ns quota)
      then found pr.number direction_grow
      else if has_prefix ref (new_prefix direction_shrink ns quota)
      then found pr.number direction_shrink
      else scan_page ns quota rest (
          if has_prefix ref (legacy_prefix ns quota)
          then keep_legacy pr id direction
          else (id, direction))
]

-- One answer of PullRequests.List: the pull requests of the page and resp.NextPage.
pub record Page : Type 0 where
  pub prs : List PullRequest
  pub next_page : ℕ

-- The three ends of FindOpenPR: a failed list call, the number and direction, and fuel run out.
pub data Found : Type 0 where
  list_failed : Found
  answer : ℕ → Str → Found
  more_pages : Found

-- What follows the inner loop: return, stop at the last page, or go on to the next.
abbrev after_page : Scan → ℕ → (ℕ → ℕ × Str → Found) → Found
after_page (found id direction) next go = answer id direction
after_page (legacy id direction) next go = elim (next == 0) [
  | true ↦ if id == 0 then answer 0 [] else answer id direction
  | false ↦ go next (id, direction)
]

-- The outer loop, at most `rounds` list calls; `list` is the client, `none` its error.
unfoldable pub find_from : ℕ → (ℕ → Option Page) → Str → Str → ℕ → ℕ × Str → Found
find_from zero list ns quota page kept = more_pages
find_from (suc rounds) list ns quota page kept = elim (list page) [
  | none ↦ list_failed
  | some p ↦
      after_page (scan_page ns quota p.prs kept) p.next_page
        (λ next kept'. find_from rounds list ns quota next kept')
]

-- FindOpenPR. The first call leaves opts.Page at 0, which asks for the first page.
unfoldable pub find_open_pr : ℕ → (ℕ → Option Page) → Str → Str → Found
unfolding find_from
find_open_pr rounds list ns quota = find_from rounds list ns quota 0 (0, [])
