-- ===== src/Git/Examples.antt =====
-- The theorems on internal/git/github.go at concrete names, labels and pages.
use namespace_resizer.Prelude.{ℕ, zero, ◌≡◌, refl, ◌↔◌, true, false, Option, some, [], ◌∷◌, arith}
use namespace_resizer.Text.{Str, codes, has_prefix}
use namespace_resizer.Git.{direction_grow, branch_name, new_prefix, PullRequest, Page, find_open_pr}
use namespace_resizer.Git.Branch.{new_prefix_iff}
use namespace_resizer.Git.Simulated.{
  create_pr, get_pr_status, merge_pr, close_pr, details_of, simulated_life,
}
use namespace_resizer.Git.Search.{first_own, first_legacy, Own_or, answer_pair, find_open_pr_lem}

abbrev team : Str
team = codes "team-a"

abbrev quota : Str
quota = codes "quota"

new_prefix_iff_example :
    (has_prefix
        (branch_name direction_grow team quota 1700000000)
        (new_prefix direction_grow team quota)
      ≡ true)
    ↔ ((direction_grow ≡ direction_grow) × (team ≡ team) × (quota ≡ quota))
new_prefix_iff_example =
    new_prefix_iff direction_grow team quota direction_grow team quota 1700000000
      (ground arith, ground arith, ground arith) (ground arith, ground arith, ground arith)

abbrev old_pr : PullRequest
old_pr = record { number = 7; head = some (codes "resize/team-a-quota-1600000000"); labels = [] }

abbrev new_pr : PullRequest
new_pr = record {
  number = 9;
  head = some (codes "resize/shrink/team-a/quota/1700000000");
  labels = [];
}

-- Two pages: the pull request in the old shape comes first.
abbrev client : ℕ → Option Page
client zero = some (record { prs = old_pr ∷ []; next_page = 2 })
client _ = some (record { prs = new_pr ∷ []; next_page = 0 })

find_open_pr_lem_example :
    find_open_pr 2 client team quota
    ≡ Own_or
        (first_own team quota (old_pr ∷ new_pr ∷ []))
        (answer_pair (first_legacy team quota (old_pr ∷ new_pr ∷ [])))
find_open_pr_lem_example =
    find_open_pr_lem ((old_pr ∷ []) ∷ (new_pr ∷ []) ∷ []) 2 client team quota (1, refl, refl)
      (omega arith)

simulated_life_example :
    let (id, made) = create_pr {Q = ℕ} 5 quota team direction_grow [] [] in
    ((get_pr_status id made).is_open ≡ true)
    × ((get_pr_status id made).is_merged ≡ false)
    × ((get_pr_status id made).mergeable ≡ true)
    × ((get_pr_status id made).mergeable_state ≡ codes "clean")
    × ((get_pr_status id (merge_pr id made)).is_open ≡ false)
    × ((get_pr_status id (merge_pr id made)).is_merged ≡ true)
    × ((get_pr_status id (close_pr id made)).is_open ≡ false)
    × ((get_pr_status id (close_pr id made)).is_merged ≡ false)
    × (details_of 7 made ≡ details_of {Q = ℕ} 7 [])
    × (details_of 7 (merge_pr id made) ≡ details_of {Q = ℕ} 7 [])
    × (details_of 7 (close_pr id made) ≡ details_of {Q = ℕ} 7 [])
simulated_life_example = simulated_life {Q = ℕ} 5 quota team direction_grow [] [] 7 refl
