-- ===== src/Git/Provider.antt =====
-- GitHubProvider of internal/git/github.go over the calls of the GitHub API.
pub mod File
pub mod Create
pub mod Update
pub mod Calls
pub mod Labelled
pub mod Updated
pub mod Scripted
mod Examples
use namespace_resizer.Prelude.{
  ℕ, zero, suc, Bool, true, false, not, ◌&&◌, ◌||◌, Option, none, some, List, [], ◌∷◌, ◌++◌,
  if◌then◌else◌,
}
use namespace_resizer.Prelude.Int.{ℤ}
use namespace_resizer.Text.{Str, codes, ◌=s◌, contains, has_suffix}
use namespace_resizer.Text.Decimal.{decimal_ℤ}
use namespace_resizer.GoMap.{Map, lookup}
use namespace_resizer.Quantity.{Resource}
use namespace_resizer.Clock.{Time}
use namespace_resizer.Controller.Effects.{Action, pure, perform, observe, ◌>>=◌}
use namespace_resizer.Controller.Outside.{
  Answer, ok, failed, Error, file_not_found, other, Done, done, PrStatus,
}
use namespace_resizer.Git.{direction_shrink, label_direction_prefix, branch_name}
use namespace_resizer.Git.Yaml.{Node, apply_changes_to_yaml}

-- A file of the repository: its blob and its text, `none` where GetContent fails.
pub record FileContent : Type 0 where
  pub sha : Str
  pub content : Option Str

-- An entry of a directory.
pub record Entry : Type 0 where
  pub is_file : Bool
  pub name : Str
  pub path : Str

-- The answer for a directory; a response 404 is told from the other errors.
pub data Listing : Type 0 where
  listed : List Entry → Listing
  missing : Str → Listing
  unlisted : Error → Listing

-- A pull request by its number; `head_sha` is nil or the commit.
pub record Pull : Type 0 where
  pub head_ref : Str
  pub head_sha : Option Str
  pub state : Str
  pub merged : Bool
  pub mergeable : Bool
  pub mergeable_state : Str
  pub created_at : Time

-- The calls that write.
pub data Write : Type 0 where
  create_ref : Str → Str → Write
  update_file : Str → Str → Str → Str → Str → Write
  create_pull : Str → Str → Str → Str → Write
  add_labels : ℤ → List Str → Write
  comment : ℤ → Str → Write
  set_state : ℤ → Str → Write
  set_body : ℤ → Str → Write
  merge : ℤ → Str → Write

-- The client and its owner and repository; `cancelled` waits for the backoff.
pub record GitHub (W : Type 0) : Type 0 where
  pub default_branch : W → Answer Str × W
  pub get_ref : Str → W → Answer Str × W
  pub list_dir : Str → Str → W → Listing × W
  pub get_file : Str → Str → W → Answer FileContent × W
  pub get_pull : ℤ → W → Answer Pull × W
  pub combined_status : Str → W → Answer (Str × ℤ) × W
  pub unix_time : W → ℕ × W
  pub cancelled : W → Bool × W
  pub create_ref : Str → Str → W → Answer Done × W
  pub update_file : Str → Str → Str → Str → Str → W → Answer Done × W
  pub create_pull : Str → Str → Str → Str → W → Answer ℤ × W
  pub add_labels : ℤ → List Str → W → Answer Done × W
  pub comment : ℤ → Str → W → Answer Done × W
  pub set_state : ℤ → Str → W → Answer Done × W
  pub set_body : ℤ → Str → W → Answer Done × W
  pub merge : ℤ → Str → W → Answer Done × W

-- The template of the path, run on the cluster's name and a namespace, and yaml.v3.
pub record Setup : Type 0 where
  pub run_template : Str → Option Str
  pub decode : Str → Option (List Node)
  pub encode : List Node → Option Str

-- fmt.Errorf with the verb %w, which keeps what errors.Is finds.
abbrev pub wrap : Str → Error → Error
wrap text (file_not_found e) = file_not_found (text ++ e)
wrap text (other e) = other (text ++ e)

-- `if err != nil { return ..., fmt.Errorf(text, err) }`, and what follows.
abbrev pub or_wrap :
    {W A B : Type 0} → Str → (A → Action W Write (Answer B)) → Answer A → Action W Write (Answer B)
or_wrap text next (ok a) = next a
or_wrap text next (failed e) = pure (failed (wrap text e))

-- `text` stands for the error of a package that is a parameter here.
abbrev pub of_option : {A : Type 0} → Str → Option A → Answer A
of_option text none = failed (other text)
of_option text (some a) = ok a

unfoldable pub resolve_path : Setup → Str → Map Str → Answer Str
resolve_path setup namespace annotations = elim (lookup (codes "resizer.io/git-path") annotations) [
  | some path ↦ ok path
  | none ↦ of_option (codes "the template failed") (setup.run_template namespace)
]

-- A text with the number of a pull request.
abbrev pub numbered : Str → ℤ → Str → Str
numbered before id after = before ++ (decimal_ℤ id ++ after)

module _ {W : Type 0} (github : GitHub W) where
  unfoldable pub close_pr : ℤ → Str → Action W Write (Answer Done)
  close_pr id text =
      perform (Write.comment id text) (github.comment id text)
      >>= or_wrap (numbered (codes "failed to comment on PR ") id (codes ": ")) λ _.
        perform (Write.set_state id (codes "closed")) (github.set_state id (codes "closed"))
        >>= or_wrap (numbered (codes "failed to close PR ") id (codes ": ")) λ _. pure (ok done)

  unfoldable pub merge_pr : ℤ → Str → Action W Write (Answer Done)
  merge_pr id [] = perform (Write.merge id (codes "squash")) (github.merge id (codes "squash"))
  merge_pr id (c ∷ method) = perform (Write.merge id (c ∷ method)) (github.merge id (c ∷ method))

-- labelAttempts
abbrev pub label_attempts : ℕ
label_attempts = 3

module _ {W : Type 0} (github : GitHub W) (id : ℤ) (labels : List Str) where
  -- What follows an attempt of addLabels, with the attempts that are left and the rest of the loop.
  unfoldable pub after_attempt :
      ℕ → Action W Write (Answer Done) → Answer Done → Action W Write (Answer Done)
  after_attempt left retry (ok d) = pure (ok d)
  after_attempt zero retry (failed e) =
      pure
        (failed (wrap (numbered (codes "failed to label PR ") id (codes " after 3 attempts: ")) e))
  after_attempt (suc left) retry (failed e) = observe github.cancelled >>= λ stop. elim stop [
    | true ↦ pure (failed (other (numbered (codes "labelling PR ") id (codes " cancelled"))))
    | false ↦ retry
  ]

  -- The loop with the attempts that are left; it is entered with `label_attempts`, never with none.
  unfoldable pub add_labels_from : ℕ → Action W Write (Answer Done)
  unfolding after_attempt
  add_labels_from zero = pure (failed (other []))
  add_labels_from (suc left) =
      perform (Write.add_labels id labels) (github.add_labels id labels)
      >>= after_attempt left (add_labels_from left)

  unfoldable pub add_labels_to : Action W Write (Answer Done)
  unfolding add_labels_from
  add_labels_to = add_labels_from label_attempts

module _ {Q : Type 0} ⦃rs : Resource Q⦄ where
  -- The rows of the table in the body of a pull request.
  unfoldable pub limit_rows : Map Q → Str
  limit_rows [] = []
  limit_rows ((res, qty) ∷ rest) =
      codes "| " ++ (res ++ (codes " | " ++ (rs.string qty ++ (codes " |\n" ++ limit_rows rest))))

  unfoldable pub generate_pr_body : Str → Str → Map Q → Str
  unfolding limit_rows
  generate_pr_body ns quota limits =
      codes "### Quota Resize Recommendation for `"
      ++ (quota
          ++ (codes "` in `"
              ++ (ns
                  ++ (codes "`\n\n"
                      ++ (codes
                            "The Namespace Resizer Controller detected a need to increase the following limits:\n\n"
                          ++ (codes "| Resource | New Limit |\n| :--- | :--- |\n"
                              ++ (limit_rows limits
                                  ++ codes
                                      "\n\n*Generated automatically by Namespace Resizer*")))))))
