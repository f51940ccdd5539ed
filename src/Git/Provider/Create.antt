-- ===== src/Git/Provider/Create.antt =====
-- CreatePR of internal/git/github.go.
use namespace_resizer.Prelude.{not, List, [], ◌∷◌, ◌++◌, if◌then◌else◌}
use namespace_resizer.Prelude.Int.{ℤ}
use namespace_resizer.Text.{Str, codes, ◌=s◌}
use namespace_resizer.GoMap.{Map}
use namespace_resizer.Quantity.{Resource}
use namespace_resizer.Controller.Effects.{Action, pure, perform, observe, ◌>>=◌}
use namespace_resizer.Controller.Outside.{Answer, ok, failed, Error, file_not_found, other, Done}
use namespace_resizer.Git.{direction_shrink, label_direction_prefix, branch_name}
use namespace_resizer.Git.Yaml.{apply_changes_to_yaml}
use namespace_resizer.Git.Provider.File.{find_quota_file}
use namespace_resizer.Git.Provider.{
  FileContent, Write, GitHub, Setup, wrap, or_wrap, of_option, numbered, resolve_path, close_pr,
  add_labels_to, generate_pr_body,
}

abbrev pub label_managed : Str
label_managed = codes "resizer/managed"

abbrev pub unlabelled_shrink_comment : Str
unlabelled_shrink_comment =
    codes "Closing this pull request: its direction "
    ++ (codes "label could not be attached, and an unlabelled shrink proposal would "
        ++ (codes "later be mistaken for a growth proposal. A replacement will be opened "
            ++ codes "on the next reconcile."))

abbrev pub labels_of : Str → Str → List Str
labels_of namespace direction =
    label_managed ∷ (codes "resizer/ns:" ++ namespace) ∷ (label_direction_prefix ++ direction) ∷ []

-- fmt.Errorf with two verbs %w: errors.Is finds what either of the errors wraps.
abbrev pub wrap_both : Str → Error → Str → Error → Error
wrap_both before (file_not_found e) between (file_not_found c) =
    file_not_found (before ++ (e ++ (between ++ c)))
wrap_both before (file_not_found e) between (other c) =
    file_not_found (before ++ (e ++ (between ++ c)))
wrap_both before (other e) between c = wrap (before ++ (e ++ between)) c

-- The error of CreatePR, by the error of the labels and the answer of ClosePR.
unfoldable pub taken_back : ℤ → Error → Answer Done → Error
taken_back id e (failed c) =
    wrap_both (numbered (codes "failed to label shrink PR ") id (codes " (")) e
      (codes ") and failed to close it again: ") c
taken_back id e (ok d) =
    wrap (numbered (codes "failed to label shrink PR ") id (codes ", closed it again: ")) e

module _ {W Q : Type 0} ⦃rs : Resource Q⦄ (github : GitHub W) (setup : Setup)
    (quota_name namespace direction : Str) (annotations : Map Str) (new_limits : Map Q) where
  -- What follows addLabels.
  unfoldable pub after_labels : ℤ → Answer Done → Action W Write (Answer ℤ)
  after_labels id (ok d) = pure (ok id)
  after_labels id (failed e) =
      if not (direction =s direction_shrink)
      then pure (ok id)
      else close_pr github id unlabelled_shrink_comment >>= λ closed.
          pure (failed (taken_back id e closed))

  unfoldable pub label_pr : ℤ → Action W Write (Answer ℤ)
  unfolding after_labels
  label_pr id = add_labels_to github id (labels_of namespace direction) >>= after_labels id

  unfoldable pub title : Str
  title =
      if direction =s direction_shrink
      then codes "Shrink Quota " ++ (quota_name ++ (codes " in " ++ namespace))
      else codes "Resize Quota " ++ (quota_name ++ (codes " in " ++ namespace))

  -- The pull request, once the branch holds the commit.
  unfoldable pub open_pr : Str → Str → Action W Write (Answer ℤ)
  unfolding label_pr title
  open_pr base branch =
      let body = generate_pr_body namespace quota_name new_limits in
      perform (Write.create_pull title branch base body) (github.create_pull title branch base body)
      >>= or_wrap (codes "failed to create PR: ") label_pr

  unfoldable pub commit : Str → Str → Str → FileContent → Str → Action W Write (Answer ℤ)
  unfolding open_pr
  commit base branch path file content =
      let message = codes "chore(" ++ (namespace ++ (codes "): resize quota " ++ quota_name)) in
      let text = apply_changes_to_yaml setup.decode setup.encode content new_limits in
      perform (Write.update_file path message text file.sha branch)
        (github.update_file path message text file.sha branch)
      >>= or_wrap (codes "failed to commit file: ") λ _. open_pr base branch

  unfoldable pub commit_to : Str → Str → Str × FileContent → Action W Write (Answer ℤ)
  unfolding commit
  commit_to base branch (path, file) =
      or_wrap [] (commit base branch path file)
        (of_option (codes "the content is not decoded") file.content)

  unfoldable pub in_path : Str → Str → Str → Action W Write (Answer ℤ)
  unfolding commit_to
  in_path base branch path =
      find_quota_file github path branch quota_name
      >>= or_wrap (codes "failed to find quota file in " ++ (path ++ codes ": "))
          (commit_to base branch)

  -- From the new branch on.
  unfoldable pub fill_branch : Str → Str → Action W Write (Answer ℤ)
  unfolding in_path
  fill_branch base branch =
      or_wrap (codes "failed to resolve path: ") (in_path base branch)
        (resolve_path setup namespace annotations)

  unfoldable pub branch_off : Str → Str → Str → Action W Write (Answer ℤ)
  unfolding fill_branch
  branch_off base sha branch =
      let ref = codes "refs/heads/" ++ branch in
      perform (Write.create_ref ref sha) (github.create_ref ref sha)
      >>= or_wrap (codes "failed to create branch: ") λ _. fill_branch base branch

  unfoldable pub off_commit : Str → Str → Action W Write (Answer ℤ)
  unfolding branch_off
  off_commit base sha = observe github.unix_time >>= λ now.
      branch_off base sha (branch_name direction namespace quota_name now)

  unfoldable pub off_base : Str → Action W Write (Answer ℤ)
  unfolding off_commit
  off_base base =
      observe (github.get_ref (codes "refs/heads/" ++ base))
      >>= or_wrap (codes "failed to get base ref: ") (off_commit base)

  unfoldable pub create_pr : Action W Write (Answer ℤ)
  unfolding off_base
  create_pr = observe github.default_branch >>= or_wrap (codes "failed to get repo: ") off_base
