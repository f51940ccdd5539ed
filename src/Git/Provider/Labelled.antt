-- ===== src/Git/Provider/Labelled.antt =====
-- The label of a shrink that CreatePR of internal/git/github.go opens.
use namespace_resizer.Prelude.{◌∷◌, ◌≡◌, refl, true, List, [], ◌++◌, inl}
use namespace_resizer.Prelude.Int.{ℤ}
use namespace_resizer.Text.{Str, codes, ◌=s◌}
use namespace_resizer.GoMap.{Map}
use namespace_resizer.Quantity.{Resource}
use namespace_resizer.Controller.Effects.{pure, perform, ◌>>=◌}
use namespace_resizer.Controller.Outside.{done, Answer, ok, failed, Done}
use namespace_resizer.Git.{direction_shrink, branch_name}
use namespace_resizer.Git.Yaml.{apply_changes_to_yaml}
use namespace_resizer.Git.Provider.{
  FileContent, Write, GitHub, Setup, numbered, or_wrap, label_attempts, of_option, generate_pr_body,
  close_pr, add_labels_from, add_labels_to, resolve_path,
}
use namespace_resizer.Git.Provider.Create.{
  unlabelled_shrink_comment, labels_of, after_labels, label_pr, title, off_base, off_commit,
  in_path, open_pr, commit, commit_to, fill_branch, branch_off, create_pr,
}
use namespace_resizer.Git.Provider.File.{find_quota_file}
use namespace_resizer.Git.Provider.Calls.{
  Closed, Closed-append, IsShut, add_labels-calls, Ended, Closed-Ended, Ends, Ends-bind,
  Ends-observe, Ends-or_wrap, Ends-perform, Tried, add_labels-Tried, find_quota_file-IsQuiet,
}

module _ {W Q : Type 0} ⦃rs : Resource Q⦄ (github : GitHub W) (setup : Setup)
    (quota_name namespace direction : Str) (annotations : Map Str) (new_limits : Map Q)
    (is_shrink : (direction =s direction_shrink) ≡ true) where
  abbrev labels : List Str
  labels = labels_of namespace direction

  -- ClosePR, by its two answers.
  ended-IsShut :
      (id : ℤ) (answer : Answer Done) (v : W)
      → IsShut github labels id (
          Write.set_state id (codes "closed")
          ∷ ((or_wrap {W = W}
                (numbered (codes "failed to close PR ") id (codes ": "))
                (λ _. pure (ok done))
                answer
                v).calls
              ++ []))
  ended-IsShut id (failed e) v = (refl, refl)
  ended-IsShut id (ok d) v = (refl, refl)

  close_pr-IsShut :
      (id : ℤ) (answer : Answer Done) (w v : W)
      → (github.comment id unlabelled_shrink_comment w).0 ≡ answer
      → IsShut github labels id (
          (or_wrap
            (numbered (codes "failed to comment on PR ") id (codes ": "))
            (λ _.
              perform (Write.set_state id (codes "closed")) (github.set_state id (codes "closed"))
              >>= or_wrap
                  (numbered (codes "failed to close PR ") id (codes ": "))
                  λ _. pure (ok done))
            answer
            v).calls
          ++ [])
  close_pr-IsShut id (failed e) w v a = (w, e, a)
  close_pr-IsShut id (ok d) w v a =
      let (shut, u) = github.set_state id (codes "closed") v in ended-IsShut id shut u

  after_labels-Closed :
      (id : ℤ) (answer : Answer Done) (w : W)
      → Tried github labels id answer
      → let ran =
          after_labels github setup quota_name namespace direction annotations new_limits id answer
            w in
        Closed github labels id ran.value ran.calls
  unfolding after_labels close_pr
  after_labels-Closed id (ok d) w h = (refl, h)
  after_labels-Closed id (failed e) w h = rw is_shrink (
    refl,
    refl,
    close_pr-IsShut id (github.comment id unlabelled_shrink_comment w).0 w
        (github.comment id unlabelled_shrink_comment w).1 refl,
  )

  label_pr-Closed :
      (id : ℤ) (w : W)
      → let ran =
          label_pr github setup quota_name namespace direction annotations new_limits id w in
        Closed github labels id ran.value ran.calls
  unfolding label_pr add_labels_to
  label_pr-Closed id w =
      let first = add_labels_from github id labels label_attempts w in
      let last =
        after_labels github setup quota_name namespace direction annotations new_limits id
          first.value first.world in
      Closed-append github labels id first.calls last.value last.calls
        (add_labels-calls github labels id label_attempts w)
        (after_labels-Closed id first.value first.world
          (add_labels-Tried github labels id label_attempts w))

  created-Ended :
      (name branch base body : Str) (answer : Answer ℤ) (w v : W)
      → (github.create_pull name branch base body w).0 ≡ answer
      → let ran =
          or_wrap
            (codes "failed to create PR: ")
            (label_pr github setup quota_name namespace direction annotations new_limits)
            answer
            v in
        Ended github labels ran.value (Write.create_pull name branch base body ∷ ran.calls)
  created-Ended name branch base body (failed e) w v c = inl (tt, tt)
  created-Ended name branch base body (ok id) w v c =
      let ran = label_pr github setup quota_name namespace direction annotations new_limits id v in
      Closed-Ended github labels name branch base body id w ran.value ran.calls c
        (label_pr-Closed id v)

  open_pr-Ends :
      (base branch : Str)
      → Ends github labels
          (open_pr github setup quota_name namespace direction annotations new_limits base branch)
  unfolding open_pr
  open_pr-Ends base branch w =
      let name = title github setup quota_name namespace direction annotations new_limits in
      let body = generate_pr_body namespace quota_name new_limits in
      let (answer, v) = github.create_pull name branch base body w in
      created-Ended name branch base body answer w v refl

  commit-Ends :
      (base branch path : Str) (file : FileContent) (content : Str)
      → Ends github labels (
          commit github setup quota_name namespace direction annotations new_limits base branch path
            file content)
  unfolding commit
  commit-Ends base branch path file content w =
      let message = codes "chore(" ++ (namespace ++ (codes "): resize quota " ++ quota_name)) in
      let text = apply_changes_to_yaml setup.decode setup.encode content new_limits in
      Ends-perform github labels (Write.update_file path message text file.sha branch)
        (github.update_file path message text file.sha branch) (codes "failed to commit file: ")
        (λ _.
          open_pr github setup quota_name namespace direction annotations new_limits base branch)
        tt (λ _. open_pr-Ends base branch) w

  commit_to-Ends :
      (base branch : Str) (found : Str × FileContent)
      → Ends github labels (
          commit_to github setup quota_name namespace direction annotations new_limits base branch
            found)
  unfolding commit_to
  commit_to-Ends base branch (path, file) =
      Ends-or_wrap github labels []
        (commit github setup quota_name namespace direction annotations new_limits base branch path
          file)
        (of_option (codes "the content is not decoded") file.content)
        (commit-Ends base branch path file)

  in_path-Ends :
      (base branch path : Str)
      → Ends github labels (
          in_path github setup quota_name namespace direction annotations new_limits base branch
            path)
  unfolding in_path
  in_path-Ends base branch path =
      let text = codes "failed to find quota file in " ++ (path ++ codes ": ") in
      Ends-bind github labels (find_quota_file github path branch quota_name)
        (or_wrap text (
          commit_to github setup quota_name namespace direction annotations new_limits base branch))
        (find_quota_file-IsQuiet github labels path branch quota_name)
        (λ found.
          Ends-or_wrap github labels text
            (commit_to github setup quota_name namespace direction annotations new_limits base
              branch)
            found (commit_to-Ends base branch))

  fill_branch-Ends :
      (base branch : Str)
      → Ends github labels (
          fill_branch github setup quota_name namespace direction annotations new_limits base
            branch)
  unfolding fill_branch
  fill_branch-Ends base branch =
      Ends-or_wrap github labels (codes "failed to resolve path: ")
        (in_path github setup quota_name namespace direction annotations new_limits base branch)
        (resolve_path setup namespace annotations) (in_path-Ends base branch)

  branch_off-Ends :
      (base sha branch : Str)
      → Ends github labels (
          branch_off github setup quota_name namespace direction annotations new_limits base sha
            branch)
  unfolding branch_off
  branch_off-Ends base sha branch =
      let ref = codes "refs/heads/" ++ branch in
      Ends-perform github labels (Write.create_ref ref sha) (github.create_ref ref sha)
        (codes "failed to create branch: ")
        (λ _.
          fill_branch github setup quota_name namespace direction annotations new_limits base
            branch)
        tt (λ _. fill_branch-Ends base branch)

  off_base-Ends :
      (base : Str)
      → Ends github labels
          (off_base github setup quota_name namespace direction annotations new_limits base)
  unfolding off_base off_commit
  off_base-Ends base =
      Ends-observe github labels (github.get_ref (codes "refs/heads/" ++ base))
        (codes "failed to get base ref: ")
        (off_commit github setup quota_name namespace direction annotations new_limits base)
        λ sha w.
          let (now, v) = github.unix_time w in
          branch_off-Ends base sha (branch_name direction namespace quota_name now) v

  -- A CreatePR for a shrink that returns the number of a pull request has had the labels of the
  -- shrink accepted for that number. One that fails has made no call for labels; or after it has
  -- created a pull request and tried to label it, it has commented on that same pull request why it
  -- is closed, and then set its state to closed, which is left out only if GitHub refused the comment.
  pub create_pr-Ended :
      (w : W)
      → let ran = create_pr github setup quota_name namespace direction annotations new_limits w in
        Ended github labels ran.value ran.calls
  unfolding create_pr
  create_pr-Ended =
      Ends-observe github labels github.default_branch (codes "failed to get repo: ")
        (off_base github setup quota_name namespace direction annotations new_limits) off_base-Ends
