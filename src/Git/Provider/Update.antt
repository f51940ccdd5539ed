-- ===== src/Git/Provider/Update.antt =====
-- UpdatePR and GetPRStatus of internal/git/github.go.
use namespace_resizer.Prelude.{none, some, [], ◌++◌, if◌then◌else◌}
use namespace_resizer.Prelude.Int.{ℤ, pos}
use namespace_resizer.Text.{Str, codes, ◌=s◌}
use namespace_resizer.GoMap.{Map}
use namespace_resizer.Quantity.{Resource}
use namespace_resizer.Controller.Effects.{Action, pure, perform, observe, ◌>>=◌}
use namespace_resizer.Controller.Outside.{Answer, ok, Done, done, PrStatus}
use namespace_resizer.Git.Yaml.{apply_changes_to_yaml}
use namespace_resizer.Git.Provider.File.{find_quota_file}
use namespace_resizer.Git.Provider.{
  FileContent, Pull, Write, GitHub, Setup, or_wrap, of_option, numbered, resolve_path,
  generate_pr_body,
}

module _ {W Q : Type 0} ⦃rs : Resource Q⦄ (github : GitHub W) (setup : Setup) (pr_id : ℤ)
    (quota_name namespace : Str) (annotations : Map Str) (new_limits : Map Q) where
  unfoldable pub edit_body : Action W Write (Answer Done)
  edit_body =
      let body = generate_pr_body namespace quota_name new_limits in
      perform (Write.set_body pr_id body) (github.set_body pr_id body)
      >>= or_wrap (codes "failed to update PR body: ") λ _. pure (ok done)

  -- What follows the reading of the file.
  unfoldable pub update_content : Str → Str → FileContent → Str → Action W Write (Answer Done)
  unfolding edit_body
  update_content branch path file content =
      let message =
        codes "chore(" ++ (namespace ++ (codes "): update quota resize " ++ quota_name)) in
      let text = apply_changes_to_yaml setup.decode setup.encode content new_limits in
      if text =s content
      then pure (ok done)
      else perform (Write.update_file path message text file.sha branch)
          (github.update_file path message text file.sha branch)
        >>= or_wrap (codes "failed to update file: ") λ _. edit_body

  unfoldable pub update_found : Str → Str × FileContent → Action W Write (Answer Done)
  unfolding update_content
  update_found branch (path, file) =
      or_wrap [] (update_content branch path file)
        (of_option (codes "the content is not decoded") file.content)

  unfoldable pub update_path : Str → Str → Action W Write (Answer Done)
  unfolding update_found
  update_path branch path =
      find_quota_file github path branch quota_name >>= or_wrap [] (update_found branch)

  unfoldable pub update_pull : Pull → Action W Write (Answer Done)
  unfolding update_path
  update_pull pr = or_wrap [] (update_path pr.head_ref) (resolve_path setup namespace annotations)

  unfoldable pub update_pr : Action W Write (Answer Done)
  unfolding update_pull
  update_pr = observe (github.get_pull pr_id) >>= or_wrap [] update_pull

unfoldable pub status_of : Pull → Str × ℤ → PrStatus
status_of pr (checks_state, checks_total_count) = record {
  is_open = pr.state =s codes "open";
  is_merged = pr.merged;
  mergeable = pr.mergeable;
  mergeable_state = pr.mergeable_state;
  checks_state = checks_state;
  checks_total_count = checks_total_count;
  created_at = pr.created_at;
}

module _ {W : Type 0} (github : GitHub W) (pr_id : ℤ) where
  -- The checks of the head commit.
  unfoldable pub with_checks : Pull → Action W Write (Answer PrStatus)
  with_checks pr = elim pr.head_sha [
    | none ↦ pure (ok (status_of pr ([], pos 0)))
    | some sha ↦
        observe (github.combined_status sha)
        >>= or_wrap (numbered (codes "failed to get combined status for PR ") pr_id (codes ": "))
            λ checks. pure (ok (status_of pr checks))
  ]

  unfoldable pub get_pr_status : Action W Write (Answer PrStatus)
  unfolding with_checks
  get_pr_status = observe (github.get_pull pr_id) >>= or_wrap [] with_checks
