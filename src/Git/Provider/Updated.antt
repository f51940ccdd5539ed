-- ===== src/Git/Provider/Updated.antt =====
-- The calls of UpdatePR of internal/git/github.go.
use namespace_resizer.Prelude.{◌≡◌, true, false, some, List, [], ◌∷◌, ◌++◌, ◌⊎◌}
use namespace_resizer.Prelude.Int.{ℤ}
use namespace_resizer.Text.{Str, codes, ◌=s◌}
use namespace_resizer.GoMap.{Map}
use namespace_resizer.Quantity.{Resource}
use namespace_resizer.Controller.Effects.{Action}
use namespace_resizer.Controller.Outside.{Answer, ok, failed, Done}
use namespace_resizer.Git.Yaml.{apply_changes_to_yaml}
use namespace_resizer.Git.Provider.{
  FileContent, Pull, Write, GitHub, Setup, resolve_path, generate_pr_body,
}
use namespace_resizer.Git.Provider.File.{find_quota_file}

abbrev pub Reads : {W A : Type 0} → Action W Write A → Type 0
Reads {W} m = (w : W) → (m w).calls ≡ []

module _ {W Q : Type 0} ⦃rs : Resource Q⦄ (github : GitHub W) (setup : Setup) (pr_id : ℤ)
    (quota_name namespace : Str) (annotations : Map Str) (new_limits : Map Q) where
  abbrev pub new_text : Str → Str
  new_text content = apply_changes_to_yaml setup.decode setup.encode content new_limits

  abbrev pub body_edit : Write
  body_edit = Write.set_body pr_id (generate_pr_body namespace quota_name new_limits)

  -- What a run from a world has read: the pull request, the path of its quota, and on the branch of
  -- the pull request the file of the quota there, with its text.
  pub record HasRead (w : W) (branch path : Str) (file : FileContent) (content : Str) : Type 0 where
    pub pull : Pull
    pub base_path : Str
    pub pulled : (github.get_pull pr_id w).0 ≡ ok pull
    pub on_branch : branch ≡ pull.head_ref
    pub resolved : resolve_path setup namespace annotations ≡ ok base_path
    pub found :
        (find_quota_file github base_path branch quota_name (github.get_pull pr_id w).1).value
        ≡ ok (path, file)
    pub text : file.content ≡ some content

  -- The commit of the new text over the file that was read, to the branch of the pull request.
  abbrev pub commit_of : Str → Str → FileContent → Str → Write
  commit_of branch path file content =
      Write.update_file path
        (codes "chore(" ++ (namespace ++ (codes "): update quota resize " ++ quota_name)))
        (new_text content) file.sha branch

  -- A run has read a file whose text the new limits change.
  abbrev pub IsCommit : W → Write → Type 0
  IsCommit w c =
      (branch : Str) × (path : Str) × (file : FileContent) × (content : Str) × HasRead w branch path
        file content
      × ((new_text content =s content) ≡ false)
      × (c ≡ commit_of branch path file content)

  -- How UpdatePR from a world may end, with its calls.
  abbrev pub Updated : W → Answer Done → List Write → Type 0
  Updated w (ok d) calls =
      ((calls ≡ [])
        × (branch : Str) × (path : Str) × (file : FileContent) × (content : Str) × HasRead w branch
            path file content
        × ((new_text content =s content) ≡ true))
      ⊎ ((c : Write) × IsCommit w c × (calls ≡ c ∷ body_edit ∷ []))
  Updated w (failed e) calls =
      (calls ≡ [])
      ⊎ ((c : Write) × IsCommit w c × ((calls ≡ c ∷ []) ⊎ (calls ≡ c ∷ body_edit ∷ [])))
