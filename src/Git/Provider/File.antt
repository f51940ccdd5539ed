-- ===== src/Git/Provider/File.antt =====
-- findQuotaFile of internal/git/github.go.
use namespace_resizer.Prelude.{
  Bool, true, false, ◌&&◌, ◌||◌, Option, none, some, List, [], ◌∷◌, ◌++◌, if◌then◌else◌,
}
use namespace_resizer.Text.{Str, codes, contains, has_suffix}
use namespace_resizer.Controller.Effects.{Action, pure, observe, ◌>>=◌}
use namespace_resizer.Controller.Outside.{Answer, ok, failed, file_not_found}
use namespace_resizer.Git.Provider.{
  FileContent, Entry, Listing, listed, missing, unlisted, Write, GitHub,
}

-- The test of findQuotaFile on the text of a file.
unfoldable pub mentions_quota : Str → Str → Bool
mentions_quota quota_name content =
    contains content (codes "kind: ResourceQuota")
    && contains content (codes "name: " ++ quota_name)

unfoldable pub is_yaml : Entry → Bool
is_yaml e = e.is_file && (has_suffix e.name (codes ".yaml") || has_suffix e.name (codes ".yml"))

-- The file, if it is the one.
unfoldable pub accept_file : Str → Answer FileContent → Option FileContent
accept_file quota_name (failed e) = none
accept_file quota_name (ok file) = elim file.content [
  | none ↦ none
  | some content ↦ if mentions_quota quota_name content then some file else none
]

-- After a file is read: return it, or `continue`.
unfoldable pub after_file :
    {W : Type 0}
    → Str
    → Action W Write (Answer (Str × FileContent))
    → Option FileContent
    → Action W Write (Answer (Str × FileContent))
after_file path later none = later
after_file path later (some file) = pure (ok (path, file))

module _ {W : Type 0} (github : GitHub W) where
  -- The body of the loop, by `is_yaml`.
  unfoldable pub visit :
      Str
      → Str
      → Str
      → Action W Write (Answer (Str × FileContent))
      → Bool
      → Action W Write (Answer (Str × FileContent))
  unfolding after_file
  visit ref quota_name path later false = later
  visit ref quota_name path later true = observe (github.get_file path ref) >>= λ answer.
      after_file path later (accept_file quota_name answer)

  -- The loop over the entries.
  unfoldable pub find_in :
      Str → Str → Str → List Entry → Action W Write (Answer (Str × FileContent))
  unfolding visit
  find_in base_path ref quota_name [] = pure (
      failed (
        file_not_found (codes ": quota " ++ (quota_name ++ (codes " not found in " ++ base_path)))))
  find_in base_path ref quota_name (e ∷ rest) =
      visit ref quota_name e.path (find_in base_path ref quota_name rest) (is_yaml e)

  unfoldable pub find_listed :
      Str → Str → Str → Listing → Action W Write (Answer (Str × FileContent))
  unfolding find_in
  find_listed base_path ref quota_name (missing e) = pure (failed (file_not_found e))
  find_listed base_path ref quota_name (unlisted e) = pure (failed e)
  find_listed base_path ref quota_name (listed entries) = find_in base_path ref quota_name entries

  unfoldable pub find_quota_file : Str → Str → Str → Action W Write (Answer (Str × FileContent))
  unfolding find_listed
  find_quota_file base_path ref quota_name =
      observe (github.list_dir base_path ref) >>= find_listed base_path ref quota_name
