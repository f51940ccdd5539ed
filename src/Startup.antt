-- ===== src/Startup.antt =====
-- cmd/main.go: which Provider the program starts with, by its environment.
pub mod Named
mod Examples
use namespace_resizer.Prelude.{
  Bool, true, false, not, ◌&&◌, ◌||◌, Option, none, some, if◌then◌else◌,
}
use namespace_resizer.Prelude.Int.{ℤ, pos, eqb_ℤ}
use namespace_resizer.Text.{Str, codes, ◌=s◌}
use namespace_resizer.Sizing.Policy.Parse.Words.{atoi}

-- os.Getenv; a variable that is not set is empty.
abbrev pub Environment : Type 0
Environment = Str → Str

-- The owner, the repository, the name of the cluster and the template of the path.
pub record Place : Type 0 where
  pub owner : Str
  pub repo : Str
  pub cluster_name : Str
  pub path_template : Str

-- StatefulLogProvider, or GitHubProvider by an app or by a token.
pub data Chosen : Type 0 where
  simulated : Chosen
  github_app : ℤ → ℤ → Str → Place → Chosen
  github_token : Str → Place → Chosen

abbrev pub is_empty : Str → Bool
is_empty s = s =s codes ""

unfoldable pub place_of : Environment → Place
place_of env = record {
  owner = env (codes "GITHUB_OWNER");
  repo = env (codes "GITHUB_REPO");
  cluster_name = env (codes "CLUSTER_NAME");
  path_template =
      if is_empty (env (codes "GIT_PATH_TEMPLATE"))
      then codes "managed-resources/{{ .Cluster }}/{{ .Namespace }}"
      else env (codes "GIT_PATH_TEMPLATE");
}

-- strconv.ParseInt(s, 10, 64) reads what strconv.Atoi reads; `none` ends the program.
unfoldable pub id_of : Str → Option ℤ
id_of s = if is_empty s then some (pos 0) else atoi s

unfoldable pub dry_run : Environment → Bool
dry_run env = env (codes "DRY_RUN") =s codes "true"

unfoldable pub by_token : Environment → Option Chosen
unfolding place_of
by_token env =
    let token = env (codes "GITHUB_TOKEN") in
    if not (is_empty token) then some (github_token token (place_of env)) else none

-- `new_app` says whether NewGitHubAppProvider takes the key and the template.
unfoldable pub by_app : (Str → Str → Bool) → Environment → ℤ → ℤ → Option Chosen
unfolding place_of
by_app new_app env app_id install_id =
    let key = env (codes "GITHUB_PRIVATE_KEY") in
    let place = place_of env in
    if new_app key place.path_template then some (github_app app_id install_id key place) else none

unfoldable pub has_app : Environment → ℤ → ℤ → Bool
has_app env app_id install_id =
    not (eqb_ℤ app_id (pos 0))
    && (not (eqb_ℤ install_id (pos 0)) && not (is_empty (env (codes "GITHUB_PRIVATE_KEY"))))

-- The chain of conditions on the authentication.
unfoldable pub authenticate : (Str → Str → Bool) → Environment → ℤ → ℤ → Option Chosen
unfolding dry_run has_app by_app by_token
authenticate new_app env app_id install_id =
    if dry_run env
    then some simulated
    else if has_app env app_id install_id
    then by_app new_app env app_id install_id
    else by_token env

unfoldable pub lacks_place : Environment → Bool
unfolding place_of dry_run
lacks_place env =
    let place = place_of env in
    (is_empty place.owner || (is_empty place.repo || is_empty place.cluster_name))
    && not (dry_run env)

-- The test of the owner, the repository and the cluster, which follows.
unfoldable pub check_place : Environment → Option Chosen → Option Chosen
unfolding lacks_place
check_place env none = none
check_place env (some chosen) = if lacks_place env then none else some chosen

-- `none` is os.Exit(1).
unfoldable pub choose_by : (Str → Str → Bool) → Environment → Option ℤ → Option ℤ → Option Chosen
unfolding check_place authenticate
choose_by new_app env none install_id = none
choose_by new_app env (some app_id) none = none
choose_by new_app env (some app_id) (some install_id) =
    check_place env (authenticate new_app env app_id install_id)

unfoldable pub choose_provider : (Str → Str → Bool) → Environment → Option Chosen
unfolding choose_by id_of
choose_provider new_app env =
    choose_by new_app env (id_of (env (codes "GITHUB_APP_ID")))
      (id_of (env (codes "GITHUB_INSTALLATION_ID")))
