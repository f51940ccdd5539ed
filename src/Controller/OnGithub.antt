-- ===== src/Controller/OnGithub.antt =====
-- The reconciler with GitHubProvider of internal/git/github.go as its Provider.
pub mod Recorded
mod Examples
use namespace_resizer.Prelude.{List}
use namespace_resizer.GoMap.{Map}
use namespace_resizer.Quantity.{Resource}
use namespace_resizer.Controller.Effects.{Action, Ran}
use namespace_resizer.Controller.Outside.{Answer, Outside}
use namespace_resizer.Git.Provider.{Write, GitHub, Setup, merge_pr, close_pr}
use namespace_resizer.Git.Provider.Create.{create_pr}
use namespace_resizer.Git.Provider.Update.{update_pr, get_pr_status}

-- The answer of a call and the world after it.
abbrev pub answer : {W A : Type 0} → Action W Write A → W → A × W
answer m w = let ran = m w in (ran.value, ran.world)

module _ {W Q : Type 0} ⦃rs : Resource Q⦄ (github : GitHub W) (setup : Setup) where
  -- The other calls, among them the list of open pull requests, stay as they are.
  unfoldable pub on_github : Outside W Q → Outside W Q
  on_github out = record {
    now = out.now;
    get_pr_status = λ id. answer (get_pr_status github id);
    find_open_pr = out.find_open_pr;
    merge_pr = λ id method. answer (merge_pr github id method);
    create_pr = λ quota ns direction annotations targets.
        answer (create_pr github setup quota ns direction annotations targets);
    update_pr = λ id quota ns annotations targets.
        answer (update_pr github setup id quota ns annotations targets);
    close_pr = λ id text. answer (close_pr github id text);
    mutate_state = out.mutate_state;
    event = out.event;
  }
