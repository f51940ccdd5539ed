-- ===== src/Startup/Examples.antt =====
-- cmd/main.go in an environment with a token.
use namespace_resizer.Prelude.{true, [], ◌||◌, if◌then◌else◌}
use namespace_resizer.Text.{codes, ◌=s◌}
use namespace_resizer.Startup.{Environment, choose_provider}
use namespace_resizer.Startup.Named.{Allowed, choose_provider-Allowed}

abbrev with_token : Environment
with_token name =
    if name =s codes "GITHUB_APP_ID" || name =s codes "GITHUB_INSTALLATION_ID"
    then []
    else codes "org"

choose_provider-Allowed_example :
    Allowed with_token (choose_provider (λ key template. true) with_token)
choose_provider-Allowed_example = choose_provider-Allowed (λ key template. true) with_token
