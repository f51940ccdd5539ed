-- ===== src/Startup/Named.antt =====
-- What holds of the Provider that cmd/main.go starts with.
use namespace_resizer.Prelude.{
  ◌≡◌, refl, sym, subst, Bool, true, false, Option, none, some, arith, Bool-cases, inl, inr,
}
use namespace_resizer.Prelude.Int.{ℤ, pos, eqb_ℤ}
use namespace_resizer.Text.{Str, codes}
use namespace_resizer.Startup.{
  Environment, Place, Chosen, simulated, github_app, github_token, is_empty, place_of, dry_run,
  id_of, has_app, by_app, by_token, authenticate, lacks_place, check_place, choose_by,
  choose_provider,
}

abbrev pub IsNamed : Place → Type 0
IsNamed place =
    (is_empty place.owner ≡ false)
    × (is_empty place.repo ≡ false)
    × (is_empty place.cluster_name ≡ false)

-- What holds of a program that has started.
abbrev pub Allowed : Environment → Option Chosen → Type 0
Allowed env none = Unit
Allowed env (some simulated) = dry_run env ≡ true
Allowed env (some (github_app app_id install_id key place)) =
    (dry_run env ≡ false)
    × IsNamed place
    × (eqb_ℤ app_id (pos 0) ≡ false)
    × (eqb_ℤ install_id (pos 0) ≡ false)
    × (is_empty key ≡ false)
Allowed env (some (github_token token place)) =
    (dry_run env ≡ false) × IsNamed place × (is_empty token ≡ false)

lacks_place_lem :
    (env : Environment) → dry_run env ≡ false → lacks_place env ≡ false → IsNamed (place_of env)
unfolding lacks_place
lacks_place_lem env dry lacks = ground (arith, dry, lacks)

abbrev Authenticated : Environment → Option Chosen → Type 0
Authenticated env none = Unit
Authenticated env (some simulated) = dry_run env ≡ true
Authenticated env (some (github_app app_id install_id key place)) =
    (dry_run env ≡ false)
    × (place ≡ place_of env)
    × (eqb_ℤ app_id (pos 0) ≡ false)
    × (eqb_ℤ install_id (pos 0) ≡ false)
    × (is_empty key ≡ false)
Authenticated env (some (github_token token place)) =
    (dry_run env ≡ false) × (place ≡ place_of env) × (is_empty token ≡ false)

by_token-Authenticated :
    (env : Environment) → dry_run env ≡ false → Authenticated env (by_token env)
unfolding by_token
by_token-Authenticated env real = elim (Bool-cases (is_empty (env (codes "GITHUB_TOKEN")))) [
  | inl absent ↦ rw absent tt
  | inr given ↦ rw given (real, refl, given)
]

by_app-Authenticated :
    (new_app : Str → Str → Bool) (env : Environment) (app_id install_id : ℤ)
    → dry_run env ≡ false
    → has_app env app_id install_id ≡ true
    → Authenticated env (by_app new_app env app_id install_id)
unfolding by_app has_app
by_app-Authenticated new_app env app_id install_id real app =
    let key = env (codes "GITHUB_PRIVATE_KEY") in
    elim (Bool-cases (new_app key (place_of env).path_template)) [
      | inr refused ↦ rw refused tt
      | inl taken ↦
          rw taken (real, refl, ground (arith, app), ground (arith, app), ground (arith, app))
    ]

authenticate-Authenticated :
    (new_app : Str → Str → Bool) (env : Environment) (app_id install_id : ℤ)
    → Authenticated env (authenticate new_app env app_id install_id)
unfolding authenticate
authenticate-Authenticated new_app env app_id install_id = elim (Bool-cases (dry_run env)) [
  | inl dry ↦ rw dry dry
  | inr real ↦ elim (Bool-cases (has_app env app_id install_id)) [
    | inl app ↦ rw (real, app) (by_app-Authenticated new_app env app_id install_id real app)
    | inr no_app ↦ rw (real, no_app) (by_token-Authenticated env real)
  ]
]

check_place-Allowed :
    (env : Environment) (chosen : Option Chosen)
    → Authenticated env chosen
    → Allowed env (check_place env chosen)
unfolding check_place
check_place-Allowed env none h = tt
check_place-Allowed env (some simulated) h = elim (Bool-cases (lacks_place env)) [
  | inl lacks ↦ rw lacks tt
  | inr has ↦ rw has h
]
check_place-Allowed env (some (github_app app_id install_id key place)) h =
    elim (Bool-cases (lacks_place env)) [
      | inl lacks ↦ rw lacks tt
      | inr has ↦ rw has (h.0, subst IsNamed (sym h.1) (lacks_place_lem env h.0 has), h.2, h.3, h.4)
    ]
check_place-Allowed env (some (github_token token place)) h = elim (Bool-cases (lacks_place env)) [
  | inl lacks ↦ rw lacks tt
  | inr has ↦ rw has (h.0, subst IsNamed (sym h.1) (lacks_place_lem env h.0 has), h.2)
]

choose_by-Allowed :
    (new_app : Str → Str → Bool) (env : Environment) (app_id install_id : Option ℤ)
    → Allowed env (choose_by new_app env app_id install_id)
unfolding choose_by
choose_by-Allowed new_app env none install_id = tt
choose_by-Allowed new_app env (some app_id) none = tt
choose_by-Allowed new_app env (some app_id) (some install_id) =
    check_place-Allowed env (authenticate new_app env app_id install_id)
      (authenticate-Authenticated new_app env app_id install_id)

-- A program that has started has the simulated provider exactly in a dry run. Otherwise it has one
-- that writes to GitHub, with an owner, a repository and a cluster that are not empty, and with a
-- token, or with the two numbers and the key of an app.
pub choose_provider-Allowed :
    (new_app : Str → Str → Bool) (env : Environment) → Allowed env (choose_provider new_app env)
unfolding choose_provider
choose_provider-Allowed new_app env =
    choose_by-Allowed new_app env (id_of (env (codes "GITHUB_APP_ID")))
      (id_of (env (codes "GITHUB_INSTALLATION_ID")))
