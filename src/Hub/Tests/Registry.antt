-- ===== src/Hub/Tests/Registry.antt =====
-- Instances of the theorems on the registry.
use blizzard_mock.Base.{◌≡◌, err, refl, List, [], ◌∷◌, none, some, string_eq, String}
use blizzard_mock.Base.Dict.{lookup}
use blizzard_mock.Hub.State.{ProjectRow}
use blizzard_mock.Hub.Registry.Principal.{principal, identity}
use blizzard_mock.Hub.Registry.{
  Registry, runner_for_token, others_tokens, revoke_held, replace_token, added, refuse_version,
  registered_row, given_name, tenant_projects, resolve_project, token_revoked, token_retired,
  declared,
}
use blizzard_mock.Hub.Registry as Service
use blizzard_mock.Hub.Registry.Live.{IsLive}
use blizzard_mock.Hub.Registry.Runs.{
  Operation, operate, operate_all, principal-Holds, Holds, enroll, register,
}
use blizzard_mock.Hub.Registry.Tenants.{seed_project, seed_project-resolves}
use blizzard_mock.Hub.Registry.Tokens.{enroll-principal, retire-refuses, speaks}
use blizzard_mock.Hub.Tests.{start, row, program}

-- One runner, with one token.
abbrev pub registry : Registry
registry = record {
  hub = start;
  tenants = ("t", record { tenant_id = "t"; name = "tenant" }) ∷ [];
  tokens = ("old", "r_1") ∷ [];
  revoked_tokens = [];
}

registry-IsLive : IsLive registry
unfolding lookup
registry-IsLive = record { live = (refl, tt); keyed = (refl, refl, tt) }

abbrev unstripped : String → String
unstripped s = s

abbrev operations : List Operation
operations =
    register "r_1" (some "named") [] none none
    ∷ enroll "r_1" "t" "new"
    ∷ enroll "r_1" "t" "newer"
    ∷ []

principal-Holds_example : Holds (some "newer") "r_1" (operate_all unstripped operations registry)
unfolding program principal runner_for_token replace_token others_tokens added operate operate_all
    Service.enroll Service.register registered_row given_name refuse_version
principal-Holds_example =
    principal-Holds unstripped operations registry (some "newer") "r_1" registry-IsLive refl

enroll-principal_example :
    principal (some "old") (Service.enroll "r_1" "t" "new" registry).1
    ≡ speaks (some "new") "r_1" "old" registry
unfolding program replace_token added Service.enroll
enroll-principal_example =
    enroll-principal "r_1" "t" "new" "old" registry (refl, tt) registry-IsLive refl

retire-refuses_example :
    (identity (some "old") (Service.retire "r_1" registry).1 ≡ err token_retired)
    × (principal (some "old") (Service.retire "r_1" registry).1 ≡ err token_revoked)
unfolding program
retire-refuses_example =
    retire-refuses "r_1" "old" registry row (refl, tt) registry-IsLive refl refl refl

abbrev project : ProjectRow
project = record { project_id = "proj_2"; tenant_id = "t"; slug = "second"; name = "Second" }

seed_project-resolves_example :
    resolve_project "t" "second" (seed_project "proj_2" "second" "Second" "t" registry).1
    ≡ some project
unfolding program seed_project Service.tenant tenant_projects
seed_project-resolves_example =
    seed_project-resolves "proj_2" "second" "Second" "t" registry project "t" "second" refl
