-- ===== src/Hub/Registry.antt =====
-- The registry of tenants, projects and runners of the hub service, with the runners' bearer tokens:
-- src/blizzard_mock/mock_hub/domain/service.py and internal/state_store.py. An id or a token that the
-- source mints is given; a runner that is added stands under no host.
pub mod Principal
pub mod Tokens
pub mod Keeping
pub mod Runs
pub mod Tenants
pub mod Live
use text.Mathlib.Text.{starts_with}
use blizzard_mock.Base.{
  ℕ, Bool, true, false, not, ◌&&◌, ◌||◌, String, Option, none, some, List, [], ◌∷◌, ◌==◌, string_eq,
  option_eq, if◌then◌else◌, Result, ok, err, Action, ◌>>=◌, ◌>>◌, pure, raise, raise_if, or_raise,
  modify, gets, is_none, is_some, get_or, map,
}
use blizzard_mock.Base.Dict.{Dict, lookup, insert, values}
use blizzard_mock.Base.Lists.{keep_if, any, first}
use blizzard_mock.Levers.{find, consume}
use blizzard_mock.Hub.Levers.{value, version_refused}
use blizzard_mock.Hub.State.{Hub, RunnerRow, RunnerCapability, ProjectRow, ServedEntry}

pub record TenantRow : Type 0 where
  pub tenant_id : String
  pub name : String

-- The hub, with the maps that only the registry reads: `_tenants`, `_tokens` and `_revoked_tokens`.
pub record Registry : Type 0 where
  pub hub : Hub
  pub tenants : Dict String TenantRow
  pub tokens : Dict String String
  pub revoked_tokens : Dict String String

pub data RegistryError : Type 0 where
  unknown_runner runner_retired no_such_tenant tenant_required foreign_tenant : RegistryError
  already_added project_exists slug_taken tenant_exists version_out : RegistryError
  unknown_projects : List String → RegistryError
  token_missing token_revoked token_unknown token_retired : RegistryError

abbrev pub Call : Type 0 → Type 0
Call A = Action Registry RegistryError A

abbrev put_hub : Hub → Registry → Registry
put_hub h g = record g { hub = h }

abbrev pub put_runner : RunnerRow → Registry → Registry
put_runner row g = record g {
  hub = record g.hub { runners = insert row.runner_id row g.hub.runners };
}

abbrev pub get_runner : String → Registry → Option RunnerRow
get_runner runner_id g = lookup runner_id g.hub.runners

-- `InMemoryHubState.runner_for_token`
unfoldable pub runner_for_token : String → Registry → Option RunnerRow
runner_for_token token g = elim (lookup token g.tokens) [ none ↦ none | some r ↦ get_runner r g ]

-- The tokens that are held by others, and the runner's own filed as revoked.
unfoldable pub others_tokens : String → Dict String String → Dict String String
others_tokens runner_id [] = []
others_tokens runner_id ((t, owner) ∷ d) =
    if owner == runner_id then others_tokens runner_id d else (t, owner) ∷ others_tokens runner_id d

unfoldable pub revoke_held : String → Dict String String → Dict String String → Dict String String
revoke_held runner_id [] revoked = revoked
revoke_held runner_id ((t, owner) ∷ d) revoked =
    if owner == runner_id
    then revoke_held runner_id d (insert t runner_id revoked)
    else revoke_held runner_id d revoked

abbrev issue : Option String → String → Dict String String → Dict String String
issue none runner_id d = d
issue (some token) runner_id d = insert token runner_id d

-- `InMemoryHubState.replace_token`
unfoldable pub replace_token : String → Option String → Registry → Registry
replace_token runner_id token g = record g {
  tokens = issue token runner_id (others_tokens runner_id g.tokens);
  revoked_tokens = revoke_held runner_id g.tokens g.revoked_tokens;
}

-- `_added`, `_tenant`
unfoldable pub added : String → Call RunnerRow
added runner_id g = or_raise (get_runner runner_id g) unknown_runner g

unfoldable pub tenant : String → Call TenantRow
tenant tenant_id g = or_raise (lookup tenant_id g.tenants) no_such_tenant g

unfoldable pub tenant_projects : String → Registry → List ProjectRow
tenant_projects tenant_id g = keep_if (λ p. p.tenant_id == tenant_id) (values g.hub.projects)

abbrev pub in_tenant : String → Option ProjectRow → Option ProjectRow
in_tenant tenant_id none = none
in_tenant tenant_id (some p) = if p.tenant_id == tenant_id then some p else none

-- `_resolve_project`
unfoldable pub resolve_project : String → String → Registry → Option ProjectRow
resolve_project tenant_id value g =
    if starts_with value "proj_"
    then in_tenant tenant_id (lookup value g.hub.projects)
    else first (λ p. p.slug == value) (tenant_projects tenant_id g)

abbrev unresolved : List ServedEntry → List String
unresolved es = map (λ e. e.entry) (keep_if (λ e. is_none e.project_id) es)

-- The declaration of a runner that names no project: the tenant's only one.
unfoldable pub only_project : List ProjectRow → List ServedEntry
only_project (p ∷ []) = record { entry = p.project_id; project_id = some p.project_id } ∷ []
only_project ps = []

unfoldable pub all_resolved : List ServedEntry → List String → Call (List ServedEntry)
all_resolved es [] g = (ok es, g)
all_resolved es (u ∷ us) g = (err (unknown_projects (u ∷ us)), g)

abbrev new_runner : String → String → String → List ServedEntry → RunnerRow
new_runner runner_id tenant_id name projects = record {
  runner_id = runner_id;
  tenant_id = tenant_id;
  name = name;
  host_id = none;
  registered_at = none;
  last_seen_at = none;
  capabilities = [];
  projects = projects;
  paused = false;
  retired_at = none;
}

-- `InMemoryHubState.add_runner`
unfoldable pub store_runner : RunnerRow → String → Call (Unit {0})
store_runner row token g =
    if is_some (get_runner row.runner_id g)
    then (err already_added, g)
    else (ok tt, put_runner row (record g { tokens = insert token row.runner_id g.tokens }))

-- The fields of `record_registration` that this row has.
unfoldable pub registered_row :
    RunnerRow → Option String → List RunnerCapability → Option (List ServedEntry) → ℕ → RunnerRow
registered_row row name capabilities projects at = record row {
  name = get_or name row.name;
  registered_at = if is_none row.registered_at then some at else row.registered_at;
  last_seen_at = some at;
  capabilities = capabilities;
  projects = get_or projects row.projects;
}

-- `_refuse_version`
unfoldable pub refuse_version : String → Call (Unit {0})
refuse_version runner_id g = elim (find (value version_refused) none g.hub.levers) [
  | none ↦ (ok tt, g)
  | some l ↦
      if lookup "runner_id" l.payload == some runner_id
      then (err version_out, put_hub (record g.hub { levers = consume l g.hub.levers }) g)
      else (ok tt, g)
]

-- `_declared`
unfoldable pub declared : String → List String → Registry → List ServedEntry
declared tenant_id [] g = []
declared tenant_id (e ∷ es) g =
    record {
      entry = e;
      project_id = elim (resolve_project tenant_id e g) [
        | none ↦ none
        | some p ↦ some p.project_id
      ];
    }
    ∷ declared tenant_id es g

-- `_added_declaration`
unfoldable pub added_declaration : String → Option (List String) → Call (List ServedEntry)
added_declaration tenant_id none g = (ok (only_project (tenant_projects tenant_id g)), g)
added_declaration tenant_id (some entries) g =
    let es = declared tenant_id entries g in all_resolved es (unresolved es) g

-- `add_runner`, under the id and with the token that are minted or pinned
unfoldable pub add_runner : String → String → String → String → Option (List String) → Call String
add_runner runner_id token name tenant_id projects = do
  t ← tenant tenant_id
  declaration ← added_declaration t.tenant_id projects
  store_runner (new_runner runner_id t.tenant_id name declaration) token
  pure token

-- `set_runner_projects`
unfoldable pub set_runner_projects : String → List String → Call (Unit {0})
set_runner_projects runner_id entries g = elim (get_runner runner_id g) [
  | none ↦ (err unknown_runner, g)
  | some row ↦ (ok tt, put_runner (record row { projects = declared row.tenant_id entries g }) g)
]

abbrev declared_or_kept : String → Option (List String) → Registry → Option (List ServedEntry)
declared_or_kept tenant_id none g = none
declared_or_kept tenant_id (some es) g = some (declared tenant_id es g)

-- The name that a registration gives: none, if it is missing or blank. `strip` is `str.strip`.
unfoldable pub given_name : (String → String) → Option String → Option String
given_name strip name = let text = strip (get_or name "") in if text == "" then none else some text

-- The entries that a registration declares: the projects of its bindings, where it sends some.
abbrev pub declaring : Option (List String) → Option (List String) → Option (List String)
declaring projects none = projects
declaring projects (some bound) = some bound

-- `register`, answering whether it is the first
unfoldable pub register :
    (String → String)
    → String
    → Option String
    → List RunnerCapability
    → Option (List String)
    → Option (List String)
    → Call Bool
register strip runner_id name capabilities projects bindings = do
  row ← added runner_id
  refuse_version runner_id
  g ← gets (λ g. g)
  modify (
      put_runner (
        registered_row row (given_name strip name) capabilities
          (declared_or_kept row.tenant_id (declaring projects bindings) g) g.hub.now))
  pure (is_none row.registered_at)

-- `enroll`, with the token that is minted
unfoldable pub enroll : String → String → String → Call String
enroll runner_id tenant_id token = do
  row ← added runner_id
  raise_if (not (row.tenant_id == tenant_id)) unknown_runner
  raise_if (is_some row.retired_at) runner_retired
  modify (replace_token runner_id (some token))
  pure token

unfoldable pub revoke_token : String → Call (Unit {0})
revoke_token runner_id = do row ← added runner_id; modify (replace_token runner_id none)

unfoldable pub retire : String → Call (Unit {0})
retire runner_id g = elim (get_runner runner_id g) [
  | none ↦ (err unknown_runner, g)
  | some row ↦ if is_some row.retired_at then (ok tt, g) else (
    ok tt,
    replace_token runner_id none (put_runner (record row { retired_at = some g.hub.now }) g),
  )
]

-- `heartbeat`
unfoldable pub heartbeat : String → Registry → Bool × Registry
heartbeat runner_id g = elim (get_runner runner_id g) [
  | none ↦ (false, g)
  | some row ↦
      if is_none row.registered_at
      then (false, g)
      else (true, put_runner (record row { last_seen_at = some g.hub.now }) g)
]
