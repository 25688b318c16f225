-- ===== src/Hub/Registry/Principal.antt =====
-- Whom a bearer token speaks for: `principal`, `identity` and `refuse_foreign_tenant` of
-- src/blizzard_mock/mock_hub/domain/service.py.
use blizzard_mock.Base.{
  String, Option, none, some, ◌==◌, string_eq, option_eq, if◌then◌else◌, Result, ok, err, is_some,
}
use blizzard_mock.Base.Dict.{lookup}
use blizzard_mock.Hub.State.{RunnerRow}
use blizzard_mock.Hub.Registry.{
  Registry, RegistryError, Call, get_runner, runner_for_token, token_missing, token_revoked,
  token_unknown, token_retired, unknown_runner, foreign_tenant,
}

-- `principal`
unfoldable pub principal : Option String → Registry → Result RegistryError String
principal none g = err token_missing
principal (some token) g = elim (runner_for_token token g) [
  | some row ↦ ok row.runner_id
  | none ↦ if is_some (lookup token g.revoked_tokens) then err token_revoked else err token_unknown
]

-- Whom a revoked token was issued to, as `identity` refuses it.
unfoldable pub refused_token : Option RunnerRow → RegistryError
refused_token none = token_unknown
refused_token (some row) = if is_some row.retired_at then token_retired else token_revoked

abbrev issued_to : Option String → Registry → Option RunnerRow
issued_to none g = none
issued_to (some r) g = get_runner r g

-- `identity`, as the runner's row
unfoldable pub identity : Option String → Registry → Result RegistryError RunnerRow
identity none g = err token_missing
identity (some token) g = elim (runner_for_token token g) [
  | some row ↦ if is_some row.retired_at then err token_retired else ok row
  | none ↦ err (refused_token (issued_to (lookup token g.revoked_tokens) g))
]

-- `refuse_foreign_tenant`, for a tenant that the header names
unfoldable pub refuse_foreign_tenant : String → Option String → Call (Unit {0})
refuse_foreign_tenant runner_id none g = (ok tt, g)
refuse_foreign_tenant runner_id (some named) g = elim (get_runner runner_id g) [
  | none ↦ (err unknown_runner, g)
  | some row ↦ if named == row.tenant_id then (ok tt, g) else (err foreign_tenant, g)
]
