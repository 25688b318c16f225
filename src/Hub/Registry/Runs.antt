-- ===== src/Hub/Registry/Runs.antt =====
-- Runs of the operations of the registry.
use blizzard_mock.Base.Dict.{All-lookup}
use blizzard_mock.Base.{
  [], ◌∷◌, none, some, ◌≡◌, ok, inl, inr, arith, Option-cases, Option, String, List, string_eq,
  some, true, none, ◌∷◌,
}
use blizzard_mock.Hub.State.{RunnerRow, RunnerCapability}
use blizzard_mock.Hub.Registry.Principal.{principal, identity}
use blizzard_mock.Hub.Registry.{
  Registry, Call, RegistryError, put_runner, get_runner, added, refuse_version, runner_retired,
  find, value, version_refused, lookup, ServedEntry,
}
use blizzard_mock.Hub.Registry as Service
use blizzard_mock.Hub.Registry.Keeping.{
  enroll-IsLive, revoke_token-IsLive, retire-IsLive, heartbeat-IsLive, set_runner_projects-IsLive,
  register-IsLive, add_runner-IsLive,
}
use blizzard_mock.Base.Dict.{lookup, All-lookup}
use blizzard_mock.Hub.Registry.Live.{IsLive, is_live}

-- A call of an operation of the registry, with the id or the token that it mints.
pub data Operation : Type 0 where
  add_runner : String → String → String → String → Option (List String) → Operation
  set_runner_projects : String → List String → Operation
  register :
      String
      → Option String
      → List RunnerCapability
      → Option (List String)
      → Option (List String)
      → Operation
  heartbeat : String → Operation
  enroll : String → String → String → Operation
  revoke_token : String → Operation
  retire : String → Operation

-- The registry once the operation was called.
unfoldable pub operate : (String → String) → Operation → Registry → Registry
operate strip (add_runner r token name tenant_id projects) g =
    (Service.add_runner r token name tenant_id projects g).1
operate strip (set_runner_projects r entries) g = (Service.set_runner_projects r entries g).1
operate strip (register r name capabilities projects bindings) g =
    (Service.register strip r name capabilities projects bindings g).1
operate strip (heartbeat r) g = (Service.heartbeat r g).1
operate strip (enroll r tenant_id token) g = (Service.enroll r tenant_id token g).1
operate strip (revoke_token r) g = (Service.revoke_token r g).1
operate strip (retire r) g = (Service.retire r g).1

unfoldable pub operate_all : (String → String) → List Operation → Registry → Registry
operate_all strip [] g = g
operate_all strip (o ∷ os) g = operate_all strip os (operate strip o g)

module _ (strip : String → String) where
  operate-IsLive : (o : Operation) (g : Registry) → IsLive g → IsLive (operate strip o g)
  unfolding operate
  operate-IsLive (add_runner r token name tenant_id projects) g h =
      add_runner-IsLive g r token name tenant_id projects h
  operate-IsLive (set_runner_projects r entries) g h = set_runner_projects-IsLive g r entries h
  operate-IsLive (register r name capabilities projects bindings) g h =
      register-IsLive g strip r name capabilities projects bindings h
  operate-IsLive (heartbeat r) g h = heartbeat-IsLive g r h
  operate-IsLive (enroll r tenant_id token) g h = enroll-IsLive g r tenant_id token h
  operate-IsLive (revoke_token r) g h = revoke_token-IsLive g r h
  operate-IsLive (retire r) g h = retire-IsLive g r h

  operate_all-IsLive :
      (os : List Operation) (g : Registry) → IsLive g → IsLive (operate_all strip os g)
  unfolding operate_all
  operate_all-IsLive [] g h = h
  operate_all-IsLive (o ∷ os) g h = operate_all-IsLive os (operate strip o g) (operate-IsLive o g h)

-- A token that `principal` takes for a runner's.
abbrev pub Holds : Option String → String → Registry → Type 0
Holds token r g =
    (row : RunnerRow) × (identity token g ≡ ok row) × (row.runner_id ≡ r) × (row.retired_at ≡ none)

resolved :
    (g : Registry) (token r : String)
    → IsLive g
    → principal (some token) g ≡ ok r
    → Holds (some token) r g
unfolding principal identity Service.runner_for_token
resolved g token r h e = elim (Option-cases (lookup token g.tokens)) [
  | inl unknown ↦ ground (arith, e)
  | inr (i, held) ↦
      let live : is_live (get_runner i g) ≡ true =
        All-lookup (λ o. is_live (get_runner o g) ≡ true) token i g.tokens h.live held in
      elim (Option-cases (get_runner i g)) [
        | inl gone ↦ ground (arith, live, gone)
        | inr (row, found) ↦ (
          row,
          ground (arith, live, found, held),
          ground (arith, e, found, held),
          ground (arith, live, found),
        )
      ]
]

-- Whatever operations are called on a registry with live tokens: a token that the api takes as a runner's
-- is one that `identity` answers with that runner's row, and the runner is not retired.
pub principal-Holds :
    (strip : String → String) (os : List Operation) (g : Registry) (token : Option String)
    (r : String)
    → IsLive g
    → principal token (operate_all strip os g) ≡ ok r
    → Holds token r (operate_all strip os g)
unfolding principal
principal-Holds strip os g none r h e = ground (arith, e)
principal-Holds strip os g (some token) r h e =
    resolved (operate_all strip os g) token r (operate_all-IsLive strip os g h) e
