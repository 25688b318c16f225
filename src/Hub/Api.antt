-- ===== src/Hub/Api.antt =====
-- The fleet routes of src/blizzard_mock/mock_hub/api: the middleware's levers, the dependencies, and the
-- handlers that claim a route, take completions, decisions and facts. A bearer token is the id of the
-- runner it resolves to, and a call names no other tenant in its header. Of a body the problem kind and
-- the error or answer are kept.
use blizzard_mock.Base.{
  ℕ, Bool, String, Option, none, some, List, string_eq, ◌==◌, if◌then◌else◌, Result, ok, err,
}
use blizzard_mock.Base.Dict.{lookup}
use blizzard_mock.Levers.{find}
use blizzard_mock.Hub.Models.{ApplyResponse}
use blizzard_mock.Hub.Chunk.{claim_conflict, claim_denied_terminal, claim_denied_not_ready}
use blizzard_mock.Hub.State.{Hub, RunnerRow, get_chunk}
use blizzard_mock.Hub.Levers.{
  HubLever, value, unreachable, delay, legacy_claim_refusals, legacy_read_refusals,
  legacy_auth_refusals, claim_runner_retired,
}
use blizzard_mock.Hub.Service.Guards.{
  HubError, refused, chunk_not_found, no_such_node, pinned_graph_gone, runner_retired,
  claim_unregistered, claim_paused, claim_runner_lever, dependency_blocked, incompatible_project,
  incompatible_capability, consume_lever, refuse_retired_runner,
}
use blizzard_mock.Hub.Service.Route.{RouteClaimResponse, claim}
use blizzard_mock.Hub.Service.Apply.{apply_completion, apply_decision, pop_drop_ack}
use blizzard_mock.Hub.Service.Facts.{SeqFact, FactAck, ingest_facts}

pub data Content : Type 0 where
  route_claimed : RouteClaimResponse → Content
  answered : ApplyResponse → Content
  acked : FactAck → Content
  refusal : HubError → Content
  hub_unreachable unresolved_token ack_dropped : Content

-- `problem` is the kind of a problem document; a plain or a legacy body has none.
pub record Response : Type 0 where
  pub status : ℕ
  pub problem : Option String
  pub content : Content

abbrev pub plain : ℕ → Content → Response
plain status content = record { status = status; problem = none; content = content }

-- A refusal: a problem document, or the legacy body when the lever is armed, which is consumed.
unfoldable pub refuse_as : HubLever → Option String → ℕ → String → HubError → Hub → Response × Hub
refuse_as legacy chunk_id status kind e h = elim (find (value legacy) chunk_id h.levers) [
  | none ↦ (record { status = status; problem = some kind; content = refusal e }, h)
  | some l ↦ (plain status (refusal e), consume_lever l h)
]

-- `read_refusal`, and `_resource_refusal` for the chunk of a pinned graph that is gone
unfoldable pub read_refusal : String → HubError → Hub → Response × Hub
read_refusal chunk_id e = refuse_as legacy_read_refusals (some chunk_id) 404 "chunk-not-found" e

unfoldable pub pinned_graph_read_refusal : String → Hub → Response × Hub
pinned_graph_read_refusal chunk_id =
    refuse_as legacy_read_refusals (some chunk_id) 500 "pinned-graph-missing" pinned_graph_gone

-- The status and the problem kind of the `except` clauses of `claim_route`.
unfoldable pub claim_problem : HubError → Option (ℕ × String)
claim_problem claim_unregistered = some (403, "claim-runner-unregistered")
claim_problem claim_paused = some (403, "claim-paused")
claim_problem (refused (claim_denied_terminal s)) = some (409, "claim-terminal")
claim_problem (refused (claim_conflict holder)) = some (409, "claim-conflict")
claim_problem (refused (claim_denied_not_ready s)) = some (409, "claim-not-ready")
claim_problem (dependency_blocked p) = some (409, "claim-dependency")
claim_problem incompatible_project = some (409, "claim-incompatible")
claim_problem incompatible_capability = some (409, "claim-incompatible")
claim_problem chunk_not_found = some (404, "chunk-not-found")
claim_problem no_such_node = some (404, "chunk-not-found")
claim_problem (claim_runner_lever claim_runner_retired) = some (403, "claim-runner-retired")
claim_problem (claim_runner_lever kind) = some (403, "claim-runner-version-refused")
claim_problem runner_retired = some (403, "claim-runner-retired")
claim_problem e = none

-- `_claim_refusal`; an exception that no clause names is a server error.
unfoldable pub claim_refusal : String → HubError → Option (ℕ × String) → Hub → Response × Hub
claim_refusal k e none h = (plain 500 (refusal e), h)
claim_refusal k e (some (status, kind)) h = refuse_as legacy_claim_refusals (some k) status kind e h

abbrev pinned_graph_problem : Response
pinned_graph_problem = record {
  status = 500;
  problem = some "pinned-graph-missing";
  content = refusal pinned_graph_gone;
}

-- `claim_route`'s `except` clauses: a missing graph is answered without the legacy lever.
unfoldable pub claim_error : String → HubError → Hub → Response × Hub
claim_error k pinned_graph_gone h = (pinned_graph_problem, h)
claim_error k e h = claim_refusal k e (claim_problem e) h

-- The `except` clauses of `submit_completion` and `submit_decision`.
unfoldable pub apply_error : String → HubError → Hub → Response × Hub
apply_error k chunk_not_found h = read_refusal k chunk_not_found h
apply_error k no_such_node h = read_refusal k no_such_node h
apply_error k pinned_graph_gone h = pinned_graph_read_refusal k h
apply_error k e h = (plain 500 (refusal e), h)

-- `HubLeverMiddleware.dispatch` on a fleet route whose path names this chunk, if any; the wait of the
-- delay lever is left out.
unfoldable pub dispatch : Option String → (Hub → Response × Hub) → Hub → Response × Hub
dispatch chunk_id call_next h = elim (find (value unreachable) chunk_id h.levers) [
  | some l ↦ (plain 503 hub_unreachable, consume_lever l h)
  | none ↦ elim (find (value delay) chunk_id h.levers) [
    | some l ↦ call_next (consume_lever l h)
    | none ↦ call_next h
  ]
]

-- `get_principal`
unfoldable pub get_principal : String → (RunnerRow → Hub → Response × Hub) → Hub → Response × Hub
get_principal runner_id call_next h = elim (lookup runner_id h.runners) [
  | none ↦ (plain 401 unresolved_token, h)
  | some row ↦ call_next row h
]

-- `require_active_runner`, and the handler of its refusal
unfoldable pub require_active_runner : String → (Hub → Response × Hub) → Hub → Response × Hub
require_active_runner runner_id call_next h = elim (refuse_retired_runner runner_id h).0 [
  | ok _ ↦ call_next h
  | err e ↦ refuse_as legacy_auth_refusals none 403 "runner-retired" e h
]

-- `MockHubService.refuse_foreign_runner_chunk`
unfoldable pub refuse_foreign_runner_chunk : String → RunnerRow → Hub → Result HubError (Unit {0})
refuse_foreign_runner_chunk chunk_id row h = elim (get_chunk chunk_id h) [
  | none ↦ ok tt
  | some c ↦ elim (lookup c.project_id h.projects) [
    | none ↦ err chunk_not_found
    | some p ↦ if p.tenant_id == row.tenant_id then ok tt else err chunk_not_found
  ]
]

-- `require_runner_chunk`, and the handler of its refusal
unfoldable pub require_runner_chunk :
    String → RunnerRow → (Hub → Response × Hub) → Hub → Response × Hub
require_runner_chunk chunk_id row call_next h = elim (refuse_foreign_runner_chunk chunk_id row h) [
  | ok _ ↦ call_next h
  | err e ↦ read_refusal chunk_id e h
]

-- What the routes make of a service call's result.
unfoldable pub claim_response : String → Result HubError RouteClaimResponse × Hub → Response × Hub
claim_response k (ok granted, h) = (plain 201 (route_claimed granted), h)
claim_response k (err e, h) = claim_error k e h

unfoldable pub completion_response : String → Result HubError ApplyResponse × Hub → Response × Hub
completion_response k (err e, h) = apply_error k e h
completion_response k (ok response, h) =
    let (dropped, h') = pop_drop_ack k h in
    (if dropped then plain 503 ack_dropped else plain 200 (answered response), h')

unfoldable pub decision_response : String → Result HubError ApplyResponse × Hub → Response × Hub
decision_response k (err e, h) = apply_error k e h
decision_response k (ok response, h) = (plain 200 (answered response), h)

-- A route under `/chunks/{chunk_id}` of the fleet router.
unfoldable pub chunk_route : String → String → (Hub → Response × Hub) → Hub → Response × Hub
chunk_route runner_id chunk_id handler = dispatch (some chunk_id) (
    get_principal runner_id
      (λ row. require_active_runner runner_id (require_runner_chunk chunk_id row handler)))

unfoldable pub submit_completion : String → String → ℕ → String → String → Hub → Response × Hub
submit_completion runner_id k epoch from_node_id choice =
    chunk_route runner_id k
      (λ h. completion_response k (apply_completion k epoch from_node_id choice h))

unfoldable pub submit_decision : String → String → ℕ → String → Hub → Response × Hub
submit_decision runner_id k epoch from_node_id =
    chunk_route runner_id k (λ h. decision_response k (apply_decision k epoch from_node_id h))

unfoldable pub push_facts : String → List SeqFact → Hub → Response × Hub
push_facts runner_id facts = dispatch none (
    get_principal runner_id (λ row.
      require_active_runner runner_id
        (λ h. let (ack, h') = ingest_facts row facts h in (plain 200 (acked ack), h'))))

module _ (fnmatchcase : String → String → Bool) where
  unfoldable pub claim_on_route :
      String → String → String → List String → RunnerRow → Hub → Response × Hub
  claim_on_route runner_id k workspace_id environment_ids row h =
      elim (refuse_foreign_runner_chunk k row h) [
        | err e ↦ claim_error k e h
        | ok _ ↦ claim_response k (claim fnmatchcase k runner_id workspace_id environment_ids h)
      ]

  unfoldable pub claim_route : String → String → String → List String → Hub → Response × Hub
  claim_route runner_id k workspace_id environment_ids =
      dispatch none
        (get_principal runner_id (claim_on_route runner_id k workspace_id environment_ids))
