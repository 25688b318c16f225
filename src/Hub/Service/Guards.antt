-- ===== src/Hub/Service/Guards.antt =====
-- The checks that the handlers of the service open with; some consume the lever that they find.
use blizzard_mock.Base.{
  ℕ, Bool, true, String, Option, none, some, List, [], ◌∷◌, string_eq, ◌==◌, if◌then◌else◌, is_none,
  get_or, Result, ok, err, Action,
}
use blizzard_mock.Base.Dict.{lookup}
use blizzard_mock.Levers.{Lever, find, consume}
use blizzard_mock.Hub.Models.{
  ChunkStatus, EnvelopeChoice, ChoiceSpec, NodeSpec, NodeConfig, NodeEnvelope, ChunkState,
}
use blizzard_mock.Hub.Chunk.{Refusal, node}
use blizzard_mock.Hub.State.{Hub, RunnerRow, ServedEntry, get_chunk}
use blizzard_mock.Hub.Levers.{HubLever, value, pinned_graph_missing, dependency_unmet}
use mathlib.Core.List.{map}

pub data HubError : Type 0 where
  refused : Refusal → HubError
  chunk_not_found question_not_found no_such_node pinned_graph_gone runner_retired : HubError
  rekey_not_holder unknown_runner claim_unregistered claim_paused : HubError
  claim_runner_lever : HubLever → HubError
  dependency_blocked : String → HubError
  incompatible_project incompatible_capability : HubError
  chunk_not_pausable : ChunkStatus → HubError

abbrev pub Handler : Type 0 → Type 0
Handler A = Action Hub HubError A

-- An exception of the chunk's own rules leaves the handler.
abbrev pub lift : {A : Type 0} → Result Refusal A → Handler A
lift (ok a) h = (ok a, h)
lift (err e) h = (err (refused e), h)

abbrev pub find_lever : HubLever → String → Hub → Option Lever
find_lever kind chunk_id h = find (value kind) (some chunk_id) h.levers

abbrev pub consume_lever : Lever → Hub → Hub
consume_lever l h = record h { levers = consume l h.levers }

-- `_require`
unfoldable pub require : String → Handler ChunkState
require chunk_id h = elim (get_chunk chunk_id h) [
  | none ↦ (err chunk_not_found, h)
  | some c ↦ (ok c, h)
]

unfoldable pub check_pinned_graph : String → Handler (Unit {0})
check_pinned_graph chunk_id h = elim (find_lever pinned_graph_missing chunk_id h) [
  | none ↦ (ok tt, h)
  | some l ↦ (err pinned_graph_gone, consume_lever l h)
]

unfoldable pub refuse_retired_runner : String → Handler (Unit {0})
refuse_retired_runner runner_id h = elim (lookup runner_id h.runners) [
  | none ↦ (ok tt, h)
  | some row ↦ if is_none row.retired_at then (ok tt, h) else (err runner_retired, h)
]

-- `"runner_id" not in payload or payload["runner_id"] == runner_id`
abbrev pub names_runner : Option String → String → Bool
names_runner none runner_id = true
names_runner (some r) runner_id = r == runner_id

-- One round of the loop of `claim` over the two runner-refusing levers.
unfoldable pub refuse_by_claim_lever : HubLever → String → String → Handler (Unit {0})
refuse_by_claim_lever kind chunk_id runner_id h = elim (find_lever kind chunk_id h) [
  | none ↦ (ok tt, h)
  | some l ↦
      if names_runner (lookup "runner_id" l.payload) runner_id
      then (err (claim_runner_lever kind), consume_lever l h)
      else (ok tt, h)
]

-- `refuse_braked_runner` over `get_runner`; never connected is `registered_at is None`.
unfoldable pub refuse_braked_runner : String → Handler RunnerRow
refuse_braked_runner runner_id h = elim (lookup runner_id h.runners) [
  | none ↦ (err claim_unregistered, h)
  | some row ↦
      if is_none row.registered_at
      then (err claim_unregistered, h)
      else if row.paused
      then (err claim_paused, h)
      else (ok row, h)
]

unfoldable pub refuse_dependency : String → Handler (Unit {0})
refuse_dependency chunk_id h = elim (find_lever dependency_unmet chunk_id h) [
  | none ↦ (ok tt, h)
  | some l ↦ (
    err (dependency_blocked (get_or (lookup "prerequisite_chunk_id" l.payload) "unknown")),
    consume_lever l h,
  )
]

-- `_served_project_ids`
unfoldable pub served_project_ids : List ServedEntry → List String
served_project_ids [] = []
served_project_ids (e ∷ es) = elim e.project_id [
  | none ↦ served_project_ids es
  | some p ↦ p ∷ served_project_ids es
]

abbrev envelope_choice : ChoiceSpec → EnvelopeChoice
envelope_choice ch = record {
  name = ch.name;
  description = ch.description;
  requires_checks = ch.requires_checks;
}

unfoldable pub node_config : String → NodeSpec → NodeConfig
node_config node_id n = record {
  node_id = node_id;
  node_name = node_id;
  executor = n.executor;
  session = n.session;
  session_source = n.session_source;
  session_name = n.session_name;
  session_model = n.session_model;
  session_effort = n.session_effort;
  session_harnesses = n.session_harnesses;
  session_compaction_window = n.session_compaction_window;
  session_rotate = n.session_rotate;
  judged_by = n.judged_by;
  checks = n.checks;
  checks_cwd = n.checks_cwd;
  checks_timeout = n.checks_timeout;
  produces = n.produces;
  retries_max = n.retries_max;
  choices = map envelope_choice n.choices;
}

abbrev pub node_envelope : ChunkState → String → ℕ → NodeSpec → NodeEnvelope
node_envelope c node_id epoch n = record {
  chunk_id = c.chunk_id;
  graph_id = c.graph_id;
  graph_name = c.graph_name;
  epoch = epoch;
  node = node_config node_id n;
  prompt = n.prompt;
  judgement_prompt = n.judgement_prompt;
}

-- `_envelope`, less the work references and artifacts; `no_such_node` is the `ChunkNotFound` that
-- names a node.
unfoldable pub envelope : ChunkState → String → ℕ → Handler NodeEnvelope
envelope c node_id epoch h = elim (node c node_id) [
  | none ↦ (err no_such_node, h)
  | some n ↦ (ok (node_envelope c node_id epoch n), h)
]
