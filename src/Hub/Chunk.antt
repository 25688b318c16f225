-- ===== src/Hub/Chunk.antt =====
-- The chunk's own rules, `ChunkState` and `QuestionState` of
-- src/blizzard_mock/mock_hub/domain/models.py. A refusal is an exception of the source.
use blizzard_mock.Base.{
  ℕ, Bool, true, false, not, ◌||◌, String, Option, none, some, List, [], ◌∷◌, ◌++◌, nat_eq,
  string_eq, option_eq, ◌==◌, if◌then◌else◌, Result, ok, err, is_none, get_or,
}
use blizzard_mock.Base.Dict.{lookup}
use blizzard_mock.Base.Lists.{length}
use blizzard_mock.Hub.Models.{
  Executor, runner, hub, ChunkStatus, ready, paused, running, delivering, needs_human, done,
  stopped, NodeSpec, ChunkState, QuestionState, EscalationState, Detail, not_current_node,
  attempt_escalated, question_open, node_hub_executed,
}

pub data Refusal : Type 0 where
  claim_conflict : String → Refusal
  claim_denied_terminal claim_denied_not_ready rekey_denied_terminal : ChunkStatus → Refusal
  release_not_holder release_not_running release_stale no_current_node : Refusal

-- `status is …`
abbrev pub is_done : ChunkStatus → Bool
is_done done = true
is_done s = false

abbrev pub is_ready : ChunkStatus → Bool
is_ready ready = true
is_ready s = false

abbrev pub is_running : ChunkStatus → Bool
is_running running = true
is_running s = false

abbrev pub is_paused : ChunkStatus → Bool
is_paused paused = true
is_paused s = false

abbrev pub is_needs_human : ChunkStatus → Bool
is_needs_human needs_human = true
is_needs_human s = false

-- `status in TERMINAL_STATUSES`
abbrev pub is_terminal : ChunkStatus → Bool
is_terminal done = true
is_terminal stopped = true
is_terminal s = false

-- `status in PAUSABLE_STATUSES`
abbrev pub is_pausable : ChunkStatus → Bool
is_pausable done = false
is_pausable stopped = false
is_pausable delivering = false
is_pausable s = true

unfoldable pub status_if_paused : ChunkStatus → ChunkStatus
status_if_paused s = if not (is_pausable s) || is_needs_human s then s else paused

abbrev pub is_hub : Executor → Bool
is_hub hub = true
is_hub runner = false

-- `ChunkState.node`
unfoldable pub node : ChunkState → String → Option NodeSpec
node c node_id = lookup node_id c.nodes

abbrev pub ended : ChunkState → Bool
ended c = is_terminal c.status

abbrev or_unknown : Option String → String
or_unknown none = "unknown"
or_unknown (some r) = if r == "" then "unknown" else r

unfoldable pub refuse_claim : ChunkState → Result Refusal (Unit {0})
refuse_claim c =
    if ended c
    then err (claim_denied_terminal c.status)
    else if c.claimed
    then err (claim_conflict (or_unknown c.route_runner_id))
    else if not (is_ready c.status)
    then err (claim_denied_not_ready c.status)
    else ok tt

unfoldable pub refuse_rekey : ChunkState → Result Refusal (Unit {0})
refuse_rekey c = if ended c then err (rekey_denied_terminal c.status) else ok tt

unfoldable pub refuse_release : ChunkState → String → ℕ → Result Refusal (Unit {0})
refuse_release c runner_id epoch =
    if ended c
    then err release_not_holder
    else if not c.claimed || not (c.route_runner_id == some runner_id)
    then err release_not_holder
    else if not (is_running c.status)
    then err release_not_running
    else if not (epoch == c.latest_epoch)
    then err release_stale
    else ok tt

-- `ChunkState.release`: the chunk given back, and the id of the release recorded.
unfoldable pub release : ChunkState → String → ℕ → String → Result Refusal (ChunkState × ℕ)
release c runner_id epoch reason = elim (refuse_release c runner_id epoch) [
  | err e ↦ err e
  | ok _ ↦
      let releases =
        c.releases ++ record { runner_id = runner_id; epoch = epoch; reason = reason } ∷ [] in
      ok (
        record c {
          claimed = false;
          route_runner_id = none;
          route_workspace_id = none;
          route_environment_ids = [];
          status = ready;
          releases = releases;
        },
        length releases,
      )
]

unfoldable pub refuse_envelope : ChunkState → Result Refusal (Unit {0})
refuse_envelope c = if ended c then err no_current_node else ok tt

abbrev escalated_at : Option EscalationState → ℕ → Bool
escalated_at none epoch = false
escalated_at (some e) epoch = e.epoch == epoch

abbrev off_node : Option String → String → Bool
off_node none from_node_id = false
off_node (some current) from_node_id = not (from_node_id == current)

-- Why the attempt cannot report out of `from_node_id`; `open_question_ids` are its unanswered questions.
unfoldable pub incoherent_attempt : ChunkState → String → ℕ → List String → Option Detail
incoherent_attempt c from_node_id epoch open_question_ids =
    if off_node c.current_node_id from_node_id
    then some (not_current_node from_node_id (get_or c.current_node_id "") epoch)
    else if escalated_at c.escalation epoch
    then some (attempt_escalated epoch)
    else elim open_question_ids [ [] ↦ none | q ∷ _ ↦ some (question_open q) ]

unfoldable pub hub_executed : ChunkState → String → Option Detail
hub_executed c from_node_id = elim (node c from_node_id) [
  | none ↦ none
  | some n ↦ if is_hub n.executor then some (node_hub_executed from_node_id) else none
]

unfoldable pub ships_from_lease_holder : Option String → String → Bool
ships_from_lease_holder owner runner_id = is_none owner || owner == some runner_id

pub data DeliveryRefusal : Type 0 where
  other_chunk not_answered : DeliveryRefusal

-- `QuestionState.delivery_refusal`
unfoldable pub delivery_refusal : QuestionState → String → Option DeliveryRefusal
delivery_refusal q chunk_id =
    if not (chunk_id == q.chunk_id)
    then some other_chunk
    else if not q.answered
    then some not_answered
    else none
