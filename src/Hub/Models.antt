-- ===== src/Hub/Models.antt =====
-- The data of src/blizzard_mock/mock_hub/domain/models.py that the chunk state machine works on. A
-- chunk's seeded garden, analytics, cost, artifact and work-reference payloads, which only views
-- read, are left out.
use blizzard_mock.Base.{ℕ, Bool, String, Option, List}
use blizzard_mock.Base.Dict.{Dict}

pub data Executor : Type 0 where
  runner hub : Executor

pub data SessionMode : Type 0 where
  resume fresh : SessionMode

pub data JudgedBy : Type 0 where
  worker human : JudgedBy

pub data ChunkStatus : Type 0 where
  not_ready ready paused running delivering needs_human done stopped : ChunkStatus

pub data ApplyOutcome : Type 0 where
  next hub_node_taken parked_at_gate outcome_done failure : ApplyOutcome

-- The reserved terminal node id a choice may point at.
abbrev pub terminal : String
terminal = "done"

pub record ChoiceSpec : Type 0 where
  pub name : String
  pub description : String
  pub to : String
  pub requires_checks : Bool

pub record RotatePolicySpec : Type 0 where
  pub max_context_tokens : Option ℕ
  pub max_transcript_bytes : Option ℕ
  pub max_invocations : Option ℕ

pub record NodeSpec : Type 0 where
  pub executor : Executor
  pub session : SessionMode
  pub session_source : Option String
  pub session_name : Option String
  pub session_model : List String
  pub session_effort : Option String
  pub session_harnesses : List String
  pub session_compaction_window : Option String
  pub session_rotate : Option RotatePolicySpec
  pub judged_by : JudgedBy
  pub prompt : Option String
  pub judgement_prompt : Option String
  pub choices : List ChoiceSpec
  pub produces : List String
  pub checks : List String
  pub checks_cwd : Option String
  pub checks_timeout : Option ℕ
  pub retries_max : Option ℕ

pub record EscalationState : Type 0 where
  pub epoch : ℕ
  pub takeover_command : String
  pub wrapped_takeover_command : String
  pub cause : Option String
  pub detail : Option String

pub record ReleaseRecord : Type 0 where
  pub runner_id : String
  pub epoch : ℕ
  pub reason : String

pub record QuestionState : Type 0 where
  pub question_id : String
  pub chunk_id : String
  pub node_id : Option String
  pub session_id : Option String
  pub harness_id : Option String
  pub runner_id : String
  pub epoch : ℕ
  pub question : String
  pub options : List String
  pub asked_at : String
  pub answered : Bool
  pub answer : Option String
  pub answered_by : Option String
  pub answered_at : Option ℕ
  pub delivered : Bool
  pub delivered_at : Option ℕ

-- A choice as the runner sees it: without the node it leads to.
pub record EnvelopeChoice : Type 0 where
  pub name : String
  pub description : String
  pub requires_checks : Bool

pub record NodeConfig : Type 0 where
  pub node_id : String
  pub node_name : String
  pub executor : Executor
  pub session : SessionMode
  pub session_source : Option String
  pub session_name : Option String
  pub session_model : List String
  pub session_effort : Option String
  pub session_harnesses : List String
  pub session_compaction_window : Option String
  pub session_rotate : Option RotatePolicySpec
  pub judged_by : JudgedBy
  pub checks : List String
  pub checks_cwd : Option String
  pub checks_timeout : Option ℕ
  pub produces : List String
  pub retries_max : Option ℕ
  pub choices : List EnvelopeChoice

pub record NodeEnvelope : Type 0 where
  pub chunk_id : String
  pub graph_id : String
  pub graph_name : Option String
  pub epoch : ℕ
  pub node : NodeConfig
  pub prompt : Option String
  pub judgement_prompt : Option String

-- Why a report is refused: the texts of `_fail`, with what they quote.
pub data Detail : Type 0 where
  no_detail parked reached_terminal hub_took_over idempotent_reapply : Detail
  stale_epoch : ℕ → ℕ → Detail
  not_current_node : String → String → ℕ → Detail
  attempt_escalated : ℕ → Detail
  question_open : String → Detail
  unknown_node : String → Detail
  node_hub_executed : String → Detail
  unknown_choice : String → String → Detail
  choice_points_nowhere : String → Detail

pub record ApplyResponse : Type 0 where
  pub outcome : ApplyOutcome
  pub detail : Detail
  pub next_envelope : Option NodeEnvelope

pub record ChunkState : Type 0 where
  pub chunk_id : String
  pub project_id : String
  pub graph_id : String
  pub graph_name : Option String
  pub default_model : List String
  pub default_effort : Option String
  pub default_harnesses : List String
  pub entry : String
  pub nodes : Dict String NodeSpec
  pub current_node_id : Option String
  pub status : ChunkStatus
  pub status_before_pause : Option ChunkStatus
  -- The fence: the newest minted epoch reported for the chunk.
  pub latest_epoch : ℕ
  pub claimed : Bool
  pub route_runner_id : Option String
  pub route_workspace_id : Option String
  pub route_environment_ids : List String
  pub route_token_rekey_count : ℕ
  pub live_route_token : Option String
  -- The source's key is the text "node#epoch".
  pub applied : Dict (String × ℕ) ApplyOutcome
  pub last_response : Option ApplyResponse
  pub escalation : Option EscalationState
  pub releases : List ReleaseRecord
