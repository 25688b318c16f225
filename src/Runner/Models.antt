-- ===== src/Runner/Models.antt =====
-- The data of src/blizzard_mock/mock_runner/domain/models.py, and of the requests and replies of the
-- gateway. A JSON value that the driver only passes on is a text; of a reply's body the members that
-- the driver reads are fields, `none` when the key is missing.
use blizzard_mock.Base.{ℕ, Bool, String, Option, List}
use blizzard_mock.Base.Dict.{Dict}
use blizzard_mock.Levers.{LeverStore}

pub data RunnerLever : Type 0 where
  delay drop_ack conflicting_fact unreachable replay stale_epoch : RunnerLever
  stale_route_token omit_route_token : RunnerLever

-- The text of a member, which is the kind of the shared lever.
unfoldable pub lever_value : RunnerLever → String
lever_value delay = "delay"
lever_value drop_ack = "drop_ack"
lever_value conflicting_fact = "conflicting_fact"
lever_value unreachable = "unreachable"
lever_value replay = "replay"
lever_value stale_epoch = "stale_epoch"
lever_value stale_route_token = "stale_route_token"
lever_value omit_route_token = "omit_route_token"

-- The body of a completion.
pub record Submission : Type 0 where
  pub choice : String
  pub epoch : ℕ
  pub from_node_id : String
  pub check_results : List String
  pub artifacts : List String
  pub route_token : Option String

pub record Decision : Type 0 where
  pub from_node_id : String
  pub epoch : ℕ
  pub artifacts : List String
  pub route_token : Option String

pub record Held : Type 0 where
  pub chunk_id : String
  pub epoch : ℕ
  pub from_node_id : String
  pub route_token : Option String
  pub last_submission : Option Submission

pub record RouteClaim : Type 0 where
  pub chunk_id : String
  pub workspace_id : String
  pub environment_ids : List String

pub record Registration : Type 0 where
  pub name : String
  pub workspace_id : String
  pub capabilities : List String
  pub subscriptions : Option (List String)
  pub declining : Option (List String)
  pub version : String

-- The payload of a fact, by its kind; the route token that `_stamped` adds is its last member.
pub data Payload : Type 0 where
  lease_minted : String → ℕ → Option String → Payload
  escalation_recorded :
      String → ℕ → String → String → Option String → Option String → Option String → Payload
  question_asked : String → String → String → String → ℕ → String → List String → ℕ → Payload
  runner_locally_paused : ℕ → String → Option String → Payload
  runner_locally_resumed : ℕ → String → Payload
  event_recorded :
      String
      → String
      → String
      → Option String
      → Option String
      → Option String
      → Option String
      → Payload
  usage_sampled : Option String → String → List String → Option String → Payload
  usage_missed : Option String → String → String → Option String → Payload

pub record PushedFact : Type 0 where
  pub seq : ℕ
  pub payload : Payload

-- A turn of a transcript: `_placeholder_turn`'s, made at a reading of the clock, or one that was given.
pub data Turn : Type 0 where
  placeholder_turn : ℕ → Turn
  given_turn : String → Turn

pub record TranscriptRecord : Type 0 where
  pub seq : ℕ
  pub segment_id : String
  pub chunk_id : String
  pub node_id : String
  pub epoch : ℕ
  pub spawn_generation : ℕ
  pub turn_range_start : ℕ
  pub turn_range_end : ℕ
  pub final : Bool
  pub harness_id : String
  pub normalizer_version : String
  pub harness_version : Option String
  pub record_truncated : Bool
  pub turns : List Turn

-- One entry of a peeked queue: `blocked` is the mark, if there is one.
pub record QueueEntry : Type 0 where
  pub chunk_id : String
  pub blocked : Option String

-- An envelope in a reply: `node.node_id` and `epoch`.
pub record WireEnvelope : Type 0 where
  pub node_id : Option String
  pub epoch : Option ℕ

pub record Body : Type 0 where
  pub runner_id : Option String
  pub entries : List QueueEntry
  pub envelope : Option WireEnvelope
  pub route_token : Option String
  pub outcome : Option String
  pub next_envelope : Option WireEnvelope
  pub rest : String

pub record Declaration : Type 0 where
  pub forge : String
  pub repo : String
  pub branch : String
  pub commit : String

abbrev pub Headers : Type 0
Headers = Dict String String

-- `MockRunnerService`'s own state, with its lever store and its clock's reading.
pub record Driver : Type 0 where
  pub name : String
  pub workspace_id : String
  pub runner_id : Option String
  pub held : Dict String Held
  pub runner_seq : ℕ
  pub transcript_seq : ℕ
  pub git_commit_declarations : Dict String (Dict String Declaration)
  pub levers : LeverStore
  pub now : ℕ
