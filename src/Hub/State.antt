-- ===== src/Hub/State.antt =====
-- The rows of src/blizzard_mock/mock_hub/domain/state.py and the in-memory maps of
-- src/blizzard_mock/mock_hub/internal/state_store.py that the chunk service reads and writes. Of a
-- runner's row the fields that only views read are left out.
use blizzard_mock.Base.{ℕ, Bool, String, Option, List, string_eq}
use blizzard_mock.Base.Dict.{Dict, lookup, insert, values}
use blizzard_mock.Levers.{LeverStore}
use blizzard_mock.Hub.Models.{ChunkState, QuestionState}

pub record RunnerCapability : Type 0 where
  pub harness_id : String
  pub version : Option String
  pub tiers : List String
  pub supported_models : List String
  pub default : Bool
  pub available : Bool

pub record ServedEntry : Type 0 where
  pub entry : String
  pub project_id : Option String

pub record RunnerRow : Type 0 where
  pub runner_id : String
  pub tenant_id : String
  pub name : String
  pub host_id : Option String
  pub registered_at : Option ℕ
  pub last_seen_at : Option ℕ
  pub capabilities : List RunnerCapability
  pub projects : List ServedEntry
  pub paused : Bool
  pub retired_at : Option ℕ

pub record ProjectRow : Type 0 where
  pub project_id : String
  pub tenant_id : String
  pub slug : String
  pub name : String

-- What a runner reports about itself, its usage samples and misses as opaque texts by slug.
pub record ReportedRunnerFacts : Type 0 where
  pub locally_paused : Bool
  pub locally_paused_by : Option String
  pub locally_paused_reason : Option String
  pub subscription_usage : Dict String String
  pub subscription_usage_misses : Dict String String

-- The service's state: the hub's maps, the levers, the clock's reading, and the service's own maps.
pub record Hub : Type 0 where
  pub chunks : Dict String ChunkState
  pub questions : Dict String QuestionState
  pub runners : Dict String RunnerRow
  pub projects : Dict String ProjectRow
  pub reported : Dict String ReportedRunnerFacts
  pub levers : LeverStore
  pub now : ℕ
  pub fact_high_water : Dict String ℕ
  -- (tenant, chunk, epoch) to the runner that first minted the epoch
  pub epoch_owners : Dict (String × (String × ℕ)) String

unfoldable pub get_chunk : String → Hub → Option ChunkState
get_chunk chunk_id h = lookup chunk_id h.chunks

abbrev pub put_chunk : ChunkState → Hub → Hub
put_chunk c h = record h { chunks = insert c.chunk_id c h.chunks }

abbrev pub list_chunks : Hub → List ChunkState
list_chunks h = values h.chunks

abbrev pub put_question : QuestionState → Hub → Hub
put_question q h = record h { questions = insert q.question_id q h.questions }

abbrev pub list_questions : Hub → List QuestionState
list_questions h = values h.questions
