-- ===== src/Runner/Gateway.antt =====
-- The seam of src/blizzard_mock/mock_runner/domain/gateway.py: what the driver may call of a hub, over
-- a state `W` of the hub's side. A call returns the status and the body, and leaves the headers and
-- the classified refusals of the last response to be read.
use blizzard_mock.Base.{ℕ, Bool, String, Option, List}
use blizzard_mock.Runner.Models.{
  Body, Headers, RouteClaim, Registration, Submission, Decision, PushedFact, TranscriptRecord,
}

abbrev pub Reply : Type 0
Reply = ℕ × Body

pub record IHubGateway (W : Type 0) : Type 0 where
  pub register : Registration → W → Reply × W
  pub peek : W → Reply × W
  pub peek_matched : Bool → List String → String → W → Reply × W
  pub claim : RouteClaim → W → Reply × W
  pub submit_completion : String → Submission → W → Reply × W
  pub get_chunk : String → W → Reply × W
  pub chunk_statuses : List String → W → Reply × W
  pub submit_decision : String → Decision → W → Reply × W
  pub get_question : String → W → Reply × W
  pub push_facts : List PushedFact → W → Reply × W
  pub push_transcripts : List TranscriptRecord → W → Reply × W
  pub last_response_headers : W → Headers
  pub last_claim_refusal : W → Option String
  pub last_nonclaim_refusal : W → Option String
