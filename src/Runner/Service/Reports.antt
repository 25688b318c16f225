-- ===== src/Runner/Service/Reports.antt =====
-- The verbs that push facts and transcripts.
use Prim.Native.String.{◌++◌}
use blizzard_mock.Base.{ℕ, ◌+◌, ◌-◌, Bool, String, Option, none, List, [], ◌∷◌, get_or}
use blizzard_mock.Base.Lists.{length}
use blizzard_mock.Runner.Models.{
  Held, Driver, escalation_recorded, question_asked, runner_locally_paused, runner_locally_resumed,
  event_recorded, usage_sampled, usage_missed, Turn, placeholder_turn,
}
use blizzard_mock.Runner.Gateway.{IHubGateway}
use blizzard_mock.Runner.Service.Base.{
  Answer, asked, apply_delay, drove_call, push_fact, report, report_observed,
}
use blizzard_mock.Runner.Service.Leases.{with_held}

abbrev claude_code_harness_id : String
claude_code_harness_id = "claude_code"

abbrev or_placeholder : List Turn → ℕ → List Turn
or_placeholder [] now = placeholder_turn now ∷ []
or_placeholder (t ∷ turns) now = t ∷ turns

module _ {W : Type 0} (gw : IHubGateway W) where
  unfoldable pub escalate :
      String → String → String → Option String → Option String → Driver × W → Answer × (Driver × W)
  escalate chunk_id takeover_command wrapped_takeover_command cause detail =
      with_held gw chunk_id (λ l. report gw (
        escalation_recorded chunk_id l.epoch takeover_command wrapped_takeover_command cause detail
          l.route_token))

  -- A question under an id made of the digits `hex` of a fresh uuid.
  unfoldable pub ask_held :
      String → String → List String → Option String → Held → Driver × W → Answer × (Driver × W)
  ask_held hex question options harness_id l (d, w) =
      let question_id = "mock-question-" ++ hex in
      let (reply, (d', w')) =
        push_fact gw
          (question_asked question_id l.chunk_id ("mock-session-" ++ l.chunk_id)
            (get_or harness_id claude_code_harness_id) l.epoch question options d.now)
          (d, w) in
      (asked question_id reply.0 reply.1 (gw.last_response_headers w'), (d', w'))

  unfoldable pub ask :
      String → String → String → List String → Option String → Driver × W → Answer × (Driver × W)
  ask hex chunk_id question options harness_id =
      with_held gw chunk_id (ask_held hex question options harness_id)

  unfoldable pub push_segment :
      String → List Turn → Bool → Bool → Option String → Held → Driver × W → Answer × (Driver × W)
  push_segment segment_id turns final record_truncated harness_id l (d, w) =
      let turn_list = or_placeholder turns d.now in
      let seq = d.transcript_seq + 1 in
      let r =
        gw.push_transcripts
          (record {
            seq = seq;
            segment_id = segment_id;
            chunk_id = l.chunk_id;
            node_id = l.from_node_id;
            epoch = l.epoch;
            spawn_generation = 1;
            turn_range_start = 0;
            turn_range_end = length turn_list - 1;
            final = final;
            harness_id = get_or harness_id claude_code_harness_id;
            normalizer_version = "mock/1";
            harness_version = none;
            record_truncated = record_truncated;
            turns = turn_list;
          }
            ∷ [])
          w in
      (drove_call gw r, (record d { transcript_seq = seq }, r.1))

  unfoldable pub push_transcript :
      String → String → List Turn → Bool → Bool → Option String → Driver × W → Answer × (Driver × W)
  push_transcript chunk_id segment_id turns final record_truncated harness_id =
      with_held gw chunk_id (push_segment segment_id turns final record_truncated harness_id)

  unfoldable pub pause : String → Option String → Driver × W → Answer × (Driver × W)
  pause by reason (d, w) =
      report_observed gw (runner_locally_paused d.now by reason) (apply_delay none d, w)

  unfoldable pub resume : String → Driver × W → Answer × (Driver × W)
  resume by (d, w) = report_observed gw (runner_locally_resumed d.now by) (apply_delay none d, w)

  unfoldable pub report_event :
      String
      → String
      → String
      → Option String
      → Option String
      → Option String
      → Option String
      → Driver × W
      → Answer × (Driver × W)
  report_event severity kind message chunk_id lease_id node_name detail (d, w) =
      report gw (event_recorded severity kind message chunk_id lease_id node_name detail)
        (apply_delay chunk_id d, w)

  unfoldable pub report_external_usage :
      Option String → String → List String → Option String → Driver × W → Answer × (Driver × W)
  report_external_usage slug sampled_at windows name (d, w) =
      report gw (usage_sampled slug sampled_at windows name) (apply_delay none d, w)

  unfoldable pub report_external_usage_miss :
      Option String → String → String → Option String → Driver × W → Answer × (Driver × W)
  report_external_usage_miss slug missed_at reason name (d, w) =
      report gw (usage_missed slug missed_at reason name) (apply_delay none d, w)
