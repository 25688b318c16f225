-- ===== src/Runner/Tests.antt =====
-- Runs of the driver against a scripted hub, and instances of its theorems.
use blizzard_mock.Base.{
  ◌≡◌, ◌≢◌, refl, ℕ, ◌+◌, true, false, String, none, some, List, [], ◌∷◌, arith, string_eq,
}
use blizzard_mock.Base.Dict.{lookup, insert}
use blizzard_mock.Base.Keyed.{IsKeyed}
use blizzard_mock.Base.Lists.{first}
use blizzard_mock.Levers.{find}
use blizzard_mock.Runner.Models.{Driver, Held, Body, lever_value}
use blizzard_mock.Runner.Gateway.{IHubGateway}
use blizzard_mock.Runner.Service.Base as ServiceBase
use blizzard_mock.Runner.Service.Leases as Leases
use blizzard_mock.Runner.Service.Reports as Reports
use blizzard_mock.Runner.Drive.{
  Verb, drive, drive_all, claim_next, complete, pause, push_transcript,
}
use blizzard_mock.Runner.Numbering.{recorded, Numbered}
use blizzard_mock.Runner.Numbering.Runs.{lanes-Numbered, no_log}
use blizzard_mock.Runner.Selecting.{Picked, select_next-Picked}
use blizzard_mock.Runner.Holding.{complete_leaves, lease_id, lease_left, standing_of}

abbrev body : Body
body = record {
  runner_id = some "r_1";
  entries =
      record { chunk_id = "ch_0"; blocked = some "ch_9" }
      ∷ record { chunk_id = "ch_1"; blocked = none }
      ∷ [];
  envelope = some (record { node_id = some "build"; epoch = some 2 });
  route_token = some "token";
  outcome = some "next";
  next_envelope = some (record { node_id = some "review"; epoch = some 3 });
  rest = "";
}

-- A hub that counts its calls and gives each kind of call one answer.
abbrev scripted : IHubGateway ℕ
scripted = record {
  register = λ r n. ((201, body), n + 1);
  peek = λ n. ((200, body), n + 1);
  peek_matched = λ e c p n. ((200, body), n + 1);
  claim = λ c n. ((201, body), n + 1);
  submit_completion = λ k s n. ((200, body), n + 1);
  get_chunk = λ k n. ((200, body), n + 1);
  chunk_statuses = λ ks n. ((200, body), n + 1);
  submit_decision = λ k s n. ((200, body), n + 1);
  get_question = λ q n. ((200, body), n + 1);
  push_facts = λ fs n. ((200, body), n + 1);
  push_transcripts = λ rs n. ((200, body), n + 1);
  last_response_headers = λ n. [];
  last_claim_refusal = λ n. none;
  last_nonclaim_refusal = λ n. none;
}

abbrev lease : Held
lease = record {
  chunk_id = "ch_1";
  epoch = 3;
  from_node_id = "build";
  route_token = some "token";
  last_submission = none;
}

abbrev driver : Driver
driver = record {
  name = "one";
  workspace_id = "ws";
  runner_id = none;
  held = [];
  runner_seq = 0;
  transcript_seq = 0;
  git_commit_declarations = [];
  levers = [];
  now = 0;
}

abbrev verbs : List Verb
verbs =
    claim_next [] false
    ∷ complete "ch_1" "pass" [] []
    ∷ pause "operator" none
    ∷ push_transcript "ch_1" "sg" [] true false none
    ∷ []

lanes-Numbered_example :
    Numbered scripted (drive_all (recorded scripted) verbs (driver, (0, no_log)))
lanes-Numbered_example = lanes-Numbered scripted verbs driver 0 refl refl

-- The run has claimed the unmarked entry, moved on, and sent three facts and one record.
ran :
    let s = drive_all (recorded scripted) verbs (driver, (0, no_log)) in
    (s.1.1.facts ≡ 3 ∷ 2 ∷ 1 ∷ []) × (s.1.1.records ≡ 1 ∷ [])
unfolding drive_all drive Leases.claim_next Leases.claim_selected Leases.select_next Leases.claim
    Leases.take_lease Leases.claimed_lease Leases.complete Leases.with_held Leases.held_or
    Leases.complete_held Leases.submit_held Leases.settle Leases.replay_submission Leases.distorted
    Leases.submitted_token Reports.pause Reports.push_transcript Reports.push_segment
    ServiceBase.apply_delay ServiceBase.pull ServiceBase.report_observed ServiceBase.push_fact
    ServiceBase.report_lease ServiceBase.advance_lease ServiceBase.advance_to ServiceBase.next_in
    ServiceBase.next_lease lookup insert find first lever_value
ran = (refl, refl)

select_next-Picked_example : Picked false body.entries (Leases.select_next body.entries false)
select_next-Picked_example = select_next-Picked body.entries false

abbrev holding : Driver
holding = record driver {
  held = ("ch_1", lease) ∷ ("ch_2", record lease { chunk_id = "ch_2" }) ∷ [];
}

holding-IsKeyed : IsKeyed lease_id holding.held
unfolding lookup
holding-IsKeyed = (refl, refl, (refl, refl, tt))

holds : lookup "ch_1" holding.held ≡ some lease
unfolding lookup
holds = refl

abbrev other_id : String
other_id = "ch_2"

apart : "ch_1" ≢ other_id
apart = ground (arith, string_eq.beq_iff "ch_1" other_id)

complete_leaves_example :
    let (answer, s) = Leases.complete scripted "ch_1" "pass" [] [] (holding, 0) in
    (standing_of (lookup "ch_1" s.0.held) ≡ lease_left lease answer)
    × (lookup "ch_2" s.0.held ≡ lookup "ch_2" holding.held)
complete_leaves_example =
    complete_leaves scripted "ch_1" "ch_2" apart lease "pass" [] [] holding 0 holding-IsKeyed holds
