-- ===== src/Runner/Drive.antt =====
-- What a test drives a runner with: the control routes' verbs, but `reset`, and runs of them.
use blizzard_mock.Base.{ℕ, Bool, String, Option, List, [], ◌∷◌}
use blizzard_mock.Levers.{Lever, arm, clear}
use blizzard_mock.Runner.Models.{Driver, Declaration, Turn}
use blizzard_mock.Runner.Gateway.{IHubGateway}
use blizzard_mock.Runner.Service.Base as Base
use blizzard_mock.Runner.Service.Leases as Leases
use blizzard_mock.Runner.Service.Reports as Reports

pub data Verb : Type 0 where
  register : Option (List String) → Option (List String) → Option (List String) → Verb
  peek : Verb
  peek_matched : List String → String → Bool → Verb
  claim : String → List String → Verb
  claim_next : List String → Bool → Verb
  complete : String → String → List String → List String → Verb
  decide get_chunk poll_answer resume : String → Verb
  chunk_statuses : List String → Verb
  escalate : String → String → String → Option String → Option String → Verb
  ask : String → String → String → List String → Option String → Verb
  push_transcript : String → String → List Turn → Bool → Bool → Option String → Verb
  pause : String → Option String → Verb
  report_event :
      String
      → String
      → String
      → Option String
      → Option String
      → Option String
      → Option String
      → Verb
  report_external_usage : Option String → String → List String → Option String → Verb
  report_external_usage_miss : Option String → String → String → Option String → Verb
  declare_git_commit : String → Declaration → Verb
  arm_lever : Lever → Verb
  clear_lever : String → Option String → Verb
  tick_clock : ℕ → Verb

module _ {W : Type 0} (gw : IHubGateway W) where
  -- The driver and the hub's side after a verb.
  unfoldable pub drive : Verb → Driver × W → Driver × W
  drive (register caps subs declining) s = (Leases.register gw caps subs declining s).1
  drive peek s = (Leases.peek gw s).1
  drive (peek_matched caps policy enrolled) s = (Leases.peek_matched gw caps policy enrolled s).1
  drive (claim k envs) s = (Leases.claim gw k envs s).1
  drive (claim_next envs strict) s = (Leases.claim_next gw envs strict s).1
  drive (complete k choice arts checks) s = (Leases.complete gw k choice arts checks s).1
  drive (decide k) s = (Leases.decide gw k s).1
  drive (get_chunk k) s = (Leases.get_chunk gw k s).1
  drive (poll_answer q) s = (Leases.poll_answer gw q s).1
  drive (resume by) s = (Reports.resume gw by s).1
  drive (chunk_statuses ks) s = (Leases.chunk_statuses gw ks s).1
  drive (escalate k cmd wrapped cause detail) s =
      (Reports.escalate gw k cmd wrapped cause detail s).1
  drive (ask hex k q options harness) s = (Reports.ask gw hex k q options harness s).1
  drive (push_transcript k segment turns final truncated harness) s =
      (Reports.push_transcript gw k segment turns final truncated harness s).1
  drive (pause by reason) s = (Reports.pause gw by reason s).1
  drive (report_event severity kind message k lease name detail) s =
      (Reports.report_event gw severity kind message k lease name detail s).1
  drive (report_external_usage slug at windows name) s =
      (Reports.report_external_usage gw slug at windows name s).1
  drive (report_external_usage_miss slug at reason name) s =
      (Reports.report_external_usage_miss gw slug at reason name s).1
  drive (declare_git_commit lease c) (d, w) = ((Base.declare_git_commit lease c d).1, w)
  drive (arm_lever l) (d, w) = (record d { levers = arm l d.levers }, w)
  drive (clear_lever kind k) (d, w) = (record d { levers = clear kind k d.levers }, w)
  drive (tick_clock n) (d, w) = (record d { now = n }, w)

  unfoldable pub drive_all : List Verb → Driver × W → Driver × W
  drive_all [] s = s
  drive_all (v ∷ vs) s = drive_all vs (drive v s)
