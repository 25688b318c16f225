-- ===== src/Hub/Tests.antt =====
-- Runs of the hub, and instances of its theorems.
mod Locks
mod Lanes
mod Registry
mod Questions
mod Queue
use mathlib.Core.Path.{subst}
use blizzard_mock.Base.{
  ℕ, ◌≡◌, refl, ◌≢◌, ◌≤◌, ◌<◌, Bool, true, false, String, none, some, List, [], ◌∷◌, ok, string_eq,
  nat_eq, pair_eq, ◌==◌, arith, ◌>>=◌,
}
use blizzard_mock.Base.Dict.{lookup, insert, set_default}
use blizzard_mock.Base.Lists.{contains, any, all, first, keep_if, All, length}
use blizzard_mock.Base.Sorting.{sorted, place}
use blizzard_mock.Base.{Bool-cases, inl, inr}
use blizzard_mock.Base.Text.{show}
use blizzard_mock.Hub.Models.{
  runner, fresh, worker, NodeSpec, ChunkState, ready, running, next, ApplyResponse, failure,
  outcome_done, reached_terminal,
}
use blizzard_mock.Hub.Chunk.{refuse_claim, node, refuse_release, status_if_paused}
use blizzard_mock.Hub.Chunk as Chunk
use blizzard_mock.Hub.State.{Hub, RunnerRow, get_chunk, put_chunk}
use blizzard_mock.Hub.Levers.{value, replay}
use blizzard_mock.Levers.{find}
use blizzard_mock.Hub.Coherent.{IsCoherent}
use blizzard_mock.Hub.Service.Guards.{
  require, check_pinned_graph, refuse_retired_runner, refuse_by_claim_lever, refuse_braked_runner,
  refuse_dependency, served_project_ids, envelope, node_config, node_envelope, find_lever,
}
use blizzard_mock.Hub.Service.Route.{
  claim, claim_node, claimed_by, route_token, RouteClaimResponse, release, pause_chunk,
  resume_chunk, paused_chunk, resumed_chunk, enforce_route_token,
}
use blizzard_mock.Hub.Service.Apply.{
  apply_completion, apply_decision, apply_unless_replayed, deliver, apply_once, apply_known, commit,
  completion_target, incoherent, open_question_ids, resolve_choice, write_advance, advance,
}
use blizzard_mock.Hub.Service.Facts.{
  SeqFact, lease_minted, usage_recorded, ingest_facts, ingest_loop, ingest_one, apply_fact,
  lease_fact, advance_fence, fenced,
}
use blizzard_mock.Hub.Matching.{
  capability_ineligible, reachable_runner_node_ids, walk, visit, push_choices, edges,
  lineage_satisfied, effective_harnesses, effective_model,
}
use blizzard_mock.Hub.Evolution.{IsWellFormed, Continues}
use blizzard_mock.Hub.Run.{serve, Request, complete, pause, stop, tick_clock, run, run-Continues}
use blizzard_mock.Hub.Claims.{
  Grantable, routed, entered, claim_grants, claim_granted, claim_exclusive,
}
use blizzard_mock.Hub.Fence.{fence_holds, applied_once, reapply-Answers, Answers}
use blizzard_mock.Hub.Facts.{ingest_answers, answered, occurs, mark_of}
use blizzard_mock.Hub.Facts.Again.{ingest_again}
use blizzard_mock.Hub.Routes.{release_gives_back, pause_resume, given_back}
use blizzard_mock.Hub.Matching.Exact.{Exactly, reachable-Exactly}

unfoldable pub program : Unit {0}
unfolding lookup insert set_default contains any all first keep_if sorted place refuse_claim node
    refuse_release status_if_paused Chunk.release get_chunk value find require check_pinned_graph
    refuse_retired_runner refuse_by_claim_lever refuse_braked_runner refuse_dependency
    served_project_ids envelope node_config claim claim_node claimed_by route_token release
    pause_chunk resume_chunk paused_chunk resumed_chunk enforce_route_token capability_ineligible
    reachable_runner_node_ids walk visit push_choices edges lineage_satisfied effective_harnesses
    effective_model show run serve ingest_facts ingest_loop ingest_one apply_fact lease_fact
    advance_fence fenced ◌>>=◌
program = tt

abbrev build : NodeSpec
build = record {
  executor = runner;
  session = fresh;
  session_source = none;
  session_name = none;
  session_model = [];
  session_effort = none;
  session_harnesses = [];
  session_compaction_window = none;
  session_rotate = none;
  judged_by = worker;
  prompt = some "build it";
  judgement_prompt = none;
  choices = record { name = "pass"; description = ""; to = "done"; requires_checks = false } ∷ [];
  produces = [];
  checks = [];
  checks_cwd = none;
  checks_timeout = none;
  retries_max = none;
}

-- A ready chunk whose fence is 2, and which was applied at epoch 1 once.
abbrev pub chunk : ChunkState
chunk = record {
  chunk_id = "ch_1";
  project_id = "proj";
  graph_id = "g";
  graph_name = none;
  default_model = [];
  default_effort = none;
  default_harnesses = [];
  entry = "build";
  nodes = ("build", build) ∷ [];
  current_node_id = some "build";
  status = ready;
  status_before_pause = none;
  latest_epoch = 2;
  claimed = false;
  route_runner_id = none;
  route_workspace_id = none;
  route_environment_ids = [];
  route_token_rekey_count = 0;
  live_route_token = none;
  applied = (("build", 1), next) ∷ [];
  last_response = none;
  escalation = none;
  releases = [];
}

abbrev pub row : RunnerRow
row = record {
  runner_id = "r_1";
  tenant_id = "t";
  name = "one";
  host_id = none;
  registered_at = some 0;
  last_seen_at = none;
  capabilities =
      record {
        harness_id = "pi";
        version = none;
        tiers = [];
        supported_models = [];
        default = true;
        available = true;
      }
      ∷ [];
  projects = record { entry = "p"; project_id = some "proj" } ∷ [];
  paused = false;
  retired_at = none;
}

abbrev pub start : Hub
start = record {
  chunks = ("ch_1", chunk) ∷ [];
  questions = [];
  runners = ("r_1", row) ∷ [];
  projects = [];
  reported = [];
  levers = [];
  now = 0;
  fact_high_water = [];
  epoch_owners = [];
}

abbrev pub same_text : String → String → Bool
same_text a b = a == b

chunk-IsCoherent : IsCoherent chunk
unfolding lookup
chunk-IsCoherent = record {
  entry_known = refl;
  current_known = refl;
  ready_free = λ _. refl;
  pause_free = λ _. refl;
  before_live = refl;
}

only : (k : String) (c : ChunkState) → lookup k start.chunks ≡ some c → chunk ≡ c
unfolding lookup
only k c e = elim (Bool-cases ("ch_1" == k)) [ inl this ↦ ground arith | inr other ↦ ground arith ]

only-IsCoherent : (k : String) (c : ChunkState) → lookup k start.chunks ≡ some c → IsCoherent c
unfolding lookup
only-IsCoherent k c e = subst IsCoherent (only k c e) chunk-IsCoherent

pub start-IsWellFormed : IsWellFormed start.chunks
unfolding lookup
start-IsWellFormed = record { keyed = (refl, refl, tt); coherent = only-IsCoherent }

abbrev requests : List Request
requests = pause "ch_1" ∷ stop "ch_2" ∷ tick_clock 5 ∷ complete "ch_1" 1 "build" "pass" ∷ []

run-Continues_example :
    IsWellFormed (run same_text requests start).chunks
    × Continues start.chunks (run same_text requests start).chunks
run-Continues_example = run-Continues same_text requests start start-IsWellFormed

-- The answer of a claim of the chunk.
abbrev answer : RouteClaimResponse
answer = record {
  chunk_id = "ch_1";
  runner_id = "r_1";
  workspace_id = "ws";
  environment_ids = [];
  envelope = node_envelope chunk "build" 2 build;
  route_token = some "mock-route-token-ch_1-2";
}

abbrev pub held : Hub
held = put_chunk (claimed_by chunk "r_1" "ws" []) start

claimed : claim same_text "ch_1" "r_1" "ws" [] start ≡ (ok answer, held)
unfolding program
claimed = refl

claim_grants_example :
    (c : ChunkState) × (d : RunnerRow) × Grantable same_text "ch_1" "r_1" start c d
    × (held ≡ put_chunk (routed c "r_1" "ws" [] (entered c.entry c.current_node_id)) start)
claim_grants_example = claim_grants same_text "ch_1" "r_1" "ws" [] start held answer claimed

chunk-Grantable : Grantable same_text "ch_1" "r_1" start chunk row
unfolding program
chunk-Grantable = record {
  found = refl;
  registered = refl;
  connected = refl;
  not_braked = refl;
  not_retired = refl;
  is_ready = refl;
  is_free = refl;
  served = refl;
  capable = refl;
  graph_pinned = refl;
  not_blocked = refl;
  lever_retired = refl;
  lever_version = refl;
}

claim_granted_example :
    (a : RouteClaimResponse) × (claim same_text "ch_1" "r_1" "ws" [] start ≡ (ok a, held))
claim_granted_example =
    claim_granted same_text "ch_1" "r_1" "ws" [] start chunk row chunk-Grantable chunk-IsCoherent

claim_exclusive_example : claim same_text "ch_1" "r_2" "ws" [] held ≢ (ok answer, held)
claim_exclusive_example =
    claim_exclusive same_text "ch_1" "r_1" "ws" "r_2" "ws" [] [] start held held answer answer
      start-IsWellFormed claimed

pub found : lookup "ch_1" start.chunks ≡ some chunk
unfolding program
found = refl

fence_holds_example :
    let h = run same_text requests start in
    ((apply_completion "ch_1" 1 "build" "pass" h).1.chunks ≡ h.chunks)
    × ((apply_decision "ch_1" 1 "build" h).1.chunks ≡ h.chunks)
fence_holds_example =
    fence_holds same_text requests "ch_1" 1 "build" "pass" start chunk start-IsWellFormed found
      (omega arith)

-- The completion that ends the chunk.
abbrev ended : ApplyResponse
ended = record { outcome = outcome_done; detail = reached_terminal; next_envelope = none }

abbrev after_end : Hub
after_end = (apply_completion "ch_1" 2 "build" "pass" start).1

was_answered : apply_completion "ch_1" 2 "build" "pass" start ≡ (ok ended, after_end)
unfolding program apply_completion apply_unless_replayed deliver apply_once apply_known commit
    completion_target incoherent Chunk.incoherent_attempt open_question_ids Chunk.hub_executed
    resolve_choice write_advance advance
was_answered = refl

ended_landed : ended.outcome ≢ failure
ended_landed = ground arith

unarmed : find_lever replay "ch_1" start ≡ none
unfolding program
unarmed = refl

applied_once_example :
    let h = run same_text requests after_end in
    (apply_completion "ch_1" 2 "build" "fail" h).1.chunks ≡ h.chunks
applied_once_example =
    applied_once same_text requests "ch_1" 2 "build" "pass" "fail" start after_end ended
      start-IsWellFormed unarmed was_answered ended_landed

reapply-Answers_example :
    (c : ChunkState) × (lookup "ch_1" (run same_text [] after_end).chunks ≡ some c)
    × Answers c outcome_done
        (apply_completion "ch_1" 2 "build" "fail" (run same_text [] after_end)).0
unfolding program apply_completion apply_unless_replayed deliver apply_once apply_known commit
    completion_target incoherent Chunk.incoherent_attempt open_question_ids Chunk.hub_executed
    resolve_choice write_advance advance
reapply-Answers_example =
    reapply-Answers same_text [] "ch_1" 2 "build" "pass" "fail" start after_end ended
      start-IsWellFormed unarmed was_answered ended_landed refl refl

abbrev batch : List SeqFact
batch =
    record { seq = 2; fact = usage_recorded }
    ∷ record { seq = 1; fact = lease_minted "ch_1" 4 }
    ∷ []

ingest_answers_example :
    let (a, h) = ingest_facts row batch start in
    ((s : ℕ) → answered s a ≡ occurs s (2 ∷ 1 ∷ []))
    × All (λ s. (mark_of row start < s) × (s ≤ mark_of row h)) a.applied
    × (mark_of row h ≡ a.high_water)
    × (mark_of row start ≤ mark_of row h)
ingest_answers_example = ingest_answers row batch start

none_rejected : (ingest_facts row batch start).0.rejected ≡ []
unfolding program
none_rejected = refl

ingest_again_example :
    let h = (ingest_facts row batch start).1 in
    ((ingest_facts row batch h).1 ≡ h) × ((ingest_facts row batch h).0.applied ≡ [])
ingest_again_example = ingest_again row batch start none_rejected

abbrev freed : Hub
freed = put_chunk (given_back (claimed_by chunk "r_1" "ws" []) "r_1" 2 "shutdown") held

was_released : release "ch_1" "r_1" 2 "shutdown" none held ≡ (ok 1, freed)
unfolding program
was_released = refl

release_gives_back_example :
    (c : ChunkState) × (lookup "ch_1" held.chunks ≡ some c)
    × (c.claimed ≡ true)
    × (c.route_runner_id ≡ some "r_1")
    × (c.status ≡ running)
    × (2 ≡ c.latest_epoch)
    × (freed ≡ put_chunk (given_back c "r_1" 2 "shutdown") held)
    × (1 ≡ length (given_back c "r_1" 2 "shutdown").releases)
release_gives_back_example =
    release_gives_back "ch_1" held freed "r_1" "shutdown" 2 1 none was_released

abbrev on_hold : Hub
on_hold = put_chunk (paused_chunk chunk) start

abbrev resumed : Hub
resumed = put_chunk (resumed_chunk (paused_chunk chunk)) on_hold

was_paused : pause_chunk "ch_1" start ≡ (ok tt, on_hold)
unfolding program
was_paused = refl

was_resumed : resume_chunk "ch_1" on_hold ≡ (ok tt, resumed)
unfolding program
was_resumed = refl

pause_resume_example :
    lookup "ch_1" resumed.chunks ≡ some (record chunk { status_before_pause = none })
pause_resume_example =
    pause_resume "ch_1" start on_hold resumed chunk start-IsWellFormed found refl was_paused
      was_resumed

reachable-Exactly_example :
    (ids : List String) × (reachable_runner_node_ids chunk "build" ≡ some ids)
    × Exactly chunk "build" ids
reachable-Exactly_example = reachable-Exactly chunk "build"

reached : reachable_runner_node_ids chunk "build" ≡ some ("build" ∷ [])
unfolding program
reached = refl
