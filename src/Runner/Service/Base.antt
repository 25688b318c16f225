-- ===== src/Runner/Service/Base.antt =====
-- What the driver's verbs share: the state they run on, their answers, the levers, and pushing a fact.
use blizzard_mock.Base.{
  ℕ, ◌+◌, Bool, true, false, String, Option, none, some, List, [], ◌∷◌, ◌==◌, leb, get_or,
  if◌then◌else◌, string_eq,
}
use blizzard_mock.Base.Dict.{lookup, insert, remove}
use blizzard_mock.Levers.{find, consume, clear_all}
use blizzard_mock.Runner.Models.{
  RunnerLever, lever_value, delay, Held, Payload, lease_minted, Body, Headers, Driver, WireEnvelope,
  Declaration,
}
use blizzard_mock.Runner.Gateway.{IHubGateway, Reply}

-- What a verb hands back to the control route. `observed` has a refusal when the status is an error.
pub data Answer : Type 0 where
  observed : ℕ → Body → Headers → Option (Option String) → Answer
  unheld : String → Answer
  vanished no_unmarked_entry : Answer
  claimed : ℕ → String → ℕ → Body → Answer
  claim_refused : ℕ → Body → Headers → Option String → Answer
  peek_failed : Answer → Answer
  completed : Bool → ℕ → Body → Option (ℕ × (Body × Headers)) → Headers → Answer
  drove : ℕ → Body → Headers → Answer
  asked : String → ℕ → Body → Headers → Answer
  recorded : String → String → Answer

-- `MockRunnerService.reset`
unfoldable pub reset : Driver → Driver
reset d = record d {
  held = [];
  runner_seq = 0;
  transcript_seq = 0;
  git_commit_declarations = [];
  levers = clear_all d.levers;
}

abbrev pub put_held : Held → Driver → Driver
put_held l d = record d { held = insert l.chunk_id l d.held }

-- `_apply_delay`
unfoldable pub apply_delay : Option String → Driver → Driver
apply_delay chunk_id d = elim (find (lever_value delay) chunk_id d.levers) [
  | none ↦ d
  | some l ↦ record d { levers = consume l d.levers }
]

-- `_pull`
unfoldable pub pull : RunnerLever → String → Driver → Bool × Driver
pull kind chunk_id d = elim (find (lever_value kind) (some chunk_id) d.levers) [
  | none ↦ (false, d)
  | some l ↦ (true, record d { levers = consume l d.levers })
]

-- `setdefault(lease_id, {})[repo] = …`
unfoldable pub declare_git_commit : String → Declaration → Driver → Answer × Driver
declare_git_commit lease_id c d = (
  recorded lease_id c.repo,
  record d {
    git_commit_declarations =
        insert lease_id (insert c.repo c (get_or (lookup lease_id d.git_commit_declarations) []))
          d.git_commit_declarations;
  },
)

unfoldable pub git_commits_for_lease : String → Driver → List (String × Declaration)
git_commits_for_lease lease_id d = get_or (lookup lease_id d.git_commit_declarations) []

-- The envelope that a reply moves the lease to: of a NEXT reply that has one. An envelope that is
-- missing or empty is `none`.
unfoldable pub next_in : Option String → Option WireEnvelope → Option WireEnvelope
next_in none env = none
next_in (some outcome) env = if outcome == "next" then env else none

-- The lease as a NEXT reply leaves it: the next node, and the epoch that the runner mints there.
unfoldable pub next_lease : Held → WireEnvelope → Held
next_lease l env = record l {
  from_node_id = get_or env.node_id l.from_node_id;
  epoch = get_or env.epoch 0 + 1;
}

module _ {W : Type 0} (gw : IHubGateway W) where
  abbrev pub refusal_of : ℕ → W → Option (Option String)
  refusal_of status w = if leb 400 status then some (gw.last_nonclaim_refusal w) else none

  -- `_observed`
  unfoldable pub observe : Reply × W → Answer
  observe (reply, w) = observed reply.0 reply.1 (gw.last_response_headers w) (refusal_of reply.0 w)

  -- The answer of a verb that drove one call.
  unfoldable pub drove_call : Reply × W → Answer
  drove_call (reply, w) = drove reply.0 reply.1 (gw.last_response_headers w)

  -- One fact on the fact lane's next sequence number: `_push_fact`.
  unfoldable pub push_fact : Payload → Driver × W → Reply × (Driver × W)
  push_fact payload (d, w) =
      let seq = d.runner_seq + 1 in
      let (reply, w') = gw.push_facts (record { seq = seq; payload = payload } ∷ []) w in
      (reply, (record d { runner_seq = seq }, w'))

  -- A fact whose push is the verb's answer.
  unfoldable pub report : Payload → Driver × W → Answer × (Driver × W)
  report payload s = let (reply, s') = push_fact payload s in (drove_call (reply, s'.1), s')

  unfoldable pub report_observed : Payload → Driver × W → Answer × (Driver × W)
  report_observed payload s = let (reply, s') = push_fact payload s in (observe (reply, s'.1), s')

  -- `_report_lease`
  unfoldable pub report_lease : Held → Driver × W → Driver × W
  report_lease l s = (push_fact (lease_minted l.chunk_id l.epoch l.route_token) s).1

  -- The lease gives way to the one of the envelope, or is over.
  unfoldable pub advance_to : Held → Option WireEnvelope → Driver × W → Driver × W
  advance_to l none (d, w) = (record d { held = remove l.chunk_id d.held }, w)
  advance_to l (some env) (d, w) = let l' = next_lease l env in report_lease l' (put_held l' d, w)

  -- `_advance`, for the lease held
  unfoldable pub advance_lease : Held → Body → Driver × W → Driver × W
  advance_lease l body = advance_to l (next_in body.outcome body.next_envelope)
