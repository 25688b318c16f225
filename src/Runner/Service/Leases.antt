-- ===== src/Runner/Service/Leases.antt =====
-- The verbs that register, look for work, and take a held chunk through its graph.
use blizzard_mock.Base.{
  ℕ, ◌+◌, ◌-◌, Bool, true, false, ◌||◌, String, Option, none, some, List, [], ◌∷◌, ◌==◌, get_or,
  if◌then◌else◌, string_eq, nat_eq, is_none,
}
use blizzard_mock.Base.Dict.{lookup}
use blizzard_mock.Base.Lists.{first}
use blizzard_mock.Runner.Models.{
  drop_ack, conflicting_fact, unreachable, replay, stale_epoch, stale_route_token, omit_route_token,
  Submission, Held, Body, Headers, Driver, WireEnvelope, QueueEntry,
}
use blizzard_mock.Runner.Gateway.{IHubGateway, Reply}
use blizzard_mock.Runner.Service.Base.{
  Answer, unheld, vanished, no_unmarked_entry, claimed, claim_refused, peek_failed, completed,
  put_held, apply_delay, pull, observe, drove_call, report_lease, advance_lease,
}

-- The one default binding that a driver with no snapshot reports, as a text.
abbrev default_capabilities : List String
default_capabilities = "{harness_id: claude_code, default: true}" ∷ []

abbrev reported_version : String
reported_version = "0.4.0"

-- The driver after a registration was answered.
unfoldable pub registered : Reply → Driver → Driver
registered (status, body) d = elim body.runner_id [
  | none ↦ d
  | some id ↦ if status == 200 || status == 201 then record d { runner_id = some id } else d
]

abbrev pub unmarked : QueueEntry → Bool
unmarked e = is_none e.blocked

-- `_select_next`
unfoldable pub select_next : List QueueEntry → Bool → Option QueueEntry
select_next [] strict = none
select_next (head ∷ entries) true = if unmarked head then some head else none
select_next (head ∷ entries) false = first unmarked (head ∷ entries)

abbrev no_envelope : WireEnvelope
no_envelope = record { node_id = none; epoch = none }

-- The lease that a granted claim leaves: the real runner mints the epoch after the envelope's.
unfoldable pub claimed_lease : String → Body → Held
claimed_lease chunk_id body =
    let env = get_or body.envelope no_envelope in
    record {
      chunk_id = chunk_id;
      epoch = get_or env.epoch 0 + 1;
      from_node_id = get_or env.node_id "";
      route_token = body.route_token;
      last_submission = none;
    }

-- The token of a submission under the two route-token levers, and the driver after they were pulled.
unfoldable pub submitted_token : String → Option String → Driver → Option String × Driver
submitted_token chunk_id token d =
    let (omit, d1) = pull omit_route_token chunk_id d in
    let (stale, d2) = pull stale_route_token chunk_id d1 in
    if stale
    then (some "mock-stale-route-token-does-not-match-any-live-route", d2)
    else if omit
    then (none, d2)
    else (token, d2)

-- The submission that `complete` makes of the lease, distorted by the levers it pulls.
unfoldable pub distorted : Held → String → List String → List String → Driver → Submission × Driver
distorted l choice artifacts check_results d =
    let (stale, d1) = pull stale_epoch l.chunk_id d in
    let (conflicting, d2) = pull conflicting_fact l.chunk_id d1 in
    let (token, d3) = submitted_token l.chunk_id l.route_token d2 in
    (
      record {
        choice = choice;
        epoch = if stale then l.epoch - 1 else l.epoch;
        from_node_id = if conflicting then "conflicting-node" else l.from_node_id;
        check_results = check_results;
        artifacts = artifacts;
        route_token = token;
      },
      d3,
    )

module _ {W : Type 0} (gw : IHubGateway W) where
  unfoldable pub register :
      Option (List String)
      → Option (List String)
      → Option (List String)
      → Driver × W
      → Answer × (Driver × W)
  register capabilities subscriptions declining (d, w) =
      let d1 = apply_delay none d in
      let r =
        gw.register
          (record {
            name = d1.name;
            workspace_id = d1.workspace_id;
            capabilities = get_or capabilities default_capabilities;
            subscriptions = subscriptions;
            declining = declining;
            version = reported_version;
          })
          w in
      (observe gw r, (registered r.0 d1, r.1))

  unfoldable pub peek : Driver × W → Answer × (Driver × W)
  peek (d, w) = let r = gw.peek w in (observe gw r, (apply_delay none d, r.1))

  unfoldable pub peek_matched : List String → String → Bool → Driver × W → Answer × (Driver × W)
  peek_matched capabilities policy enrolled (d, w) =
      let r = gw.peek_matched enrolled capabilities policy w in
      (observe gw r, (apply_delay none d, r.1))

  -- What `claim` does with the hub's reply.
  unfoldable pub take_lease : String → Reply → Driver × W → Answer × (Driver × W)
  take_lease chunk_id (status, body) (d, w) =
      let l = claimed_lease chunk_id body in
      if status == 201
      then (claimed status l.from_node_id l.epoch body, report_lease gw l (put_held l d, w))
      else (
        claim_refused status body (gw.last_response_headers w) (gw.last_claim_refusal w),
        (d, w),
      )

  unfoldable pub claim : String → List String → Driver × W → Answer × (Driver × W)
  claim chunk_id environment_ids (d, w) =
      let d1 = apply_delay (some chunk_id) d in
      let (reply, w1) =
        gw.claim
          (record {
            chunk_id = chunk_id;
            workspace_id = d1.workspace_id;
            environment_ids = environment_ids;
          })
          w in
      take_lease chunk_id reply (d1, w1)

  -- What `claim_next` does with the peeked queue.
  unfoldable pub claim_selected :
      Option QueueEntry → List String → Driver × W → Answer × (Driver × W)
  claim_selected none environment_ids s = (no_unmarked_entry, s)
  claim_selected (some e) environment_ids s = claim e.chunk_id environment_ids s

  unfoldable pub claim_next : List String → Bool → Driver × W → Answer × (Driver × W)
  claim_next environment_ids strict (d, w) =
      let (reply, w1) = gw.peek w in
      if reply.0 == 200
      then claim_selected (select_next reply.1.entries strict) environment_ids (d, w1)
      else (peek_failed (observe gw (reply, w1)), (d, w1))

  -- The duplicate delivery of a submission under the `replay` lever.
  unfoldable pub replay_submission :
      String → Submission → Driver × W → Option (ℕ × (Body × Headers)) × (Driver × W)
  replay_submission chunk_id sub (d, w) =
      let (again, d1) = pull replay chunk_id d in
      let (reply, w1) = gw.submit_completion chunk_id sub w in
      if again
      then (some (reply.0, (reply.1, gw.last_response_headers w1)), (d1, w1))
      else (none, (d1, w))

  -- The end of `complete`, with the reply, its headers and the duplicate's reply.
  unfoldable pub settle :
      Held → Reply → Headers → Option (ℕ × (Body × Headers)) × (Driver × W) → Answer × (Driver × W)
  settle l (status, body) headers (replayed, (d, w)) =
      let (dropped, d1) = pull drop_ack l.chunk_id d in
      (
        completed dropped status body replayed headers,
        if dropped
            then (d1, w)
            else if status == 200
            then advance_lease gw l body (d1, w)
            else (d1, w),
      )

  -- `complete` for the lease held, once it is not vanishing.
  unfoldable pub submit_held :
      Held → String → List String → List String → Driver × W → Answer × (Driver × W)
  submit_held l choice artifacts check_results (d, w) =
      let (sub, d1) = distorted l choice artifacts check_results d in
      let l' = record l { last_submission = some sub } in
      let (reply, w1) = gw.submit_completion l.chunk_id sub w in
      settle l' reply (gw.last_response_headers w1)
        (replay_submission l.chunk_id sub (put_held l' d1, w1))

  unfoldable pub complete_held :
      Held → String → List String → List String → Driver × W → Answer × (Driver × W)
  complete_held l choice artifacts check_results (d, w) =
      let (gone, d1) = pull unreachable l.chunk_id d in
      if gone then (vanished, (d1, w)) else submit_held l choice artifacts check_results (d1, w)

  -- `held = self._held.get(chunk_id)`, and what a verb does for a lease it holds.
  unfoldable pub held_or :
      String
      → (Held → Driver × W → Answer × (Driver × W))
      → Option Held
      → Driver × W
      → Answer × (Driver × W)
  held_or chunk_id verb none s = (unheld chunk_id, s)
  held_or chunk_id verb (some l) s = verb l s

  unfoldable pub with_held :
      String → (Held → Driver × W → Answer × (Driver × W)) → Driver × W → Answer × (Driver × W)
  with_held chunk_id verb (d, w) =
      let d1 = apply_delay (some chunk_id) d in
      held_or chunk_id verb (lookup chunk_id d1.held) (d1, w)

  unfoldable pub complete :
      String → String → List String → List String → Driver × W → Answer × (Driver × W)
  complete chunk_id choice artifacts check_results =
      with_held chunk_id (λ l. complete_held l choice artifacts check_results)

  unfoldable pub decide_held : Held → Driver × W → Answer × (Driver × W)
  decide_held l (d, w) =
      let r =
        gw.submit_decision l.chunk_id
          (record {
            from_node_id = l.from_node_id;
            epoch = l.epoch;
            artifacts = [];
            route_token = l.route_token;
          })
          w in
      (drove_call gw r, (d, r.1))

  unfoldable pub decide : String → Driver × W → Answer × (Driver × W)
  decide chunk_id = with_held chunk_id decide_held

  unfoldable pub get_chunk : String → Driver × W → Answer × (Driver × W)
  get_chunk chunk_id (d, w) =
      let r = gw.get_chunk chunk_id w in (observe gw r, (apply_delay (some chunk_id) d, r.1))

  unfoldable pub chunk_statuses : List String → Driver × W → Answer × (Driver × W)
  chunk_statuses chunk_ids (d, w) =
      let r = gw.chunk_statuses chunk_ids w in (observe gw r, (apply_delay none d, r.1))

  unfoldable pub poll_answer : String → Driver × W → Answer × (Driver × W)
  poll_answer question_id (d, w) =
      let r = gw.get_question question_id w in (observe gw r, (apply_delay none d, r.1))
