-- ===== src/Hub/Claims.antt =====
-- The claim: its conditions, and the hub it leaves.
use blizzard_mock.Base.Keyed.{key-lookup}
use blizzard_mock.Hub.Frames.{require_found}
use blizzard_mock.Hub.Coherent.{IsCoherent, claim_node-known}
use Prim.Native.String.{◌++◌}
use blizzard_mock.Base.Text.{show}
use blizzard_mock.Base.{
  ◌∙◌, ap, if◌then◌else◌, ◌==◌, refl, ◌≢◌, ◌≡◌, Bool, true, false, String, none, some, List, arith,
  string_eq, ok, is_none, raise_if, is_some, Option,
}
use blizzard_mock.Base.Dict.{lookup, lookup-insert_self}
use blizzard_mock.Base.Lists.{contains}
use blizzard_mock.Hub.Models.{ChunkState, ready, running}
use blizzard_mock.Hub.Chunk.{refuse_claim, is_ready, node}
use blizzard_mock.Hub.State.{Hub, RunnerRow, put_chunk}
use blizzard_mock.Hub.Levers.{
  pinned_graph_missing, dependency_unmet, claim_runner_retired, claim_runner_version_refused,
}
use blizzard_mock.Hub.Matching.{capability_ineligible}
use blizzard_mock.Hub.Service.Guards.{
  find_lever, served_project_ids, require, check_pinned_graph, refuse_retired_runner,
  refuse_by_claim_lever, refuse_braked_runner, refuse_dependency, lift, envelope,
}
use blizzard_mock.Hub.Service.Route.{claim, claim_node, claimed_by, route_token, RouteClaimResponse}
use blizzard_mock.Hub.Evolution.{IsWellFormed, id_of}
use blizzard_mock.Hub.Passing.{
  refuse_dependency_ok, past, Passes-require, Passes-check_pinned_graph,
  Passes-refuse_retired_runner, Passes-refuse_by_claim_lever, Passes-refuse_braked_runner,
  Passes-lift, Passes-refuse_dependency, Passes-raise_if, Passes-envelope, past_write,
  envelope_made, stepped, check_pinned_graph_ok, refuse_retired_runner_ok, refuse_by_claim_lever_ok,
  refuse_braked_runner_ok, lift_ok, refuse_dependency_ok, raise_if_ok, written,
}

-- The node that a chunk is claimed at: where it stands, unless that is missing or empty.
abbrev pub entered : String → Option String → String
entered entry none = entry
entered entry (some n) = if n == "" then entry else n

-- The chunk running at a node on a runner's route.
abbrev pub routed : ChunkState → String → String → List String → String → ChunkState
routed c r w envs n = record c {
  claimed = true;
  route_runner_id = some r;
  route_workspace_id = some w;
  route_environment_ids = envs;
  current_node_id = some n;
  status = running;
  live_route_token = some ("mock-route-token-" ++ (c.chunk_id ++ ("-" ++ show c.latest_epoch)));
}

claim_node-entered : (c : ChunkState) → claim_node c ≡ entered c.entry c.current_node_id
unfolding claim_node
claim_node-entered c = ground arith

module _ (fnmatchcase : String → String → Bool) where
  -- Every condition that a claim checks, on the chunk and the runner's row that it reads.
  pub record Grantable (k r : String) (h : Hub) (c : ChunkState) (row : RunnerRow) : Type 0 where
    pub found : lookup k h.chunks ≡ some c
    pub registered : lookup r h.runners ≡ some row
    pub connected : is_none row.registered_at ≡ false
    pub not_braked : row.paused ≡ false
    pub not_retired : is_none row.retired_at ≡ true
    pub is_ready : c.status ≡ ready
    pub is_free : c.claimed ≡ false
    pub served : contains c.project_id (served_project_ids row.projects) ≡ true
    pub capable : capability_ineligible fnmatchcase c (claim_node c) row.capabilities ≡ false
    pub graph_pinned : find_lever pinned_graph_missing k h ≡ none
    pub not_blocked : find_lever dependency_unmet k h ≡ none
    pub lever_retired : (refuse_by_claim_lever claim_runner_retired k r h).0 ≡ ok tt
    pub lever_version : (refuse_by_claim_lever claim_runner_version_refused k r h).0 ≡ ok tt

  pub refuse_claim_free :
      (c : ChunkState) → refuse_claim c ≡ ok tt → (c.status ≡ ready) × (c.claimed ≡ false)
  unfolding refuse_claim
  refuse_claim_free c e = ground arith

  free_refuse_claim :
      (c : ChunkState) → c.status ≡ ready → c.claimed ≡ false → refuse_claim c ≡ ok tt
  unfolding refuse_claim
  free_refuse_claim c e f = ground arith

  module _ (k r w : String) (envs : List String) (h h' : Hub) (resp : RouteClaimResponse) where
    -- The same, in the code's own words.
    claim_writes :
        claim fnmatchcase k r w envs h ≡ (ok resp, h')
        → (c : ChunkState) × (row : RunnerRow) × Grantable k r h c row
          × (h' ≡ put_chunk (claimed_by c r w envs) h)
    unfolding claim
    claim_writes e =
        let (c, found, e1) = past (require k) _ (Passes-require k) h h' resp e in
        let (_, pinned, e2) =
          past (check_pinned_graph k) _ (Passes-check_pinned_graph k) h h' resp e1 in
        let (_, unretired, e3) =
          past (refuse_retired_runner r) _ (Passes-refuse_retired_runner r) h h' resp e2 in
        let (_, lever1, e4) =
          past (refuse_by_claim_lever claim_runner_retired k r) _
            (Passes-refuse_by_claim_lever claim_runner_retired k r) h h' resp e3 in
        let (_, lever2, e5) =
          past (refuse_by_claim_lever claim_runner_version_refused k r) _
            (Passes-refuse_by_claim_lever claim_runner_version_refused k r) h h' resp e4 in
        let (row, braked, e6) =
          past (refuse_braked_runner r) _ (Passes-refuse_braked_runner r) h h' resp e5 in
        let (_, free, e7) =
          past (lift (refuse_claim c)) _ (Passes-lift (refuse_claim c)) h h' resp e6 in
        let (_, unblocked, e8) =
          past (refuse_dependency k) _ (Passes-refuse_dependency k) h h' resp e7 in
        let (_, served, e9) = past (raise_if _ _) _ (Passes-raise_if _ _) h h' resp e8 in
        let (_, capable, e10) = past (raise_if _ _) _ (Passes-raise_if _ _) h h' resp e9 in
        let (_, _, e11) =
          past (envelope _ _ _) _ (Passes-envelope _ _ _) _ h' resp
            (past_write _ _ h h' resp e10) in
        let (is_ready, is_free) = refuse_claim_free c free in
        (
          c,
          row,
          record {
            found = found;
            registered = braked.0;
            connected = braked.1;
            not_braked = braked.2;
            not_retired = unretired row braked.0;
            is_ready = is_ready;
            is_free = is_free;
            served = ground arith;
            capable = capable;
            graph_pinned = pinned;
            not_blocked = unblocked;
            lever_retired = lever1;
            lever_version = lever2;
          },
          ground arith,
        )

    -- A claim that is granted met every condition it checks, and the hub it leaves differs only in the
    -- chunk, which is now running on the runner's route, with its workspace and environments and a
    -- token of its id and fence, at the node where it stood, or at the entry if it stood at none.
    pub claim_grants :
        claim fnmatchcase k r w envs h ≡ (ok resp, h')
        → (c : ChunkState) × (row : RunnerRow) × Grantable k r h c row
          × (h' ≡ put_chunk (routed c r w envs (entered c.entry c.current_node_id)) h)
    unfolding claimed_by route_token
    claim_grants e =
        let (c, row, grantable, left) = claim_writes e in
        let at = claim_node-entered c in
        (c, row, grantable, left ∙ ap (λ n. put_chunk (routed c r w envs n) h) at)

  pub claimed_node-known :
      (c : ChunkState) (r w : String) (envs : List String)
      → IsCoherent c
      → c.status ≡ ready
      → is_some (node (claimed_by c r w envs) (claim_node c)) ≡ true
  unfolding node claimed_by
  claimed_node-known c r w envs coherent e = claim_node-known c coherent (ground arith)

  -- A claim that meets every condition that a claim checks, on a coherent chunk, is granted, and leaves
  -- the hub as it was except for the chunk as claimed.
  pub claim_granted :
      (k r w : String) (envs : List String) (h : Hub) (c : ChunkState) (row : RunnerRow)
      → Grantable k r h c row
      → IsCoherent c
      → (answer : RouteClaimResponse) × (claim fnmatchcase k r w envs h
          ≡ (ok answer, put_chunk (claimed_by c r w envs) h))
  unfolding claim
  claim_granted k r w envs h c row g coherent =
      let granted = claimed_by c r w envs in
      let here = put_chunk granted h in
      let (env, made) =
        envelope_made granted (claim_node c) granted.latest_epoch here
          (claimed_node-known c r w envs coherent g.is_ready) in
      (
        _,
        stepped (require k) _ h c (require_found k h g.found) (
            stepped (check_pinned_graph k) _ h tt (check_pinned_graph_ok k r h g.graph_pinned) (
              stepped (refuse_retired_runner r) _ h tt
                (refuse_retired_runner_ok k r h row g.registered g.not_retired)
                (stepped (refuse_by_claim_lever claim_runner_retired k r) _ h tt
                  (refuse_by_claim_lever_ok k r h claim_runner_retired g.lever_retired)
                  (stepped (refuse_by_claim_lever claim_runner_version_refused k r) _ h tt
                    (refuse_by_claim_lever_ok k r h claim_runner_version_refused g.lever_version)
                    (stepped (refuse_braked_runner r) _ h row
                      (refuse_braked_runner_ok k r h row g.registered g.connected g.not_braked)
                      (stepped (lift (refuse_claim c)) _ h tt
                        (lift_ok _ tt h (free_refuse_claim c g.is_ready g.is_free))
                        (stepped (refuse_dependency k) _ h tt
                          (refuse_dependency_ok k r h g.not_blocked)
                          (stepped (raise_if _ _) _ h tt
                            (raise_if_ok _ _ h (ground (arith, g.served)))
                            (stepped (raise_if _ _) _ h tt (raise_if_ok _ _ h g.capable) (
                              written (put_chunk granted) _ h (
                                stepped (envelope granted (claim_node c) granted.latest_epoch) _
                                  here env made refl))))))))))),
      )

  -- Once a claim of a chunk of a well-formed hub is granted, the next claim of the chunk returns no
  -- route, whatever runner, workspace and environments it names.
  pub claim_exclusive :
      (k r w r2 w2 : String) (envs envs2 : List String) (h h' h2 : Hub)
      (resp resp2 : RouteClaimResponse)
      → IsWellFormed h.chunks
      → claim fnmatchcase k r w envs h ≡ (ok resp, h')
      → claim fnmatchcase k r2 w2 envs2 h' ≢ (ok resp2, h2)
  unfolding claimed_by
  claim_exclusive k r w r2 w2 envs envs2 h h' h2 resp resp2 wf first second =
      let (c, row, g, left) = claim_writes k r w envs h h' resp first in
      let (d, row2, g2, _) = claim_writes k r2 w2 envs2 h' h2 resp2 second in
      let same : c.chunk_id ≡ k = key-lookup id_of k h.chunks c wf.keyed g.found in
      let held : lookup k h'.chunks ≡ some (claimed_by c r w envs) =
        ground (arith, left, same, lookup-insert_self k (claimed_by c r w envs) h.chunks) in
      ground (arith, held, g2.found, g2.is_free)
