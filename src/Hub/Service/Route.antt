-- ===== src/Hub/Service/Route.antt =====
-- The route of a chunk: `claim`, `rekey_route_token`, `release`, and the operator's `pause_chunk`,
-- `resume_chunk` and `stop_chunk`.
use Prim.Native.String.{◌++◌}
use blizzard_mock.Base.{
  ℕ, ◌+◌, Bool, true, false, not, ◌||◌, String, Option, none, some, List, string_eq, option_eq,
  ◌==◌, if◌then◌else◌, is_none, get_or, ok, err, ◌>>=◌, ◌>>◌, pure, raise_if, modify,
}
use blizzard_mock.Base.Text.{show}
use blizzard_mock.Base.Lists.{contains}
use blizzard_mock.Hub.Models.{ready, running, stopped, ChunkState, NodeEnvelope}
use blizzard_mock.Hub.Chunk.{
  Refusal, release_not_holder, refuse_claim, refuse_rekey, is_paused, is_pausable, status_if_paused,
  ended,
}
use blizzard_mock.Hub.Chunk as Chunk
use blizzard_mock.Hub.State.{put_chunk}
use blizzard_mock.Hub.Levers.{
  claim_runner_retired, claim_runner_version_refused, enforce_release_route_token,
}
use blizzard_mock.Hub.Matching.{capability_ineligible}
use blizzard_mock.Hub.Service.Guards.{
  refused, chunk_not_found, rekey_not_holder, incompatible_project, incompatible_capability,
  chunk_not_pausable, Handler, lift, find_lever, require, check_pinned_graph, refuse_retired_runner,
  refuse_by_claim_lever, refuse_braked_runner, refuse_dependency, served_project_ids, envelope,
}

-- `chunk.current_node_id or chunk.entry`: the empty text is falsy.
unfoldable pub claim_node : ChunkState → String
claim_node c = elim c.current_node_id [ none ↦ c.entry | some n ↦ if n == "" then c.entry else n ]

unfoldable pub route_token : String → ℕ → String
route_token chunk_id epoch = "mock-route-token-" ++ (chunk_id ++ ("-" ++ show epoch))

pub record RouteClaimResponse : Type 0 where
  pub chunk_id : String
  pub runner_id : String
  pub workspace_id : String
  pub environment_ids : List String
  pub envelope : NodeEnvelope
  pub route_token : Option String

-- The chunk as a granted claim writes it. The id asked for, which the token names, is the chunk's own:
-- `_require` has read the chunk by it.
unfoldable pub claimed_by : ChunkState → String → String → List String → ChunkState
claimed_by c runner_id workspace_id environment_ids = record c {
  claimed = true;
  route_runner_id = some runner_id;
  route_workspace_id = some workspace_id;
  route_environment_ids = environment_ids;
  current_node_id = some (claim_node c);
  status = running;
  live_route_token = some (route_token c.chunk_id c.latest_epoch);
}

module _ (fnmatchcase : String → String → Bool) where
  unfoldable pub claim : String → String → String → List String → Handler RouteClaimResponse
  claim chunk_id runner_id workspace_id environment_ids = do
    chunk ← require chunk_id
    check_pinned_graph chunk_id
    refuse_retired_runner runner_id
    refuse_by_claim_lever claim_runner_retired chunk_id runner_id
    refuse_by_claim_lever claim_runner_version_refused chunk_id runner_id
    registration ← refuse_braked_runner runner_id
    lift (refuse_claim chunk)
    refuse_dependency chunk_id
    raise_if (not (contains chunk.project_id (served_project_ids registration.projects)))
        incompatible_project
    raise_if (capability_ineligible fnmatchcase chunk (claim_node chunk) registration.capabilities)
        incompatible_capability
    let granted = claimed_by chunk runner_id workspace_id environment_ids
    modify (put_chunk granted)
    env ← envelope granted (claim_node chunk) granted.latest_epoch
    pure (record {
      chunk_id = chunk_id;
      runner_id = runner_id;
      workspace_id = workspace_id;
      environment_ids = environment_ids;
      envelope = env;
      route_token = granted.live_route_token;
    })

unfoldable pub rekeyed : ChunkState → ChunkState
rekeyed c =
    let count = c.route_token_rekey_count + 1 in
    record c {
      route_token_rekey_count = count;
      live_route_token = some (route_token c.chunk_id c.latest_epoch ++ ("-rekey" ++ show count));
    }

unfoldable pub rekey_route_token : String → String → Handler (Option String)
rekey_route_token chunk_id runner_id = do
  chunk ← require chunk_id
  raise_if (not chunk.claimed) chunk_not_found
  raise_if (not (chunk.route_runner_id == some runner_id)) rekey_not_holder
  lift (refuse_rekey chunk)
  modify (put_chunk (rekeyed chunk))
  pure (rekeyed chunk).live_route_token

-- The checks under the `enforce_release_route_token` lever.
unfoldable pub enforce_route_token :
    String → ChunkState → String → Option String → Handler (Unit {0})
enforce_route_token chunk_id c runner_id token h =
    elim (find_lever enforce_release_route_token chunk_id h) [
      | none ↦ (ok tt, h)
      | some _ ↦
          if not c.claimed || is_none c.live_route_token
          then (err (refused release_not_holder), h)
          else if not (token == c.live_route_token)
          then (err (refused release_not_holder), h)
          else if not (some runner_id == c.route_runner_id)
          then (err (refused release_not_holder), h)
          else (ok tt, h)
    ]

unfoldable pub release : String → String → ℕ → String → Option String → Handler ℕ
release chunk_id runner_id epoch reason token = do
  chunk ← require chunk_id
  enforce_route_token chunk_id chunk runner_id token
  (released, released_id) ← lift (Chunk.release chunk runner_id epoch reason)
  modify (put_chunk (record released { live_route_token = none }))
  pure released_id

-- `pause_chunk`, as it leaves the chunk
unfoldable pub paused_chunk : ChunkState → ChunkState
paused_chunk c =
    if is_paused c.status
    then c
    else record c { status_before_pause = some c.status; status = status_if_paused c.status }

unfoldable pub pause_chunk : String → Handler (Unit {0})
pause_chunk chunk_id = do
  chunk ← require chunk_id
  raise_if (not (is_pausable chunk.status)) (chunk_not_pausable chunk.status)
  modify (put_chunk (paused_chunk chunk))

unfoldable pub resumed_chunk : ChunkState → ChunkState
resumed_chunk c = record c {
  status = if is_paused c.status then get_or c.status_before_pause ready else c.status;
  status_before_pause = none;
}

unfoldable pub resume_chunk : String → Handler (Unit {0})
resume_chunk chunk_id = do chunk ← require chunk_id; modify (put_chunk (resumed_chunk chunk))

unfoldable pub stopped_chunk : ChunkState → ChunkState
stopped_chunk c = record c { status = stopped; claimed = false }

unfoldable pub stop_chunk : String → Handler (Unit {0})
stop_chunk chunk_id = do chunk ← require chunk_id; modify (put_chunk (stopped_chunk chunk))
