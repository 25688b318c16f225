-- ===== src/Hub/Peek/Claimable.antt =====
-- A runner that claims what the matched peek answered.
use mathlib.Core.Path.{subst}
use blizzard_mock.Base.{
  sym, ◌≡◌, Bool, true, false, String, Option, none, some, List, string_eq, arith, ok, is_none, [],
}
use blizzard_mock.Base.Dict.{lookup}
use blizzard_mock.Base.Lists.{contains}
use blizzard_mock.Hub.Models.{ChunkState}
use blizzard_mock.Hub.State.{Hub, RunnerRow, RunnerCapability}
use blizzard_mock.Hub.Levers.{
  dependency_unmet, pinned_graph_missing, claim_runner_retired, claim_runner_version_refused,
}
use blizzard_mock.Hub.Service.Guards.{served_project_ids, find_lever, refuse_by_claim_lever}
use blizzard_mock.Hub.Service.Route.{claim_node, claim, RouteClaimResponse}
use blizzard_mock.Hub.Evolution.{IsWellFormed}
use blizzard_mock.Hub.Claims.{claim_granted, Grantable}
use blizzard_mock.Hub.Registry.{Registry, get_runner}
use blizzard_mock.Hub.Matching.{of_value, capability_ineligible}
use blizzard_mock.Hub.Peek.{
  QueuePeekEntry, peek_matched, offered_project_ids, unusable, ready_chunks, in_queue,
  blocked_marking, search_from,
}
use blizzard_mock.Hub.Peek.Matched.{search-Found, ready-All, offered-served}

-- No lever of the claim surface is armed for the chunk and the runner but a dependency.
pub record IsUnarmed (k r : String) (h : Hub) : Type 0 where
  pub graph_pinned : find_lever pinned_graph_missing k h ≡ none
  pub lever_retired : (refuse_by_claim_lever claim_runner_retired k r h).0 ≡ ok tt
  pub lever_version : (refuse_by_claim_lever claim_runner_version_refused k r h).0 ≡ ok tt

-- Registered, not paused, not retired.
pub record IsActive (row : RunnerRow) : Type 0 where
  pub connected : is_none row.registered_at ≡ false
  pub not_braked : row.paused ≡ false
  pub not_retired : is_none row.retired_at ≡ true

module _ (fnmatchcase : String → String → Bool) where
  abbrev Usable : String → List RunnerCapability → ChunkState → Hub → Type 0
  Usable k capabilities c h =
      (find_lever dependency_unmet k h ≡ none)
      × (capability_ineligible fnmatchcase c (claim_node c) capabilities ≡ false)

  chunk-Usable :
      (capabilities : List RunnerCapability) (c : ChunkState) (h : Hub) {k : String}
      → unusable fnmatchcase capabilities c h ≡ false
      → k ≡ c.chunk_id
      → Usable k capabilities c h
  unfolding unusable blocked_marking
  chunk-Usable capabilities c h e same = (
    subst (λ k. find_lever dependency_unmet k h ≡ none) (sym same) (ground (arith, e)),
    ground (arith, e),
  )

  queued-Grantable :
      (k r : String) (h : Hub) (c : ChunkState) (row : RunnerRow)
      → lookup k h.chunks ≡ some c
      → lookup r h.runners ≡ some row
      → Usable k row.capabilities c h
      → in_queue c ≡ true
      → contains c.project_id (served_project_ids row.projects) ≡ true
      → IsActive row
      → IsUnarmed k r h
      → Grantable fnmatchcase k r h c row
  queued-Grantable k r h c row here held usable queued served active unarmed = record {
    found = here;
    registered = held;
    connected = active.connected;
    not_braked = active.not_braked;
    not_retired = active.not_retired;
    is_ready = ground (arith, queued);
    is_free = ground (arith, queued);
    served = served;
    capable = usable.1;
    graph_pinned = unarmed.graph_pinned;
    not_blocked = usable.0;
    lever_retired = unarmed.lever_retired;
    lever_version = unarmed.lever_version;
  }

module _ (fnmatchcase : String → String → Bool) (reachable projects : Option (List String))
    (r w policy : String) (envs : List String) (g : Registry) (row : RunnerRow)
    (entry : QueuePeekEntry) where
  -- A chunk that the matched peek answers to an active runner, asking with the capabilities it registered,
  -- is one that the runner's claim grants, whatever the policy, while no other lever refuses the claim.
  pub peek_matched-claim :
      get_runner r g ≡ some row
      → peek_matched fnmatchcase reachable r row.capabilities policy projects g ≡ ok (some entry)
      → IsWellFormed g.hub.chunks
      → IsActive row
      → IsUnarmed entry.chunk_id r g.hub
      → (answer : RouteClaimResponse) × ((claim fnmatchcase entry.chunk_id r w envs g.hub).0
          ≡ ok answer)
  unfolding peek_matched
  peek_matched-claim held e formed active unarmed =
      let found : search_from fnmatchcase 0 row.capabilities (of_value policy) projects
            (offered_project_ids reachable row projects) [] (ready_chunks g.hub) g.hub
          ≡ some entry =
        ground (arith, held, e) in
      let (c, (here, queued), same, served, usable) =
        search-Found fnmatchcase row.capabilities (of_value policy) projects
          (offered_project_ids reachable row projects) g.hub _ 0 [] (ready_chunks g.hub) entry
          (ready-All g.hub formed.keyed) found in
      let grantable =
        queued-Grantable fnmatchcase entry.chunk_id r g.hub c row
          (subst (λ k. lookup k g.hub.chunks ≡ some c) (sym same) here) held
          (chunk-Usable fnmatchcase row.capabilities c g.hub usable same) queued
          (offered-served c.project_id reachable projects row served) active unarmed in
      let (answer, granted) =
        claim_granted fnmatchcase entry.chunk_id r w envs g.hub c row grantable
          (formed.coherent c.chunk_id c here) in
      (answer, ground (arith, granted))
