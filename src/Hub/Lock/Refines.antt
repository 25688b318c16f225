-- ===== src/Hub/Lock/Refines.antt =====
-- Every request, seen as what it does to the lock of one chunk.
use mathlib.Core.Path.{subst}
use blizzard_mock.Base.{Bool, option_eq}
use blizzard_mock.Hub.Retiring.{retire_host_runner-chunks}
use blizzard_mock.Hub.Service.Retire.{freed_of}
use blizzard_mock.Hub.Run.{
  Request, serve, claim_route, rekey_route, release_route, complete, decide_gate, advance_hub_node,
  pause, resume, stop, drop_the_ack, push_facts, retire_runner, arm_lever, clear_lever, tick_clock,
}
use blizzard_mock.Hub.Models.{needs_human, done}
use blizzard_mock.Hub.Service.Apply.{pop_drop_ack}
use blizzard_mock.Hub.Handlers.{
  claim-Touches, rekey_route_token-Touches, release-Touches, apply_completion-Touches,
  apply_decision-Touches, hub_advance-Touches, pause_chunk-Touches, resume_chunk-Touches,
  stop_chunk-Touches,
}
use blizzard_mock.Base.{refl, sym, String, arith, string_eq, inl, inr}
use blizzard_mock.Base.Dict.{lookup-map_values}
use blizzard_mock.Hub.Evolution.{IsWellFormed}
use blizzard_mock.Hub.State.{Hub}
use blizzard_mock.Hub.Lock.Writes.{
  Refines, same-Refines, touched-Refines, claimed-Locks, released-Locks, recorded-Locks,
  freed-Permits, rekeyed-Locks, status-Locks, paused-Locks, resumed-Locks, stopped-Locks,
}
use blizzard_mock.Hub.Lock.Raises.{ingest_facts-Raises}

module _ (fnmatchcase : String → String → Bool) where
  -- Every request, refused ones included, is for each chunk of a well-formed hub a step that the lock
  -- permits: the chunk is still there, and only a claim of a free chunk takes it, only a release by its
  -- holder at the fence's epoch gives it back, only a stop of the chunk breaks it, only a retirement of its
  -- holder by the host takes it back, and only facts raise its fence.
  pub serve-Refines :
      (rq : Request) (h : Hub)
      → IsWellFormed h.chunks
      → Refines rq h.chunks (serve fnmatchcase rq h).chunks
  unfolding serve pop_drop_ack
  serve-Refines (claim_route k r w envs) h wf =
      touched-Refines _ k _ h wf
        (claim-Touches _ fnmatchcase k r w envs (λ c free. claimed-Locks k c r w envs free))
  serve-Refines (rekey_route k r) h wf =
      touched-Refines _ k _ h wf (rekey_route_token-Touches _ k r (λ c. rekeyed-Locks k c _))
  serve-Refines (release_route k r epoch reason token) h wf = touched-Refines _ k _ h wf (
      release-Touches _ k r epoch reason token
        (λ c given e. released-Locks k c r epoch reason token given e))
  serve-Refines (complete k epoch from choice) h wf = touched-Refines _ k _ h wf (
      apply_completion-Touches _
        (λ c moved target n e t response _ moves.
          recorded-Locks k c _ moved target n e t response moves)
        k epoch from choice)
  serve-Refines (decide_gate k epoch from) h wf =
      touched-Refines _ k _ h wf
        (apply_decision-Touches _ k epoch from (λ c. status-Locks k c _ needs_human))
  serve-Refines (advance_hub_node k) h wf =
      touched-Refines _ k _ h wf (hub_advance-Touches _ k (λ c. status-Locks k c _ done))
  serve-Refines (pause k) h wf =
      touched-Refines _ k _ h wf (pause_chunk-Touches _ k (λ c _. paused-Locks k c _))
  serve-Refines (resume k) h wf =
      touched-Refines _ k _ h wf (resume_chunk-Touches _ k (λ c. resumed-Locks k c _))
  serve-Refines (stop k) h wf =
      touched-Refines _ k _ h wf (stop_chunk-Touches _ k (stopped-Locks k))
  serve-Refines (drop_the_ack k) h wf = same-Refines _ h.chunks _ (ground arith)
  serve-Refines (push_facts row facts) h wf = (ingest_facts-Raises row facts h wf).1
  serve-Refines (retire_runner host r force) h wf =
      elim (retire_host_runner-chunks r h host force) [
        | inl same ↦ same-Refines _ h.chunks _ same
        | inr freed ↦
            subst (Refines (retire_runner host r force) h.chunks) (sym freed) (λ k c found. (
              freed_of r c,
              ground (arith, found, lookup-map_values (freed_of r) k h.chunks),
              freed-Permits k c host r force,
            ))
      ]
  serve-Refines (arm_lever l) h wf = same-Refines _ h.chunks _ refl
  serve-Refines (clear_lever kind k) h wf = same-Refines _ h.chunks _ refl
  serve-Refines (tick_clock n) h wf = same-Refines _ h.chunks _ refl
