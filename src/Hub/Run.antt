-- ===== src/Hub/Run.antt =====
-- Runs of requests against the hub.
use blizzard_mock.Levers.{Lever, arm, clear}
use mathlib.Core.Path.{subst}
use blizzard_mock.Hub.Retiring.{retire_host_runner-chunks}
use blizzard_mock.Hub.Service.Retire.{retire_host_runner, freed_of}
use blizzard_mock.Hub.Moves.{recorded-Keeps}
use blizzard_mock.Hub.Coherent.{
  freed_of-Keeps, Keeps, claimed_by-Keeps, rekeyed-Keeps, release-Keeps, needs_human-Keeps,
  done-Keeps, paused_chunk-Keeps, resumed_chunk-Keeps, stopped_chunk-Keeps,
}
use blizzard_mock.Hub.Handlers.{
  claim-Touches, rekey_route_token-Touches, release-Touches, apply_completion-Touches,
  apply_decision-Touches, hub_advance-Touches, pause_chunk-Touches, resume_chunk-Touches,
  stop_chunk-Touches,
}
use blizzard_mock.Hub.Service.Apply.{pop_drop_ack, apply_completion, apply_decision, hub_advance}
use blizzard_mock.Hub.Service.Facts.{ingest_facts, SeqFact}
use blizzard_mock.Hub.Service.Route.{
  claim, rekey_route_token, release, pause_chunk, resume_chunk, stop_chunk,
}
use blizzard_mock.Base.{
  inl, inr, sym, ℕ, refl, Bool, String, Option, List, [], ◌∷◌, arith, string_eq,
}
use blizzard_mock.Hub.State.{Hub, RunnerRow}
use blizzard_mock.Hub.Evolution.{
  Evolves-mapped, Evolves, Evolves-same, Evolves-trans, Evolves-touched, ingest_facts-Evolves,
  IsWellFormed, Continues,
}

-- What a client of the hub sends that reads or changes a chunk's route: the fleet's routes, the operator's
-- verbs, a fact batch, a host's retirement of a runner, and levers. Seeding chunks and resetting the hub
-- are set-up and no requests here.
pub data Request : Type 0 where
  claim_route : String → String → String → List String → Request
  rekey_route : String → String → Request
  release_route : String → String → ℕ → String → Option String → Request
  complete : String → ℕ → String → String → Request
  decide_gate : String → ℕ → String → Request
  advance_hub_node pause resume stop drop_the_ack : String → Request
  push_facts : RunnerRow → List SeqFact → Request
  -- the host, its runner, and whether it is forced
  retire_runner : String → String → Bool → Request
  arm_lever : Lever → Request
  clear_lever : String → Option String → Request
  tick_clock : ℕ → Request

module _ (fnmatchcase : String → String → Bool) where
  unfoldable pub serve : Request → Hub → Hub
  serve (claim_route k r w envs) h = (claim fnmatchcase k r w envs h).1
  serve (rekey_route k r) h = (rekey_route_token k r h).1
  serve (release_route k r epoch reason token) h = (release k r epoch reason token h).1
  serve (complete k epoch from choice) h = (apply_completion k epoch from choice h).1
  serve (decide_gate k epoch from) h = (apply_decision k epoch from h).1
  serve (advance_hub_node k) h = (hub_advance k h).1
  serve (pause k) h = (pause_chunk k h).1
  serve (resume k) h = (resume_chunk k h).1
  serve (stop k) h = (stop_chunk k h).1
  serve (drop_the_ack k) h = (pop_drop_ack k h).1
  serve (push_facts row facts) h = (ingest_facts row facts h).1
  serve (retire_runner host r force) h = (retire_host_runner host r force h).1
  serve (arm_lever l) h = record h { levers = arm l h.levers }
  serve (clear_lever kind k) h = record h { levers = clear kind k h.levers }
  serve (tick_clock n) h = record h { now = n }

  unfoldable pub run : List Request → Hub → Hub
  run [] h = h
  run (r ∷ rs) h = run rs (serve r h)

  serve-Evolves : (r : Request) (h : Hub) → Evolves h.chunks (serve r h).chunks
  unfolding serve pop_drop_ack
  serve-Evolves (claim_route k r w envs) h =
      Evolves-touched k _ h
        (claim-Touches Keeps fnmatchcase k r w envs (λ c. claimed_by-Keeps c r w envs))
  serve-Evolves (rekey_route k r) h =
      Evolves-touched k _ h (rekey_route_token-Touches Keeps k r rekeyed-Keeps)
  serve-Evolves (release_route k r epoch reason token) h =
      Evolves-touched k _ h (
        release-Touches Keeps k r epoch reason token
          (λ c given e. release-Keeps c r epoch reason e))
  serve-Evolves (complete k epoch from choice) h =
      Evolves-touched k _ h (apply_completion-Touches Keeps recorded-Keeps k epoch from choice)
  serve-Evolves (decide_gate k epoch from) h =
      Evolves-touched k _ h (apply_decision-Touches Keeps k epoch from needs_human-Keeps)
  serve-Evolves (advance_hub_node k) h =
      Evolves-touched k _ h (hub_advance-Touches Keeps k done-Keeps)
  serve-Evolves (pause k) h = Evolves-touched k _ h (pause_chunk-Touches Keeps k paused_chunk-Keeps)
  serve-Evolves (resume k) h =
      Evolves-touched k _ h (resume_chunk-Touches Keeps k resumed_chunk-Keeps)
  serve-Evolves (stop k) h = Evolves-touched k _ h (stop_chunk-Touches Keeps k stopped_chunk-Keeps)
  serve-Evolves (drop_the_ack k) h = Evolves-same h.chunks _ (ground arith)
  serve-Evolves (push_facts row facts) h = ingest_facts-Evolves row facts h
  serve-Evolves (retire_runner host r force) h = elim (retire_host_runner-chunks r h host force) [
    | inl same ↦ Evolves-same h.chunks _ same
    | inr freed ↦
        subst (Evolves h.chunks) (sym freed)
          (Evolves-mapped (freed_of r) h.chunks (λ c. freed_of-Keeps c r))
  ]
  serve-Evolves (arm_lever l) h = Evolves-same h.chunks _ refl
  serve-Evolves (clear_lever kind k) h = Evolves-same h.chunks _ refl
  serve-Evolves (tick_clock n) h = Evolves-same h.chunks _ refl

  pub serve-IsWellFormed :
      (r : Request) (h : Hub) → IsWellFormed h.chunks → IsWellFormed (serve r h).chunks
  serve-IsWellFormed r h wf = (serve-Evolves r h).well_formed wf

  run-Evolves : (rs : List Request) (h : Hub) → Evolves h.chunks (run rs h).chunks
  unfolding run
  run-Evolves [] h = Evolves-same h.chunks h.chunks refl
  run-Evolves (r ∷ rs) h = Evolves-trans (serve-Evolves r h) (run-Evolves rs (serve r h))

  -- From a well-formed hub, any run of requests, refused ones included, leaves the hub well-formed, and
  -- every chunk is still there with the same graph, a fence no lower, and all its applied completions.
  pub run-Continues :
      (rs : List Request) (h : Hub)
      → IsWellFormed h.chunks
      → IsWellFormed (run rs h).chunks × Continues h.chunks (run rs h).chunks
  run-Continues rs h w = ((run-Evolves rs h).well_formed w, (run-Evolves rs h).continues w)
