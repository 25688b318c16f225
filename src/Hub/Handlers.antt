-- ===== src/Hub/Handlers.antt =====
-- Every handler of the service changes no chunk, or writes back the one chunk it was asked about, keeping
-- the chunk's invariant and its history.
use blizzard_mock.Levers.{Lever}
use blizzard_mock.Base.{
  ℕ, ◌≡◌, refl, inr, Bool, true, false, not, String, List, arith, string_eq, ◌>>=◌, pure, modify,
  Option-cases, Option, Bool-cases, ltb, ◌⊎◌, inl, Result, none, some, err, ok, option_eq, nat_eq,
  pair_eq,
}
use blizzard_mock.Base.Dict.{lookup}
use blizzard_mock.Hub.Models.{
  ChunkState, ChunkStatus, NodeEnvelope, Detail, ApplyOutcome, ApplyResponse,
}
use blizzard_mock.Hub.Chunk.{is_pausable, refuse_claim}
use blizzard_mock.Hub.Chunk as Chunk
use blizzard_mock.Hub.Models.{needs_human, done}
use blizzard_mock.Hub.Service.Route.{rekeyed, paused_chunk, resumed_chunk, stopped_chunk}
use blizzard_mock.Hub.Service.Apply.{record_applied}
use blizzard_mock.Hub.State.{put_chunk, Hub}
use blizzard_mock.Hub.Service.Guards.{envelope, find_lever, HubError}
use blizzard_mock.Hub.Levers.{claim_runner_retired, claim_runner_version_refused, replay}
use blizzard_mock.Hub.Service.Apply.{
  apply_completion, apply_decision, hub_advance, apply_once, apply_known, commit, write_advance,
  incoherent, decide, parked_at_hub, run_hub_node, apply_unless_replayed, rebuild,
  completion_target, advance, deliver,
}
use blizzard_mock.Hub.Service.Route.{
  release, rekey_route_token, enforce_route_token, claim, claimed_by, pause_chunk, resume_chunk,
  stop_chunk, claim_node,
}
use blizzard_mock.Hub.Frames.{
  Quiet, Touches, Updates, Updates->>=, Updates-put, Updates->>, Updates-check, Updates-raise_if,
  Touches-require, Quiet-check_pinned_graph, Quiet-refuse_retired_runner,
  Quiet-refuse_by_claim_lever, Quiet-refuse_braked_runner, Quiet-refuse_dependency, Writes,
  Updates-lift,
}

ruleset quiet = (
  Quiet-check_pinned_graph, Quiet-refuse_retired_runner, Quiet-refuse_by_claim_lever,
  Quiet-refuse_braked_runner, Quiet-refuse_dependency,
)

Quiet-envelope :
    {B : Type 0} (c : ChunkState) (n : String) (epoch : ℕ) (f : NodeEnvelope → B)
    → Quiet (envelope c n epoch >>= λ env. pure (f env))
unfolding ◌>>=◌ envelope
Quiet-envelope c n epoch f = record { chunks = λ h. ground arith }

module _ (R : ChunkState → ChunkState → Type 0) where
  pub claim-Touches :
      (fnmatchcase : String → String → Bool) (chunk_id runner_id workspace_id : String)
      (envs : List String)
      → ((c : ChunkState) → refuse_claim c ≡ ok tt → R c (claimed_by c runner_id workspace_id envs))
      → Touches R chunk_id (claim fnmatchcase chunk_id runner_id workspace_id envs)
  unfolding claim
  claim-Touches fnmatchcase chunk_id r w envs law = Touches-require R chunk_id _ (λ c.
      Updates->> R c _ _ (Quiet-check_pinned_graph chunk_id) (
        Updates->> R c _ _ (Quiet-refuse_retired_runner r) (
          Updates->> R c _ _ (Quiet-refuse_by_claim_lever claim_runner_retired chunk_id r) (
            Updates->> R c _ _ (Quiet-refuse_by_claim_lever claim_runner_version_refused chunk_id r)
              (Updates->>= R c _ _ (Quiet-refuse_braked_runner r) (λ row.
                Updates-check R c _ _ (λ free.
                  Updates->> R c _ _ (Quiet-refuse_dependency chunk_id) (
                    Updates-raise_if R c _ _ _ (λ _. Updates-raise_if R c _ _ _ (λ _.
                      Updates-put R c _ _ (law c free)
                        (Quiet-envelope (claimed_by c r w envs) (claim_node c) _ _)))))))))))

  pausable : (s : ChunkStatus) → not (is_pausable s) ≡ false → is_pausable s ≡ true
  pausable s h = ground arith

  -- The write of a handler that ends with it.
  put_last : (c c' : ChunkState) → R c c' → Updates R c (modify (put_chunk c'))
  put_last c c' k = record { writes = λ h. inr (c', k, refl) }

  pub pause_chunk-Touches :
      (chunk_id : String)
      → ((c : ChunkState) → is_pausable c.status ≡ true → R c (paused_chunk c))
      → Touches R chunk_id (pause_chunk chunk_id)
  unfolding pause_chunk
  pause_chunk-Touches chunk_id law =
      Touches-require R chunk_id _
        (λ c. Updates-raise_if R c _ _ _ (λ live. put_last c _ (law c (pausable c.status live))))

  pub resume_chunk-Touches :
      (chunk_id : String)
      → ((c : ChunkState) → R c (resumed_chunk c))
      → Touches R chunk_id (resume_chunk chunk_id)
  unfolding resume_chunk
  resume_chunk-Touches chunk_id law = Touches-require R chunk_id _ (λ c. put_last c _ (law c))

  pub stop_chunk-Touches :
      (chunk_id : String)
      → ((c : ChunkState) → R c (stopped_chunk c))
      → Touches R chunk_id (stop_chunk chunk_id)
  unfolding stop_chunk
  stop_chunk-Touches chunk_id law = Touches-require R chunk_id _ (λ c. put_last c _ (law c))

  Quiet-enforce_route_token :
      (chunk_id : String) (c : ChunkState) (r : String) (token : Option String)
      → Quiet (enforce_route_token chunk_id c r token)
  unfolding enforce_route_token
  Quiet-enforce_route_token chunk_id c r token = record { chunks = λ h. ground arith }

  Quiet-pure : {A : Type 0} (a : A) → Quiet (pure a)
  Quiet-pure a = record { chunks = λ h. refl }

  pub rekey_route_token-Touches :
      (chunk_id runner_id : String)
      → ((c : ChunkState) → R c (rekeyed c))
      → Touches R chunk_id (rekey_route_token chunk_id runner_id)
  unfolding rekey_route_token
  rekey_route_token-Touches chunk_id r law = Touches-require R chunk_id _ (λ c.
      Updates-raise_if R c _ _ _ (λ _.
        Updates-raise_if R c _ _ _
          (λ _. Updates-check R c _ _ (λ _. Updates-put R c _ _ (law c) (Quiet-pure _)))))

  pub release-Touches :
      (chunk_id runner_id : String) (epoch : ℕ) (reason : String) (token : Option String)
      → ((c : ChunkState) (given : ChunkState × ℕ)
          → Chunk.release c runner_id epoch reason ≡ ok given
          → R c (record given.0 { live_route_token = none }))
      → Touches R chunk_id (release chunk_id runner_id epoch reason token)
  unfolding release
  release-Touches chunk_id r epoch reason token law = Touches-require R chunk_id _ (λ c.
      Updates->> R c _ _ (Quiet-enforce_route_token chunk_id c r token)
        (Updates-lift R c _ _ (λ given e. Updates-put R c _ _ (law c given e) (Quiet-pure _))))

  Quiet-rebuild : (c : ChunkState) (outcome : ApplyOutcome) → Quiet (rebuild c outcome)
  unfolding rebuild
  Quiet-rebuild c outcome = record { chunks = λ h. ground arith }

  module _
      (law : (c moved : ChunkState) (target from_node_id : String) (epoch : ℕ) (h : Hub)
          (response : ApplyResponse)
        → lookup (from_node_id, epoch) c.applied ≡ none
        → advance c target h ≡ ok (response, moved)
        → R c (record_applied moved from_node_id epoch response)) where
    write_advance-Writes :
        (c : ChunkState) (target from_node_id : String) (epoch : ℕ) (h : Hub)
        (r : Result HubError (ApplyResponse × ChunkState))
        → lookup (from_node_id, epoch) c.applied ≡ none
        → advance c target h ≡ r
        → Writes R c h.chunks (write_advance from_node_id epoch r h).1.chunks
    unfolding write_advance
    write_advance-Writes c target from epoch h (err e) fresh moves = inl refl
    write_advance-Writes c target from epoch h (ok (response, moved)) fresh moves =
        inr (_, law c moved target from epoch h response fresh moves, refl)

    commit-Writes :
        (c : ChunkState) (from_node_id : String) (epoch : ℕ) (t : Detail ⊎ String) (h : Hub)
        → lookup (from_node_id, epoch) c.applied ≡ none
        → Writes R c h.chunks (commit c from_node_id epoch t h).1.chunks
    unfolding commit
    commit-Writes c from epoch (inl d) h fresh = inl refl
    commit-Writes c from epoch (inr target) h fresh =
        write_advance-Writes c target from epoch h (advance c target h) fresh refl

    apply_known-Writes :
        (c : ChunkState) (from_node_id : String) (epoch : ℕ) (choice : String)
        (o : Option ApplyOutcome) (h : Hub)
        → lookup (from_node_id, epoch) c.applied ≡ o
        → Writes R c h.chunks (apply_known c from_node_id epoch choice o h).1.chunks
    unfolding apply_known
    apply_known-Writes c from epoch choice (some outcome) h e =
        inl ((Quiet-rebuild c outcome).chunks h)
    apply_known-Writes c from epoch choice none h e =
        commit-Writes c from epoch (completion_target c from epoch choice h) h e

    -- A completion answered before, or refused, writes nothing; a fresh one is recorded.
    apply_once-Writes :
        (c : ChunkState) (from_node_id : String) (epoch : ℕ) (choice : String) (h : Hub)
        → Writes R c h.chunks (apply_once c from_node_id epoch choice h).1.chunks
    unfolding apply_once
    apply_once-Writes c from epoch choice h = apply_known-Writes c from epoch choice _ h refl

    deliver-Writes :
        (c : ChunkState) (from_node_id : String) (epoch : ℕ) (choice : String) (l : Option Lever)
        (previous : Option ApplyResponse) (h : Hub)
        → Writes R c h.chunks (deliver c from_node_id epoch choice l previous h).1.chunks
    unfolding deliver
    deliver-Writes c from epoch choice (some l) (some response) h = inl refl
    deliver-Writes c from epoch choice _ _ h = apply_once-Writes c from epoch choice h

    apply_unless_replayed-Updates :
        (c : ChunkState) (chunk_id : String) (epoch : ℕ) (from_node_id choice : String)
        → Updates R c (apply_unless_replayed c chunk_id epoch from_node_id choice)
    unfolding apply_unless_replayed
    apply_unless_replayed-Updates c chunk_id epoch from choice = record {
      writes =
          λ h. deliver-Writes c from epoch choice (find_lever replay chunk_id h) c.last_response h;
    }

    pub apply_completion-Touches :
        (chunk_id : String) (epoch : ℕ) (from_node_id choice : String)
        → Touches R chunk_id (apply_completion chunk_id epoch from_node_id choice)
    unfolding apply_completion
    apply_completion-Touches chunk_id epoch from choice = Touches-require R chunk_id _ (λ c.
        Updates->> R c _ _ (Quiet-check_pinned_graph chunk_id)
          (apply_unless_replayed-Updates c chunk_id epoch from choice))

  decide-Updates :
      (c : ChunkState) (from_node_id : String) (epoch : ℕ)
      → R c (record c { status = needs_human })
      → Updates R c (decide c from_node_id epoch)
  unfolding decide
  decide-Updates c from epoch law = record {
    writes = λ h. elim (Bool-cases (ltb epoch c.latest_epoch)) [
      | inl stale ↦ rw stale (inl refl)
      | inr current ↦ elim (Option-cases (incoherent c from epoch h)) [
        | inl coherent ↦ rw (current, coherent) (inr (_, law, refl))
        | inr (d, why) ↦ rw (current, why) (inl refl)
      ]
    ];
  }

  pub apply_decision-Touches :
      (chunk_id : String) (epoch : ℕ) (from_node_id : String)
      → ((c : ChunkState) → R c (record c { status = needs_human }))
      → Touches R chunk_id (apply_decision chunk_id epoch from_node_id)
  unfolding apply_decision
  apply_decision-Touches chunk_id epoch from law = Touches-require R chunk_id _ (λ c.
      Updates->> R c _ _ (Quiet-check_pinned_graph chunk_id) (decide-Updates c from epoch (law c)))

  pub hub_advance-Touches :
      (chunk_id : String)
      → ((c : ChunkState) → R c (record c { status = done }))
      → Touches R chunk_id (hub_advance chunk_id)
  unfolding hub_advance run_hub_node
  hub_advance-Touches chunk_id law = Touches-require R chunk_id _ (λ c.
      Updates->> R c _ _ (Quiet-check_pinned_graph chunk_id) (record {
        writes = λ h. elim (Bool-cases (parked_at_hub c)) [
          | inl parked ↦ inr (_, law c, rw parked)
          | inr elsewhere ↦ inl (rw elsewhere)
        ];
      }))
