-- ===== src/Hub/Matching.antt =====
-- Capability matching, src/blizzard_mock/mock_hub/domain/matching.py. Shell-pattern matching
-- (`fnmatch.fnmatchcase`) is the standard library's and is the parameter `fnmatchcase`.
pub mod Reach
pub mod Found
pub mod Exact
use blizzard_mock.Base.{
  ℕ, zero, suc, ◌+◌, Bool, true, false, not, ◌&&◌, ◌||◌, String, Option, none, some, List, [], ◌∷◌,
  ◌++◌, string_eq, ◌==◌, if◌then◌else◌, ltb,
}
use text.Mathlib.Text.{starts_with}
use blizzard_mock.Base.Dict.{Dict, lookup}
use blizzard_mock.Base.Lists.{length, contains, any, all, first, keep_if}
use blizzard_mock.Hub.Models.{Executor, runner, hub, ChoiceSpec, NodeSpec, ChunkState, terminal}
use blizzard_mock.Hub.Chunk.{node}
use blizzard_mock.Hub.State.{RunnerCapability}

pub data QueueMatchPolicy : Type 0 where
  hold pass_over : QueueMatchPolicy

unfoldable pub of_value : String → QueueMatchPolicy
of_value v = if v == "hold" then hold else pass_over

abbrev pub is_runner : Executor → Bool
is_runner runner = true
is_runner hub = false

-- `for choice in node.choices: if choice.to != TERMINAL: stack.append(choice.to)`, on a stack whose
-- top is the head.
unfoldable pub push_choices : List ChoiceSpec → List String → List String
push_choices [] stack = stack
push_choices (ch ∷ chs) stack =
    push_choices chs (if ch.to == terminal then stack else ch.to ∷ stack)

-- The walk's variables; `runner_ids` in the order of discovery.
pub record Walk : Type 0 where
  pub seen : List String
  pub runner_ids : List String
  pub stack : List String

-- One round of the loop at the popped id, with the rest of the stack.
unfoldable pub visit : ChunkState → String → List String → Walk → Walk
visit c node_id rest w =
    if contains node_id w.seen then record w { stack = rest } else elim (node c node_id) [
      | none ↦ record w { seen = node_id ∷ w.seen; stack = rest }
      | some n ↦ record {
        seen = node_id ∷ w.seen;
        runner_ids = if is_runner n.executor then w.runner_ids ++ (node_id ∷ []) else w.runner_ids;
        stack = push_choices n.choices rest;
      }
    ]

-- The loop with fuel; `none` means that the fuel ran out.
unfoldable pub walk : ℕ → ChunkState → Walk → Option (List String)
walk zero c w = none
walk (suc fuel) c w = elim w.stack [
  | [] ↦ some w.runner_ids
  | node_id ∷ rest ↦ walk fuel c (visit c node_id rest w)
]

-- The edges of all nodes: each is pushed at most once.
unfoldable pub edges : Dict String NodeSpec → ℕ
edges [] = 0
edges ((_, n) ∷ d) = length n.choices + edges d

abbrev pub fuel_for : ChunkState → ℕ
fuel_for c = suc (suc (edges c.nodes))

abbrev pub start_at : String → Walk
start_at start = record { seen = []; runner_ids = []; stack = start ∷ [] }

unfoldable pub reachable_runner_node_ids : ChunkState → String → Option (List String)
reachable_runner_node_ids c start = walk (fuel_for c) c (start_at start)

unfoldable pub effective_harnesses : NodeSpec → ChunkState → List String
effective_harnesses n c = elim n.session_harnesses [ [] ↦ c.default_harnesses | h ∷ hs ↦ h ∷ hs ]

unfoldable pub effective_model : NodeSpec → ChunkState → List String
effective_model n c = elim n.session_model [ [] ↦ c.default_model | m ∷ ms ↦ m ∷ ms ]

abbrev is_empty : List String → Bool
is_empty [] = true
is_empty (_ ∷ _) = false

module _ (fnmatchcase : String → String → Bool) where
  unfoldable pub supported : String → RunnerCapability → Bool
  supported entry capability =
      not (starts_with entry "blizzard:") && any (fnmatchcase entry) capability.supported_models

  -- `any(entry in capability.tiers or _supported(entry, capability) for entry in model)`
  unfoldable pub serves_model : List String → RunnerCapability → Bool
  serves_model model capability =
      any (λ entry. contains entry capability.tiers || supported entry capability) model

  -- The loop over the effective harnesses.
  unfoldable pub some_harness : Bool → List String → List RunnerCapability → List String → Bool
  some_harness strict model available [] = false
  some_harness strict model available (harness_id ∷ hs) =
      let rest = some_harness strict model available hs in
      elim (first (λ k. k.harness_id == harness_id) available) [
        | none ↦ rest
        | some capability ↦ if strict && not (serves_model model capability) then rest else true
      ]

  unfoldable pub lineage_satisfied : ChunkState → List RunnerCapability → String → Bool
  lineage_satisfied c capabilities node_id = elim (node c node_id) [
    | none ↦ true
    | some n ↦
        let available = keep_if (λ k. k.available) capabilities in
        let harnesses = effective_harnesses n c in
        let model = effective_model n c in
        if is_empty harnesses
        then any (λ k. k.default) available
        else some_harness (ltb 1 (length harnesses) && not (is_empty model)) model available
            harnesses
  ]

  -- With enough fuel the walk answers; the `none` case is never taken (Matching/Reach).
  unfoldable pub capability_ineligible : ChunkState → String → List RunnerCapability → Bool
  capability_ineligible c node_id [] = true
  capability_ineligible c node_id (k ∷ ks) = elim (reachable_runner_node_ids c node_id) [
    | none ↦ true
    | some ids ↦ not (all (lineage_satisfied c (k ∷ ks)) ids)
  ]
