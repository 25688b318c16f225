-- ===== src/Hub/Matching/Reach.antt =====
-- The fuel of the walk over a chunk's graph.
use blizzard_mock.Base.{
  ap, ℕ, zero, suc, ◌+◌, ◌≤◌, ◌<◌, ◌≡◌, refl, inl, inr, false, String, some, List, [], ◌∷◌, arith,
  string_eq, ◌==◌, ==_true, Bool-cases, Option-cases, if◌then◌else◌,
}
use blizzard_mock.Base.Dict.{Dict, lookup}
use blizzard_mock.Base.Lists.{length, contains}
use blizzard_mock.Hub.Models.{ChoiceSpec, NodeSpec, ChunkState, terminal}
use blizzard_mock.Hub.Chunk.{node}
use blizzard_mock.Hub.Matching.{
  push_choices, Walk, visit, walk, edges, reachable_runner_node_ids, fuel_for,
}

-- The choices of the nodes not yet seen.
unseen : List String → Dict String NodeSpec → ℕ
unseen seen [] = 0
unseen seen ((k, n) ∷ d) = (if contains k seen then 0 else length n.choices) + unseen seen d

push_choices-length :
    (chs : List ChoiceSpec) (stack : List String)
    → length (push_choices chs stack) ≤ length chs + length stack
unfolding push_choices
push_choices-length [] stack = omega arith
push_choices-length (ch ∷ chs) stack = elim (Bool-cases (ch.to == terminal)) [
  | inl ends ↦ ground (arith, push_choices-length chs stack)
  | inr goes ↦ ground (arith, push_choices-length chs (ch.to ∷ stack))
]

unseen-start : (d : Dict String NodeSpec) → unseen [] d ≡ edges d
unfolding unseen edges contains
unseen-start [] = refl
unseen-start ((k, n) ∷ d) = omega (arith, unseen-start d)

unseen-more :
    (x : String) (seen : List String) (d : Dict String NodeSpec)
    → unseen (x ∷ seen) d ≤ unseen seen d
unfolding unseen contains
unseen-more x seen [] = omega arith
unseen-more x seen ((k, n) ∷ d) = ground (arith, unseen-more x seen d)

unseen-visited :
    (x : String) (n : NodeSpec) (seen : List String) (d : Dict String NodeSpec)
    → lookup x d ≡ some n
    → contains x seen ≡ false
    → length n.choices + unseen (x ∷ seen) d ≤ unseen seen d
unfolding unseen lookup contains
unseen-visited x n seen [] found new = ground arith
unseen-visited x n seen ((k, m) ∷ d) found new = elim (Bool-cases (k == x)) [
  | inl this ↦
      let same : contains k seen ≡ contains x seen = ap (λ y. contains y seen) (==_true k x this) in
      let here : length m.choices ≡ length n.choices = ground arith in
      ground (arith, same, here, string_eq.beq_iff k x, string_eq.beq_iff x k, unseen-more x seen d)
  | inr other ↦
      ground (arith, string_eq.beq_iff k x, string_eq.beq_iff x k, unseen-visited x n seen d)
]

module _ (c : ChunkState) where
  -- What the walk still has to do.
  abbrev left : Walk → ℕ
  left w = length w.stack + unseen w.seen c.nodes

  visit-left :
      (x : String) (rest : List String) (w : Walk)
      → left (visit c x rest w) ≤ length rest + unseen w.seen c.nodes
  unfolding visit node
  visit-left x rest w = elim (Option-cases (lookup x c.nodes)) [
    | inl missing ↦ ground (arith, unseen-more x w.seen c.nodes)
    | inr (n, found) ↦
        ground (arith, push_choices-length n.choices rest, unseen-visited x n w.seen c.nodes found)
  ]

  walk_enough :
      (fuel : ℕ) (seen ids stack : List String)
      → length stack + unseen seen c.nodes < fuel
      → (found : List String) × (walk fuel c
            (record { seen = seen; runner_ids = ids; stack = stack })
          ≡ some found)
  unfolding walk
  walk_enough zero seen ids stack enough = ground arith
  walk_enough (suc fuel) seen ids [] enough = (ids, refl)
  walk_enough (suc fuel) seen ids (x ∷ rest) enough =
      let w = visit c x rest (record { seen = seen; runner_ids = ids; stack = x ∷ rest }) in
      walk_enough fuel w.seen w.runner_ids w.stack (
        omega (
          arith,
          enough,
          visit-left x rest (record { seen = seen; runner_ids = ids; stack = x ∷ rest }),
        ))

  -- The walk over a chunk's graph ends within its fuel, from every start: the runner nodes it finds
  -- are answered.
  pub reachable_total :
      (start : String) → (ids : List String) × (reachable_runner_node_ids c start ≡ some ids)
  unfolding reachable_runner_node_ids
  reachable_total start =
      walk_enough (fuel_for c) [] [] (start ∷ []) (omega (arith, unseen-start c.nodes))
