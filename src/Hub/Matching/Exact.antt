-- ===== src/Hub/Matching/Exact.antt =====
-- The answer of the walk over a chunk's graph, against the ids that choices reach.
use Prim.Native.Nat.{ℕ, zero, suc}
use mathlib.Core.Path.{subst}
use blizzard_mock.Base.{
  ◌↔◌, ◌≡◌, refl, true, String, some, List, [], ◌∷◌, arith, string_eq, ==_self, ◌↔◌, ==_true, ℕ,
  suc,
}
use blizzard_mock.Hub.Matching.Reach.{reachable_total}
use blizzard_mock.Base.Lists.{contains}
use blizzard_mock.Hub.Models.{ChunkState}
use blizzard_mock.Hub.Matching.{visit, start_at, walk, reachable_runner_node_ids, fuel_for}
use blizzard_mock.Hub.Matching.Found.{
  Reaches, here, runs_here, Sound, Complete, seen_all, Sound-visit, Complete-visit, before,
}
use blizzard_mock.Hub.Matching.Reach.{reachable_total}
use blizzard_mock.Hub.Matching.{walk, fuel_for, start_at, reachable_runner_node_ids, visit}

module _ (c : ChunkState) (start : String) where
  -- The ids are exactly the runner nodes that choices reach.
  abbrev pub Exactly : List String → Type 0
  Exactly ids =
      (y : String) → (contains y ids ≡ true) ↔ (Reaches c start y × (runs_here c y ≡ true))

  walk-Exactly :
      (fuel : ℕ) (seen ids stack found : List String)
      → Sound c start (record { seen = seen; runner_ids = ids; stack = stack })
      → Complete c start (record { seen = seen; runner_ids = ids; stack = stack })
      → walk fuel c (record { seen = seen; runner_ids = ids; stack = stack }) ≡ some found
      → Exactly found
  unfolding walk
  walk-Exactly zero seen ids stack found s h e = ground arith
  walk-Exactly (suc fuel) seen ids [] found s h e = λ y.
      let same : ids ≡ found = ground arith in
      subst (λ l. (contains y l ≡ true) ↔ (Reaches c start y × (runs_here c y ≡ true))) same
        (s.found y, λ p. h.kept y (seen_all c start _ h refl p.0) p.1)
  walk-Exactly (suc fuel) seen ids (x ∷ rest) found s h e =
      let w = visit c x rest (before c start x seen ids rest) in
      walk-Exactly fuel w.seen w.runner_ids w.stack found (Sound-visit c start x seen ids rest s)
        (Complete-visit c start x seen ids rest h) e

  start-Sound : Sound c start (start_at start)
  unfolding contains
  start-Sound = record {
    stacked = λ y e. subst (Reaches c start) (==_true start y (ground arith)) here;
    found = λ y e. ground arith;
  }

  start-Complete : Complete c start (start_at start)
  unfolding contains
  start-Complete = record {
    started = ground (arith, ==_self start);
    closed = λ z y n s k l. ground arith;
    kept = λ y s r. ground arith;
  }

  -- The walk answers, from every start, exactly the nodes that a runner executes and that the start
  -- reaches by choices that do not end the graph, the start included.
  pub reachable-Exactly :
      (ids : List String) × (reachable_runner_node_ids c start ≡ some ids) × Exactly ids
  unfolding reachable_runner_node_ids
  reachable-Exactly =
      let (ids, e) = reachable_total c start in
      (ids, e, walk-Exactly (fuel_for c) [] [] (start ∷ []) ids start-Sound start-Complete e)
