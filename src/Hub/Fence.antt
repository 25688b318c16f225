-- ===== src/Hub/Fence.antt =====
-- Late and repeated reports of an epoch, over runs of requests.
use mathlib.Core.Path.{subst}
use blizzard_mock.Base.{
  ℕ, ◌<◌, ◌≡◌, ◌≢◌, refl, sym, ◌∙◌, Bool, String, Option, none, some, List, arith, string_eq, ok,
  err, Result, ◌>>=◌, ◌>>◌, nat_eq, pair_eq, option_eq, Option-cases, inl, inr,
}
use blizzard_mock.Base.Dict.{lookup}
use blizzard_mock.Levers.{Lever}
use blizzard_mock.Hub.Models.{ChunkState, ApplyOutcome, ApplyResponse, next, failure}
use blizzard_mock.Hub.State.{Hub}
use blizzard_mock.Hub.Levers.{replay, pinned_graph_missing}
use blizzard_mock.Hub.Service.Guards.{
  HubError, Handler, find_lever, no_such_node, require, check_pinned_graph, envelope,
}
use blizzard_mock.Hub.Service.Apply.{
  apply_completion, apply_decision, apply_unless_replayed, deliver, apply_once, apply_known,
  rebuild, commit, completion_target, decide,
}
use blizzard_mock.Hub.Frames.{Quiet, require_found, Quiet-check_pinned_graph}
use blizzard_mock.Hub.Models.{hub_node_taken, parked_at_gate, outcome_done}
use blizzard_mock.Hub.Passing.{stepped, check_pinned_graph_ok}
use blizzard_mock.Hub.Evolution.{IsWellFormed}
use blizzard_mock.Hub.Run.{Request, run, run-Continues, serve, complete, serve-IsWellFormed}
use blizzard_mock.Hub.Recorded.{apply_completion-Recorded}
use blizzard_mock.Hub.Chunk.{node}

module _ {B : Type 0} (m : Handler (Unit {0})) (rest : Handler B) where
  Quiet-step :
      (r : Result HubError (Unit {0})) (s h : Hub)
      → Quiet rest
      → (((λ _. (r, s)) >> rest) h).1.chunks ≡ s.chunks
  unfolding ◌>>=◌
  Quiet-step (ok _) s h q = q.chunks s
  Quiet-step (err e) s h q = refl

  Quiet->> : Quiet m → Quiet rest → Quiet (m >> rest)
  unfolding ◌>>=◌
  Quiet->> p q = record { chunks = λ h. Quiet-step (m h).0 (m h).1 h q ∙ p.chunks h }

-- A handler that reads its chunk first, and is quiet on what it reads.
Quiet-on :
    {B : Type 0} (k : String) (f : ChunkState → Handler B) (h : Hub) (c : ChunkState)
    → lookup k h.chunks ≡ some c
    → Quiet (f c)
    → ((require k >>= f) h).1.chunks ≡ h.chunks
unfolding ◌>>=◌
Quiet-on k f h c found q =
    subst (λ rs. (((λ _. rs) >>= f) h).1.chunks ≡ h.chunks) (sym (require_found k h found))
      (q.chunks h)

-- The answer has this outcome, or the outcome was NEXT and the chunk stands at a node that its graph
-- lacks.
abbrev pub Answers : ChunkState → ApplyOutcome → Result HubError ApplyResponse → Type 0
Answers c o (ok answer) = answer.outcome ≡ o
Answers c o (err e) =
    (e ≡ no_such_node)
    × (o ≡ next)
    × ((n : String) × (c.current_node_id ≡ some n) × (lookup n c.nodes ≡ none))

module _ (c : ChunkState) (k from : String) (epoch : ℕ) (choice : String) where
  rebuild_quiet : (o : ApplyOutcome) (h : Hub) → (rebuild c o h).1 ≡ h
  unfolding rebuild envelope
  rebuild_quiet o h = ground arith

  deliver_quiet :
      ((h : Hub) → (apply_once c from epoch choice h).1 ≡ h)
      → (l : Option Lever) (last : Option ApplyResponse) (h : Hub)
      → (deliver c from epoch choice l last h).1.chunks ≡ h.chunks
  unfolding deliver
  deliver_quiet once (some l) (some response) h = refl
  deliver_quiet once (some l) none h = cc (once h)
  deliver_quiet once none last h = cc (once h)

  completion-Quiet :
      ((h : Hub) → (apply_once c from epoch choice h).1 ≡ h)
      → Quiet (check_pinned_graph k >> apply_unless_replayed c k epoch from choice)
  unfolding apply_unless_replayed
  completion-Quiet once =
      Quiet->> _ _ (Quiet-check_pinned_graph k)
        (record { chunks = λ h. deliver_quiet once (find_lever replay k h) c.last_response h })

  stale_known :
      epoch < c.latest_epoch
      → (o : Option ApplyOutcome) (h : Hub) → (apply_known c from epoch choice o h).1 ≡ h
  unfolding apply_known commit completion_target
  stale_known old (some o) h = rebuild_quiet o h
  stale_known old none h = ground arith

  stale_once : epoch < c.latest_epoch → (h : Hub) → (apply_once c from epoch choice h).1 ≡ h
  unfolding apply_once
  stale_once old h = stale_known old (lookup (from, epoch) c.applied) h

  stale_decision : epoch < c.latest_epoch → Quiet (check_pinned_graph k >> decide c from epoch)
  unfolding decide
  stale_decision old =
      Quiet->> _ _ (Quiet-check_pinned_graph k) (record { chunks = λ h. ground arith })

  known_once :
      {o : ApplyOutcome}
      → lookup (from, epoch) c.applied ≡ some o
      → (h : Hub) → (apply_once c from epoch choice h).1 ≡ h
  unfolding apply_once apply_known
  known_once known h = rw known (rebuild_quiet _ h)

  deliver_known :
      (h : Hub) {o : ApplyOutcome}
      → lookup (from, epoch) c.applied ≡ some o
      → find_lever replay k h ≡ none
      → apply_unless_replayed c k epoch from choice h ≡ rebuild c o h
  unfolding apply_unless_replayed deliver apply_once apply_known
  deliver_known h known no_replay = rw (no_replay, known) refl

  rebuild-Answers : (o : ApplyOutcome) (h : Hub) → Answers c o (rebuild c o h).0
  unfolding rebuild envelope node
  rebuild-Answers next h = elim (Option-cases c.current_node_id) [
    | inl nowhere ↦ rw (nowhere, rebuild) refl
    | inr (n, here) ↦ elim (Option-cases (lookup n c.nodes)) [
      | inl lacking ↦ rw (here, lacking, rebuild, envelope, node) (refl, refl, (n, refl, lacking))
      | inr (s, known) ↦ rw (here, known, rebuild, envelope, node) refl
    ]
  ]
  rebuild-Answers hub_node_taken h = refl
  rebuild-Answers parked_at_gate h = refl
  rebuild-Answers outcome_done h = refl
  rebuild-Answers failure h = refl

module _ (fnmatchcase : String → String → Bool) (rs : List Request) (k : String) (epoch : ℕ)
    (from choice : String) (h : Hub) (c : ChunkState) (wf : IsWellFormed h.chunks)
    (found : lookup k h.chunks ≡ some c) where
  -- Once a chunk of a well-formed hub has a fence above an epoch, then after any run of requests a
  -- completion or a decision of that epoch for the chunk changes no chunk.
  pub fence_holds :
      epoch < c.latest_epoch
      → let h' = run fnmatchcase rs h in
        ((apply_completion k epoch from choice h').1.chunks ≡ h'.chunks)
        × ((apply_decision k epoch from h').1.chunks ≡ h'.chunks)
  unfolding apply_completion apply_decision
  fence_holds old =
      let (c', found', step) = (run-Continues fnmatchcase rs h wf).1 k c found in
      let still : epoch < c'.latest_epoch = omega (arith, step.fence, old) in
      (
        Quiet-on k _ _ c' found'
            (completion-Quiet c' k from epoch choice (stale_once c' k from epoch choice still)),
        Quiet-on k _ _ c' found' (stale_decision c' k from epoch choice still),
      )

  applied_stays :
      {o : ApplyOutcome}
      → lookup (from, epoch) c.applied ≡ some o
      → let h' = run fnmatchcase rs h in
        (apply_completion k epoch from choice h').1.chunks ≡ h'.chunks
  unfolding apply_completion
  applied_stays {o} known =
      let (c', found', step) = (run-Continues fnmatchcase rs h wf).1 k c found in
      let kept = step.applied (from, epoch) o known in
      Quiet-on k _ _ c' found'
        (completion-Quiet c' k from epoch choice (known_once c' k from epoch choice kept))

  applied-Answers :
      {o : ApplyOutcome}
      → lookup (from, epoch) c.applied ≡ some o
      → find_lever replay k (run fnmatchcase rs h) ≡ none
      → find_lever pinned_graph_missing k (run fnmatchcase rs h) ≡ none
      → (c' : ChunkState) × (lookup k (run fnmatchcase rs h).chunks ≡ some c')
        × Answers c' o (apply_completion k epoch from choice (run fnmatchcase rs h)).0
  unfolding apply_completion apply_unless_replayed apply_once
  applied-Answers {o} known no_replay pinned =
      let h' = run fnmatchcase rs h in
      let (c', found', step) = (run-Continues fnmatchcase rs h wf).1 k c found in
      let kept = step.applied (from, epoch) o known in
      (
        c',
        found',
        subst (λ s. Answers c' o s.0)
            (sym (
              stepped (require k) _ h' c' (require_found k h' found') (
                stepped (check_pinned_graph k) _ h' tt (check_pinned_graph_ok k k h' pinned)
                  (deliver_known c' k from epoch choice h' kept no_replay))))
            (rebuild-Answers c' k from epoch choice o h'),
      )

module _ (fnmatchcase : String → String → Bool) (rs : List Request) (k : String) (epoch : ℕ)
    (from choice again : String) (h h1 : Hub) (answer : ApplyResponse) (wf : IsWellFormed h.chunks)
    (no_replay : find_lever replay k h ≡ none)
    (first : apply_completion k epoch from choice h ≡ (ok answer, h1))
    (landed : answer.outcome ≢ failure) where
  formed : IsWellFormed h1.chunks
  unfolding serve
  formed =
      subst (λ p. IsWellFormed p.1.chunks) first
        (serve-IsWellFormed fnmatchcase (complete k epoch from choice) h wf)

  -- Once a completion on a well-formed hub was answered, not by a replay and not with a failure, then
  -- after any run of requests a later delivery of it, whatever its choice, changes no chunk.
  pub applied_once :
      let h' = run fnmatchcase rs h1 in
      (apply_completion k epoch from again h').1.chunks ≡ h'.chunks
  applied_once =
      let (c, found, known) =
        apply_completion-Recorded k from choice epoch h h1 answer wf no_replay first landed in
      applied_stays fnmatchcase rs k epoch from again h1 c formed found known

  -- Once a completion on a well-formed hub was answered, not by a replay and not with a failure, then
  -- after any run of requests that leaves neither a replay nor a missing graph armed for the chunk, a
  -- later delivery of it, whatever its choice, answers with the outcome of the first, or, where that
  -- was NEXT, raises because the chunk stands at a node that its graph lacks.
  pub reapply-Answers :
      find_lever replay k (run fnmatchcase rs h1) ≡ none
      → find_lever pinned_graph_missing k (run fnmatchcase rs h1) ≡ none
      → (c' : ChunkState) × (lookup k (run fnmatchcase rs h1).chunks ≡ some c')
        × Answers c' answer.outcome (apply_completion k epoch from again (run fnmatchcase rs h1)).0
  reapply-Answers unarmed pinned =
      let (c, found, known) =
        apply_completion-Recorded k from choice epoch h h1 answer wf no_replay first landed in
      applied-Answers fnmatchcase rs k epoch from again h1 c formed found known unarmed pinned
