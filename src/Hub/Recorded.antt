-- ===== src/Hub/Recorded.antt =====
-- What a completion that was answered leaves on its chunk.
use mathlib.Core.Path.{subst}
use blizzard_mock.Base.{
  ℕ, ◌≡◌, ◌≢◌, refl, sym, ap, ◌∙◌, ◌⊎◌, inl, inr, String, Option, none, some, arith, string_eq,
  nat_eq, pair_eq, ok, err, Result,
}
use blizzard_mock.Base.Dict.{lookup, insert, lookup-insert_self}
use blizzard_mock.Base.Keyed.{key-lookup}
use blizzard_mock.Hub.Models.{ChunkState, ApplyOutcome, ApplyResponse, Detail, failure}
use blizzard_mock.Hub.State.{Hub, put_chunk}
use blizzard_mock.Hub.Levers.{replay}
use blizzard_mock.Hub.Service.Guards.{HubError, find_lever, require, check_pinned_graph, envelope}
use blizzard_mock.Hub.Service.Apply.{
  apply_completion, apply_unless_replayed, deliver, apply_once, apply_known, rebuild, commit,
  completion_target, write_advance, record_applied, advance,
}
use blizzard_mock.Hub.Passing.{past, Passes-require, Passes-check_pinned_graph}
use blizzard_mock.Hub.Evolution.{IsWellFormed, id_of}

-- The chunk is there, with this outcome applied under this key.
abbrev pub Recorded : String → String → ℕ → ApplyOutcome → Hub → Type 0
Recorded k from epoch o h =
    (c : ChunkState) × (lookup k h.chunks ≡ some c) × (lookup (from, epoch) c.applied ≡ some o)

abbrev outcome_of : Result HubError ApplyResponse → ApplyOutcome
outcome_of (ok answer) = answer.outcome
outcome_of (err e) = failure

unreplayed :
    (c : ChunkState) (k from choice : String) (epoch : ℕ) (h : Hub)
    → find_lever replay k h ≡ none
    → apply_unless_replayed c k epoch from choice h ≡ apply_once c from epoch choice h
unfolding apply_unless_replayed deliver
unreplayed c k from choice epoch h no_replay = rw no_replay refl

module _ (k from : String) (epoch : ℕ) (c : ChunkState) (h : Hub) (wf : IsWellFormed h.chunks)
    (found : lookup k h.chunks ≡ some c) (answer : ApplyResponse) (h1 : Hub) where
  written-Recorded :
      (moved : ChunkState) (response : ApplyResponse)
      → moved.chunk_id ≡ c.chunk_id
      → Recorded k from epoch response.outcome
          (put_chunk (record_applied moved from epoch response) h)
  unfolding record_applied
  written-Recorded moved response same =
      let id = same ∙ key-lookup id_of k h.chunks c wf.keyed found in
      let left = record_applied moved from epoch response in
      (
        left,
        ap (λ i. lookup k (insert i left h.chunks)) id ∙ lookup-insert_self k left h.chunks,
        lookup-insert_self (from, epoch) response.outcome moved.applied,
      )

  moved_id :
      (target : String) (response : ApplyResponse) (moved : ChunkState)
      → advance c target h ≡ ok (response, moved)
      → moved.chunk_id ≡ c.chunk_id
  unfolding advance
  moved_id target response moved e = ground (arith, e)

  advanced-Recorded :
      (target : String) (r : Result HubError (ApplyResponse × ChunkState))
      → advance c target h ≡ r
      → write_advance from epoch r h ≡ (ok answer, h1)
      → Recorded k from epoch answer.outcome h1
  unfolding write_advance
  advanced-Recorded target (err e) moves done = ground (arith, done)
  advanced-Recorded target (ok (response, moved)) moves done =
      subst (λ p. Recorded k from epoch (outcome_of p.0) p.1) done
        (written-Recorded moved response (moved_id target response moved moves))

  committed-Recorded :
      (t : Detail ⊎ String)
      → commit c from epoch t h ≡ (ok answer, h1)
      → answer.outcome ≢ failure
      → Recorded k from epoch answer.outcome h1
  unfolding commit
  committed-Recorded (inl d) done landed = ground (arith, done, landed)
  committed-Recorded (inr target) done landed =
      advanced-Recorded target (advance c target h) refl done

  rebuilt : (o : ApplyOutcome) → rebuild c o h ≡ (ok answer, h1) → (h1 ≡ h) × (answer.outcome ≡ o)
  unfolding rebuild envelope
  rebuilt o done = ground (arith, done)

  known-Recorded :
      (choice : String) (o : Option ApplyOutcome)
      → lookup (from, epoch) c.applied ≡ o
      → apply_known c from epoch choice o h ≡ (ok answer, h1)
      → answer.outcome ≢ failure
      → Recorded k from epoch answer.outcome h1
  unfolding apply_known
  known-Recorded choice (some o) known done landed =
      let (same, outcome) = rebuilt o done in (c, cc (same, found), cc (known, outcome))
  known-Recorded choice none known done landed =
      committed-Recorded (completion_target c from epoch choice h) done landed

-- A completion that was answered, other than by a replay or with a failure, is applied on the chunk.
pub apply_completion-Recorded :
    (k from choice : String) (epoch : ℕ) (h h1 : Hub) (answer : ApplyResponse)
    → IsWellFormed h.chunks
    → find_lever replay k h ≡ none
    → apply_completion k epoch from choice h ≡ (ok answer, h1)
    → answer.outcome ≢ failure
    → Recorded k from epoch answer.outcome h1
unfolding apply_completion apply_once
apply_completion-Recorded k from choice epoch h h1 answer wf no_replay done landed =
    let (c, found, e1) = past (require k) _ (Passes-require k) h h1 answer done in
    let (_, _, e2) = past (check_pinned_graph k) _ (Passes-check_pinned_graph k) h h1 answer e1 in
    known-Recorded k from epoch c h wf found answer h1 choice (lookup (from, epoch) c.applied) refl
      (sym (unreplayed c k from choice epoch h no_replay) ∙ e2) landed
