-- ===== src/Hub/Lock/Raises.antt =====
-- Fact batches, seen as what they do to the lock of a chunk.
use mathlib.Core.Path.{subst}
use blizzard_mock.Base.{option_eq}
use blizzard_mock.Hub.Lock.{lock_of, Permits, idle, minted}
use blizzard_mock.Hub.Run.{push_facts}
use blizzard_mock.Hub.FactWrites.{ingest_facts-chunks}
use blizzard_mock.Hub.Coherent.{fenced-Keeps, escalated-Keeps}
use blizzard_mock.Hub.Evolution.{Evolves-written}
use blizzard_mock.Hub.Models.{EscalationState}
use blizzard_mock.Hub.Service.Facts.{SeqFact, fenced, ingest_facts}
use blizzard_mock.Hub.State.{RunnerRow}
use blizzard_mock.Hub.Lock.{Lock}
use blizzard_mock.Base.{ℕ, ◌≤◌, ◌≡◌, refl, sym, ◌∙◌, String, some, List, arith, string_eq, inr}
use blizzard_mock.Base.Dict.{Dict, lookup, insert}
use blizzard_mock.Hub.Evolution.{IsWellFormed}
use blizzard_mock.Hub.Models.{ChunkState}
use blizzard_mock.Hub.State.{Hub}
use blizzard_mock.Hub.Lock.Writes.{Refines, same-Refines, written-Refines, still}

module _ (row : RunnerRow) (facts : List SeqFact) where
  -- Facts leave the holder, and lower no fence.
  abbrev pub Raises : Dict String ChunkState → Dict String ChunkState → Type 0
  Raises before after =
      IsWellFormed before → IsWellFormed after × Refines (push_facts row facts) before after

  -- What facts may do, and no more.
  Permits-raised :
      (k : String) {l l' : Lock}
      → Permits k (push_facts row facts) l l'
      → (l'.holder ≡ l.holder) × (l.fence ≤ l'.fence)
  Permits-raised k (idle rq l) = (refl, omega arith)
  Permits-raised k (minted r fs l n le) = (refl, le)

  raised-Permits :
      (k : String) (l l' : Lock)
      → l'.holder ≡ l.holder
      → l.fence ≤ l'.fence
      → Permits k (push_facts row facts) l l'
  raised-Permits k l l' same le =
      subst (λ o. Permits k (push_facts row facts) l (record l' { holder = o })) (sym same)
        (minted row facts l l'.fence le)

  Raises-trans : (a b c : Dict String ChunkState) → Raises a b → Raises b c → Raises a c
  Raises-trans a b c p q wf =
      let (wf', first) = p wf in
      let (wf'', second) = q wf' in
      (
        wf'',
        λ k d found.
            let (d', found', step) = first k d found in
            let (d'', found'', step') = second k d' found' in
            let (same, le) = Permits-raised k step in
            let (same', le') = Permits-raised k step' in
            (
              d'',
              found'',
              raised-Permits k (lock_of d) (lock_of d'') (same' ∙ same) (omega (arith, le, le')),
            ),
      )

  fenced-Raises :
      (k : String) (c : ChunkState) (epoch : ℕ) (before : Dict String ChunkState)
      → lookup k before ≡ some c
      → Raises before (insert c.chunk_id (fenced c epoch) before)
  unfolding fenced lock_of
  fenced-Raises k c epoch before found wf = (
    (Evolves-written k c before _ found
          (inr (fenced c epoch, fenced-Keeps c epoch, refl))).well_formed
        wf,
    written-Refines _ k c (fenced c epoch) before wf found
        (record { same_id = refl; permitted = minted row facts (lock_of c) _ (omega arith) }),
  )

  escalated-Raises :
      (k : String) (c : ChunkState) (e : EscalationState) (before : Dict String ChunkState)
      → lookup k before ≡ some c
      → Raises before (insert c.chunk_id (record c { escalation = some e }) before)
  unfolding lock_of
  escalated-Raises k c e before found wf = (
    (Evolves-written k c before _ found (inr (_, escalated-Keeps c e, refl))).well_formed wf,
    written-Refines _ k c (record c { escalation = some e }) before wf found
        (still k c _ _ refl refl),
  )

  pub ingest_facts-Raises : (h : Hub) → Raises h.chunks (ingest_facts row facts h).1.chunks
  ingest_facts-Raises h =
      ingest_facts-chunks Raises
        (λ before after same wf.
          (subst IsWellFormed (sym same) wf, same-Refines _ before after same))
        Raises-trans fenced-Raises escalated-Raises row facts h
