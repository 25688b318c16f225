-- ===== src/Hub/FactWrites.antt =====
-- What a batch of facts does to the chunk map, for any relation on chunk maps that holds of no change and of a
-- chunk's fence and escalation being written, and composes.
use mathlib.Core.Path.{subst}
use blizzard_mock.Hub.Service.Facts.{
  runner_locally_resumed, usage_recorded, event_recorded, other_kind, lease_fact, escalation_fact,
}
use blizzard_mock.Hub.Service.Facts.{usage_missed, other_kind}
use blizzard_mock.Base.Sorting.{sorted}
use blizzard_mock.Hub.Service.Facts.{
  ingest_facts, ingest_one, ingest_loop, apply_fact, SeqFact, advance_fence, FactAck, seq_le, Fact,
  lease_minted, fenced, escalation_recorded, fence_refuses, question_asked, answer_delivered,
  runner_locally_paused, usage_sampled, usage_missed,
}
use blizzard_mock.Base.{
  ℕ, ◌≡◌, refl, inl, inr, String, Option, none, some, List, [], ◌∷◌, arith, string_eq, Bool-cases,
  leb, sym,
}
use blizzard_mock.Base.Dict.{Dict, lookup, insert}
use blizzard_mock.Hub.Models.{ChunkState, EscalationState}
use blizzard_mock.Hub.State.{Hub, RunnerRow, get_chunk}

module _ (E : Dict String ChunkState → Dict String ChunkState → Type 0)
    (same : (before after : Dict String ChunkState) → after ≡ before → E before after)
    (trans : (a b c : Dict String ChunkState) → E a b → E b c → E a c)
    (on_fenced : (k : String) (c : ChunkState) (epoch : ℕ) (before : Dict String ChunkState)
      → lookup k before ≡ some c
      → E before (insert c.chunk_id (fenced c epoch) before))
    (on_escalated : (k : String) (c : ChunkState) (e : EscalationState)
        (before : Dict String ChunkState)
      → lookup k before ≡ some c
      → E before (insert c.chunk_id (record c { escalation = some e }) before)) where
  lease_fact-chunks :
      (k : String) (o : Option ChunkState) (epoch : ℕ) (row : RunnerRow) (h : Hub)
      → lookup k h.chunks ≡ o
      → E h.chunks (lease_fact o epoch row h).1.chunks
  unfolding lease_fact advance_fence fenced
  lease_fact-chunks k none epoch row h e = same h.chunks h.chunks refl
  lease_fact-chunks k (some c) epoch row h found = on_fenced k c epoch h.chunks found

  escalation_fact-chunks :
      (k : String) (o : Option ChunkState) (e : EscalationState) (h : Hub)
      → lookup k h.chunks ≡ o
      → E h.chunks (escalation_fact o e h).1.chunks
  unfolding escalation_fact
  escalation_fact-chunks k none e h missing = same h.chunks h.chunks refl
  escalation_fact-chunks k (some c) e h found = elim (Bool-cases (fence_refuses c e.epoch)) [
    | inl refused ↦ same h.chunks _ (ground arith)
    | inr admitted ↦ subst (E h.chunks) (ground arith) (on_escalated k c e h.chunks found)
  ]

  fact-chunks : (row : RunnerRow) (f : Fact) (h : Hub) → E h.chunks (apply_fact row f h).1.chunks
  unfolding apply_fact get_chunk
  fact-chunks row (lease_minted k epoch) h =
      lease_fact-chunks k (lookup k h.chunks) epoch row h refl
  fact-chunks row (escalation_recorded k e) h =
      escalation_fact-chunks k (lookup k h.chunks) e h refl
  fact-chunks row (question_asked q) h = same h.chunks _ (ground arith)
  fact-chunks row (answer_delivered q k) h = same h.chunks _ (ground arith)
  fact-chunks row (runner_locally_paused by reason) h = same h.chunks _ refl
  fact-chunks row runner_locally_resumed h = same h.chunks _ refl
  fact-chunks row (usage_sampled slug view) h = same h.chunks _ (ground arith)
  fact-chunks row (usage_missed slug miss) h = same h.chunks _ (ground arith)
  fact-chunks row usage_recorded h = same h.chunks _ refl
  fact-chunks row event_recorded h = same h.chunks _ refl
  fact-chunks row (other_kind kind) h = same h.chunks _ refl

  ingest_one-chunks :
      (row : RunnerRow) (f : SeqFact) (a : FactAck) (h : Hub)
      → E h.chunks (ingest_one row f (a, h)).1.chunks
  unfolding ingest_one
  ingest_one-chunks row f a h = elim (Bool-cases (leb f.seq a.high_water)) [
    | inl seen ↦ same h.chunks _ (rw seen)
    | inr fresh ↦
        let same : (ingest_one row f (a, h)).1.chunks ≡ (apply_fact row f.fact h).1.chunks =
          ground arith in
        subst (E h.chunks) (sym same) (fact-chunks row f.fact h)
  ]

  ingest_loop-chunks :
      (row : RunnerRow) (fs : List SeqFact) (s : FactAck × Hub)
      → E s.1.chunks (ingest_loop row fs s).1.chunks
  unfolding ingest_loop
  ingest_loop-chunks row [] s = same s.1.chunks _ refl
  ingest_loop-chunks row (f ∷ fs) s =
      trans _ _ _ (ingest_one-chunks row f s.0 s.1) (ingest_loop-chunks row fs (ingest_one row f s))

  pub ingest_facts-chunks :
      (row : RunnerRow) (facts : List SeqFact) (h : Hub)
      → E h.chunks (ingest_facts row facts h).1.chunks
  unfolding ingest_facts
  ingest_facts-chunks row facts h = ingest_loop-chunks row (sorted seq_le facts) (_, h)
