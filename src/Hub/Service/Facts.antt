-- ===== src/Hub/Service/Facts.antt =====
-- The fact lane of the hub service: `ingest_facts` and `_apply_fact`. A fact's payload is read with the
-- source's defaults; usage views are opaque texts.
use blizzard_mock.Base.{
  ℕ, max, Bool, true, false, ◌&&◌, ◌||◌, String, Option, none, some, List, [], ◌∷◌, ◌++◌, string_eq,
  nat_eq, pair_eq, ◌==◌, if◌then◌else◌, ltb, leb, is_none, is_some, get_or,
}
use blizzard_mock.Base.Dict.{lookup, insert, set_default}
use blizzard_mock.Base.Sorting.{sorted}
use blizzard_mock.Hub.Models.{ChunkState, QuestionState, EscalationState}
use blizzard_mock.Hub.Chunk.{ended, delivery_refusal}
use blizzard_mock.Hub.State.{
  Hub, RunnerRow, ReportedRunnerFacts, get_chunk, put_chunk, put_question,
}

-- The dispatch of `_apply_fact` on `kind`, with the payload members that the kind reads.
pub data Fact : Type 0 where
  lease_minted : String → ℕ → Fact
  escalation_recorded : String → EscalationState → Fact
  -- `answered` and `delivered` are false in a question just asked
  question_asked : QuestionState → Fact
  answer_delivered : String → String → Fact
  runner_locally_paused : String → Option String → Fact
  runner_locally_resumed : Fact
  usage_sampled usage_missed : Option String → String → Fact
  usage_recorded event_recorded : Fact
  other_kind : String → Fact

-- `_fence_refusal`, as a test
unfoldable pub fence_refuses : ChunkState → ℕ → Bool
fence_refuses c epoch = ended c || (ltb 0 c.latest_epoch && ltb epoch c.latest_epoch)

-- The two writes of `_advance_fence`; a runner that was never added has no tenant (`UnknownRunner`).
unfoldable pub fenced : ChunkState → ℕ → ChunkState
fenced c epoch = record c { latest_epoch = max c.latest_epoch epoch }

unfoldable pub advance_fence : ChunkState → ℕ → RunnerRow → Hub → Hub
advance_fence c epoch row h = record h {
  chunks = insert c.chunk_id (fenced c epoch) h.chunks;
  epoch_owners = set_default (row.tenant_id, (c.chunk_id, epoch)) row.runner_id h.epoch_owners;
}

abbrev no_reports : ReportedRunnerFacts
no_reports = record {
  locally_paused = false;
  locally_paused_by = none;
  locally_paused_reason = none;
  subscription_usage = [];
  subscription_usage_misses = [];
}

-- `reported_facts`: an empty set on first touch.
abbrev reported_facts : String → Hub → ReportedRunnerFacts
reported_facts runner_id h = get_or (lookup runner_id h.reported) no_reports

abbrev put_reported : String → ReportedRunnerFacts → Hub → Hub
put_reported runner_id r h = record h { reported = insert runner_id r h.reported }

-- `isinstance(slug, str) and slug`
abbrev usable : Option String → Option String
usable none = none
usable (some slug) = if slug == "" then none else some slug

-- `question.asked` is refused when its chunk is fenced against it, unless it is already held.
unfoldable pub ask_refused : QuestionState → Hub → Bool
ask_refused q h = elim (get_chunk q.chunk_id h) [
  | none ↦ false
  | some c ↦ is_none (lookup q.question_id h.questions) && fence_refuses c q.epoch
]

-- The `lease.minted` and `escalation.recorded` arms, on the chunk that the fact names, if there is one.
unfoldable pub lease_fact : Option ChunkState → ℕ → RunnerRow → Hub → Bool × Hub
lease_fact none epoch row h = (true, h)
lease_fact (some c) epoch row h = (true, advance_fence c epoch row h)

unfoldable pub escalation_fact : Option ChunkState → EscalationState → Hub → Bool × Hub
escalation_fact none e h = (true, h)
escalation_fact (some c) e h =
    if fence_refuses c e.epoch
    then (false, h)
    else (true, put_chunk (record c { escalation = some e }) h)

-- `_apply_fact` for the row of a runner that was added: applied or rejected, and the hub after it.
unfoldable pub apply_fact : RunnerRow → Fact → Hub → Bool × Hub
apply_fact row (lease_minted chunk_id epoch) h = lease_fact (get_chunk chunk_id h) epoch row h
apply_fact row (escalation_recorded chunk_id e) h = escalation_fact (get_chunk chunk_id h) e h
apply_fact row (question_asked q) h =
    if q.question_id == "" || q.chunk_id == ""
    then (false, h)
    else if ask_refused q h
    then (false, h)
    else (
      true,
      put_question
          (record q {
            runner_id = row.runner_id;
            answered = false;
            answer = none;
            answered_by = none;
            answered_at = none;
            delivered = false;
            delivered_at = none;
          })
          h,
    )
apply_fact row (answer_delivered question_id chunk_id) h = elim (lookup question_id h.questions) [
  | none ↦ (false, h)
  | some q ↦
      if is_some (delivery_refusal q chunk_id)
      then (false, h)
      else if q.delivered
      then (true, h)
      else (true, put_question (record q { delivered = true; delivered_at = some h.now }) h)
]
apply_fact row (runner_locally_paused by reason) h = (
  true,
  put_reported row.runner_id
      (record (reported_facts row.runner_id h) {
        locally_paused = true;
        locally_paused_by = some by;
        locally_paused_reason = reason;
      })
      h,
)
apply_fact row runner_locally_resumed h = (
  true,
  put_reported row.runner_id
      (record (reported_facts row.runner_id h) {
        locally_paused = false;
        locally_paused_by = none;
        locally_paused_reason = none;
      })
      h,
)
apply_fact row (usage_sampled slug view) h = elim (usable slug) [
  | none ↦ (false, h)
  | some s ↦
      let r = reported_facts row.runner_id h in
      (
        true,
        put_reported row.runner_id
            (record r { subscription_usage = insert s view r.subscription_usage }) h,
      )
]
apply_fact row (usage_missed slug miss) h = elim (usable slug) [
  | none ↦ (false, h)
  | some s ↦
      let r = reported_facts row.runner_id h in
      (
        true,
        put_reported row.runner_id
            (record r { subscription_usage_misses = insert s miss r.subscription_usage_misses }) h,
      )
]
apply_fact row usage_recorded h = (true, h)
apply_fact row event_recorded h = (true, h)
apply_fact row (other_kind kind) h = (false, h)

pub record SeqFact : Type 0 where
  pub seq : ℕ
  pub fact : Fact

pub record FactAck : Type 0 where
  pub high_water : ℕ
  pub applied : List ℕ
  pub already_applied : List ℕ
  pub rejected : List ℕ

-- One round of the loop over the sorted batch, with the mark and the lists so far.
unfoldable pub ingest_one : RunnerRow → SeqFact → FactAck × Hub → FactAck × Hub
ingest_one row f (a, h) =
    if leb f.seq a.high_water
    then (record a { already_applied = a.already_applied ++ (f.seq ∷ []) }, h)
    else (let (done, h') = apply_fact row f.fact h in
        if done
        then (
          record a { applied = a.applied ++ (f.seq ∷ []); high_water = max a.high_water f.seq },
          h',
        )
        else (record a { rejected = a.rejected ++ (f.seq ∷ []) }, h'))

unfoldable pub ingest_loop : RunnerRow → List SeqFact → FactAck × Hub → FactAck × Hub
ingest_loop row [] s = s
ingest_loop row (f ∷ fs) s = ingest_loop row fs (ingest_one row f s)

abbrev pub seq_le : SeqFact → SeqFact → Bool
seq_le f g = leb f.seq g.seq

abbrev pub start_ack : ℕ → FactAck
start_ack mark = record { high_water = mark; applied = []; already_applied = []; rejected = [] }

unfoldable pub ingest_facts : RunnerRow → List SeqFact → Hub → FactAck × Hub
ingest_facts row facts h =
    let mark = get_or (lookup row.runner_id h.fact_high_water) 0 in
    let (a, h') = ingest_loop row (sorted seq_le facts) (start_ack mark, h) in
    (a, record h' { fact_high_water = insert row.runner_id a.high_water h'.fact_high_water })
