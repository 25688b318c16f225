-- ===== src/Hub/Service/Apply.antt =====
-- What moves a claimed chunk: `apply_completion`, `apply_decision`, `hub_advance`, and `pop_drop_ack`.
use blizzard_mock.Levers.{Lever}
use blizzard_mock.Base.{
  ℕ, ◌⊎◌, inl, inr, Bool, true, false, not, ◌&&◌, String, Option, none, some, List, [], ◌∷◌,
  string_eq, nat_eq, pair_eq, ◌==◌, if◌then◌else◌, ltb, Result, ok, err, ◌>>=◌, ◌>>◌, map,
}
use blizzard_mock.Base.Dict.{lookup, insert}
use blizzard_mock.Base.Lists.{keep_if}
use blizzard_mock.Hub.Models.{
  ApplyOutcome, next, hub_node_taken, parked_at_gate, outcome_done, failure, terminal, ChoiceSpec,
  ChunkStatus, running, done, needs_human, ChunkState, QuestionState, ApplyResponse, Detail,
  no_detail, parked, reached_terminal, hub_took_over, idempotent_reapply, stale_epoch, unknown_node,
  unknown_choice, choice_points_nowhere,
}
use blizzard_mock.Hub.Chunk.{node, is_hub, is_done, incoherent_attempt, hub_executed}
use blizzard_mock.Hub.State.{Hub, put_chunk, list_questions}
use blizzard_mock.Hub.Levers.{replay, drop_ack}
use blizzard_mock.Hub.Service.Guards.{
  HubError, Handler, find_lever, consume_lever, require, check_pinned_graph, envelope,
}

abbrev is_open : String → ℕ → QuestionState → Bool
is_open chunk_id epoch q = q.chunk_id == chunk_id && (q.epoch == epoch && not q.answered)

-- The attempt's own unanswered questions, oldest first.
unfoldable pub open_question_ids : String → ℕ → Hub → List String
open_question_ids chunk_id epoch h =
    map (λ q. q.question_id) (keep_if (is_open chunk_id epoch) (list_questions h))

-- `_incoherent_attempt`
unfoldable pub incoherent : ChunkState → String → ℕ → Hub → Option Detail
incoherent c from_node_id epoch h =
    incoherent_attempt c from_node_id epoch (open_question_ids c.chunk_id epoch h)

-- `_fail`
abbrev pub fail : Detail → ApplyResponse
fail d = record { outcome = failure; detail = d; next_envelope = none }

-- `_resolve_choice`
unfoldable pub resolve_choice : List ChoiceSpec → String → Option String
resolve_choice [] choice = none
resolve_choice (ch ∷ chs) choice =
    if ch.name == choice then some ch.to else resolve_choice chs choice

-- `_advance`: the response, and the chunk as it leaves it.
unfoldable pub advance : ChunkState → String → Hub → Result HubError (ApplyResponse × ChunkState)
advance c target h =
    if target == terminal
    then ok (
      record { outcome = outcome_done; detail = reached_terminal; next_envelope = none },
      record c { status = done; current_node_id = some terminal },
    )
    else elim (node c target) [
      | none ↦ ok (fail (choice_points_nowhere target), c)
      | some n ↦
          let moved = record c { current_node_id = some target } in
          if is_hub n.executor
          then ok (
            record { outcome = hub_node_taken; detail = hub_took_over; next_envelope = none },
            record moved { status = done },
          )
          else elim (envelope (record moved { status = running }) target c.latest_epoch h).0 [
            | err e ↦ err e
            | ok env ↦ ok (
              record { outcome = next; detail = no_detail; next_envelope = some env },
              record moved { status = running },
            )
          ]
    ]

-- `_rebuild`
unfoldable pub rebuild : ChunkState → ApplyOutcome → Handler ApplyResponse
rebuild c next h = elim c.current_node_id [
  | none ↦ (ok (record { outcome = next; detail = idempotent_reapply; next_envelope = none }), h)
  | some n ↦ elim (envelope c n c.latest_epoch h).0 [
    | err e ↦ (err e, h)
    | ok env ↦ (ok (record { outcome = next; detail = no_detail; next_envelope = some env }), h)
  ]
]
rebuild c outcome h =
    (ok (record { outcome = outcome; detail = idempotent_reapply; next_envelope = none }), h)

-- Why a fresh completion is refused, or the node id that its choice leads to.
unfoldable pub completion_target : ChunkState → String → ℕ → String → Hub → Detail ⊎ String
completion_target c from_node_id epoch choice h =
    if ltb epoch c.latest_epoch
    then inl (stale_epoch epoch c.latest_epoch)
    else elim (incoherent c from_node_id epoch h) [
      | some d ↦ inl d
      | none ↦ elim (node c from_node_id) [
        | none ↦ inl (unknown_node from_node_id)
        | some n ↦ elim (hub_executed c from_node_id) [
          | some d ↦ inl d
          | none ↦ elim (resolve_choice n.choices choice) [
            | none ↦ inl (unknown_choice choice from_node_id)
            | some target ↦ inr target
          ]
        ]
      ]
    ]

-- The write of a completion that advanced: its outcome under its key, and its response for `replay`.
unfoldable pub record_applied : ChunkState → String → ℕ → ApplyResponse → ChunkState
record_applied c from_node_id epoch response = record c {
  applied = insert (from_node_id, epoch) response.outcome c.applied;
  last_response = some response;
}

-- The write after `_advance`.
unfoldable pub write_advance :
    String → ℕ → Result HubError (ApplyResponse × ChunkState) → Handler ApplyResponse
write_advance from_node_id epoch (err e) h = (err e, h)
write_advance from_node_id epoch (ok (response, moved)) h =
    (ok response, put_chunk (record_applied moved from_node_id epoch response) h)

-- A completion that was not applied before: refused, or advanced and written.
unfoldable pub commit : ChunkState → String → ℕ → Detail ⊎ String → Handler ApplyResponse
commit c from_node_id epoch (inl d) h = (ok (fail d), h)
commit c from_node_id epoch (inr target) h = write_advance from_node_id epoch (advance c target h) h

-- `if key in chunk.applied`, and what follows
unfoldable pub apply_known :
    ChunkState → String → ℕ → String → Option ApplyOutcome → Handler ApplyResponse
apply_known c from_node_id epoch choice (some outcome) h = rebuild c outcome h
apply_known c from_node_id epoch choice none h =
    commit c from_node_id epoch (completion_target c from_node_id epoch choice h) h

unfoldable pub apply_once : ChunkState → String → ℕ → String → Handler ApplyResponse
apply_once c from_node_id epoch choice h =
    apply_known c from_node_id epoch choice (lookup (from_node_id, epoch) c.applied) h

-- A duplicate delivery under the `replay` lever gets the previous response, if there is one.
unfoldable pub deliver :
    ChunkState → String → ℕ → String → Option Lever → Option ApplyResponse → Handler ApplyResponse
deliver c from_node_id epoch choice (some l) (some response) h = (ok response, consume_lever l h)
deliver c from_node_id epoch choice _ _ h = apply_once c from_node_id epoch choice h

unfoldable pub apply_unless_replayed :
    ChunkState → String → ℕ → String → String → Handler ApplyResponse
apply_unless_replayed c chunk_id epoch from_node_id choice h =
    deliver c from_node_id epoch choice (find_lever replay chunk_id h) c.last_response h

unfoldable pub apply_completion : String → ℕ → String → String → Handler ApplyResponse
apply_completion chunk_id epoch from_node_id choice = do
  c ← require chunk_id
  check_pinned_graph chunk_id
  apply_unless_replayed c chunk_id epoch from_node_id choice

-- A decision on a chunk already read: refused, or the chunk is parked.
unfoldable pub decide : ChunkState → String → ℕ → Handler ApplyResponse
decide c from_node_id epoch h =
    if ltb epoch c.latest_epoch
    then (ok (fail (stale_epoch epoch c.latest_epoch)), h)
    else elim (incoherent c from_node_id epoch h) [
      | some d ↦ (ok (fail d), h)
      | none ↦ (
        ok (record { outcome = parked_at_gate; detail = parked; next_envelope = none }),
        put_chunk (record c { status = needs_human }) h,
      )
    ]

unfoldable pub apply_decision : String → ℕ → String → Handler ApplyResponse
apply_decision chunk_id epoch from_node_id = do
  c ← require chunk_id
  check_pinned_graph chunk_id
  decide c from_node_id epoch

-- Is the chunk parked at a node that the hub executes?
unfoldable pub parked_at_hub : ChunkState → Bool
parked_at_hub c = elim c.current_node_id [
  | none ↦ false
  | some current ↦ elim (node c current) [
    | none ↦ false
    | some n ↦ is_hub n.executor && not (is_done c.status)
  ]
]

-- The status reported, and `ran`.
unfoldable pub run_hub_node : ChunkState → Handler (ChunkStatus × Bool)
run_hub_node c h =
    if parked_at_hub c
    then (ok (done, true), put_chunk (record c { status = done }) h)
    else (ok (c.status, false), h)

unfoldable pub hub_advance : String → Handler (ChunkStatus × Bool)
hub_advance chunk_id = do c ← require chunk_id; check_pinned_graph chunk_id; run_hub_node c

-- `pop_drop_ack`
unfoldable pub pop_drop_ack : String → Hub → Bool × Hub
pop_drop_ack chunk_id h = elim (find_lever drop_ack chunk_id h) [
  | none ↦ (false, h)
  | some l ↦ (true, consume_lever l h)
]
