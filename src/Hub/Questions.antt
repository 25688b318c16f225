-- ===== src/Hub/Questions.antt =====
-- Questions as a runner polls them and an operator answers them: `question_view`, `answer_question` of
-- src/blizzard_mock/mock_hub/domain/service.py. A view holds the question itself in place of its fields.
pub mod Answers
use mathlib.Core.Path.{subst}
use blizzard_mock.Base.{
  ==_true, sym, ℕ, ◌≡◌, refl, true, String, Option, none, some, string_eq, ◌==◌, if◌then◌else◌,
  Result, ok, err, arith, Option-cases, Bool-cases, inl, inr,
}
use blizzard_mock.Base.Dict.{Dict, lookup, lookup-insert}
use blizzard_mock.Base.Keyed.{IsKeyed, key-lookup}
use blizzard_mock.Hub.Models.{QuestionState, ChunkState}
use blizzard_mock.Hub.Peek.{slug_of, name_of}
use blizzard_mock.Hub.State.{Hub, RunnerRow, ProjectRow, put_question}
use blizzard_mock.Hub.Service.Guards.{
  Handler, HubError, question_not_found, chunk_not_found, unknown_runner,
}

pub record QuestionView : Type 0 where
  pub question : QuestionState
  pub runner_name : Option String
  pub project_id : Option String
  pub project_slug : Option String
  pub project_name : Option String

-- `_runner_name`
unfoldable pub runner_name : String → Dict String RunnerRow → Option String
runner_name runner_id runners =
    if runner_id == ""
    then none
    else elim (lookup runner_id runners) [ none ↦ none | some row ↦ some row.name ]

abbrev project_of : Option ChunkState → Dict String ProjectRow → Option ProjectRow
project_of none projects = none
project_of (some c) projects = lookup c.project_id projects

abbrev id_of_project : Option ChunkState → Option String
id_of_project none = none
id_of_project (some c) = some c.project_id

-- `_question_view`
unfoldable pub view_of : QuestionState → Hub → QuestionView
view_of q h =
    let chunk = lookup q.chunk_id h.chunks in
    record {
      question = q;
      runner_name = runner_name q.runner_id h.runners;
      project_id = id_of_project chunk;
      project_slug = slug_of (project_of chunk h.projects);
      project_name = name_of (project_of chunk h.projects);
    }

-- `require_runner_chunk`
unfoldable pub runner_chunk : String → String → Hub → Result HubError ChunkState
runner_chunk chunk_id runner_id h = elim (lookup chunk_id h.chunks) [
  | none ↦ err chunk_not_found
  | some c ↦ elim (lookup c.project_id h.projects) [
    | none ↦ err chunk_not_found
    | some p ↦ elim (lookup runner_id h.runners) [
      | none ↦ err unknown_runner
      | some row ↦ if p.tenant_id == row.tenant_id then ok c else err chunk_not_found
    ]
  ]
]

-- A chunk that is refused as unknown refuses the question as unknown.
abbrev as_question : HubError → HubError
as_question chunk_not_found = question_not_found
as_question e = e

unfoldable pub seen :
    QuestionState → Result HubError ChunkState → Hub → Result HubError QuestionView
seen q (ok c) h = ok (view_of q h)
seen q (err e) h = err (as_question e)

unfoldable pub question_view : String → String → Hub → Result HubError QuestionView
question_view question_id runner_id h = elim (lookup question_id h.questions) [
  | none ↦ err question_not_found
  | some q ↦ seen q (runner_chunk q.chunk_id runner_id h) h
]

unfoldable pub answered : QuestionState → String → String → ℕ → QuestionState
answered q answer by at = record q {
  answered = true;
  answer = some answer;
  answered_by = some by;
  answered_at = some at;
}

unfoldable pub answer_question : String → String → String → Handler (Unit {0})
answer_question question_id answer by h = elim (lookup question_id h.questions) [
  | none ↦ (err question_not_found, h)
  | some q ↦ (ok tt, put_question (answered q answer by h.now) h)
]
