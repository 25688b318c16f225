-- ===== src/Hub/Questions/Answers.antt =====
-- A question that an operator answers, as runners read it before and after.
use mathlib.Core.Path.{subst}
use blizzard_mock.Base.{
  ==_true, sym, ℕ, ◌≡◌, refl, String, none, some, string_eq, ◌==◌, if◌then◌else◌, Result, ok, err,
  arith, Option-cases, Bool-cases, inl, inr, true,
}
use blizzard_mock.Base.Dict.{lookup, lookup-insert}
use blizzard_mock.Base.Keyed.{IsKeyed, key-lookup}
use blizzard_mock.Hub.Models.{QuestionState, ChunkState}
use blizzard_mock.Hub.State.{Hub, put_question}
use blizzard_mock.Hub.Service.Guards.{HubError}
use blizzard_mock.Hub.Questions.{
  QuestionView, view_of, runner_chunk, seen, question_view, answered, answer_question,
}

abbrev question_key : QuestionState → String
question_key q = q.question_id

-- A view once the question is answered.
abbrev read_back : String → String → ℕ → Result HubError QuestionView → Result HubError QuestionView
read_back answer by at (err e) = err e
read_back answer by at (ok v) = ok (record v {
  question = record v.question {
    answered = true;
    answer = some answer;
    answered_by = some by;
    answered_at = some at;
  };
})

question_view-seen :
    (asked runner_id : String) (q : QuestionState) (h : Hub)
    → lookup asked h.questions ≡ some q
    → question_view asked runner_id h ≡ seen q (runner_chunk q.chunk_id runner_id h) h
unfolding question_view
question_view-seen asked runner_id q h held = rw (held, question_view) refl

module _ (question_id answer by : String) (h : Hub) where
  abbrev others : QuestionState → Hub
  others q = put_question (answered q answer by h.now) h

  seen-answered :
      (q : QuestionState) (at : ℕ) (r : Result HubError ChunkState) (c : Hub)
      → seen (answered q answer by at) r c ≡ read_back answer by at (seen q r c)
  unfolding seen view_of answered
  seen-answered q at (ok _) c = refl
  seen-answered q at (err e) c = refl

  seen-others :
      (q q' : QuestionState) (r : Result HubError ChunkState) → seen q r (others q') ≡ seen q r h
  unfolding seen view_of
  seen-others q q' (ok c) = refl
  seen-others q q' (err e) = refl

  elsewhere :
      (q q' : QuestionState) (runner_id : String)
      → seen q (runner_chunk q.chunk_id runner_id (others q')) (others q')
        ≡ seen q (runner_chunk q.chunk_id runner_id h) h
  unfolding runner_chunk
  elsewhere q q' runner_id = seen-others q q' (runner_chunk q.chunk_id runner_id h)

  self-view :
      (runner_id asked : String) (q : QuestionState)
      → lookup asked h.questions ≡ some q
      → lookup asked (others q).questions ≡ some (answered q answer by h.now)
      → question_view asked runner_id (others q)
        ≡ read_back answer by h.now (question_view asked runner_id h)
  unfolding answered
  self-view runner_id asked q held now_held = cc (
    question_view-seen asked runner_id (answered q answer by h.now) (others q) now_held,
    elsewhere (answered q answer by h.now) q runner_id,
    seen-answered q h.now (runner_chunk q.chunk_id runner_id h) h,
    question_view-seen asked runner_id q h held,
  )

  other-view :
      (runner_id asked : String) (q : QuestionState)
      → lookup asked (others q).questions ≡ lookup asked h.questions
      → question_view asked runner_id (others q) ≡ question_view asked runner_id h
  unfolding question_view
  other-view runner_id asked q same = elim (Option-cases (lookup asked h.questions)) [
    | inl absent ↦ ground (arith, same, absent)
    | inr (p, held) ↦ ground (arith, same, held, elsewhere p q runner_id)
  ]

  -- What stands under an id once the question is answered.
  stands :
      (asked : String) (q : QuestionState)
      → q.question_id ≡ question_id
      → lookup asked (others q).questions ≡ (
          if question_id == asked
          then some (answered q answer by h.now)
          else lookup asked h.questions)
  unfolding answered
  stands asked q id =
      rw (sym id) (lookup-insert q.question_id asked (answered q answer by h.now) h.questions)

  unasked :
      (runner_id asked : String)
      → lookup question_id h.questions ≡ none
      → question_view asked runner_id (answer_question question_id answer by h).1 ≡ (
          if question_id == asked
          then read_back answer by h.now (question_view asked runner_id h)
          else question_view asked runner_id h)
  unfolding answer_question question_view
  unasked runner_id asked absent = ground (arith, absent, string_eq.beq_iff question_id asked)

  answered-state :
      (q : QuestionState)
      → lookup question_id h.questions ≡ some q
      → (answer_question question_id answer by h).1 ≡ others q
  unfolding answer_question
  answered-state q held = rw (held, answer_question) refl

  -- Once an operator answered a question, every runner that could read it reads it as answered, with that
  -- text and by that operator, and else as before; a runner that could not is refused as before; and every
  -- other question reads as it did, where each question is filed under its id.
  pub answer_question-question_view :
      (runner_id asked : String)
      → IsKeyed question_key h.questions
      → question_view asked runner_id (answer_question question_id answer by h).1 ≡ (
          if question_id == asked
          then read_back answer by h.now (question_view asked runner_id h)
          else question_view asked runner_id h)
  answer_question-question_view runner_id asked keyed =
      elim (Option-cases (lookup question_id h.questions)) [
        | inl absent ↦ unasked runner_id asked absent
        | inr (q, held) ↦
            let id = key-lookup question_key question_id h.questions q keyed held in
            rw (answered-state q held) (elim (Bool-cases (question_id == asked)) [
              | inl same ↦ rw same (
                  self-view runner_id asked q
                    (subst (λ i. lookup i h.questions ≡ some q) (==_true question_id asked same)
                      held)
                    (ground (arith, stands asked q id, same)))
              | inr other ↦
                  rw other (other-view runner_id asked q (ground (arith, stands asked q id, other)))
            ])
      ]
