-- ===== src/Hub/Tests/Questions.antt =====
-- Instances of the theorem on questions.
use blizzard_mock.Base.{◌≡◌, ok, refl, [], ◌∷◌, none, some, string_eq, true, false}
use blizzard_mock.Hub.Models.{QuestionState}
use blizzard_mock.Hub.State.{Hub}
use blizzard_mock.Hub.Questions.{
  question_view, answer_question, view_of, runner_chunk, seen, answered, QuestionView, runner_name,
}
use blizzard_mock.Hub.Questions.Answers.{answer_question-question_view}
use blizzard_mock.Hub.Tests.{start, program}

abbrev question : QuestionState
question = record {
  question_id = "q_1";
  chunk_id = "ch_1";
  node_id = some "build";
  session_id = none;
  harness_id = none;
  runner_id = "r_1";
  epoch = 2;
  question = "which?";
  options = [];
  asked_at = "now";
  answered = false;
  answer = none;
  answered_by = none;
  answered_at = none;
  delivered = false;
  delivered_at = none;
}

-- A question of a chunk whose project is the runner's tenant's.
abbrev asking : Hub
asking = record start {
  questions = ("q_1", question) ∷ [];
  projects = ("proj", record { project_id = "proj"; tenant_id = "t"; slug = "s"; name = "n" }) ∷ [];
}

abbrev answered_view : QuestionView
answered_view = record {
  question = record question {
    answered = true;
    answer = some "this";
    answered_by = some "op";
    answered_at = some 0;
  };
  runner_name = some "one";
  project_id = some "proj";
  project_slug = some "s";
  project_name = some "n";
}

answer_question-question_view_example :
    question_view "q_1" "r_1" (answer_question "q_1" "this" "op" asking).1 ≡ ok answered_view
unfolding program question_view view_of runner_chunk seen answered runner_name
answer_question-question_view_example =
    answer_question-question_view "q_1" "this" "op" asking "r_1" "q_1" (refl, refl, tt)
