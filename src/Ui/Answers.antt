-- ===== src/Ui/Answers.antt =====
-- `buildAnswers` of internal/ui/handlers.go.
pub mod Forms
pub mod Ballots
pub mod Padded
use poll_operator.Base.{
  String, ◌<>◌, Bool, true, false, Option, none, some, List, [], ◌∷◌, ◌++◌, not, ◌==◌, string_eq,
  if◌then◌else◌, nonempty,
}
use poll_operator.Api.{
  Poll, PollQuestion, PollAnswer, question_type_choice, question_type_free_text,
}
use poll_operator.Ui.Text.{trim_space}

-- `url.Values`: a key that is missing has no values.
abbrev pub Form : Type 0
Form = String → List String

abbrev pub form_key : PollQuestion → String
form_key q = "q." <> q.id

-- The loop over the values of a Choice question.
unfoldable pub selected_values : List String → List String
selected_values [] = []
selected_values (v ∷ vs) =
    let rest = selected_values vs in if not (trim_space v == "") then trim_space v ∷ rest else rest

abbrev pub first_text : List String → String
first_text [] = ""
first_text (v ∷ vs) = trim_space v

abbrev pub choice_answer : String → List String → List PollAnswer
choice_answer id [] = []
choice_answer id (s ∷ selected) =
    record { question_id = id; selected_options = s ∷ selected; text = "" } ∷ []

abbrev pub text_answer : String → String → List PollAnswer
text_answer id text =
    if text == "" then [] else record { question_id = id; selected_options = []; text = text } ∷ []

-- The body of the loop over the questions: what it appends.
unfoldable pub question_answer : PollQuestion → List String → List PollAnswer
question_answer q values =
    if q.type == question_type_choice
    then choice_answer q.id (selected_values values)
    else if q.type == question_type_free_text
    then text_answer q.id (first_text values)
    else []

unfoldable pub answers_of : Form → List PollQuestion → List PollAnswer
answers_of form [] = []
answers_of form (q ∷ qs) = question_answer q (form (form_key q)) ++ answers_of form qs

abbrev pub no_answers : String
no_answers = "no answers were provided"

-- The answers, or none with the error `no_answers`.
unfoldable pub build_answers : Poll → Form → Option (List PollAnswer)
build_answers poll form =
    let answers = answers_of form poll.spec.questions in
    if not (nonempty answers) then none else some answers
