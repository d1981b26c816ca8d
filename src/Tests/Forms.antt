-- ===== src/Tests/Forms.antt =====
-- Forms for the poll about colours, from the page to the verdict.
use poll_operator.Base.{
  none, some, [], ◌∷◌, ◌≡◌, ◌≢◌, refl, arith, All, Memᴰ, string_eq, nat_eq, ℕ_discrete, ◌==◌,
  if◌then◌else◌, int32,
}
use text.Mathlib.TextEquality.{eq_iff}
use poll_operator.Api.{Poll, PollResponse}
use poll_operator.ResponseController.Validate.{validate_response}
use poll_operator.Ui.Text.{is_space, trim_left, trim_right, trim_space}
use poll_operator.Ui.Answers.{Form, selected_values, question_answer, answers_of, build_answers}
use poll_operator.Ui.Answers.Ballots.{IsFilled, ticked, written, filled_form-accepted}
use poll_operator.Ui.Answers.Padded.{padded_option_rejected}
use poll_operator.Webhook.FieldError.{admitted}
use poll_operator.Webhook.PollWebhook.{
  validate_create, validate_poll_spec, validate_questions, validate_question,
  validate_choice_options, check_options,
}
use poll_operator.Tests.Data.{paint, colour, colours, both, calm, response}
use poll_operator.Tests.Verdicts.{plain}

-- Both colours ticked, and a text with white space round it.
abbrev pub filled : Form
filled k =
    if k == "q.colour" then "red" ∷ "blue" ∷ [] else if k == "q.why" then " calm\n" ∷ [] else []

abbrev pub filled_response : PollResponse
filled_response = response "a" (both ∷ calm ∷ [])

pub filled_built : build_answers paint filled ≡ some (both ∷ calm ∷ [])
unfolding build_answers answers_of question_answer selected_values trim_space trim_left trim_right
    is_space string_eq ℕ_discrete
filled_built = refl

pub paint-IsFilled : All (IsFilled filled) paint.spec.questions
unfolding string_eq trim_space trim_left trim_right is_space ℕ_discrete int32
paint-IsFilled = (
  ticked colours refl refl
      (
        record { known = refl; trimmed = refl; not_empty = ground (arith, eq_iff "red" "") },
        (record { known = refl; trimmed = refl; not_empty = ground (arith, eq_iff "blue" "") }, tt),
      )
      (refl, (refl, tt)) (λ one. cc),
  (written refl (λ limited. refl), tt),
)

filled_form-accepted_example : validate_response plain paint filled_response 5 ≡ none
unfolding string_eq
filled_form-accepted_example =
    filled_form-accepted plain paint filled filled_response 5 (refl, (refl, tt)) paint-IsFilled refl
      filled_built

-- An option with a space before it, which the webhook admits.
abbrev padded : Poll
padded = record paint {
  spec = record paint.spec {
    questions =
        record colour { choice = some (record colours { options = " red" ∷ "blue" ∷ [] }) } ∷ [];
  };
}

padded-admitted : validate_create plain padded ≡ admitted
unfolding validate_create validate_poll_spec validate_questions validate_question
    validate_choice_options check_options string_eq
padded-admitted = refl

abbrev padded_form : Form
padded_form k = if k == "q.colour" then " red" ∷ [] else []

abbrev padded_response : PollResponse
padded_response =
    response "a" (record { question_id = "colour"; selected_options = "red" ∷ []; text = "" } ∷ [])

padded_option_rejected_example : validate_response plain padded padded_response 5 ≢ none
unfolding build_answers answers_of question_answer selected_values trim_space trim_left trim_right
    is_space string_eq ℕ_discrete
padded_option_rejected_example =
    padded_option_rejected plain padded padded_form padded_response 5
      (record colour { choice = some (record colours { options = " red" ∷ "blue" ∷ [] }) })
      (record colours { options = " red" ∷ "blue" ∷ [] }) " red" (refl, tt) (Memᴰ.head refl) refl
      refl (Memᴰ.head refl) (ground (arith, eq_iff "red" "")) refl refl
