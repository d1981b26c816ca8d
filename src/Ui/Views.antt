-- ===== src/Ui/Views.antt =====
-- The view of a poll that `handlePollDetail` of internal/ui/handlers.go computes.
pub mod Tallies
use poll_operator.Base.{
  ℤ, pos, String, Bool, true, false, Option, none, some, List, [], ◌∷◌, map, ◌==◌, string_eq, GoMap,
  empty, index_by,
}
use poll_operator.Api.{
  Poll, PollQuestion, QuestionType, ChoiceQuestion, FreeTextQuestion, QuestionResult, OptionResult,
  poll_phase_open,
}
use poll_operator.PollController.StatusEqual.{votes_or_zero}
use poll_operator.Ui.Charts.{OptionView}

pub record QuestionView : Type 0 where
  pub id : String
  pub prompt : String
  pub type : QuestionType
  pub allow_multiple : Bool
  pub options : List OptionView
  pub text_responses : ℤ
  pub max_length : ℤ

-- `resultByID[…]`: a missing key reads as the zero value.
abbrev pub result_or_zero : Option QuestionResult → QuestionResult
result_or_zero none = record { question_id = ""; options = []; responses = pos 0 }
result_or_zero (some r) = r

abbrev pub multiple_of : Option ChoiceQuestion → Bool
multiple_of none = false
multiple_of (some c) = c.allow_multiple_choices

-- `votes[or.Option] = or.Votes` over the options of a result.
abbrev pub votes_by_option : List OptionResult → GoMap ℤ
votes_by_option options = index_by (λ o. o.option) (λ o. o.votes) options empty

abbrev pub option_view : GoMap ℤ → String → OptionView
option_view votes opt = record { option = opt; votes = votes_or_zero (votes opt) }

-- The body of `if q.Choice != nil`.
abbrev pub option_views : QuestionResult → Option ChoiceQuestion → List OptionView
option_views r none = []
option_views r (some c) = map (option_view (votes_by_option r.options)) c.options

-- The two assignments under `if q.FreeText != nil`.
abbrev pub max_length_of : Option FreeTextQuestion → ℤ
max_length_of none = pos 0
max_length_of (some f) = f.max_response_length

abbrev pub text_responses_of : QuestionResult → Option FreeTextQuestion → ℤ
text_responses_of r none = pos 0
text_responses_of r (some f) = r.responses

unfoldable pub question_view : GoMap QuestionResult → PollQuestion → QuestionView
question_view result_by_id q = record {
  id = q.id;
  prompt = q.prompt;
  type = q.type;
  allow_multiple = multiple_of q.choice;
  options = option_views (result_or_zero (result_by_id q.id)) q.choice;
  text_responses = text_responses_of (result_or_zero (result_by_id q.id)) q.free_text;
  max_length = max_length_of q.free_text;
}

unfoldable pub question_views : Poll → List QuestionView
question_views poll =
    map (question_view (index_by (λ r. r.question_id) (λ r. r) poll.status.results empty))
      poll.spec.questions

abbrev pub is_open : Poll → Bool
is_open poll = poll.status.phase == poll_phase_open
