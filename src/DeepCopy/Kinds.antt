-- ===== src/DeepCopy/Kinds.antt =====
-- How the arrays of each type are told from the others.
use poll_operator.Base.{◌≡◌, refl, ℤ, String, List, Option, none, some}
use poll_operator.Api.{
  Time, Condition, OwnerReference, FreeTextQuestion, OptionResult, PollReference,
}
use poll_operator.DeepCopy.Layout.{
  poll_array, poll_list_array, response_array, response_list_array, string_array, int_array,
  time_array, condition_array, owner_array, choice_array, free_text_array, question_array,
  spec_array, option_result_array, question_result_array, status_array, answer_array,
  reference_array, response_spec_array, response_status_array, Cell, object, part,
  ChoiceQuestionMem, PollQuestionMem, PollSpecMem, QuestionResultMem, PollStatusMem, PollAnswerMem,
  PollResponseSpecMem, PollResponseStatusMem, PollMem, PollListMem, PollResponseMem,
  PollResponseListMem,
}

-- The arrays with elements of one type.
pub record Kind (A : Type 0) : Type 0 where
  pub wrap : List A → Cell
  pub unwrap : Cell → Option (List A)
  pub unwrap-wrap : (xs : List A) → unwrap (wrap xs) ≡ some xs

module _ {A : Type 0} (wrap : List A → Cell) (unwrap : Cell → Option (List A)) where
  abbrev kind : ((xs : List A) → unwrap (wrap xs) ≡ some xs) → Kind A
  kind law = record { wrap = wrap; unwrap = unwrap; unwrap-wrap = law }

abbrev as_strings : Cell → Option (List String)
as_strings (part (string_array xs)) = some xs
as_strings c = none

abbrev pub strings : Kind String
strings = kind (λ xs. part (string_array xs)) as_strings (λ xs. refl)

abbrev as_ints : Cell → Option (List ℤ)
as_ints (part (int_array xs)) = some xs
as_ints c = none

abbrev pub ints : Kind ℤ
ints = kind (λ xs. part (int_array xs)) as_ints (λ xs. refl)

abbrev as_times : Cell → Option (List Time)
as_times (part (time_array xs)) = some xs
as_times c = none

abbrev pub times : Kind Time
times = kind (λ xs. part (time_array xs)) as_times (λ xs. refl)

abbrev as_conditions : Cell → Option (List Condition)
as_conditions (part (condition_array xs)) = some xs
as_conditions c = none

abbrev pub conditions : Kind Condition
conditions = kind (λ xs. part (condition_array xs)) as_conditions (λ xs. refl)

abbrev as_owners : Cell → Option (List OwnerReference)
as_owners (part (owner_array xs)) = some xs
as_owners c = none

abbrev pub owners : Kind OwnerReference
owners = kind (λ xs. part (owner_array xs)) as_owners (λ xs. refl)

abbrev as_choices : Cell → Option (List ChoiceQuestionMem)
as_choices (part (choice_array xs)) = some xs
as_choices c = none

abbrev pub choices : Kind ChoiceQuestionMem
choices = kind (λ xs. part (choice_array xs)) as_choices (λ xs. refl)

abbrev as_free_texts : Cell → Option (List FreeTextQuestion)
as_free_texts (part (free_text_array xs)) = some xs
as_free_texts c = none

abbrev pub free_texts : Kind FreeTextQuestion
free_texts = kind (λ xs. part (free_text_array xs)) as_free_texts (λ xs. refl)

abbrev as_questions : Cell → Option (List PollQuestionMem)
as_questions (part (question_array xs)) = some xs
as_questions c = none

abbrev pub questions : Kind PollQuestionMem
questions = kind (λ xs. part (question_array xs)) as_questions (λ xs. refl)

abbrev as_specs : Cell → Option (List PollSpecMem)
as_specs (part (spec_array xs)) = some xs
as_specs c = none

abbrev pub specs : Kind PollSpecMem
specs = kind (λ xs. part (spec_array xs)) as_specs (λ xs. refl)

abbrev as_option_results : Cell → Option (List OptionResult)
as_option_results (part (option_result_array xs)) = some xs
as_option_results c = none

abbrev pub option_results : Kind OptionResult
option_results = kind (λ xs. part (option_result_array xs)) as_option_results (λ xs. refl)

abbrev as_question_results : Cell → Option (List QuestionResultMem)
as_question_results (part (question_result_array xs)) = some xs
as_question_results c = none

abbrev pub question_results : Kind QuestionResultMem
question_results = kind (λ xs. part (question_result_array xs)) as_question_results (λ xs. refl)

abbrev as_statuses : Cell → Option (List PollStatusMem)
as_statuses (part (status_array xs)) = some xs
as_statuses c = none

abbrev pub statuses : Kind PollStatusMem
statuses = kind (λ xs. part (status_array xs)) as_statuses (λ xs. refl)

abbrev as_answers : Cell → Option (List PollAnswerMem)
as_answers (part (answer_array xs)) = some xs
as_answers c = none

abbrev pub answers : Kind PollAnswerMem
answers = kind (λ xs. part (answer_array xs)) as_answers (λ xs. refl)

abbrev as_references : Cell → Option (List PollReference)
as_references (part (reference_array xs)) = some xs
as_references c = none

abbrev pub references : Kind PollReference
references = kind (λ xs. part (reference_array xs)) as_references (λ xs. refl)

abbrev as_response_specs : Cell → Option (List PollResponseSpecMem)
as_response_specs (part (response_spec_array xs)) = some xs
as_response_specs c = none

abbrev pub response_specs : Kind PollResponseSpecMem
response_specs = kind (λ xs. part (response_spec_array xs)) as_response_specs (λ xs. refl)

abbrev as_response_statuses : Cell → Option (List PollResponseStatusMem)
as_response_statuses (part (response_status_array xs)) = some xs
as_response_statuses c = none

abbrev pub response_statuses : Kind PollResponseStatusMem
response_statuses = kind (λ xs. part (response_status_array xs)) as_response_statuses (λ xs. refl)

abbrev as_polls : Cell → Option (List PollMem)
as_polls (object (poll_array xs)) = some xs
as_polls c = none

abbrev pub polls : Kind PollMem
polls = kind (λ xs. object (poll_array xs)) as_polls (λ xs. refl)

abbrev as_poll_lists : Cell → Option (List PollListMem)
as_poll_lists (object (poll_list_array xs)) = some xs
as_poll_lists c = none

abbrev pub poll_lists : Kind PollListMem
poll_lists = kind (λ xs. object (poll_list_array xs)) as_poll_lists (λ xs. refl)

abbrev as_responses : Cell → Option (List PollResponseMem)
as_responses (object (response_array xs)) = some xs
as_responses c = none

abbrev pub responses : Kind PollResponseMem
responses = kind (λ xs. object (response_array xs)) as_responses (λ xs. refl)

abbrev as_response_lists : Cell → Option (List PollResponseListMem)
as_response_lists (object (response_list_array xs)) = some xs
as_response_lists c = none

abbrev pub response_lists : Kind PollResponseListMem
response_lists = kind (λ xs. object (response_list_array xs)) as_response_lists (λ xs. refl)
