-- ===== src/ResponseController/Validate.antt =====
-- `validateResponse` and `validateAnswer` of internal/controller/pollresponse_controller.go.
pub mod Fits
pub mod Answer
pub mod Whole
use poll_operator.Base.{
  ℕ, ℤ, pos, String, ◌<>◌, len, Bool, true, false, Option, none, some, List, [], ◌∷◌,
}
use poll_operator.Base.{
  ◌&&◌, not, ◌==◌, string_eq, if◌then◌else◌, ltb, length, nonempty, int32, is_positive, gtb,
}
use poll_operator.Base.{GoMap, empty, put, is_found, index_by}
use poll_operator.Api.{
  Time, Poll, PollQuestion, ChoiceQuestion, FreeTextQuestion, PollAnswer, PollResponse,
  question_type_choice, question_type_free_text,
}
use poll_operator.Kube.Format.{Format}
use poll_operator.PollController.Phase.{has_closed}

abbrev pub reason_accepted : String
reason_accepted = "Accepted"

abbrev pub reason_poll_not_found : String
reason_poll_not_found = "PollNotFound"

abbrev pub reason_poll_closed : String
reason_poll_closed = "PollClosed"

abbrev pub reason_unknown_question : String
reason_unknown_question = "UnknownQuestion"

abbrev pub reason_wrong_answer_type : String
reason_wrong_answer_type = "WrongAnswerType"

abbrev pub reason_unknown_option : String
reason_unknown_option = "UnknownOption"

abbrev pub reason_empty_answer : String
reason_empty_answer = "EmptyAnswer"

abbrev pub reason_too_many_choices : String
reason_too_many_choices = "TooManyChoices"

abbrev pub reason_text_too_long : String
reason_text_too_long = "TextTooLong"

abbrev pub reason_invalid_question : String
reason_invalid_question = "InvalidQuestion"

pub record ValidationError : Type 0 where
  pub reason : String
  pub message : String

-- `Error()`
unfoldable pub error_text : ValidationError → String
error_text v = v.reason <> ": " <> v.message

abbrev pub rejected : String → String → Option ValidationError
rejected reason message = some (record { reason = reason; message = message })

-- The first error, as an early return gives it.
abbrev pub or_else : Option ValidationError → Option ValidationError → Option ValidationError
or_else none later = later
or_else (some e) later = some e

module _ (fmt : Format) where
  open fmt use {quote, decimal, rfc3339}

  -- The loop over `ans.SelectedOptions`.
  unfoldable pub check_selections :
      PollQuestion → GoMap (Unit {0}) → GoMap (Unit {0}) → List String → Option ValidationError
  check_selections q allowed seen [] = none
  check_selections q allowed seen (sel ∷ sels) =
      if not (is_found (allowed sel))
      then rejected reason_unknown_option (
          "question "
          <> quote q.id
          <> ": option "
          <> quote sel
          <> " is not one of the configured choices")
      else if is_found (seen sel)
      then rejected reason_too_many_choices
          ("question " <> quote q.id <> ": option " <> quote sel <> " selected more than once")
      else check_selections q allowed (put sel tt seen) sels

  unfoldable pub validate_choice :
      PollQuestion → Option ChoiceQuestion → PollAnswer → Option ValidationError
  validate_choice q none ans =
      rejected reason_invalid_question
        ("question " <> quote q.id <> " has type Choice but no choice configuration")
  validate_choice q (some c) ans =
      if not (ans.text == "")
      then rejected reason_wrong_answer_type
          ("question " <> quote q.id <> " is Choice; text must be empty")
      else if not (nonempty ans.selected_options)
      then rejected reason_empty_answer
          ("question " <> quote q.id <> " requires at least one selected option")
      else if not c.allow_multiple_choices && ltb 1 (length ans.selected_options)
      then rejected reason_too_many_choices
          ("question " <> quote q.id <> " does not allow multiple choices")
      else check_selections q (index_by (λ o. o) (λ o. tt) c.options empty) empty
          ans.selected_options

  -- `int32(len(ans.Text)) > q.FreeText.MaxResponseLength`, where a limit above 0 is set; `len`
  -- counts bytes.
  abbrev pub exceeds_limit : Option FreeTextQuestion → String → Bool
  exceeds_limit none text = false
  exceeds_limit (some f) text =
      is_positive f.max_response_length && gtb (int32 (pos (len text))) f.max_response_length

  abbrev pub limit_of : Option FreeTextQuestion → ℤ
  limit_of none = pos 0
  limit_of (some f) = f.max_response_length

  unfoldable pub validate_free_text : PollQuestion → PollAnswer → Option ValidationError
  validate_free_text q ans =
      if nonempty ans.selected_options
      then rejected reason_wrong_answer_type
          ("question " <> quote q.id <> " is FreeText; selectedOptions must be empty")
      else if ans.text == ""
      then rejected reason_empty_answer ("question " <> quote q.id <> " requires a text response")
      else if exceeds_limit q.free_text ans.text
      then rejected reason_text_too_long (
          "question "
          <> quote q.id
          <> ": text exceeds maxResponseLength ("
          <> decimal (limit_of q.free_text)
          <> ")")
      else none

  unfoldable pub validate_answer : PollQuestion → PollAnswer → Option ValidationError
  validate_answer q ans =
      if q.type == question_type_choice
      then validate_choice q q.choice ans
      else if q.type == question_type_free_text
      then validate_free_text q ans
      else rejected reason_invalid_question
          ("question " <> quote q.id <> " has unsupported type " <> quote q.type)

  -- One round of the loop over the answers: the question that was found, or none.
  abbrev pub check_answer : Option PollQuestion → PollAnswer → Option ValidationError
  check_answer none ans =
      rejected reason_unknown_question
        ("answer references unknown questionID " <> quote ans.question_id)
  check_answer (some q) ans = validate_answer q ans

  unfoldable pub check_answers : GoMap PollQuestion → List PollAnswer → Option ValidationError
  check_answers questions_by_id [] = none
  check_answers questions_by_id (ans ∷ answers) =
      or_else (check_answer (questions_by_id ans.question_id) ans)
        (check_answers questions_by_id answers)

  abbrev pub closing_message : Option Time → String
  closing_message none = ""
  closing_message (some t) = "Poll closed at " <> rfc3339 t

  unfoldable pub validate_response : Poll → PollResponse → Time → Option ValidationError
  validate_response poll resp now =
      if has_closed poll.spec.closes_at now
      then rejected reason_poll_closed (closing_message poll.spec.closes_at)
      else check_answers (index_by (λ q. q.id) (λ q. q) poll.spec.questions empty) resp.spec.answers
