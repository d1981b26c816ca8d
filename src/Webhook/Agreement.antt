-- ===== src/Webhook/Agreement.antt =====
-- How admission and the PollResponse controller's validation agree.
use mathlib.Core.Path.{subst}
use text.Mathlib.TextEquality.{eq_iff}
use poll_operator.Base.{
  String, true, Option, none, some, List, [], ◌∷◌, map, ◌≡◌, ◌≢◌, arith, string_eq, contains, All,
  All-mem, IsUnique, GoMap, put, empty, index_by,
}
use poll_operator.Api.{
  Time, Poll, PollQuestion, ChoiceQuestion, PollAnswer, PollResponse, choice-ne-free_text,
}
use poll_operator.Kube.Format.{Format}
use poll_operator.ResponseController.Validate.{
  ValidationError, check_selections, validate_choice, validate_free_text, validate_answer,
  validate_response, reason_invalid_question,
}
use poll_operator.ResponseController.Validate.Fits.{Fits, choice, free_text}
use poll_operator.ResponseController.Validate.Whole.{Answers, validate_response-eq-none_iff}
use poll_operator.Webhook.FieldError.{admitted}
use poll_operator.Webhook.PollWebhook.{validate_create}
use poll_operator.Webhook.PollWebhook.WellFormed.{
  IsWellFormed, HasGoodOptions, validate_create-eq-admitted_iff,
}
use poll_operator.Webhook.ResponseWebhook.{validate_response_create}
use poll_operator.Webhook.ResponseWebhook.OneForm.{
  HasOneForm, validate_response_create-eq-admitted_iff,
}

-- Another reason than that the question is not valid, or no error.
abbrev BlamesAnswer : Option ValidationError → Type 0
BlamesAnswer none = Unit
BlamesAnswer (some e) = e.reason ≢ reason_invalid_question

module _ (fmt : Format) (q : PollQuestion) where
  check_selections-BlamesAnswer :
      (allowed seen : GoMap (Unit {0})) (sels : List String)
      → BlamesAnswer (check_selections fmt q allowed seen sels)
  unfolding check_selections
  check_selections-BlamesAnswer allowed seen [] = tt
  check_selections-BlamesAnswer allowed seen (s ∷ sels) = ground (
    arith,
    check_selections-BlamesAnswer allowed (put s tt seen) sels,
    eq_iff "UnknownOption" "InvalidQuestion",
    eq_iff "TooManyChoices" "InvalidQuestion",
  )

  validate_choice-BlamesAnswer :
      (c : ChoiceQuestion) (ans : PollAnswer) → BlamesAnswer (validate_choice fmt q (some c) ans)
  unfolding validate_choice
  validate_choice-BlamesAnswer c ans = ground (
    arith,
    check_selections-BlamesAnswer (index_by (λ o. o) (λ o. tt) c.options empty) empty
        ans.selected_options,
    eq_iff "WrongAnswerType" "InvalidQuestion",
    eq_iff "EmptyAnswer" "InvalidQuestion",
    eq_iff "TooManyChoices" "InvalidQuestion",
  )

  validate_free_text-BlamesAnswer : (ans : PollAnswer) → BlamesAnswer (validate_free_text fmt q ans)
  unfolding validate_free_text
  validate_free_text-BlamesAnswer ans = ground (
    arith,
    eq_iff "WrongAnswerType" "InvalidQuestion",
    eq_iff "EmptyAnswer" "InvalidQuestion",
    eq_iff "TextTooLong" "InvalidQuestion",
  )

  validate_answer-BlamesAnswer :
      (ans : PollAnswer) → IsWellFormed q → BlamesAnswer (validate_answer fmt q ans)
  unfolding validate_answer
  validate_answer-BlamesAnswer ans (IsWellFormed.choice c is_choice set good unset) =
      ground (arith, validate_choice-BlamesAnswer c ans)
  validate_answer-BlamesAnswer ans (IsWellFormed.free_text f is_text set unset) =
      ground (arith, choice-ne-free_text, validate_free_text-BlamesAnswer ans)

  -- An answer to a well-formed question is never rejected as an answer to a question that is not
  -- valid: any rejection is for what the answer holds.
  pub validate_answer_blame :
      (ans : PollAnswer) (e : ValidationError)
      → IsWellFormed q
      → validate_answer fmt q ans ≡ some e
      → e.reason ≢ reason_invalid_question
  validate_answer_blame ans e w rejected =
      subst BlamesAnswer rejected (validate_answer-BlamesAnswer ans w)

good_options :
    (q : PollQuestion) (c : ChoiceQuestion) → IsWellFormed q → q.choice ≡ some c → HasGoodOptions c
good_options q c (IsWellFormed.choice c' is_choice set' good unset) set =
    let same : c' ≡ c = cc in subst HasGoodOptions same good
good_options q c (IsWellFormed.free_text f is_text set' unset) set = absurd cc

not_empty_of_contains :
    (os : List String) (s : String) → All (λ o. o ≢ "") os → contains os s ≡ true → s ≢ ""
not_empty_of_contains [] s good known = absurd cc
not_empty_of_contains (o ∷ os) s (good, more) known =
    ground (arith, not_empty_of_contains os s more)

All-not_empty :
    (os sels : List String)
    → All (λ o. o ≢ "") os
    → All (λ s. contains os s ≡ true) sels
    → All (λ s. s ≢ "") sels
All-not_empty os [] good known = tt
All-not_empty os (s ∷ sels) good (k, ks) =
    (not_empty_of_contains os s good k, All-not_empty os sels good ks)

HasOneForm-of_Fits :
    (q : PollQuestion) (ans : PollAnswer) → IsWellFormed q → Fits q ans → HasOneForm ans
HasOneForm-of_Fits q ans w (choice c is_choice set fits) =
    HasOneForm.selections fits.some_option fits.no_text
      (All-not_empty c.options ans.selected_options (good_options q c w set).0 fits.known_options)
      fits.different_options
HasOneForm-of_Fits q ans w (free_text is_text fits) = HasOneForm.text fits.no_options fits.some_text

All-HasOneForm :
    (qs : List PollQuestion) (answers : List PollAnswer)
    → All IsWellFormed qs
    → All (Answers qs) answers
    → All HasOneForm answers
All-HasOneForm qs [] ws fits = tt
All-HasOneForm qs (ans ∷ answers) ws ((q, m, named, fit), fits) =
    (HasOneForm-of_Fits q ans (All-mem IsWellFormed qs ws m) fit, All-HasOneForm qs answers ws fits)

-- A response that the controller finds acceptable for an admitted Poll with unique question ids is
-- one that the response's own webhook admits.
pub validate_response-admitted :
    (fmt : Format) (poll : Poll) (resp : PollResponse) (now : Time)
    → validate_create fmt poll ≡ admitted
    → IsUnique (map (λ q. q.id) poll.spec.questions)
    → validate_response fmt poll resp now ≡ none
    → validate_response_create resp ≡ admitted
validate_response-admitted fmt poll resp now admits u accepted =
    (validate_response_create-eq-admitted_iff resp).1 (
      All-HasOneForm poll.spec.questions resp.spec.answers
        ((validate_create-eq-admitted_iff fmt poll).0 admits)
        ((validate_response-eq-none_iff fmt poll resp now u).0 accepted).1)
