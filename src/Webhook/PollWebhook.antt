-- ===== src/Webhook/PollWebhook.antt =====
-- internal/webhook/v1/poll_webhook.go
-- Errors are collected in order; a loop with an index takes the index as an argument.
pub mod WellFormed
pub mod Updates
pub mod Chains
use poll_operator.Base.{
  ℕ, suc, String, ◌<>◌, Bool, true, false, Option, none, some, List, [], ◌∷◌, ◌++◌, not, ◌==◌,
  string_eq, if◌then◌else◌, GoMap, empty, put, is_found, index_by,
}
use poll_operator.Api.{
  Poll, PollQuestion, ChoiceQuestion, FreeTextQuestion, question_type_choice,
  question_type_free_text,
}
use poll_operator.Kube.Format.{Format}
use poll_operator.Webhook.FieldError.{
  FieldPath, FieldError, Verdict, verdict, root, child, index, bad_text, required, forbidden,
  invalid, duplicate, not_supported, admitted,
}

-- The loop over `c.Options`, from an index on.
unfoldable pub check_options : FieldPath → ℕ → GoMap (Unit {0}) → List String → List FieldError
check_options opts_path i seen [] = []
check_options opts_path i seen (opt ∷ opts) =
    if opt == ""
    then invalid (index opts_path i) (bad_text opt) "option must not be empty"
      ∷ check_options opts_path (suc i) seen opts
    else (if is_found (seen opt) then duplicate (index opts_path i) opt ∷ [] else [])
      ++ check_options opts_path (suc i) (put opt tt seen) opts

unfoldable pub validate_choice_options : ChoiceQuestion → FieldPath → List FieldError
validate_choice_options c p = check_options (child p "options") 0 empty c.options

abbrev pub questions_path : FieldPath
questions_path = child (root "spec") "questions"

-- `field.Forbidden` of what must not be set.
abbrev pub unless_set : {A : Type 0} → Option A → FieldError → List FieldError
unless_set none e = []
unless_set (some a) e = e ∷ []

module _ (fmt : Format) where
  open fmt use {quote}

  abbrev pub choice_errors : PollQuestion → FieldPath → Option ChoiceQuestion → List FieldError
  choice_errors q p none =
      required (child p "choice") ("questions of type " <> quote q.type <> " must set choice") ∷ []
  choice_errors q p (some c) = validate_choice_options c (child p "choice")

  abbrev pub free_text_errors : PollQuestion → FieldPath → Option FreeTextQuestion → List FieldError
  free_text_errors q p none =
      required (child p "freeText") ("questions of type " <> quote q.type <> " must set freeText")
      ∷ []
  free_text_errors q p (some f) = []

  unfoldable pub validate_question : PollQuestion → FieldPath → List FieldError
  validate_question q p =
      if q.type == question_type_choice
      then choice_errors q p q.choice
        ++ unless_set q.free_text (
            forbidden (child p "freeText")
              ("must not be set for questions of type " <> quote q.type))
      else if q.type == question_type_free_text
      then free_text_errors q p q.free_text
        ++ unless_set q.choice (
            forbidden (child p "choice") ("must not be set for questions of type " <> quote q.type))
      else not_supported (child p "type") q.type
          (question_type_choice ∷ question_type_free_text ∷ [])
        ∷ []

  -- The loop over `obj.Spec.Questions`, from an index on.
  unfoldable pub validate_questions : FieldPath → ℕ → List PollQuestion → List FieldError
  validate_questions path i [] = []
  validate_questions path i (q ∷ qs) =
      validate_question q (index path i) ++ validate_questions path (suc i) qs

  unfoldable pub validate_poll_spec : Poll → List FieldError
  validate_poll_spec obj = validate_questions questions_path 0 obj.spec.questions

  -- The body of the loop of `validatePollUpdate`; none is a new question.
  abbrev pub type_change : Option PollQuestion → PollQuestion → FieldPath → List FieldError
  type_change none q p = []
  type_change (some prev) q p =
      if not (prev.type == q.type)
      then forbidden (child p "type") (
          "field is immutable for existing question "
          <> quote q.id
          <> " (was "
          <> quote prev.type
          <> ")")
        ∷ []
      else []

  unfoldable pub type_changes :
      GoMap PollQuestion → FieldPath → ℕ → List PollQuestion → List FieldError
  type_changes old_by_id path i [] = []
  type_changes old_by_id path i (q ∷ qs) =
      type_change (old_by_id q.id) q (index path i) ++ type_changes old_by_id path (suc i) qs

  unfoldable pub validate_poll_update : Poll → Poll → List FieldError
  validate_poll_update old_obj new_obj =
      type_changes (index_by (λ q. q.id) (λ q. q) old_obj.spec.questions empty) questions_path 0
        new_obj.spec.questions

  unfoldable pub validate_create : Poll → Verdict
  validate_create obj = verdict "Poll" obj.meta.name (validate_poll_spec obj)

  unfoldable pub validate_update : Poll → Poll → Verdict
  validate_update old_obj new_obj =
      verdict "Poll" new_obj.meta.name
        (validate_poll_spec new_obj ++ validate_poll_update old_obj new_obj)

unfoldable pub validate_delete : Poll → Verdict
validate_delete obj = admitted
