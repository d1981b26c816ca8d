-- ===== src/Tests/Admission.antt =====
-- Polls and responses at admission.
use poll_operator.Base.{Memᴰ, ◌≡◌, ◌↔◌, refl, [], ◌∷◌, All, string_eq, index_by, int32}
use poll_operator.Api.{Poll}
use poll_operator.ResponseController.Validate.{
  validate_answer, check_selections, validate_choice, validate_response, check_answers,
  validate_free_text,
}
use poll_operator.Webhook.FieldError.{admitted}
use poll_operator.Webhook.PollWebhook.{
  validate_create, validate_update, validate_poll_spec, validate_poll_update, type_changes,
  validate_questions, validate_question, validate_choice_options, check_options,
}
use poll_operator.Webhook.PollWebhook.WellFormed.{IsWellFormed, validate_create-eq-admitted_iff}
use poll_operator.Webhook.PollWebhook.Updates.{KeepsType, validate_update-eq-admitted_iff}
use poll_operator.Webhook.ResponseWebhook.{validate_response_create}
use poll_operator.Webhook.ResponseWebhook.OneForm.{
  HasOneForm, validate_response_create-eq-admitted_iff,
}
use poll_operator.Webhook.PollWebhook.Chains.{
  Chain-keeps_type, any_type_in_two_updates, none_yet, then,
}
use poll_operator.Webhook.Agreement.{validate_response-admitted}
use poll_operator.Tests.Data.{paint, colour, why, blue, both, calm, response}
use poll_operator.Tests.Verdicts.{plain}

abbrev renamed : Poll
renamed = record paint {
  spec = record paint.spec { questions = record colour { id = "color" } ∷ why ∷ [] };
}

validate_create-eq-admitted_iff_example :
    (validate_create plain paint ≡ admitted) ↔ All IsWellFormed paint.spec.questions
validate_create-eq-admitted_iff_example = validate_create-eq-admitted_iff plain paint

-- A question under another id is a new question.
validate_update-eq-admitted_iff_example : (validate_update plain paint renamed ≡ admitted) ↔ (
    All IsWellFormed renamed.spec.questions
    × All (KeepsType paint.spec.questions) renamed.spec.questions)
unfolding string_eq
validate_update-eq-admitted_iff_example =
    validate_update-eq-admitted_iff plain paint renamed (refl, (refl, tt))

validate_response_create-eq-admitted_iff_example :
    (validate_response_create (response "a" (both ∷ calm ∷ [])) ≡ admitted)
    ↔ All HasOneForm (both ∷ calm ∷ [])
validate_response_create-eq-admitted_iff_example =
    validate_response_create-eq-admitted_iff (response "a" (both ∷ calm ∷ []))

pub paint-admitted : validate_create plain paint ≡ admitted
unfolding validate_create validate_poll_spec validate_questions validate_question
    validate_choice_options check_options string_eq
paint-admitted = refl

colour-IsWellFormed : IsWellFormed colour
colour-IsWellFormed = ((validate_create-eq-admitted_iff plain paint).0 paint-admitted).0

validate_response-admitted_example :
    validate_response_create (response "a" (blue ∷ calm ∷ [])) ≡ admitted
unfolding validate_response check_answers validate_answer validate_choice check_selections index_by
    string_eq validate_free_text int32
validate_response-admitted_example =
    validate_response-admitted plain paint (response "a" (blue ∷ calm ∷ [])) 5 paint-admitted
      (refl, (refl, tt)) refl

-- The text question is dropped.
abbrev shortened : Poll
shortened = record paint { spec = record paint.spec { questions = colour ∷ [] } }

shortened-admitted : validate_update plain paint shortened ≡ admitted
unfolding validate_update validate_poll_spec validate_poll_update validate_questions
    validate_question validate_choice_options check_options string_eq index_by type_changes
shortened-admitted = refl

Chain-keeps_type_example : colour.type ≡ colour.type
unfolding string_eq
Chain-keeps_type_example =
    Chain-keeps_type plain "colour" paint shortened colour colour (refl, (refl, tt))
      (Memᴰ.head refl, refl)
      (then colour none_yet (refl, (refl, tt)) (Memᴰ.head refl, refl) shortened-admitted)
      (Memᴰ.head refl, refl)

-- Another question comes first, and then a text about the colour.
abbrev why_only : Poll
why_only = record paint { spec = record paint.spec { questions = why ∷ [] } }

abbrev colour_text : Poll
colour_text = record paint {
  spec = record paint.spec { questions = record why { id = "colour" } ∷ [] };
}

why_only-admitted : validate_create plain why_only ≡ admitted
unfolding validate_create validate_poll_spec validate_questions validate_question string_eq
why_only-admitted = refl

colour_text-admitted : validate_create plain colour_text ≡ admitted
unfolding validate_create validate_poll_spec validate_questions validate_question string_eq
colour_text-admitted = refl

any_type_in_two_updates_example :
    (validate_update plain shortened why_only ≡ admitted)
    × (validate_update plain why_only colour_text ≡ admitted)
unfolding string_eq
any_type_in_two_updates_example =
    any_type_in_two_updates plain shortened why_only colour_text (refl, tt) (refl, tt)
      why_only-admitted colour_text-admitted (refl, tt) (refl, tt)
