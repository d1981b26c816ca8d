-- ===== src/Ui/Answers/Forms.antt =====
-- The answers that the form's handler builds, and the response's admission.
use poll_operator.Base.{
  String, some, List, [], ◌∷◌, ◌≡◌, ◌≢◌, ◌↔◌, refl, arith, ◌==◌, string_eq, All, All-append,
  All-map, IsUnique, Bool-cases, inl, inr,
}
use poll_operator.Api.{
  Poll, PollQuestion, PollAnswer, PollResponse, question_type_choice, question_type_free_text,
}
use poll_operator.Ui.Text.{trim_space}
use poll_operator.Ui.Answers.{
  Form, form_key, selected_values, choice_answer, text_answer, first_text, question_answer,
  answers_of, build_answers,
}
use poll_operator.Webhook.FieldError.{admitted}
use poll_operator.Webhook.ResponseWebhook.{validate_response_create}
use poll_operator.Webhook.ResponseWebhook.OneForm.{
  HasOneForm, validate_response_create-eq-admitted_iff,
}

-- Selected options, none of them empty, or a text.
pub data IsBuilt (a : PollAnswer) : Type 0 where
  picked : a.selected_options ≢ [] → a.text ≡ "" → All (λ s. s ≢ "") a.selected_options → IsBuilt a
  written : a.selected_options ≡ [] → a.text ≢ "" → IsBuilt a

selected_values-All : (vs : List String) → All (λ s. s ≢ "") (selected_values vs)
unfolding selected_values
selected_values-All [] = tt
selected_values-All (v ∷ vs) = elim (Bool-cases (trim_space v == "")) [
  | inl blank ↦ rw blank (selected_values-All vs)
  | inr solid ↦ rw solid (ground arith, selected_values-All vs)
]

choice_answer-IsBuilt :
    (id : String) (selected : List String)
    → All (λ s. s ≢ "") selected
    → All IsBuilt (choice_answer id selected)
choice_answer-IsBuilt id [] good = tt
choice_answer-IsBuilt id (s ∷ selected) good = (IsBuilt.picked (λ e. cc) refl good, tt)

text_answer-IsBuilt : (id text : String) → All IsBuilt (text_answer id text)
text_answer-IsBuilt id text = elim (Bool-cases (text == "")) [
  | inl blank ↦ rw blank tt
  | inr solid ↦ rw solid (IsBuilt.written refl (ground arith), tt)
]

question_answer-IsBuilt : (q : PollQuestion) (vs : List String) → All IsBuilt (question_answer q vs)
unfolding question_answer
question_answer-IsBuilt q vs = elim (Bool-cases (q.type == question_type_choice)) [
  | inl is_choice ↦
      rw is_choice (choice_answer-IsBuilt q.id (selected_values vs) (selected_values-All vs))
  | inr other ↦ elim (Bool-cases (q.type == question_type_free_text)) [
    | inl is_text ↦ rw (other, is_text) (text_answer-IsBuilt q.id (first_text vs))
    | inr neither ↦ rw (other, neither) tt
  ]
]

pub answers_of-IsBuilt : (form : Form) (qs : List PollQuestion) → All IsBuilt (answers_of form qs)
unfolding answers_of
answers_of-IsBuilt form [] = tt
answers_of-IsBuilt form (q ∷ qs) =
    All-append IsBuilt (question_answer q (form (form_key q))) _
      (question_answer-IsBuilt q (form (form_key q))) (answers_of-IsBuilt form qs)

pub build_answers-some :
    (poll : Poll) (form : Form) (answers : List PollAnswer)
    → build_answers poll form ≡ some answers
    → (answers ≡ answers_of form poll.spec.questions) × (answers ≢ [])
unfolding build_answers
build_answers-some poll form answers h = ground arith

HasOneForm-of_IsBuilt :
    (answers : List PollAnswer)
    → All IsBuilt answers
    → All (λ a. IsUnique a.selected_options) answers
    → All HasOneForm answers
HasOneForm-of_IsBuilt [] built u = tt
HasOneForm-of_IsBuilt (a ∷ answers) (IsBuilt.picked some_option no_text good, built) (u, us) =
    (HasOneForm.selections some_option no_text good u, HasOneForm-of_IsBuilt answers built us)
HasOneForm-of_IsBuilt (a ∷ answers) (IsBuilt.written no_option some_text, built) (u, us) =
    (HasOneForm.text no_option some_text, HasOneForm-of_IsBuilt answers built us)

pub IsUnique-of_HasOneForm : (a : PollAnswer) → HasOneForm a → IsUnique a.selected_options
IsUnique-of_HasOneForm a (HasOneForm.selections some_option no_text good u) = u
IsUnique-of_HasOneForm a (HasOneForm.text no_option some_text) = rw no_option tt

-- The answers that are built are at least one, and a response with them is admitted exactly if no
-- answer selects an option twice once the values are trimmed.
pub build_answers-admitted_iff :
    (poll : Poll) (form : Form) (resp : PollResponse)
    → build_answers poll form ≡ some resp.spec.answers
    → (resp.spec.answers ≢ [])
      × ((validate_response_create resp ≡ admitted)
          ↔ All (λ a. IsUnique a.selected_options) resp.spec.answers)
build_answers-admitted_iff poll form resp built =
    let (same, some_answer) = build_answers-some poll form resp.spec.answers built in
    let (to, from) = validate_response_create-eq-admitted_iff resp in
    (
      some_answer,
      (
        λ h. All-map IsUnique-of_HasOneForm resp.spec.answers (to h),
        λ u. from (
            HasOneForm-of_IsBuilt resp.spec.answers
              (rw same (answers_of-IsBuilt form poll.spec.questions)) u),
      ),
    )
