-- ===== src/Webhook/PollWebhook/WellFormed.antt =====
-- The Polls that the webhook admits on create.
use poll_operator.Base.{
  ℕ, suc, String, Option, none, some, List, [], ◌∷◌, ◌≡◌, ◌≢◌, ◌↔◌, inl, inr, refl, arith, ◌==◌,
  string_eq, All, IsUnique, GoMap, empty, put, IsFresh, IsFresh-put, IsFresh-empty, Bool-cases,
  Option-cases,
}
use poll_operator.Api.{
  Poll, PollQuestion, ChoiceQuestion, FreeTextQuestion, question_type_choice,
  question_type_free_text, choice-ne-free_text,
}
use poll_operator.Kube.Format.{Format}
use poll_operator.Webhook.FieldError.{
  FieldPath, FieldError, admitted, index, child, append-eq-[]_iff, verdict-eq-admitted_iff,
}
use poll_operator.Webhook.PollWebhook.{
  check_options, validate_choice_options, choice_errors, free_text_errors, unless_set,
  validate_question, validate_questions, validate_poll_spec, validate_create, questions_path,
}

-- Options are different texts, none of them empty.
abbrev pub HasGoodOptions : ChoiceQuestion → Type 0
HasGoodOptions c = All (λ o. o ≢ "") c.options × IsUnique c.options

-- A question sets the part that its type asks for, and no other.
pub data IsWellFormed (q : PollQuestion) : Type 0 where
  choice :
      (c : ChoiceQuestion)
      → q.type ≡ question_type_choice
      → q.choice ≡ some c
      → HasGoodOptions c
      → q.free_text ≡ none
      → IsWellFormed q
  free_text :
      (f : FreeTextQuestion)
      → q.type ≡ question_type_free_text
      → q.free_text ≡ some f
      → q.choice ≡ none
      → IsWellFormed q

check_options-eq-[]_iff :
    (p : FieldPath) (i : ℕ) (seen : GoMap (Unit {0})) (opts : List String)
    → (check_options p i seen opts ≡ [])
      ↔ (All (λ o. o ≢ "") opts × IsFresh seen opts × IsUnique opts)
unfolding check_options
check_options-eq-[]_iff p i seen [] = (λ _. (tt, tt, tt), λ _. refl)
check_options-eq-[]_iff p i seen (o ∷ opts) = ground (
  arith,
  check_options-eq-[]_iff p (suc i) seen opts,
  check_options-eq-[]_iff p (suc i) (put o tt seen) opts,
  IsFresh-put o seen opts,
)

validate_choice_options-eq-[]_iff :
    (c : ChoiceQuestion) (p : FieldPath) → (validate_choice_options c p ≡ []) ↔ HasGoodOptions c
unfolding validate_choice_options
validate_choice_options-eq-[]_iff c p =
    let (to, from) = check_options-eq-[]_iff (child p "options") 0 empty c.options in
    (λ h. ((to h).0, (to h).2), λ (good, u). from (good, IsFresh-empty c.options, u))

unless_set-eq-[]_iff :
    {A : Type 0} (o : Option A) (e : FieldError) → (unless_set o e ≡ []) ↔ (o ≡ none)
unless_set-eq-[]_iff none e = (λ h. refl, λ h. refl)
unless_set-eq-[]_iff (some a) e = (λ h. cc, λ h. cc)

module _ (fmt : Format) where
  validate_question_sound :
      (q : PollQuestion) (p : FieldPath) → validate_question fmt q p ≡ [] → IsWellFormed q
  unfolding validate_question
  validate_question_sound q p h = elim (Bool-cases (q.type == question_type_choice)) [
    | inl is_choice ↦
        let (own, other) =
          (append-eq-[]_iff (choice_errors fmt q p q.choice) _).0 (rw is_choice at h) in
        elim (Option-cases q.choice) [
          | inl unset ↦ absurd (ground arith)
          | inr (c, set) ↦
              choice c (ground arith) set
                ((validate_choice_options-eq-[]_iff c (child p "choice")).0 (rw set at own))
                ((unless_set-eq-[]_iff q.free_text _).0 other)
        ]
    | inr not_choice ↦ elim (Bool-cases (q.type == question_type_free_text)) [
      | inl is_text ↦
          let (own, other) =
            (append-eq-[]_iff (free_text_errors fmt q p q.free_text) _).0
              (rw (not_choice, is_text) at h) in
          elim (Option-cases q.free_text) [
            | inl unset ↦ absurd (ground arith)
            | inr (f, set) ↦
                free_text f (ground arith) set ((unless_set-eq-[]_iff q.choice _).0 other)
          ]
      | inr neither ↦ absurd (ground arith)
    ]
  ]

  validate_question_complete :
      (q : PollQuestion) (p : FieldPath) → IsWellFormed q → validate_question fmt q p ≡ []
  unfolding validate_question
  validate_question_complete q p (choice c is_choice set good unset) =
      ground (arith, (validate_choice_options-eq-[]_iff c (child p "choice")).1 good)
  validate_question_complete q p (free_text f is_text set unset) =
      ground (arith, choice-ne-free_text)

  pub validate_questions-eq-[]_iff :
      (p : FieldPath) (i : ℕ) (qs : List PollQuestion)
      → (validate_questions fmt p i qs ≡ []) ↔ All IsWellFormed qs
  unfolding validate_questions
  validate_questions-eq-[]_iff p i [] = (λ _. tt, λ _. refl)
  validate_questions-eq-[]_iff p i (q ∷ qs) =
      let (split, join) = append-eq-[]_iff (validate_question fmt q (index p i)) _ in
      let (to, from) = validate_questions-eq-[]_iff p (suc i) qs in
      (
        λ h. (validate_question_sound q (index p i) (split h).0, to (split h).1),
        λ (w, ws). join (validate_question_complete q (index p i) w, from ws),
      )

  -- A new Poll is admitted exactly if every question is well formed.
  pub validate_create-eq-admitted_iff :
      (obj : Poll) → (validate_create fmt obj ≡ admitted) ↔ All IsWellFormed obj.spec.questions
  unfolding validate_create validate_poll_spec
  validate_create-eq-admitted_iff obj =
      let (to, from) = verdict-eq-admitted_iff "Poll" obj.meta.name (validate_poll_spec fmt obj) in
      let (sound, complete) = validate_questions-eq-[]_iff questions_path 0 obj.spec.questions in
      (λ h. sound (to h), λ w. from (complete w))
