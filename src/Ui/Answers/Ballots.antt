-- ===== src/Ui/Answers/Ballots.antt =====
-- Forms that survive the trimming of values and the limit in bytes, from the form to the
-- controller's validation.
use poll_operator.Base.{
  ◌≤◌, String, true, false, none, some, List, [], ◌∷◌, map, Memᴰ, ◌≡◌, ◌≢◌, refl, arith, ◌==◌,
  string_eq, length, contains, All, All-append, All-map, IsUnique, Bool-cases, inl, inr,
}
use poll_operator.Api.{
  Time, Poll, PollQuestion, ChoiceQuestion, PollAnswer, PollResponse, question_type_choice,
  question_type_free_text, choice-ne-free_text,
}
use poll_operator.Kube.Format.{Format}
use poll_operator.PollController.Phase.{has_closed}
use poll_operator.ResponseController.Validate.{validate_response}
use poll_operator.ResponseController.Validate.Fits.{Fits, IsWithin}
use poll_operator.ResponseController.Validate.Whole.{Answers, validate_response-eq-none_iff}
use poll_operator.Ui.Text.{trim_space}
use poll_operator.Ui.Answers.{
  Form, form_key, selected_values, choice_answer, text_answer, first_text, question_answer,
  answers_of, build_answers,
}
use poll_operator.Ui.Answers.Forms.{build_answers-some}

-- A value that is an option of the question, is not empty and has no white space round it. The page
-- also offers options with white space round them, which the trimming changes.
pub record IsOffered (options : List String) (v : String) : Type 0 where
  pub known : contains options v ≡ true
  pub trimmed : trim_space v ≡ v
  pub not_empty : v ≢ ""

-- The values for a question: different ones as above, and one at most where only one is allowed; or
-- a text within the limit, which counts bytes. No values at all are fine.
pub data IsFilled (form : Form) (q : PollQuestion) : Type 0 where
  ticked :
      (c : ChoiceQuestion)
      → q.type ≡ question_type_choice
      → q.choice ≡ some c
      → All (IsOffered c.options) (form (form_key q))
      → IsUnique (form (form_key q))
      → (c.allow_multiple_choices ≡ false → length (form (form_key q)) ≤ 1)
      → IsFilled form q
  written :
      q.type ≡ question_type_free_text
      → IsWithin q.free_text (first_text (form (form_key q)))
      → IsFilled form q

selected_values_offered :
    (options vs : List String) → All (IsOffered options) vs → selected_values vs ≡ vs
unfolding selected_values
selected_values_offered options [] offered = refl
selected_values_offered options (v ∷ vs) (o, offered) =
    ground (arith, o.trimmed, o.not_empty, selected_values_offered options vs offered)

-- What an answer to the question must be.
abbrev FitsIts : PollQuestion → PollAnswer → Type 0
FitsIts q a = (q.id ≡ a.question_id) × Fits q a

choice_answer-FitsIts :
    (q : PollQuestion) (c : ChoiceQuestion) (vs : List String)
    → q.type ≡ question_type_choice
    → q.choice ≡ some c
    → All (IsOffered c.options) vs
    → IsUnique vs
    → (c.allow_multiple_choices ≡ false → length vs ≤ 1)
    → All (FitsIts q) (choice_answer q.id vs)
choice_answer-FitsIts q c [] is_choice set offered u few = tt
choice_answer-FitsIts q c (v ∷ vs) is_choice set offered u few = (
  (
    refl,
    Fits.choice c is_choice set (record {
      no_text = refl;
      some_option = λ e. cc;
      one_option = few;
      known_options = All-map (λ s o. o.known) (v ∷ vs) offered;
      different_options = u;
    }),
  ),
  tt,
)

text_answer-FitsIts :
    (q : PollQuestion) (text : String)
    → q.type ≡ question_type_free_text
    → IsWithin q.free_text text
    → All (FitsIts q) (text_answer q.id text)
text_answer-FitsIts q text is_text within = elim (Bool-cases (text == "")) [
  | inl blank ↦ rw blank tt
  | inr solid ↦ rw solid (
    (
      refl,
      Fits.free_text is_text
          (record { no_options = refl; some_text = ground arith; within = within }),
    ),
    tt,
  )
]

question_answer-FitsIts :
    (form : Form) (q : PollQuestion)
    → IsFilled form q
    → All (FitsIts q) (question_answer q (form (form_key q)))
unfolding question_answer
question_answer-FitsIts form q (ticked c is_choice set offered u few) =
    let test : (q.type == question_type_choice) ≡ true = ground arith in
    rw (test, selected_values_offered c.options (form (form_key q)) offered)
      (choice_answer-FitsIts q c (form (form_key q)) is_choice set offered u few)
question_answer-FitsIts form q (written is_text within) =
    let test : (q.type == question_type_choice) ≡ false = ground (arith, choice-ne-free_text) in
    let test' : (q.type == question_type_free_text) ≡ true = ground arith in
    rw (test, test') (text_answer-FitsIts q (first_text (form (form_key q))) is_text within)

answers_of-Answers :
    (form : Form) (all qs : List PollQuestion)
    → ((q : PollQuestion) → Memᴰ q qs → Memᴰ q all)
    → All (IsFilled form) qs
    → All (Answers all) (answers_of form qs)
unfolding answers_of
answers_of-Answers form all [] listed filled = tt
answers_of-Answers form all (q ∷ qs) listed (f, filled) =
    All-append (Answers all) (question_answer q (form (form_key q))) _
      (All-map (λ a (named, fits). (q, listed q (Memᴰ.head refl), named, fits))
        (question_answer q (form (form_key q))) (question_answer-FitsIts form q f))
      (answers_of-Answers form all qs (λ x m. listed x (Memᴰ.tail m)) filled)

-- For a Poll with unique question ids that is not closed, take a form with any answer in which the
-- values for a choice are options of the question that are not empty and have no white space round
-- them, all different and one at most where only one is allowed, and each text is within its limit
-- in bytes. The controller accepts the response with its answers.
pub filled_form-accepted :
    (fmt : Format) (poll : Poll) (form : Form) (resp : PollResponse) (now : Time)
    → IsUnique (map (λ q. q.id) poll.spec.questions)
    → All (IsFilled form) poll.spec.questions
    → has_closed poll.spec.closes_at now ≡ false
    → build_answers poll form ≡ some resp.spec.answers
    → validate_response fmt poll resp now ≡ none
filled_form-accepted fmt poll form resp now u filled open_still built =
    (validate_response-eq-none_iff fmt poll resp now u).1 (
      open_still,
      rw (build_answers-some poll form resp.spec.answers built).0
          (answers_of-Answers form poll.spec.questions poll.spec.questions (λ q m. m) filled),
    )
