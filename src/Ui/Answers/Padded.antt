-- ===== src/Ui/Answers/Padded.antt =====
-- Options with white space round them.
use mathlib.Core.Path.{subst}
use poll_operator.Base.{same_of_key}
use poll_operator.Base.{
  String, true, false, none, some, List, [], ◌∷◌, ◌++◌, map, Memᴰ, ◌≡◌, ◌≢◌, refl, sym, ap, ◌∙◌,
  arith, ◌==◌, string_eq, contains, All-mem, IsUnique, Bool-cases, inl, inr,
}
use poll_operator.Api.{
  Time, Poll, PollQuestion, ChoiceQuestion, PollAnswer, PollResponse, question_type_choice,
  choice-ne-free_text,
}
use poll_operator.Kube.Format.{Format}
use poll_operator.ResponseController.Validate.{validate_response}
use poll_operator.ResponseController.Validate.Fits.{Fits}
use poll_operator.ResponseController.Validate.Whole.{Answers, validate_response-eq-none_iff}
use poll_operator.Ui.Text.{trim_space}
use poll_operator.Ui.Answers.{
  Form, form_key, selected_values, choice_answer, question_answer, answers_of, build_answers,
}
use poll_operator.Ui.Answers.Forms.{build_answers-some}

mem-selected_values :
    (vs : List String) (v : String)
    → Memᴰ v vs
    → trim_space v ≢ ""
    → Memᴰ (trim_space v) (selected_values vs)
unfolding selected_values
mem-selected_values [] v m solid = elim m [ ]
mem-selected_values (w ∷ vs) v (Memᴰ.head e) solid =
    let test : (trim_space w == "") ≡ false = ground (arith, ap trim_space e) in
    rw test (Memᴰ.head (ap trim_space e))
mem-selected_values (w ∷ vs) v (Memᴰ.tail m) solid = elim (Bool-cases (trim_space w == "")) [
  | inl blank ↦ rw blank (mem-selected_values vs v m solid)
  | inr kept ↦ rw kept (Memᴰ.tail (mem-selected_values vs v m solid))
]

-- An answer to the question that selects an option.
abbrev Selects : String → String → PollAnswer → Type 0
Selects id option a = (a.question_id ≡ id) × Memᴰ option a.selected_options

abbrev Some : (PollAnswer → Type 0) → List PollAnswer → Type 0
Some P answers = (a : PollAnswer) × Memᴰ a answers × P a

choice_answer-Selects :
    (id option : String) (selected : List String)
    → Memᴰ option selected
    → Some (Selects id option) (choice_answer id selected)
choice_answer-Selects id option [] m = elim m [ ]
choice_answer-Selects id option (s ∷ selected) m = (
  record { question_id = id; selected_options = s ∷ selected; text = "" },
  Memᴰ.head refl,
  (refl, m),
)

mem-append_left : (a : PollAnswer) (xs ys : List PollAnswer) → Memᴰ a xs → Memᴰ a (xs ++ ys)
mem-append_left a [] ys m = elim m [ ]
mem-append_left a (x ∷ xs) ys (Memᴰ.head e) = Memᴰ.head e
mem-append_left a (x ∷ xs) ys (Memᴰ.tail m) = Memᴰ.tail (mem-append_left a xs ys m)

mem-append_right : (a : PollAnswer) (xs ys : List PollAnswer) → Memᴰ a ys → Memᴰ a (xs ++ ys)
mem-append_right a [] ys m = m
mem-append_right a (x ∷ xs) ys m = Memᴰ.tail (mem-append_right a xs ys m)

question_answer-Selects :
    (q : PollQuestion) (vs : List String) (v : String)
    → q.type ≡ question_type_choice
    → Memᴰ v vs
    → trim_space v ≢ ""
    → Some (Selects q.id (trim_space v)) (question_answer q vs)
unfolding question_answer
question_answer-Selects q vs v is_choice m solid =
    let test : (q.type == question_type_choice) ≡ true = ground arith in
    rw test (
      choice_answer-Selects q.id (trim_space v) (selected_values vs)
        (mem-selected_values vs v m solid))

answers_of-Selects :
    (form : Form) (qs : List PollQuestion) (q : PollQuestion) (v : String)
    → Memᴰ q qs
    → q.type ≡ question_type_choice
    → Memᴰ v (form (form_key q))
    → trim_space v ≢ ""
    → Some (Selects q.id (trim_space v)) (answers_of form qs)
unfolding answers_of
answers_of-Selects form [] q v m is_choice ticked solid = elim m [ ]
answers_of-Selects form (x ∷ qs) q v (Memᴰ.head e) is_choice ticked solid =
    let (a, m, sel) = question_answer-Selects q (form (form_key q)) v is_choice ticked solid in
    (
      a,
      mem-append_left a (question_answer x (form (form_key x))) _
          (subst (λ y. Memᴰ a (question_answer y (form (form_key y)))) e m),
      sel,
    )
answers_of-Selects form (x ∷ qs) q v (Memᴰ.tail m) is_choice ticked solid =
    let (a, m', sel) = answers_of-Selects form qs q v m is_choice ticked solid in
    (a, mem-append_right a (question_answer x (form (form_key x))) _ m', sel)

not-Fits_unknown :
    (q : PollQuestion) (c : ChoiceQuestion) (a : PollAnswer) (option : String)
    → q.type ≡ question_type_choice
    → q.choice ≡ some c
    → Memᴰ option a.selected_options
    → contains c.options option ≡ false
    → ¬ Fits q a
not-Fits_unknown q c a option is_choice set m unknown (Fits.choice c' _ set' fits) =
    let same : c' ≡ c = cc in
    let known : contains c'.options option ≡ true =
      All-mem _ a.selected_options fits.known_options m in
    let unknown' : contains c'.options option ≡ false =
      ap (λ x. contains x.options option) same ∙ unknown in
    cc
not-Fits_unknown q c a option is_choice set m unknown (Fits.free_text is_text fits) =
    choice-ne-free_text (sym is_choice ∙ is_text)

-- If ticking an option sends a value that names another text once it is trimmed, and that text is
-- no option of the question, then the response that the form makes is rejected: where question ids
-- are unique, an option with white space round it cannot be chosen through the form.
pub padded_option_rejected :
    (fmt : Format) (poll : Poll) (form : Form) (resp : PollResponse) (now : Time) (q : PollQuestion)
    (c : ChoiceQuestion) (v : String)
    → IsUnique (map (λ q. q.id) poll.spec.questions)
    → Memᴰ q poll.spec.questions
    → q.type ≡ question_type_choice
    → q.choice ≡ some c
    → Memᴰ v (form (form_key q))
    → trim_space v ≢ ""
    → contains c.options (trim_space v) ≡ false
    → build_answers poll form ≡ some resp.spec.answers
    → validate_response fmt poll resp now ≢ none
padded_option_rejected fmt poll form resp now q c v u listed is_choice set ticked solid unknown
      built passes =
    let qs = poll.spec.questions in
    let (a, m, (named, selects)) = answers_of-Selects form qs q v listed is_choice ticked solid in
    let all_fit = ((validate_response-eq-none_iff fmt poll resp now u).0 passes).1 in
    let in_resp : Memᴰ a resp.spec.answers =
      rw (build_answers-some poll form resp.spec.answers built).0 m in
    let (q', listed', named', fits) = All-mem (Answers qs) resp.spec.answers all_fit in_resp in
    not-Fits_unknown q c a (trim_space v) is_choice set selects unknown (
      subst (λ x. Fits x a) (same_of_key (λ x. x.id) qs q q' u listed listed' (named' ∙ named))
        fits)
