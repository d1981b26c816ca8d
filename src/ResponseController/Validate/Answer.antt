-- ===== src/ResponseController/Validate/Answer.antt =====
-- `validate_answer` accepts exactly the answers that fit their question.
use poll_operator.Base.{
  IsFresh, IsFresh-put, IsFresh-empty, String, true, none, some, List, [], ◌∷◌, map,
}
use poll_operator.Base.{
  ◌≡◌, ◌↔◌, inl, inr, refl, sym, ap, ◌∙◌, arith, ◌==◌, string_eq, contains, All, IsUnique, GoMap,
  empty, put, is_found, index_by, is_found-index_by, Bool-cases, Option-cases,
}
use poll_operator.Api.{
  PollQuestion, ChoiceQuestion, PollAnswer, question_type_choice, question_type_free_text,
  choice-ne-free_text,
}
use poll_operator.Kube.Format.{Format}
use poll_operator.ResponseController.Validate.{
  check_selections, validate_choice, validate_free_text, validate_answer,
}
use poll_operator.ResponseController.Validate.Fits.{FitsChoice, FitsText, Fits, choice, free_text}

module _ (fmt : Format) (q : PollQuestion) (allowed : GoMap (Unit {0})) where
  check_selections-eq-none_iff :
      (seen : GoMap (Unit {0})) (sels : List String)
      → (check_selections fmt q allowed seen sels ≡ none)
        ↔ (All (λ s. is_found (allowed s) ≡ true) sels × IsFresh seen sels × IsUnique sels)
  unfolding check_selections
  check_selections-eq-none_iff seen [] = (λ _. (tt, tt, tt), λ _. refl)
  check_selections-eq-none_iff seen (s ∷ sels) =
      ground (arith, check_selections-eq-none_iff (put s tt seen) sels, IsFresh-put s seen sels)

contains-map_self : (os : List String) (s : String) → contains (map (λ o. o) os) s ≡ contains os s
contains-map_self [] s = refl
contains-map_self (o ∷ os) s = ground (arith, contains-map_self os s)

-- The map of the configured options.
abbrev allowed_of : List String → GoMap (Unit {0})
allowed_of options = index_by (λ o. o) (λ o. tt) options empty

is_found-allowed_of :
    (options : List String) (s : String) → is_found (allowed_of options s) ≡ contains options s
is_found-allowed_of options s =
    is_found-index_by (λ o. o) (λ o. tt) s options empty
    ∙ ground (arith, contains-map_self options s)

All-allowed_of :
    (options sels : List String)
    → All (λ s. is_found (allowed_of options s) ≡ true) sels
      ↔ All (λ s. contains options s ≡ true) sels
All-allowed_of options [] = (λ _. tt, λ _. tt)
All-allowed_of options (s ∷ sels) =
    ground (arith, is_found-allowed_of options s, All-allowed_of options sels)

module _ (fmt : Format) (q : PollQuestion) (ans : PollAnswer) where
  choice_check :
      (c : ChoiceQuestion)
      → (check_selections fmt q (allowed_of c.options) empty ans.selected_options ≡ none) ↔ (
          All (λ s. contains c.options s ≡ true) ans.selected_options
          × IsUnique ans.selected_options)
  choice_check c =
      let (to, from) =
        check_selections-eq-none_iff fmt q (allowed_of c.options) empty ans.selected_options in
      let (known, back) = All-allowed_of c.options ans.selected_options in
      (
        λ h. (known (to h).0, (to h).2),
        λ (k, u). from (back k, IsFresh-empty ans.selected_options, u),
      )

  validate_choice-eq-none_iff :
      (c : ChoiceQuestion) → (validate_choice fmt q (some c) ans ≡ none) ↔ FitsChoice c ans
  unfolding validate_choice
  validate_choice-eq-none_iff c = ground (arith, choice_check c)

  validate_free_text-eq-none_iff : (validate_free_text fmt q ans ≡ none) ↔ FitsText q.free_text ans
  unfolding validate_free_text
  validate_free_text-eq-none_iff = ground arith

  Fits-of_none : validate_answer fmt q ans ≡ none → Fits q ans
  unfolding validate_answer validate_choice
  Fits-of_none h = elim (Bool-cases (q.type == question_type_choice)) [
    | inl is_choice ↦ elim (Option-cases q.choice) [
      | inl unset ↦ absurd (ground arith)
      | inr (c, set) ↦ choice c (ground arith) set (
          (validate_choice-eq-none_iff c).0
            (ap (λ o. validate_choice fmt q o ans) (sym set) ∙ rw is_choice at h))
    ]
    | inr other ↦ elim (Bool-cases (q.type == question_type_free_text)) [
      | inl is_text ↦
          free_text (ground arith) (validate_free_text-eq-none_iff.0 (rw (other, is_text) at h))
      | inr neither ↦ absurd (ground arith)
    ]
  ]

  none_of_Fits : Fits q ans → validate_answer fmt q ans ≡ none
  unfolding validate_answer
  none_of_Fits (choice c is_choice set fits) =
      ground (arith, (validate_choice-eq-none_iff c).1 fits)
  none_of_Fits (free_text is_text fits) =
      ground (arith, validate_free_text-eq-none_iff.1 fits, choice-ne-free_text)

  -- An answer passes exactly if it fits the question.
  pub validate_answer-eq-none_iff : (validate_answer fmt q ans ≡ none) ↔ Fits q ans
  validate_answer-eq-none_iff = (Fits-of_none, none_of_Fits)
