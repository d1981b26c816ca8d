-- ===== src/ResponseController/Validate/Whole.antt =====
-- `validate_response` accepts exactly the responses to an open Poll all of whose answers fit.
use poll_operator.Base.{false, Option, none, some, List, [], ◌∷◌, map, Memᴰ}
use poll_operator.Base.{
  ◌≡◌, ◌↔◌, inl, inr, refl, sym, ap, ◌∙◌, arith, string_eq, All, All-mem, IsUnique, GoMap, empty,
  index_by, index_by-All, index_by-some, Option-cases,
}
use poll_operator.Api.{Time, Poll, PollQuestion, PollAnswer, PollResponse}
use poll_operator.Kube.Format.{Format}
use poll_operator.PollController.Phase.{has_closed}
use poll_operator.ResponseController.Validate.{
  validate_answer, check_answer, check_answers, validate_response, or_else, ValidationError,
}
use poll_operator.ResponseController.Validate.Fits.{Fits}
use poll_operator.ResponseController.Validate.Answer.{validate_answer-eq-none_iff}

-- The answer is to one of the questions, and fits it.
abbrev pub Answers : List PollQuestion → PollAnswer → Type 0
Answers qs ans = (q : PollQuestion) × Memᴰ q qs × (q.id ≡ ans.question_id) × Fits q ans

abbrev questions_of : List PollQuestion → GoMap PollQuestion
questions_of qs = index_by (λ q. q.id) (λ q. q) qs empty

or_else-eq-none_iff :
    (a b : Option ValidationError) → (or_else a b ≡ none) ↔ ((a ≡ none) × (b ≡ none))
or_else-eq-none_iff none b = (λ h. (refl, h), λ h. h.1)
or_else-eq-none_iff (some e) b = (λ h. cc, λ h. cc)

module _ (fmt : Format) (qs : List PollQuestion) where
  check_answer_sound :
      (ans : PollAnswer)
      → check_answer fmt (questions_of qs ans.question_id) ans ≡ none
      → Answers qs ans
  check_answer_sound ans h = elim (Option-cases (questions_of qs ans.question_id)) [
    | inl unknown ↦ absurd (ground arith)
    | inr (q, found) ↦ elim (index_by-some (λ q. q.id) (λ q. q) ans.question_id qs empty q found) [
      | inl (q', listed, named, same) ↦ (
        q',
        listed,
        named,
        (validate_answer-eq-none_iff fmt q' ans).0 (
            ap (λ x. validate_answer fmt x ans) same
            ∙ ap (λ o. check_answer fmt o ans) (sym found)
            ∙ h),
      )
      | inr absent ↦ absurd (ground arith)
    ]
  ]

  check_answer_complete :
      (ans : PollAnswer)
      → IsUnique (map (λ q. q.id) qs)
      → Answers qs ans
      → check_answer fmt (questions_of qs ans.question_id) ans ≡ none
  check_answer_complete ans u (q, listed, named, fits) =
      let found = All-mem _ qs (index_by-All (λ q. q.id) (λ q. q) qs empty u) listed in
      ap (λ k. check_answer fmt (questions_of qs k) ans) (sym named)
      ∙ ap (λ o. check_answer fmt o ans) found
      ∙ (validate_answer-eq-none_iff fmt q ans).1 fits

  check_answers-eq-none_iff :
      (answers : List PollAnswer)
      → IsUnique (map (λ q. q.id) qs)
      → (check_answers fmt (questions_of qs) answers ≡ none) ↔ All (Answers qs) answers
  unfolding check_answers
  check_answers-eq-none_iff [] u = (λ _. tt, λ _. refl)
  check_answers-eq-none_iff (ans ∷ answers) u =
      let (sound, complete) = check_answers-eq-none_iff answers u in
      let (split, join) =
        or_else-eq-none_iff (check_answer fmt (questions_of qs ans.question_id) ans) _ in
      (
        λ h. (check_answer_sound ans (split h).0, sound (split h).1),
        λ (a, more). join (check_answer_complete ans u a, complete more),
      )

-- A response passes exactly if the Poll has not reached its closing time and every answer is to one
-- of its questions and fits it, where question ids are unique.
pub validate_response-eq-none_iff :
    (fmt : Format) (poll : Poll) (resp : PollResponse) (now : Time)
    → IsUnique (map (λ q. q.id) poll.spec.questions)
    → (validate_response fmt poll resp now ≡ none) ↔ (
        (has_closed poll.spec.closes_at now ≡ false)
        × All (Answers poll.spec.questions) resp.spec.answers)
unfolding validate_response
validate_response-eq-none_iff fmt poll resp now u =
    ground (arith, check_answers-eq-none_iff fmt poll.spec.questions resp.spec.answers u)
