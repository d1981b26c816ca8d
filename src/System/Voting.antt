-- ===== src/System/Voting.antt =====
-- A vote, from the form to the results.
use mathlib.Core.Path.{ap₂}
use mathlib.Core.List.{append-nil, append_assoc}
use poll_operator.Base.{
  ◌+◌, true, false, none, some, List, [], ◌∷◌, ◌++◌, map, pos, int32, count_if, count_if-append,
  ◌≡◌, refl, ap, sym, ◌∙◌, arith, string_eq, All, Bool-cases, inl, inr,
}
use poll_operator.Api.{Time, Poll, PollAnswer, PollResponse, response_phase_accepted}
use poll_operator.Kube.{Kube}
use poll_operator.Kube.Format.{Format}
use poll_operator.PollController.Phase.{has_closed}
use poll_operator.PollController.Aggregate.{aggregate_results, is_counted}
use poll_operator.PollController.Aggregate.Refines.{
  HasUniqueKeys, counted_answers, tally, aggregate_results-tally,
}
use poll_operator.ResponseController.Validate.{validate_response}
use poll_operator.ResponseController.Status.{accepted_status, set_response_condition}
use poll_operator.ResponseController.Reconcile.Judged.{judged_status}
use poll_operator.Ui.Answers.{Form, first_text, build_answers}
use poll_operator.Ui.Answers.Ballots.{IsFilled, filled_form-accepted}
use poll_operator.Ui.Pages.{new_response}
use poll_operator.Webhook.FieldError.{admitted}
use poll_operator.Webhook.PollWebhook.{validate_create}
use poll_operator.Webhook.ResponseWebhook.{validate_response_create}
use poll_operator.Webhook.Agreement.{validate_response-admitted}

counted_answers-append :
    (poll : Poll) (rs : List PollResponse) (r : PollResponse)
    → is_counted poll r ≡ true
    → counted_answers poll (rs ++ r ∷ []) ≡ counted_answers poll rs ++ r.spec.answers
unfolding counted_answers
counted_answers-append poll [] r counted = rw counted (append-nil r.spec.answers)
counted_answers-append poll (x ∷ rs) r counted = elim (Bool-cases (is_counted poll x)) [
  | inl this ↦ rw this (
      ap (λ bs. x.spec.answers ++ bs) (counted_answers-append poll rs r counted)
      ∙ sym (append_assoc x.spec.answers (counted_answers poll rs) r.spec.answers))
  | inr passed ↦ rw passed (counted_answers-append poll rs r counted)
]

aggregate_results-append :
    (poll : Poll) (rs : List PollResponse) (r : PollResponse)
    → HasUniqueKeys poll.spec.questions
    → is_counted poll r ≡ true
    → aggregate_results poll (rs ++ r ∷ []) ≡ (
      map (tally (counted_answers poll rs ++ r.spec.answers)) poll.spec.questions,
      int32 (pos (count_if (is_counted poll) rs + 1)),
    )
aggregate_results-append poll rs r keys counted =
    let one : count_if (is_counted poll) (r ∷ []) ≡ 1 = rw counted refl in
    aggregate_results-tally poll (rs ++ r ∷ []) keys
    ∙ ap₂ (λ bs n. (map (tally bs) poll.spec.questions, int32 (pos n)))
        (counted_answers-append poll rs r counted)
        (count_if-append (is_counted poll) rs (r ∷ [])
          ∙ ap (λ n. count_if (is_counted poll) rs + n) one)

is_counted_accepted :
    (poll : Poll) (r : PollResponse)
    → r.status.phase ≡ response_phase_accepted
    → r.spec.poll_ref.name ≡ poll.meta.name
    → is_counted poll r ≡ true
unfolding is_counted
is_counted_accepted poll r accepted named = ground arith

-- The response that a vote creates.
abbrev pub vote_of : Poll → Form → List PollAnswer → PollResponse
vote_of poll form answers =
    new_response poll.meta.namespace poll.meta.name (first_text (form "respondent")) answers

module _ (kube : Kube) (fmt : Format) (poll : Poll) (form : Form) where
  -- The response of a vote once a run has judged it.
  abbrev pub judged_vote : List PollAnswer → Time → Time → Time → Time → PollResponse
  judged_vote answers now u t₁ t₂ =
      let vote = vote_of poll form answers in
      record vote {
        status =
            judged_status kube vote poll.meta.generation (validate_response fmt poll vote now) u t₁
              t₂;
      }

  judged_vote-phase :
      (answers : List PollAnswer) (now u t₁ t₂ : Time)
      → validate_response fmt poll (vote_of poll form answers) now ≡ none
      → (judged_vote answers now u t₁ t₂).status.phase ≡ response_phase_accepted
  unfolding accepted_status set_response_condition
  judged_vote-phase answers now u t₁ t₂ passes = rw passes refl

  -- For an admitted Poll with unique question ids and options, take a form with any answer in
  -- which the values for a choice are options of the question that are not empty and have no white
  -- space round them, all different and one at most where only one is allowed, and each text is
  -- within its limit in bytes. Then the response that the vote creates is admitted, and once a run
  -- before the closing time has judged it, the results are those of the responses so far and of the
  -- answers in the form, with one response more in the total.
  pub vote_counts :
      (rs : List PollResponse) (answers : List PollAnswer) (now u t₁ t₂ : Time)
      → validate_create fmt poll ≡ admitted
      → HasUniqueKeys poll.spec.questions
      → All (IsFilled form) poll.spec.questions
      → has_closed poll.spec.closes_at now ≡ false
      → build_answers poll form ≡ some answers
      → (validate_response_create (vote_of poll form answers) ≡ admitted)
        × (aggregate_results poll (rs ++ judged_vote answers now u t₁ t₂ ∷ []) ≡ (
          map (tally (counted_answers poll rs ++ answers)) poll.spec.questions,
          int32 (pos (count_if (is_counted poll) rs + 1)),
        ))
  vote_counts rs answers now u t₁ t₂ admits keys filled open_still built =
      let passes =
        filled_form-accepted fmt poll form (vote_of poll form answers) now keys.0 filled open_still
          built in
      (
        validate_response-admitted fmt poll (vote_of poll form answers) now admits keys.0 passes,
        aggregate_results-append poll rs (judged_vote answers now u t₁ t₂) keys (
            is_counted_accepted poll (judged_vote answers now u t₁ t₂)
              (judged_vote-phase answers now u t₁ t₂ passes) refl),
      )
