-- ===== src/Tests/Clusters.antt =====
-- What may happen to the poll about colours and to a vote.
use mathlib.Core.Path.{subst}
use poll_operator.PollController.Ready.{ready_condition}
use poll_operator.ResponseController.Status.{accepted_status, set_response_condition}
use poll_operator.Base.{
  String, List, ℤ, negsuc, zero, suc, inl, inr, All, ◌⊎◌, int_eq, ℕ_discrete, true, false, Option,
  none, some, [], ◌∷◌, pos, int32, inc32, index_by, ◌≡◌, refl, arith, string_eq,
}
use poll_operator.Api.{PollStatus, PollResponse}
use poll_operator.PollController.Aggregate.{aggregate_results}
use poll_operator.PollController.Reconcile.{desired_status}
use poll_operator.ResponseController.Validate.{
  check_answers, validate_answer, validate_choice, check_selections, validate_free_text,
  validate_response,
}
use poll_operator.ResponseController.Reconcile.Judged.{judged_status}
use poll_operator.Kube.Lawful.{persisted}
use poll_operator.Kube.Responses.{persisted_response}
use poll_operator.System.Cluster.{
  IsPatched, IsResponsePatched, Cluster, Reachable, begins, creates, judges, counts, AnswersOnce,
}
use poll_operator.System.Cluster.Published.{IsCount, IsRow, IsWithinTotal, Reachable-IsPublished}
use poll_operator.PollController.Phase.{compute_phase}
use poll_operator.Webhook.FieldError.{admitted}
use poll_operator.Webhook.ResponseWebhook.{
  validate_response_create, validate_poll_response_spec, answers_errors, answer_errors, form_errors,
  check_selected,
}
use poll_operator.Tests.Admission.{paint-admitted}
use poll_operator.Tests.Data.{response, paint, both, calm}
use poll_operator.Tests.Memory.{memory}
use poll_operator.Tests.Verdicts.{plain}
use poll_operator.Tests.Votes.{paint-HasUniqueKeys}

-- One response is created, judged by a run that read it as it was, and counted by a run that read
-- the Poll before the vote and the responses after the verdict.
abbrev begun : Cluster
begun = record { poll = paint; responses = [] }

abbrev pub first_vote : PollResponse
first_vote = response "a" (both ∷ calm ∷ [])

first_vote-admitted : validate_response_create first_vote ≡ admitted
unfolding string_eq validate_response_create validate_poll_response_spec answers_errors
    answer_errors form_errors check_selected
first_vote-admitted = refl

first_vote-AnswersOnce : AnswersOnce first_vote
unfolding string_eq
first_vote-AnswersOnce = (refl, (refl, tt))

abbrev voted : Cluster
voted = record { poll = paint; responses = first_vote ∷ [] }

voted-Reachable : Reachable memory plain false begun voted
voted-Reachable =
    creates [] [] first_vote begins refl first_vote-admitted first_vote-AnswersOnce (omega arith)

abbrev accepted_vote : PollResponse
accepted_vote = record first_vote {
  status = persisted_response (
      judged_status memory first_vote paint.meta.generation
        (validate_response plain paint first_vote 5) 5 5 5);
}

abbrev judged_cluster : Cluster
judged_cluster = record { poll = paint; responses = accepted_vote ∷ [] }

-- What tells the old values from the new ones.
abbrev IsEmpty : {A : Type 0} → List A → Type 0
IsEmpty [] = Unit
IsEmpty (x ∷ xs) = ⊥

abbrev IsUnset : {A : Type 0} → Option A → Type 0
IsUnset none = Unit
IsUnset (some x) = ⊥

abbrev IsBlank : String → Type 0
IsBlank String.[] = Unit
IsBlank (String.◌∷◌ c s) = ⊥

abbrev IsZero : ℤ → Type 0
IsZero (pos zero) = Unit
IsZero (pos (suc n)) = ⊥
IsZero (negsuc n) = ⊥

judged-IsResponsePatched :
    IsResponsePatched
      (persisted_response first_vote.status)
      accepted_vote.status
      first_vote.status
      accepted_vote.status
unfolding string_eq ℕ_discrete validate_response accepted_status set_response_condition
    check_answers index_by validate_answer validate_choice check_selections validate_free_text int32
judged-IsResponsePatched = record {
  conditions = inr (λ e. subst IsEmpty e tt, refl);
  phase = inr (λ e. subst IsBlank e tt, refl);
  observed_poll_generation = inr (λ e. subst IsZero e tt, refl);
  accepted_at = inr (λ e. subst IsUnset e tt, refl);
}

judged-Reachable : Reachable memory plain false begun judged_cluster
judged-Reachable =
    judges [] [] first_vote first_vote paint 5 5 5 5 accepted_vote.status voted-Reachable refl
      judged-IsResponsePatched

abbrev counted_status : PollStatus
counted_status = persisted (desired_status memory paint (accepted_vote ∷ []) 6 6 6)

counted-IsPatched : IsPatched (persisted paint.status) counted_status paint.status counted_status
unfolding string_eq int_eq ℕ_discrete desired_status compute_phase aggregate_results inc32 index_by
    ready_condition validate_response accepted_status set_response_condition check_answers
    validate_answer validate_choice check_selections validate_free_text int32
counted-IsPatched = record {
  conditions = inr (λ e. subst IsEmpty e tt, refl);
  phase = inr (λ e. subst IsBlank e tt, refl);
  opened_at = inr (λ e. subst IsUnset e tt, refl);
  closed_at = inl (refl, refl);
  results = inr (λ e. subst IsEmpty e tt, refl);
  total_responses = inr (λ e. subst IsZero e tt, refl);
}

abbrev counted_cluster : Cluster
counted_cluster = record judged_cluster { poll = record paint { status = counted_status } }

counted-Reachable : Reachable memory plain false begun counted_cluster
counted-Reachable =
    counts {seen = begun} {listed = judged_cluster} 6 6 6 counted_status judged-Reachable begins
      judged-Reachable (inr refl) counted-IsPatched

Reachable-IsPublished_example :
    IsCount counted_status.total_responses
    × All IsRow counted_status.results
    × ((false ≡ true) ⊎ IsWithinTotal counted_status)
unfolding string_eq
Reachable-IsPublished_example =
    Reachable-IsPublished memory plain false paint counted_cluster paint-admitted
      paint-HasUniqueKeys.0 refl refl counted-Reachable
