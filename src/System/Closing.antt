-- ===== src/System/Closing.antt =====
-- Responses that are judged again once their Poll has closed, and the Poll's next status.
use poll_operator.Base.{
  ℤ, true, Option, none, some, List, map, pos, ◌≡◌, ◌≢◌, refl, ap, sym, ◌∙◌, arith, All, All-map,
}
use poll_operator.Api.{
  Time, Poll, PollResponse, poll_phase_closed, response_phase_accepted, rejected-ne-accepted,
}
use poll_operator.Kube.{Kube}
use poll_operator.Kube.Format.{Format}
use poll_operator.PollController.Phase.{has_closed, compute_phase}
use poll_operator.PollController.Aggregate.{aggregate_results, initial_result}
use poll_operator.PollController.Ready.{set_ready_condition}
use poll_operator.PollController.Reconcile.{desired_status}
use poll_operator.ResponseController.Validate.{ValidationError, validate_response}
use poll_operator.ResponseController.Status.{rejected_status, set_response_condition}
use poll_operator.ResponseController.Reconcile.Judged.{judged_status}
use poll_operator.ResponseController.Reconcile.Closing.{aggregate_results_unanswered}

module _ (kube : Kube) (poll : Poll) where
  pub desired_status-results :
      (responses : List PollResponse) (t t' t'' : Time)
      → let desired = desired_status kube poll responses t t' t'' in
        (desired.results ≡ (aggregate_results poll responses).0)
        × (desired.total_responses ≡ (aggregate_results poll responses).1)
        × (desired.phase ≡ (compute_phase poll poll.status t).0)
  unfolding desired_status set_ready_condition
  desired_status-results responses t t' t'' = (refl, refl, refl)

module _ (kube : Kube) (fmt : Format) (poll : Poll) where
  -- The response has the status that a run wants for it once the Poll has closed; before, it was
  -- the first response, of any status.
  abbrev pub IsJudgedLate : PollResponse → Type 0
  IsJudgedLate resp =
      (before : PollResponse) × (now : Time) × (u : Time) × (t₁ : Time) × (t₂ : Time) × (has_closed
          poll.spec.closes_at now
        ≡ true)
      × (resp ≡ record before {
        status =
            judged_status kube before poll.meta.generation (validate_response fmt poll before now) u
              t₁ t₂;
      })

  validate_response_closed :
      (resp : PollResponse) (now : Time)
      → has_closed poll.spec.closes_at now ≡ true
      → validate_response fmt poll resp now ≢ none
  unfolding validate_response
  validate_response_closed resp now closed = ground arith

  judged_status-phase :
      (resp : PollResponse) (g : ℤ) (verdict : Option ValidationError) (u t₁ t₂ : Time)
      → verdict ≢ none
      → (judged_status kube resp g verdict u t₁ t₂).phase ≢ response_phase_accepted
  unfolding rejected_status set_response_condition
  judged_status-phase resp g none u t₁ t₂ rejects = absurd (rejects refl)
  judged_status-phase resp g (some e) u t₁ t₂ rejects = rejected-ne-accepted

  IsJudgedLate-phase :
      (resp : PollResponse) → IsJudgedLate resp → resp.status.phase ≢ response_phase_accepted
  IsJudgedLate-phase resp (before, now, u, t₁, t₂, closed, same) e =
      judged_status-phase before poll.meta.generation (validate_response fmt poll before now) u t₁
        t₂ (validate_response_closed before now closed) (sym (ap (λ r. r.status.phase) same) ∙ e)

  -- Once each of the responses has been judged by a run after the closing time, the status that the
  -- controller wants for the closed Poll is that of a Poll that nobody has answered: all results are
  -- zero, also where responses had been counted before it closed.
  pub closed_results_wiped :
      (responses : List PollResponse) (t t' t'' : Time)
      → All IsJudgedLate responses
      → has_closed poll.spec.closes_at t ≡ true
      → let desired = desired_status kube poll responses t t' t'' in
        (desired.phase ≡ poll_phase_closed)
        × (desired.results ≡ map initial_result poll.spec.questions)
        × (desired.total_responses ≡ pos 0)
  unfolding compute_phase
  closed_results_wiped responses t t' t'' judged closed =
      let (results, total, phase) = desired_status-results kube poll responses t t' t'' in
      let blank =
        aggregate_results_unanswered poll responses (All-map IsJudgedLate-phase responses judged) in
      (phase ∙ rw closed refl, results ∙ ap (λ x. x.0) blank, total ∙ ap (λ x. x.1) blank)
