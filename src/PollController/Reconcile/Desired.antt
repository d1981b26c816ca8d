-- ===== src/PollController/Reconcile/Desired.antt =====
-- The wanted status, up to the transition times of its conditions.
use mathlib.Core.Path.{ap₂}
use poll_operator.Base.{ℤ, Bool, true, false, none, List, map, ◌≡◌, ◌≢◌, ap, ◌∙◌, arith}
use poll_operator.Api.{
  Time, strip, Poll, PollStatus, PollResponse, PollPhase, poll_phase_open, poll_phase_closed,
}
use poll_operator.Kube.{Kube}
use poll_operator.Kube.Lawful.{IsLawful, upsert}
use poll_operator.PollController.Phase.{has_closed, compute_phase}
use poll_operator.PollController.Aggregate.{aggregate_results}
use poll_operator.PollController.Ready.{ready_condition}
use poll_operator.PollController.Reconcile.{desired_status}
use poll_operator.PollController.StatusEqual.Exact.{strip_status}

-- The timestamps have been recorded that the phase wants.
pub record IsSettled (closed : Bool) (status : PollStatus) : Type 0 where
  pub opening : status.opened_at ≢ none
  pub closing : closed ≡ true → status.closed_at ≢ none
  pub no_closing : closed ≡ false → status.closed_at ≡ none

abbrev pub phase_of : Bool → PollPhase
phase_of true = poll_phase_closed
phase_of false = poll_phase_open

-- Only the timestamps that are missing are written.
pub compute_phase_settled :
    (poll : Poll) (status : PollStatus) (t : Time)
    → IsSettled (has_closed poll.spec.closes_at t) status
    → compute_phase poll status t ≡ (phase_of (has_closed poll.spec.closes_at t), status)
unfolding compute_phase
compute_phase_settled poll status t settled = ground arith

pub compute_phase-IsSettled :
    (poll : Poll) (status : PollStatus) (t : Time)
    → IsSettled (has_closed poll.spec.closes_at t) (compute_phase poll status t).1
unfolding compute_phase
compute_phase-IsSettled poll status t = ground arith

pub compute_phase-conditions :
    (poll : Poll) (status : PollStatus) (t : Time)
    → (compute_phase poll status t).1.conditions ≡ status.conditions
unfolding compute_phase
compute_phase-conditions poll status t = ground arith

strip-ready_condition :
    (phase : PollPhase) (generation : ℤ) (t : Time)
    → strip (ready_condition phase generation t) ≡ strip (ready_condition phase generation 0)
unfolding ready_condition
strip-ready_condition phase generation t = ground arith

-- The wanted status without transition times, from the phase and the timestamps.
abbrev pub expected_from : Poll → List PollResponse → PollPhase × PollStatus → PollStatus
expected_from poll responses (phase, status) =
    let (results, total) = aggregate_results poll responses in
    record status {
      phase = phase;
      results = results;
      total_responses = total;
      conditions =
          upsert (strip (ready_condition phase poll.meta.generation 0))
            (map strip poll.status.conditions);
    }

abbrev pub expected : Poll → List PollResponse → Time → PollStatus
expected poll responses t = expected_from poll responses (compute_phase poll poll.status t)

pub strip-desired_status :
    (kube : Kube)
    → IsLawful kube
    → (poll : Poll) (responses : List PollResponse) (t t' t'' : Time)
    → strip_status (desired_status kube poll responses t t' t'') ≡ expected poll responses t
unfolding desired_status
strip-desired_status kube law poll responses t t' t'' =
    let (phase, status) = compute_phase poll poll.status t in
    ap (λ cs. record (expected poll responses t) { conditions = cs })
      (law.set_condition t'' status.conditions (ready_condition phase poll.meta.generation t')
        ∙ ap₂ (λ c cs. upsert c (map strip cs))
            (strip-ready_condition phase poll.meta.generation t')
            (compute_phase-conditions poll poll.status t))
