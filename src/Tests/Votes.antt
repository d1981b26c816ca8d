-- ===== src/Tests/Votes.antt =====
-- Results of the poll about colours, its phases, and the comparison of statuses.
use poll_operator.Base.{
  ◌≡◌, ◌≢◌, ◌↔◌, refl, arith, pos, true, none, some, [], ◌∷◌, int32, string_eq, int_eq,
}
use poll_operator.Api.{Time, condition_true, PollStatus, poll_phase_open, poll_phase_closed}
use poll_operator.PollController.Phase.{compute_phase}
use poll_operator.PollController.Phase.Laws.{
  compute_phase-phase, compute_phase-IsTimeline, IsTimeline, IsDue, IsAhead,
}
use poll_operator.PollController.Aggregate.{aggregate_results, is_counted, tallied_options}
use poll_operator.PollController.Aggregate.Refines.{
  HasUniqueKeys, counted_answers, answers_to, times_selected, tally, aggregate_results-tally,
}
use poll_operator.PollController.StatusEqual.{status_equal}
use poll_operator.PollController.StatusEqual.Exact.{HasKeys, strip_status, status_equal_iff}
use poll_operator.Tests.Data.{second, paint, votes, new_status}

pub paint-HasUniqueKeys : HasUniqueKeys paint.spec.questions
unfolding string_eq tallied_options
paint-HasUniqueKeys = ((refl, (refl, tt)), ((refl, (refl, tt)), (tt, tt)))

aggregate_results-tally_example : aggregate_results paint votes ≡ (
  record {
    question_id = "colour";
    options =
        record { option = "red"; votes = pos 1 } ∷ record { option = "blue"; votes = pos 2 } ∷ [];
    responses = pos 2;
  }
      ∷ record { question_id = "why"; options = []; responses = pos 1 }
      ∷ [],
  pos 2,
)
unfolding tally times_selected answers_to counted_answers is_counted tallied_options string_eq int32
aggregate_results-tally_example = aggregate_results-tally paint votes paint-HasUniqueKeys

compute_phase-phase_example :
    (((compute_phase paint paint.status 10000000000).0 ≡ poll_phase_closed)
      ↔ IsDue paint.spec.closes_at 10000000000)
    × (((compute_phase paint paint.status 10000000000).0 ≡ poll_phase_open)
        ↔ IsAhead paint.spec.closes_at 10000000000)
compute_phase-phase_example = compute_phase-phase paint paint.status 10000000000

compute_phase-IsTimeline_example :
    IsTimeline (compute_phase paint new_status 10000000000).1 10000000000
    × ((compute_phase paint new_status 10000000000).1.opened_at ≢ none)
    × (((compute_phase paint new_status 10000000000).1.closed_at ≢ none)
        ↔ ((compute_phase paint new_status 10000000000).0 ≡ poll_phase_closed))
compute_phase-IsTimeline_example =
    compute_phase-IsTimeline paint new_status 0 10000000000
      (record { opened_by = tt; closed_by = tt; in_order = tt }) (omega arith)

abbrev ready_at : Time → PollStatus
ready_at t = record new_status {
  phase = poll_phase_open;
  opened_at = some second;
  conditions =
      record {
        type = "Ready";
        status = condition_true;
        observed_generation = pos 1;
        last_transition_time = t;
        reason = "Open";
        message = "Poll is accepting responses";
      }
      ∷ [];
  results = (aggregate_results paint votes).0;
  total_responses = pos 2;
}

ready_at-HasKeys : (t : Time) → HasKeys (ready_at t)
unfolding aggregate_results is_counted string_eq
ready_at-HasKeys t = record {
  types = (refl, tt);
  ids = (refl, (refl, tt));
  options = ((refl, (refl, tt)), (tt, tt));
}

status_equal_iff_example :
    (status_equal (ready_at 1) (ready_at 2) ≡ true)
    ↔ (strip_status (ready_at 1) ≡ strip_status (ready_at 2))
status_equal_iff_example =
    status_equal_iff (ready_at 1) (ready_at 2) (ready_at-HasKeys 1)
      (record { types = refl; shapes = refl })
