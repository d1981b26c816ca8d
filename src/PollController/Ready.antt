-- ===== src/PollController/Ready.antt =====
-- `setReadyCondition` of internal/controller/poll_controller.go.
use poll_operator.Base.{ℤ, String, ◌==◌, string_eq, if◌then◌else◌}
use poll_operator.Api.{
  Time, Condition, PollPhase, PollStatus, poll_phase_open, poll_phase_closed, condition_true,
  condition_false, condition_unknown,
}
use poll_operator.Kube.{Kube}

abbrev pub poll_ready_condition : String
poll_ready_condition = "Ready"

-- The condition that is written; `t` is the reading for its transition time.
unfoldable pub ready_condition : PollPhase → ℤ → Time → Condition
ready_condition phase generation t =
    if phase == poll_phase_open
    then record {
      type = poll_ready_condition;
      status = condition_true;
      observed_generation = generation;
      last_transition_time = t;
      reason = "Open";
      message = "Poll is accepting responses";
    }
    else if phase == poll_phase_closed
    then record {
      type = poll_ready_condition;
      status = condition_false;
      observed_generation = generation;
      last_transition_time = t;
      reason = "Closed";
      message = "Poll is no longer accepting responses";
    }
    else record {
      type = poll_ready_condition;
      status = condition_unknown;
      observed_generation = generation;
      last_transition_time = t;
      reason = "Pending";
      message = "Poll has not yet been opened";
    }

module _ (kube : Kube) where
  -- `t'` is what the clock shows when `SetStatusCondition` is called.
  unfoldable pub set_ready_condition : PollStatus → PollPhase → ℤ → Time → Time → PollStatus
  set_ready_condition status phase generation t t' = record status {
    conditions =
        kube.set_status_condition t' status.conditions (ready_condition phase generation t);
  }
