-- ===== src/ResponseController/Status.antt =====
-- The statuses that `accept` and `reject` want, `setResponseCondition` and `responseStatusEqual`
-- of internal/controller/pollresponse_controller.go.
pub mod Laws
use poll_operator.Base.{
  ℤ, String, Bool, false, Option, none, ◌||◌, not, ◌==◌, string_eq, int_eq, if◌then◌else◌,
}
use poll_operator.Api.{
  Time, PollResponseStatus, condition_true, condition_false, response_phase_accepted,
  response_phase_rejected,
}
use poll_operator.Kube.{Kube}
use poll_operator.PollController.StatusEqual.{time_ptr_equal, conditions_equal_ignoring_transition}
use poll_operator.ResponseController.Validate.{reason_accepted}

abbrev pub validated_condition : String
validated_condition = "Validated"

abbrev pub counted_condition : String
counted_condition = "Counted"

module _ (kube : Kube) where
  -- `t` is what the clock shows at the call; the condition is given no transition time.
  unfoldable pub set_response_condition :
      Time → PollResponseStatus → String → String → String → String → ℤ → PollResponseStatus
  set_response_condition t status condition_type s reason message generation = record status {
    conditions = kube.set_status_condition t status.conditions (record {
      type = condition_type;
      status = s;
      observed_generation = generation;
      last_transition_time = 0;
      reason = reason;
      message = message;
    });
  }

  -- The status that `accept` wants; `t₁` and `t₂` are the readings of the two calls that set
  -- conditions.
  unfoldable pub accepted_status :
      PollResponseStatus → ℤ → ℤ → Option Time → Time → Time → PollResponseStatus
  accepted_status status generation poll_generation accepted_at t₁ t₂ =
      let desired = record status {
        phase = response_phase_accepted;
        observed_poll_generation = poll_generation;
        accepted_at = accepted_at;
      } in
      let validated =
        set_response_condition t₁ desired validated_condition condition_true reason_accepted
          "Response passed validation" generation in
      set_response_condition t₂ validated counted_condition condition_true reason_accepted
        "Response is included in Poll results" generation

  -- The status that `reject` wants.
  unfoldable pub rejected_status :
      PollResponseStatus → ℤ → ℤ → String → String → Time → Time → PollResponseStatus
  rejected_status status generation poll_generation reason message t₁ t₂ =
      let desired = record status {
        phase = response_phase_rejected;
        observed_poll_generation = poll_generation;
        accepted_at = none;
      } in
      let validated =
        set_response_condition t₁ desired validated_condition condition_false reason message
          generation in
      set_response_condition t₂ validated counted_condition condition_false reason
        "Rejected responses are not counted" generation

unfoldable pub response_status_equal : PollResponseStatus → PollResponseStatus → Bool
response_status_equal a b =
    if not (a.phase == b.phase)
      || not (a.observed_poll_generation == b.observed_poll_generation)
      || not (time_ptr_equal a.accepted_at b.accepted_at)
    then false
    else conditions_equal_ignoring_transition a.conditions b.conditions
