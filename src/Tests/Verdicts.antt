-- ===== src/Tests/Verdicts.antt =====
-- Responses that are accepted and rejected.
use poll_operator.Base.{◌≡◌, ◌↔◌, refl, pos, false, none, some, [], ◌∷◌, All, string_eq}
use poll_operator.Api.{
  condition_true, condition_false, response_phase_accepted, response_phase_rejected,
}
use poll_operator.Kube.Format.{Format}
use poll_operator.PollController.Phase.{has_closed}
use poll_operator.ResponseController.Validate.{validate_answer, validate_response}
use poll_operator.ResponseController.Validate.Fits.{Fits}
use poll_operator.ResponseController.Validate.Answer.{validate_answer-eq-none_iff}
use poll_operator.ResponseController.Validate.Whole.{Answers, validate_response-eq-none_iff}
use poll_operator.ResponseController.Status.{accepted_status, rejected_status}
use poll_operator.ResponseController.Status.Laws.{HasVerdict, verdict_status}
use poll_operator.Tests.Data.{paint, colour, both, calm, response, new_response_status}
use poll_operator.Tests.Memory.{memory, memory-IsLawful}

-- Texts stand for themselves; numbers and times are left out.
abbrev pub plain : Format
plain = record { quote = λ s. s; decimal = λ n. "n"; rfc3339 = λ t. "t" }

validate_answer-eq-none_iff_example : (validate_answer plain colour both ≡ none) ↔ Fits colour both
validate_answer-eq-none_iff_example = validate_answer-eq-none_iff plain colour both

validate_response-eq-none_iff_example :
    (validate_response plain paint (response "a" (both ∷ calm ∷ [])) 5 ≡ none) ↔ (
      (has_closed paint.spec.closes_at 5 ≡ false)
      × All (Answers paint.spec.questions) (both ∷ calm ∷ []))
unfolding string_eq
validate_response-eq-none_iff_example =
    validate_response-eq-none_iff plain paint (response "a" (both ∷ calm ∷ [])) 5 (refl, (refl, tt))

verdict_status_example :
    let yes_status = accepted_status memory new_response_status (pos 1) (pos 1) (some 5) 6 7 in
    let no_status =
      rejected_status memory new_response_status (pos 1) (pos 1) "PollClosed" "late" 6 7 in
    HasVerdict memory memory-IsLawful condition_true new_response_status yes_status
    × (yes_status.phase ≡ response_phase_accepted)
    × (yes_status.accepted_at ≡ some 5)
    × HasVerdict memory memory-IsLawful condition_false new_response_status no_status
    × (no_status.phase ≡ response_phase_rejected)
    × (no_status.accepted_at ≡ none)
verdict_status_example =
    verdict_status memory memory-IsLawful new_response_status (pos 1) (pos 1) 5 6 7 "PollClosed"
      "late"
