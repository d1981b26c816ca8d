-- ===== src/ResponseController/Reconcile/Wanted.antt =====
-- The status that a verdict wants, without transition times, and how it is compared.
use text.Mathlib.TextEquality.{eq_iff}
use poll_operator.Base.{
  ℤ, String, true, Option, none, some, List, [], ◌∷◌, map, ◌≡◌, ◌≢◌, ap, ◌∙◌, arith, string_eq,
  int_eq, nat_eq, IsUnique,
}
use poll_operator.Api.{
  Time, Condition, strip, condition_types, PollResponse, PollResponseStatus, condition_true,
  condition_false, response_phase_accepted, response_phase_rejected,
}
use poll_operator.Kube.Lawful.{upsert, upsert_again}
use poll_operator.PollController.StatusEqual.{
  conditions_equal_ignoring_transition, conditions_by_type,
}
use poll_operator.PollController.StatusEqual.Laws.{
  time_ptr_equal_refl, conditions_equal_of_strip, length_of_strip,
}
use poll_operator.PollController.Reconcile.Quiet.{all_same_conditions-strip}
use poll_operator.ResponseController.Validate.{ValidationError, reason_accepted}
use poll_operator.ResponseController.Status.{
  validated_condition, counted_condition, response_status_equal,
}
use poll_operator.ResponseController.Reconcile.Judged.{first_set}

abbrev pub strip_response : PollResponseStatus → PollResponseStatus
strip_response s = record s { conditions = map strip s.conditions }

pub response_status_equal-strip :
    (a b b' : PollResponseStatus)
    → strip_response b ≡ strip_response b'
    → response_status_equal a b ≡ response_status_equal a b'
unfolding response_status_equal conditions_equal_ignoring_transition
response_status_equal-strip a b b' e = ground (
  arith,
  all_same_conditions-strip (conditions_by_type a.conditions) b.conditions b'.conditions,
  length_of_strip b.conditions b'.conditions,
)

pub response_status_equal_of_strip :
    (a b : PollResponseStatus)
    → IsUnique (condition_types a.conditions)
    → strip_response a ≡ strip_response b
    → response_status_equal a b ≡ true
unfolding response_status_equal
response_status_equal_of_strip a b u e = ground (
  arith,
  time_ptr_equal_refl a.accepted_at,
  conditions_equal_of_strip a.conditions b.conditions u (ap (λ s. s.conditions) e),
)

-- A condition that is set stays so when one of another type is set.
upsert_kept :
    (c d : Condition) (zs : List Condition)
    → c.type ≢ d.type
    → upsert c zs ≡ zs
    → upsert c (upsert d zs) ≡ upsert d zs
upsert_kept c d [] differ kept = cc
upsert_kept c d (z ∷ zs) differ kept = ground (arith, upsert_kept c d zs differ)

pub upsert_two_again :
    (c d : Condition) (zs : List Condition)
    → c.type ≢ d.type
    → upsert d (upsert c (upsert d (upsert c zs))) ≡ upsert d (upsert c zs)
upsert_two_again c d zs differ =
    ap (upsert d) (upsert_kept c d (upsert c zs) differ (upsert_again c zs))
    ∙ upsert_again d (upsert c zs)

abbrev mark : String → String → String → String → ℤ → Condition
mark type status reason message generation = record {
  type = type;
  status = status;
  observed_generation = generation;
  last_transition_time = 0;
  reason = reason;
  message = message;
}

-- The two conditions of a verdict.
abbrev pub validated_mark : ℤ → Option ValidationError → Condition
validated_mark generation none =
    mark validated_condition condition_true reason_accepted "Response passed validation" generation
validated_mark generation (some e) =
    mark validated_condition condition_false e.reason e.message generation

abbrev pub counted_mark : ℤ → Option ValidationError → Condition
counted_mark generation none =
    mark counted_condition condition_true reason_accepted "Response is included in Poll results"
      generation
counted_mark generation (some e) =
    mark counted_condition condition_false e.reason "Rejected responses are not counted" generation

abbrev pub phase_of : Option ValidationError → String
phase_of none = response_phase_accepted
phase_of (some e) = response_phase_rejected

abbrev pub acceptance : Option ValidationError → Option Time → Time → Option Time
acceptance none at u = first_set at u
acceptance (some e) at u = none

abbrev pub both_set : ℤ → Option ValidationError → List Condition → List Condition
both_set generation verdict cs =
    upsert (counted_mark generation verdict) (upsert (validated_mark generation verdict) cs)

-- The wanted status without transition times.
abbrev pub expected : PollResponse → ℤ → Option ValidationError → Time → PollResponseStatus
expected resp generation verdict u = record {
  conditions = both_set resp.meta.generation verdict (map strip resp.status.conditions);
  phase = phase_of verdict;
  observed_poll_generation = generation;
  accepted_at = acceptance verdict resp.status.accepted_at u;
}

pub marks-ne :
    (generation : ℤ) (verdict : Option ValidationError)
    → (validated_mark generation verdict).type ≢ (counted_mark generation verdict).type
marks-ne generation none e = ground (arith, e, eq_iff "Validated" "Counted")
marks-ne generation (some x) e = ground (arith, e, eq_iff "Validated" "Counted")
