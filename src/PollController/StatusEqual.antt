-- ===== src/PollController/StatusEqual.antt =====
-- `statusEqual` and its helpers, of internal/controller/poll_controller.go.
pub mod Laws
pub mod Exact
use poll_operator.Base.{
  ℕ, nat_eq, ℤ, pos, int_eq, String, Bool, true, false, Option, none, some, List, [], ◌∷◌,
}
use poll_operator.Base.{◌||◌, not, ◌==◌, string_eq, if◌then◌else◌, length, GoMap, empty, index_by}
use poll_operator.Api.{Time, Condition, PollStatus, QuestionResult, OptionResult}

unfoldable pub time_ptr_equal : Option Time → Option Time → Bool
time_ptr_equal none none = true
time_ptr_equal none (some b) = false
time_ptr_equal (some a) none = false
time_ptr_equal (some a) (some b) = a == b

-- The guard of the loop over `b` in `conditionsEqualIgnoringTransition`, negated.
abbrev pub same_condition : Option Condition → Condition → Bool
same_condition none bc = false
same_condition (some ac) bc = not (
    not (ac.status == bc.status)
    || not (ac.reason == bc.reason)
    || not (ac.message == bc.message)
    || not (ac.observed_generation == bc.observed_generation))

unfoldable pub all_same_conditions : GoMap Condition → List Condition → Bool
all_same_conditions by_type [] = true
all_same_conditions by_type (bc ∷ bs) =
    if not (same_condition (by_type bc.type) bc) then false else all_same_conditions by_type bs

abbrev pub conditions_by_type : List Condition → GoMap Condition
conditions_by_type a = index_by (λ c. c.type) (λ c. c) a empty

unfoldable pub conditions_equal_ignoring_transition : List Condition → List Condition → Bool
unfolding all_same_conditions
conditions_equal_ignoring_transition a b =
    if not (length a == length b) then false else all_same_conditions (conditions_by_type a) b

-- A missing key reads as 0.
abbrev pub votes_or_zero : Option ℤ → ℤ
votes_or_zero none = pos 0
votes_or_zero (some n) = n

unfoldable pub all_same_votes : GoMap ℤ → List OptionResult → Bool
all_same_votes a_opts [] = true
all_same_votes a_opts (bo ∷ bs) =
    if not (votes_or_zero (a_opts bo.option) == bo.votes) then false else all_same_votes a_opts bs

-- The body of the loop over `b.Results`; false where it returns.
abbrev pub same_result : Option QuestionResult → QuestionResult → Bool
same_result none br = false
same_result (some ar) br =
    if not (ar.responses == br.responses) || not (length ar.options == length br.options)
    then false
    else all_same_votes (index_by (λ o. o.option) (λ o. o.votes) ar.options empty) br.options

unfoldable pub all_same_results : GoMap QuestionResult → List QuestionResult → Bool
unfolding all_same_votes
all_same_results a_by_id [] = true
all_same_results a_by_id (br ∷ bs) =
    if same_result (a_by_id br.question_id) br then all_same_results a_by_id bs else false

abbrev pub results_by_id : List QuestionResult → GoMap QuestionResult
results_by_id a = index_by (λ r. r.question_id) (λ r. r) a empty

unfoldable pub status_equal : PollStatus → PollStatus → Bool
status_equal a b =
    if not (a.phase == b.phase)
      || not (a.total_responses == b.total_responses)
      || not (time_ptr_equal a.opened_at b.opened_at)
      || not (time_ptr_equal a.closed_at b.closed_at)
    then false
    else if not (length a.results == length b.results)
    then false
    else if all_same_results (results_by_id a.results) b.results
    then conditions_equal_ignoring_transition a.conditions b.conditions
    else false
