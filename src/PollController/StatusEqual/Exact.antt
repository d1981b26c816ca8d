-- ===== src/PollController/StatusEqual/Exact.antt =====
-- What `status_equal` decides.
use poll_operator.Base.{nat_eq, int_eq, true, some, List, map}
use poll_operator.Base.{
  ◌≡◌, ◌↔◌, arith, string_eq, length, empty, index_by-All, All, IsUnique, ==_refl,
}
use poll_operator.Api.{strip, condition_types, Condition, PollStatus}
use poll_operator.PollController.StatusEqual.{
  conditions_equal_ignoring_transition, status_equal, conditions_by_type, results_by_id,
}
use poll_operator.PollController.StatusEqual.Laws.{
  time_ptr_equal_sound, time_ptr_equal_refl, all_same_conditions_sound, conditions_equal_of_strip,
  shape, HasUniqueOptions, all_same_results_self, all_same_results_sound,
}

-- A status without the transition times of its conditions.
abbrev pub strip_status : PollStatus → PollStatus
strip_status s = record s { conditions = map strip s.conditions }

-- The lists of a status are maps, as the API types declare: keyed by condition type, question id
-- and option.
pub record HasKeys (s : PollStatus) : Type 0 where
  pub types : IsUnique (condition_types s.conditions)
  pub ids : IsUnique (map (λ r. r.question_id) s.results)
  pub options : All HasUniqueOptions s.results

-- Two statuses with the same keys in the same order.
pub record HasSameKeys (a b : PollStatus) : Type 0 where
  pub types : condition_types a.conditions ≡ condition_types b.conditions
  pub shapes : map shape a.results ≡ map shape b.results

pub results_found :
    (s : PollStatus)
    → HasKeys s
    → All (λ r. results_by_id s.results r.question_id ≡ some r) s.results
results_found s keys = index_by-All (λ r. r.question_id) (λ r. r) s.results empty keys.ids

conditions_equal_sound :
    (xs ys : List Condition)
    → IsUnique (condition_types xs)
    → condition_types xs ≡ condition_types ys
    → conditions_equal_ignoring_transition xs ys ≡ true
    → map strip xs ≡ map strip ys
unfolding conditions_equal_ignoring_transition
conditions_equal_sound xs ys u e h = ground (
  arith,
  all_same_conditions_sound (conditions_by_type xs) xs ys
      (index_by-All (λ c. c.type) (λ c. c) xs empty u) e,
)

-- A status whose keys are unique is equal to one that differs from it in transition times alone: no
-- patch is made.
pub status_equal_of_strip :
    (a b : PollStatus) → HasKeys a → strip_status a ≡ strip_status b → status_equal a b ≡ true
unfolding status_equal
status_equal_of_strip a b keys e = ground (
  arith,
  ==_refl a.phase,
  ==_refl a.total_responses,
  ==_refl (length a.results),
  time_ptr_equal_refl a.opened_at,
  time_ptr_equal_refl a.closed_at,
  all_same_results_self (results_by_id a.results) a.results (results_found a keys) keys.options,
  conditions_equal_of_strip a.conditions b.conditions keys.types,
)

-- Between statuses with the same unique keys in the same order, `status_equal` holds exactly where
-- they differ in transition times alone: no change of a phase, time, count or condition goes
-- unwritten.
pub status_equal_iff :
    (a b : PollStatus)
    → HasKeys a
    → HasSameKeys a b
    → (status_equal a b ≡ true) ↔ (strip_status a ≡ strip_status b)
unfolding status_equal
status_equal_iff a b keys same = (
  λ h. ground (
    arith,
    time_ptr_equal_sound a.opened_at b.opened_at,
    time_ptr_equal_sound a.closed_at b.closed_at,
    all_same_results_sound (results_by_id a.results) a.results b.results (results_found a keys)
        keys.options same.shapes,
    conditions_equal_sound a.conditions b.conditions keys.types same.types,
  ),
  status_equal_of_strip a b keys,
)
