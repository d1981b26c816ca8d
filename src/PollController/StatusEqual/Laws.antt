-- ===== src/PollController/StatusEqual/Laws.antt =====
-- When a status patch is skipped.
use poll_operator.Base.{
  nat_eq, ℤ, int_eq, suc, String, true, Option, none, some, List, [], ◌∷◌, map,
}
use poll_operator.Base.{
  ◌≡◌, refl, ap, arith, string_eq, length, GoMap, empty, index_by, index_by-All, All, IsUnique,
  ==_refl, eq_of_==,
}
use poll_operator.Api.{strip, condition_types, Time, Condition, QuestionResult, OptionResult}
use poll_operator.PollController.StatusEqual.{
  conditions_by_type, time_ptr_equal, same_condition, all_same_conditions,
  conditions_equal_ignoring_transition, all_same_votes, same_result, all_same_results,
}

pub time_ptr_equal_sound : (a b : Option Time) → (time_ptr_equal a b ≡ true) → a ≡ b
unfolding time_ptr_equal
time_ptr_equal_sound none none h = refl
time_ptr_equal_sound none (some b) h = cc
time_ptr_equal_sound (some a) none h = cc
time_ptr_equal_sound (some a) (some b) h = ap some (eq_of_== a b h)

pub time_ptr_equal_refl : (a : Option Time) → time_ptr_equal a a ≡ true
unfolding time_ptr_equal
time_ptr_equal_refl none = refl
time_ptr_equal_refl (some a) = ==_refl a

same_condition_of_strip : (a b : Condition) → strip a ≡ strip b → same_condition (some a) b ≡ true
same_condition_of_strip a b e = ground arith

all_same_conditions_of_strip :
    (m : GoMap Condition) (xs ys : List Condition)
    → All (λ c. m c.type ≡ some c) xs
    → map strip xs ≡ map strip ys
    → all_same_conditions m ys ≡ true
unfolding all_same_conditions
all_same_conditions_of_strip m [] [] found e = refl
all_same_conditions_of_strip m [] (y ∷ ys) found e = cc
all_same_conditions_of_strip m (x ∷ xs) [] found e = cc
all_same_conditions_of_strip m (x ∷ xs) (y ∷ ys) (found, more) e =
    ground (arith, same_condition_of_strip x y, all_same_conditions_of_strip m xs ys more)

pub length_of_strip : (xs ys : List Condition) → map strip xs ≡ map strip ys → length xs ≡ length ys
length_of_strip [] [] e = refl
length_of_strip [] (y ∷ ys) e = cc
length_of_strip (x ∷ xs) [] e = cc
length_of_strip (x ∷ xs) (y ∷ ys) e = ap suc (length_of_strip xs ys (ground arith))

-- Conditions that differ in their transition times alone are equal.
pub conditions_equal_of_strip :
    (xs ys : List Condition)
    → IsUnique (condition_types xs)
    → map strip xs ≡ map strip ys
    → conditions_equal_ignoring_transition xs ys ≡ true
unfolding conditions_equal_ignoring_transition
conditions_equal_of_strip xs ys u e = ground (
  arith,
  length_of_strip xs ys e,
  all_same_conditions_of_strip (conditions_by_type xs) xs ys
      (index_by-All (λ c. c.type) (λ c. c) xs empty u) e,
)

same_condition_sound :
    (a b : Condition) → a.type ≡ b.type → same_condition (some a) b ≡ true → strip a ≡ strip b
same_condition_sound a b e h = ground arith

pub all_same_conditions_sound :
    (m : GoMap Condition) (xs ys : List Condition)
    → All (λ c. m c.type ≡ some c) xs
    → condition_types xs ≡ condition_types ys
    → all_same_conditions m ys ≡ true
    → map strip xs ≡ map strip ys
unfolding all_same_conditions
all_same_conditions_sound m [] [] found e h = refl
all_same_conditions_sound m [] (y ∷ ys) found e h = cc
all_same_conditions_sound m (x ∷ xs) [] found e h = cc
all_same_conditions_sound m (x ∷ xs) (y ∷ ys) (found, more) e h =
    ground (arith, same_condition_sound x y, all_same_conditions_sound m xs ys more)

all_same_votes_self :
    (m : GoMap ℤ) (os : List OptionResult)
    → All (λ o. m o.option ≡ some o.votes) os
    → all_same_votes m os ≡ true
unfolding all_same_votes
all_same_votes_self m [] found = refl
all_same_votes_self m (o ∷ os) (found, more) =
    ground (arith, ==_refl o.votes, all_same_votes_self m os more)

all_same_votes_sound :
    (m : GoMap ℤ) (xs ys : List OptionResult)
    → All (λ o. m o.option ≡ some o.votes) xs
    → map (λ o. o.option) xs ≡ map (λ o. o.option) ys
    → all_same_votes m ys ≡ true
    → xs ≡ ys
unfolding all_same_votes
all_same_votes_sound m [] [] found e h = refl
all_same_votes_sound m [] (y ∷ ys) found e h = cc
all_same_votes_sound m (x ∷ xs) [] found e h = cc
all_same_votes_sound m (x ∷ xs) (y ∷ ys) (found, more) e h =
    ground (arith, all_same_votes_sound m xs ys more)

-- The keys of a row: its question and the options in order.
abbrev pub shape : QuestionResult → String × List String
shape r = (r.question_id, map (λ o. o.option) r.options)

abbrev pub HasUniqueOptions : QuestionResult → Type 0
HasUniqueOptions r = IsUnique (map (λ o. o.option) r.options)

votes_found :
    (r : QuestionResult)
    → HasUniqueOptions r
    → All
        (λ o. index_by (λ o. o.option) (λ o. o.votes) r.options empty o.option ≡ some o.votes)
        r.options
votes_found r u = index_by-All (λ o. o.option) (λ o. o.votes) r.options empty u

same_result_self : (r : QuestionResult) → HasUniqueOptions r → same_result (some r) r ≡ true
same_result_self r u = ground (arith, all_same_votes_self _ r.options (votes_found r u))

same_result_sound :
    (a b : QuestionResult)
    → HasUniqueOptions a
    → shape a ≡ shape b
    → same_result (some a) b ≡ true
    → a ≡ b
same_result_sound a b u e h =
    ground (arith, all_same_votes_sound _ a.options b.options (votes_found a u))

pub all_same_results_self :
    (m : GoMap QuestionResult) (rs : List QuestionResult)
    → All (λ r. m r.question_id ≡ some r) rs
    → All HasUniqueOptions rs
    → all_same_results m rs ≡ true
unfolding all_same_results
all_same_results_self m [] found u = refl
all_same_results_self m (r ∷ rs) (found, more) (u, us) =
    rw (found, same_result_self r u) (all_same_results_self m rs more us)

pub all_same_results_sound :
    (m : GoMap QuestionResult) (xs ys : List QuestionResult)
    → All (λ r. m r.question_id ≡ some r) xs
    → All HasUniqueOptions xs
    → map shape xs ≡ map shape ys
    → all_same_results m ys ≡ true
    → xs ≡ ys
unfolding all_same_results
all_same_results_sound m [] [] found u e h = refl
all_same_results_sound m [] (y ∷ ys) found u e h = cc
all_same_results_sound m (x ∷ xs) [] found u e h = cc
all_same_results_sound m (x ∷ xs) (y ∷ ys) (found, more) (u, us) e h =
    ground (arith, same_result_sound x y u, all_same_results_sound m xs ys more us)
