-- ===== src/PollController/Aggregate/Rows.antt =====
-- One answer counted through the pointers is one row of the results updated in place.
use poll_operator.Base.{ℕ, zero, suc, String, false, Option, none, some, List, [], ◌∷◌}
use poll_operator.Base.{map, foldl, ◌≡◌, refl, ap, arith, ◌==◌, string_eq, if◌then◌else◌, ◌∙◌}
use poll_operator.Base.{GoMap, empty, nonempty, modify_at, contains, IsUnique}
use mathlib.Core.Path.{ap₂}
use poll_operator.Api.{PollAnswer, OptionResult, QuestionResult}
use poll_operator.PollController.Aggregate.{
  no_indices, option_index, option_pointers, index_results, bump_responses, bump_votes, bump_option,
  count_selection, count_answer, in_row, bump_pointer, count_choices, count_found,
}
use poll_operator.PollController.Aggregate.Located.{
  Row, find_row, result_ids, row_index, row_pointers, index_results-find_row,
}

abbrev pub bump_found : Option ℕ → List OptionResult → List OptionResult
bump_found none os = os
bump_found (some j) os = modify_at j bump_votes os

-- A selection counted within its row.
abbrev pub bump_selection : GoMap ℕ → List OptionResult → String → List OptionResult
bump_selection m os sel = bump_found (m sel) os

abbrev set_options : (List OptionResult → List OptionResult) → QuestionResult → QuestionResult
set_options f r = record r { options = f r.options }

-- The selections of an answer counted within its row. `os` are the options when the maps were built.
abbrev pub bump_selections : List OptionResult → List String → List OptionResult → List OptionResult
bump_selections os sels os' = foldl (bump_selection (option_index 0 os empty)) os' sels

-- An answer counted within its row. The second argument is the row when the maps were built.
abbrev pub bump_row : PollAnswer → QuestionResult → QuestionResult → QuestionResult
bump_row ans r₀ r = set_options (bump_selections r₀.options ans.selected_options) (bump_responses r)

abbrev pub at_row :
    Option Row
    → (QuestionResult → QuestionResult → QuestionResult)
    → List QuestionResult
    → List QuestionResult
at_row none h rs = rs
at_row (some (i, r₀)) h rs = modify_at i (h r₀) rs

modify_at-modify_at {ℓ} :
    {A : Type ℓ} (i : ℕ) (f g : A → A) (xs : List A)
    → modify_at i g (modify_at i f xs) ≡ modify_at i (λ x. g (f x)) xs
modify_at-modify_at i f g [] = refl
modify_at-modify_at zero f g (x ∷ xs) = refl
modify_at-modify_at (suc i) f g (x ∷ xs) = ap (◌∷◌ x) (modify_at-modify_at i f g xs)

bump_pointer-modify_at :
    (i : ℕ) (o : Option ℕ) (f : QuestionResult → QuestionResult) (rs : List QuestionResult)
    → bump_pointer (in_row i o) (modify_at i f rs)
      ≡ modify_at i (λ r. set_options (bump_found o) (f r)) rs
bump_pointer-modify_at i none f rs = refl
bump_pointer-modify_at i (some j) f rs = modify_at-modify_at i f (bump_option j) rs

foldl-count_selection :
    (i : ℕ) (os : List OptionResult) (sels : List String) (f : QuestionResult → QuestionResult)
    (rs : List QuestionResult)
    → foldl (count_selection (option_pointers i os)) (modify_at i f rs) sels
      ≡ modify_at i (λ r. set_options (bump_selections os sels) (f r)) rs
unfolding count_selection option_pointers
foldl-count_selection i os [] f rs = refl
foldl-count_selection i os (sel ∷ sels) f rs =
    rw (bump_pointer-modify_at i (option_index 0 os empty sel) f rs) (
      foldl-count_selection i os sels
        (λ r. set_options (bump_found (option_index 0 os empty sel)) (f r)) rs)

-- No pointer leads to the options of a row that has none.
bump_selections-nil :
    (sels : List String) (os : List OptionResult) → bump_selections [] sels os ≡ os
unfolding option_index
bump_selections-nil [] os = refl
bump_selections-nil (sel ∷ sels) os = bump_selections-nil sels os

count_choices-option_pointers :
    (i : ℕ) (os : List OptionResult) (rs : List QuestionResult) (sels : List String)
    → count_choices
        (if nonempty os then some (option_pointers i os) else none)
        (modify_at i bump_responses rs)
        sels
      ≡ modify_at i (λ r. set_options (bump_selections os sels) (bump_responses r)) rs
count_choices-option_pointers i [] rs sels = simp bump_selections-nil
count_choices-option_pointers i (o ∷ os) rs sels =
    foldl-count_selection i (o ∷ os) sels bump_responses rs

count_found-at_row :
    (o : Option Row) (rs : List QuestionResult) (ans : PollAnswer)
    → count_found (row_index o) (row_pointers o) rs ans.selected_options
      ≡ at_row o (bump_row ans) rs
count_found-at_row none rs ans = refl
count_found-at_row (some (i, r₀)) rs ans =
    count_choices-option_pointers i r₀.options rs ans.selected_options

-- The counting of an answer, as an update of the one row that `find_row` finds.
pub count_answer-at_row :
    (rs₀ rs : List QuestionResult) (ans : PollAnswer)
    → IsUnique (result_ids rs₀)
    → count_answer (index_results 0 rs₀ no_indices) rs ans
      ≡ at_row (find_row ans.question_id 0 rs₀) (bump_row ans) rs
unfolding count_answer
count_answer-at_row rs₀ rs ans u =
    let (by_id, opts) = index_results-find_row ans.question_id 0 rs₀ no_indices u refl refl in
    ap₂ (λ i m. count_found i m rs ans.selected_options) by_id opts
    ∙ count_found-at_row (find_row ans.question_id 0 rs₀) rs ans

-- The row's place counts from the start of the list.
abbrev deeper : Option Row → Option Row
deeper none = none
deeper (some (i, r)) = some (suc i, r)

find_row-suc :
    (k : String) (i : ℕ) (rs : List QuestionResult)
    → find_row k (suc i) rs ≡ deeper (find_row k i rs)
unfolding find_row
find_row-suc k i [] = refl
find_row-suc k i (r ∷ rs) = ground (arith, find_row-suc k (suc i) rs)

at_row-deeper :
    (o : Option Row) (h : QuestionResult → QuestionResult → QuestionResult) (r : QuestionResult)
    (rs : List QuestionResult)
    → at_row (deeper o) h (r ∷ rs) ≡ r ∷ at_row o h rs
at_row-deeper none h r rs = refl
at_row-deeper (some (i, r₀)) h r rs = refl

module _ {ℓ} {A : Type ℓ} (name : A → String) (first now : A → QuestionResult)
    (named : (a : A) → (first a).question_id ≡ name a) (k : String)
    (h : QuestionResult → QuestionResult → QuestionResult) where
  abbrev update_named : A → QuestionResult
  update_named a = if name a == k then h (first a) (now a) else now a

  map-update_named_absent :
      (xs : List A) → contains (map name xs) k ≡ false → map now xs ≡ map update_named xs
  map-update_named_absent [] u = refl
  map-update_named_absent (a ∷ xs) u = ground (arith, map-update_named_absent xs)

  -- Writing the row of an id is writing all rows of that id, where ids are unique.
  pub at_row-find_row :
      (xs : List A)
      → IsUnique (map name xs)
      → at_row (find_row k 0 (map first xs)) h (map now xs) ≡ map update_named xs
  unfolding find_row
  at_row-find_row [] u = refl
  at_row-find_row (a ∷ xs) (fresh, u) = ground (
    arith,
    named a,
    map-update_named_absent xs,
    find_row-suc k 0 (map first xs),
    at_row-deeper (find_row k 0 (map first xs)) h (now a) (map now xs),
    at_row-find_row xs u,
  )
