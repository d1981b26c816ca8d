-- ===== src/PollController/Aggregate/Located.antt =====
-- Where the pointers of the lookup maps lead, when no question id stands twice.
use poll_operator.Base.{
  ℕ, suc, String, false, ◌&&◌, Bool-cases, inl, inr, Option, none, some, List, [], ◌∷◌,
}
use poll_operator.Base.{map, ◌≡◌, refl, arith, ◌==◌, string_eq, if◌then◌else◌}
use poll_operator.Base.{GoMap, nonempty, contains, IsUnique}
use poll_operator.Api.{QuestionResult}
use poll_operator.PollController.Aggregate.{Indices, option_pointers, index_result, index_results}

abbrev pub result_ids : List QuestionResult → List String
result_ids = map (λ r. r.question_id)

abbrev pub Row : Type 0
Row = ℕ × QuestionResult

-- The row with an id, and its place.
unfoldable pub find_row : String → ℕ → List QuestionResult → Option Row
find_row k i [] = none
find_row k i (r ∷ rs) = if r.question_id == k then some (i, r) else find_row k (suc i) rs

abbrev pub row_index : Option Row → Option ℕ
row_index none = none
row_index (some (i, r)) = some i

abbrev pub row_pointers : Option Row → Option (GoMap (ℕ × ℕ))
row_pointers none = none
row_pointers (some (i, r)) = if nonempty r.options then some (option_pointers i r.options) else none

index_result-opt_idx :
    (k : String) (i : ℕ) (r : QuestionResult) (ix : Indices)
    → (index_result i r ix).opt_idx k ≡ (
        if r.question_id == k && nonempty r.options
        then some (option_pointers i r.options)
        else ix.opt_idx k)
unfolding index_result
index_result-opt_idx k i r ix = elim (Bool-cases (nonempty r.options)) [
  | inl full ↦ rw full (ground arith)
  | inr bare ↦ rw bare (ground arith)
]

module _ (k : String) where
  index_results_absent :
      (i : ℕ) (rs : List QuestionResult) (ix : Indices)
      → contains (result_ids rs) k ≡ false
      → ((index_results i rs ix).by_id k ≡ ix.by_id k)
        × ((index_results i rs ix).opt_idx k ≡ ix.opt_idx k)
  unfolding index_results
  index_results_absent i [] ix h = (refl, refl)
  index_results_absent i (r ∷ rs) ix h =
      ground (
        arith,
        index_results_absent (suc i) rs (index_result i r ix),
        index_result-opt_idx k i r ix,
      )

  pub find_row_absent :
      (i : ℕ) (rs : List QuestionResult)
      → contains (result_ids rs) k ≡ false
      → find_row k i rs ≡ none
  unfolding find_row
  find_row_absent i [] h = refl
  find_row_absent i (r ∷ rs) h = ground (arith, find_row_absent (suc i) rs)

  pub index_results-find_row :
      (i : ℕ) (rs : List QuestionResult) (ix : Indices)
      → IsUnique (result_ids rs)
      → ix.by_id k ≡ none
      → ix.opt_idx k ≡ none
      → ((index_results i rs ix).by_id k ≡ row_index (find_row k i rs))
        × ((index_results i rs ix).opt_idx k ≡ row_pointers (find_row k i rs))
  unfolding index_results find_row
  index_results-find_row i [] ix u p q = (p, q)
  index_results-find_row i (r ∷ rs) ix u p q = ground (
    arith,
    index_results_absent (suc i) rs (index_result i r ix),
    index_results-find_row (suc i) rs (index_result i r ix),
    index_result-opt_idx k i r ix,
  )
