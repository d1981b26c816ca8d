-- ===== src/PollController/Aggregate/Refines.antt =====
-- What `aggregate_results` computes, without maps, pointers and loops: for each question the
-- number of answers to it, and for each of its options the number of times that it was selected.
use mathlib.Core.Path.{fun_ext, ap₂}
use mathlib.Core.List.{append-nil, append_assoc}
use poll_operator.Base.{ℕ, suc, ◌+◌, ℤ, String, List, [], ◌∷◌, ◌++◌}
use poll_operator.Base.{
  map, foldl, ◌≡◌, refl, sym, ap, ◌∙◌, arith, ◌==◌, string_eq, if◌then◌else◌, pos, int32,
}
use poll_operator.Base.{inc32-int32, Bool-cases, inl, inr, IsUnique, count_if, count_if-append, All}
use poll_operator.Api.{Poll, PollQuestion, PollResponse, PollAnswer, QuestionResult}
use poll_operator.PollController.Aggregate.{
  tallied_options, initial_result, Indices, index_results, no_indices, count_answer, is_counted,
  count_response, aggregate_results,
}
use poll_operator.PollController.Aggregate.Rows.{bump_row, count_answer-at_row, at_row-find_row}
use poll_operator.PollController.Aggregate.Located.{result_ids}
use poll_operator.PollController.Aggregate.Options.{votes_row, bump_selections-votes_row}

-- The answers of the responses that count, in order.
unfoldable pub counted_answers : Poll → List PollResponse → List PollAnswer
counted_answers poll [] = []
counted_answers poll (r ∷ rs) =
    let rest = counted_answers poll rs in if is_counted poll r then r.spec.answers ++ rest else rest

-- How many answers are to a question.
unfoldable pub answers_to : String → List PollAnswer → ℕ
answers_to id answers = count_if (λ a. id == a.question_id) answers

-- How often an option of a question was selected.
unfoldable pub times_selected : String → String → List PollAnswer → ℕ
times_selected id opt [] = 0
times_selected id opt (a ∷ answers) =
    (if id == a.question_id then count_if (λ sel. opt == sel) a.selected_options else 0)
    + times_selected id opt answers

-- A row from the votes for each option and the number of answers.
abbrev pub tally_row : PollQuestion → (String → ℕ) → ℕ → QuestionResult
tally_row q votes n = record {
  question_id = q.id;
  options = map (votes_row votes) (tallied_options q);
  responses = int32 (pos n);
}

unfoldable pub tally : List PollAnswer → PollQuestion → QuestionResult
unfolding times_selected answers_to
tally answers q = tally_row q (λ opt. times_selected q.id opt answers) (answers_to q.id answers)

-- Question ids are unique, and so are the options of each question that has a tally.
abbrev pub HasUniqueKeys : List PollQuestion → Type 0
HasUniqueKeys qs = IsUnique (map (λ q. q.id) qs) × All (λ q. IsUnique (tallied_options q)) qs

module _ (a : PollAnswer) (answers : List PollAnswer) where
  bump_row-tally_row :
      (q : PollQuestion) (votes : String → ℕ) (n : ℕ)
      → IsUnique (tallied_options q)
      → bump_row a (initial_result q) (tally_row q votes n)
        ≡ tally_row q (λ opt. count_if (λ sel. opt == sel) a.selected_options + votes opt) (suc n)
  unfolding initial_result
  bump_row-tally_row q votes n u i = record {
    question_id = q.id;
    options = bump_selections-votes_row (tallied_options q) a.selected_options votes u i;
    responses = inc32-int32 n i;
  }

  tally-bump_row :
      (q : PollQuestion)
      → IsUnique (tallied_options q)
      → (if q.id == a.question_id
          then bump_row a (initial_result q) (tally answers q)
          else tally answers q)
        ≡ tally (a ∷ answers) q
  unfolding tally
  tally-bump_row q u = elim (Bool-cases (q.id == a.question_id)) [
    | inl same ↦ rw same (bump_row-tally_row q _ _ u ∙ ap (tally_row q _) (omega arith))
    | inr other ↦ rw other (ap₂ (tally_row q) (fun_ext (λ opt. omega arith)) (omega arith))
  ]

pub times_selected-append :
    (id opt : String) (xs ys : List PollAnswer)
    → times_selected id opt (xs ++ ys) ≡ times_selected id opt xs + times_selected id opt ys
unfolding times_selected
times_selected-append id opt [] ys = omega arith
times_selected-append id opt (a ∷ xs) ys = omega (arith, times_selected-append id opt xs ys)

-- An answer may be counted in any place.
tally-middle :
    (a : PollAnswer) (xs ys : List PollAnswer) (q : PollQuestion)
    → tally (a ∷ xs ++ ys) q ≡ tally (xs ++ a ∷ ys) q
unfolding tally
tally-middle a xs ys q =
    ap₂ (tally_row q)
      (fun_ext λ opt. omega (
        arith,
        times_selected-append q.id opt (a ∷ xs) ys,
        times_selected-append q.id opt xs (a ∷ ys),
      ))
      (omega (
        arith,
        count_if-append {0} (λ b. q.id == b.question_id) (a ∷ xs) ys,
        count_if-append {0} (λ b. q.id == b.question_id) xs (a ∷ ys),
      ))

result_ids-initial_result :
    (qs : List PollQuestion) → result_ids (map initial_result qs) ≡ map (λ q. q.id) qs
unfolding initial_result
result_ids-initial_result [] = refl
result_ids-initial_result (q ∷ qs) = ap (◌∷◌ q.id) (result_ids-initial_result qs)

pub map-tally-initial : (qs : List PollQuestion) → map initial_result qs ≡ map (tally []) qs
unfolding initial_result tally int32
map-tally-initial [] = refl
map-tally-initial (q ∷ qs) = ap₂ ◌∷◌ refl (map-tally-initial qs)

map-tally-bump_row :
    (a : PollAnswer) (answers : List PollAnswer) (qs : List PollQuestion)
    → All (λ q. IsUnique (tallied_options q)) qs
    → map
        (λ q.
          if q.id == a.question_id
          then bump_row a (initial_result q) (tally answers q)
          else tally answers q)
        qs
      ≡ map (tally (a ∷ answers)) qs
map-tally-bump_row a answers [] u = refl
map-tally-bump_row a answers (q ∷ qs) (u, us) =
    ap₂ ◌∷◌ (tally-bump_row a answers q u) (map-tally-bump_row a answers qs us)

initial_result-id : (q : PollQuestion) → (initial_result q).question_id ≡ q.id
unfolding initial_result
initial_result-id q = refl

module _ (qs : List PollQuestion) (keys : HasUniqueKeys qs) where
  indices : Indices
  indices = index_results 0 (map initial_result qs) no_indices

  count_answer-tally :
      (a : PollAnswer) (answers : List PollAnswer)
      → count_answer indices (map (tally answers) qs) a ≡ map (tally (a ∷ answers)) qs
  unfolding indices
  count_answer-tally a answers =
      count_answer-at_row (map initial_result qs) (map (tally answers) qs) a
        (rw result_ids-initial_result keys.0)
      ∙ at_row-find_row (λ q. q.id) initial_result (tally answers) initial_result-id a.question_id
          (bump_row a) qs keys.0
      ∙ map-tally-bump_row a answers qs keys.1

  foldl-count_answer :
      (done bs : List PollAnswer)
      → foldl (count_answer indices) (map (tally done) qs) bs ≡ map (tally (done ++ bs)) qs
  foldl-count_answer done [] = rw append-nil
  foldl-count_answer done (b ∷ bs) =
      ap (λ rs. foldl (count_answer indices) rs bs) (count_answer-tally b done)
      ∙ foldl-count_answer (b ∷ done) bs
      ∙ ap (λ f. map f qs) (fun_ext (tally-middle b done bs))

  -- The results and the total after a number of counted responses with these answers.
  abbrev tallied : List PollAnswer → ℕ → List QuestionResult × ℤ
  tallied answers n = (map (tally answers) qs, int32 (pos n))

  foldl-count_response :
      (poll : Poll) (done : List PollAnswer) (n : ℕ) (rs : List PollResponse)
      → foldl (count_response poll indices) (tallied done n) rs
        ≡ tallied (done ++ counted_answers poll rs) (n + count_if (is_counted poll) rs)
  unfolding count_response counted_answers
  foldl-count_response poll done n [] = ap₂ tallied (sym (append-nil done)) (omega arith)
  foldl-count_response poll done n (r ∷ rs) = elim (Bool-cases (is_counted poll r)) [
    | inl counted ↦ rw counted (
        ap₂ (λ results total. foldl (count_response poll indices) (results, total) rs)
          (foldl-count_answer done r.spec.answers) (inc32-int32 n)
        ∙ foldl-count_response poll (done ++ r.spec.answers) (suc n) rs
        ∙ ap₂ tallied (append_assoc done r.spec.answers (counted_answers poll rs)) (omega arith))
    | inr passed ↦ rw passed (foldl-count_response poll done n rs ∙ ap₂ tallied refl (omega arith))
  ]

-- Where question ids are unique, and the options of each question, the loops over pointers compute
-- exactly the tallies of the responses that count, as `int32` numbers, and their total.
pub aggregate_results-tally :
    (poll : Poll) (responses : List PollResponse)
    → HasUniqueKeys poll.spec.questions
    → aggregate_results poll responses ≡ (
      map (tally (counted_answers poll responses)) poll.spec.questions,
      int32 (pos (count_if (is_counted poll) responses)),
    )
unfolding aggregate_results indices int32
aggregate_results-tally poll responses keys =
    let total = count_if (is_counted poll) responses in
    let no_more : 0 + total ≡ total = omega arith in
    ap
      (λ results.
        foldl (count_response poll (indices poll.spec.questions keys)) (results, pos 0) responses)
      (map-tally-initial poll.spec.questions)
    ∙ foldl-count_response poll.spec.questions keys poll [] 0 responses
    ∙ ap (tallied poll.spec.questions keys (counted_answers poll responses)) no_more
