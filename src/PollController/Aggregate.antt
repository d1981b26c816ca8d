-- ===== src/PollController/Aggregate.antt =====
-- `aggregateResults` of internal/controller/poll_controller.go.
-- The two lookup maps hold pointers into the slice of results. A pointer to `results[i]` is the
-- index i, and a pointer to `results[i].Options[j]` is the pair of i and j; the loops below write
-- through them.
pub mod Located
pub mod Rows
pub mod Options
pub mod Refines
pub mod Order
use poll_operator.Base.{ℕ, suc, ℤ, pos, String, Bool, Option, none, some, List, [], ◌∷◌, map, not}
use poll_operator.Base.{◌==◌, string_eq, if◌then◌else◌, inc32, foldl}
use poll_operator.Base.{GoMap, empty, put, nonempty, modify_at}
use poll_operator.Api.{Poll, PollQuestion, PollResponse, PollAnswer, question_type_choice}
use poll_operator.Api.{OptionResult, QuestionResult, response_phase_accepted}

abbrev pub zero_option : String → OptionResult
zero_option opt = record { option = opt; votes = pos 0 }

-- The options that get a tally row: none unless the type is Choice and `choice` is set.
unfoldable pub tallied_options : PollQuestion → List String
tallied_options q = elim q.choice [
  | none ↦ []
  | some c ↦ if q.type == question_type_choice then c.options else []
]

-- The body of the first loop.
unfoldable pub initial_result : PollQuestion → QuestionResult
initial_result q = record {
  question_id = q.id;
  options = map zero_option (tallied_options q);
  responses = pos 0;
}

-- The loop over `results[i].Options`: `m[…] = &results[i].Options[j]`.
unfoldable pub option_index : ℕ → List OptionResult → GoMap ℕ → GoMap ℕ
option_index j [] m = m
option_index j (o ∷ os) m = option_index (suc j) os (put o.option j m)

pub record Indices : Type 0 where
  pub by_id : GoMap ℕ
  pub opt_idx : GoMap (GoMap (ℕ × ℕ))

abbrev pub in_row : ℕ → Option ℕ → Option (ℕ × ℕ)
in_row i none = none
in_row i (some j) = some (i, j)

-- The pointers of one row's options.
unfoldable pub option_pointers : ℕ → List OptionResult → GoMap (ℕ × ℕ)
unfolding option_index
option_pointers i os opt = in_row i (option_index 0 os empty opt)

-- The body of the loop that builds both maps.
unfoldable pub index_result : ℕ → QuestionResult → Indices → Indices
unfolding option_pointers
index_result i r ix = record {
  by_id = put r.question_id i ix.by_id;
  opt_idx =
      if nonempty r.options
      then put r.question_id (option_pointers i r.options) ix.opt_idx
      else ix.opt_idx;
}

unfoldable pub index_results : ℕ → List QuestionResult → Indices → Indices
unfolding index_result
index_results i [] ix = ix
index_results i (r ∷ rs) ix = index_results (suc i) rs (index_result i r ix)

abbrev pub no_indices : Indices
no_indices = record { by_id = empty; opt_idx = empty }

abbrev pub bump_responses : QuestionResult → QuestionResult
bump_responses r = record r { responses = inc32 r.responses }

abbrev pub bump_votes : OptionResult → OptionResult
bump_votes o = record o { votes = inc32 o.votes }

abbrev pub bump_option : ℕ → QuestionResult → QuestionResult
bump_option j r = record r { options = modify_at j bump_votes r.options }

-- `if or, known := opts[sel]; known { or.Votes++ }`
abbrev pub bump_pointer : Option (ℕ × ℕ) → List QuestionResult → List QuestionResult
bump_pointer none results = results
bump_pointer (some (i, j)) results = modify_at i (bump_option j) results

-- The body of the loop over `ans.SelectedOptions`.
unfoldable pub count_selection : GoMap (ℕ × ℕ) → List QuestionResult → String → List QuestionResult
count_selection opts results sel = bump_pointer (opts sel) results

-- `if opts, isChoice := optIdx[…]; isChoice { … }`
abbrev pub count_choices :
    Option (GoMap (ℕ × ℕ)) → List QuestionResult → List String → List QuestionResult
count_choices none results sels = results
count_choices (some opts) results sels = foldl (count_selection opts) results sels

-- `if qr, ok := byID[…]; ok { qr.Responses++; … }`
abbrev pub count_found :
    Option ℕ → Option (GoMap (ℕ × ℕ)) → List QuestionResult → List String → List QuestionResult
count_found none opts results sels = results
count_found (some i) opts results sels =
    count_choices opts (modify_at i bump_responses results) sels

-- The body of the loop over `resp.Spec.Answers`.
unfoldable pub count_answer : Indices → List QuestionResult → PollAnswer → List QuestionResult
unfolding count_selection
count_answer ix results ans =
    count_found (ix.by_id ans.question_id) (ix.opt_idx ans.question_id) results ans.selected_options

-- The two guards of the loop over the responses.
unfoldable pub is_counted : Poll → PollResponse → Bool
is_counted poll resp =
    if not (resp.status.phase == response_phase_accepted)
    then Bool.false
    else if not (resp.spec.poll_ref.name == poll.meta.name)
    then Bool.false
    else Bool.true

-- The body of the loop over the responses.
unfoldable pub count_response :
    Poll → Indices → List QuestionResult × ℤ → PollResponse → List QuestionResult × ℤ
unfolding is_counted count_answer
count_response poll ix (results, total) resp =
    if is_counted poll resp
    then (foldl (count_answer ix) results resp.spec.answers, inc32 total)
    else (results, total)

unfoldable pub aggregate_results : Poll → List PollResponse → List QuestionResult × ℤ
unfolding initial_result tallied_options index_results count_response
aggregate_results poll responses =
    let results = map initial_result poll.spec.questions in
    foldl (count_response poll (index_results 0 results no_indices)) (results, pos 0) responses
