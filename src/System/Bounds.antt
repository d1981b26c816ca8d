-- ===== src/System/Bounds.antt =====
-- Bounds on the results of admitted responses.
use mathlib.Core.Path.{subst}
use poll_operator.Base.{
  ℕ, ◌≤◌, ◌<◌, ℤ, String, false, List, [], ◌∷◌, map, pos, int32, length, count_if, count_if-append,
  ◌≡◌, refl, ap, sym, ◌∙◌, arith, ◌==◌, string_eq, All, All-map, All-append, Bool, IsUnique,
  contains, Bool-cases, inl, inr,
}
use poll_operator.Api.{Poll, PollQuestion, PollAnswer, PollResponse, QuestionResult}
use poll_operator.PollController.Aggregate.{aggregate_results, is_counted, tallied_options}
use poll_operator.PollController.Aggregate.Options.{votes_row}
use poll_operator.PollController.Aggregate.Refines.{
  HasUniqueKeys, counted_answers, answers_to, times_selected, tally, aggregate_results-tally,
}
use poll_operator.Webhook.FieldError.{admitted}
use poll_operator.Webhook.ResponseWebhook.{validate_response_create}
use poll_operator.Webhook.ResponseWebhook.OneForm.{validate_response_create-eq-admitted_iff}
use poll_operator.Ui.Answers.Forms.{IsUnique-of_HasOneForm}

count_if_absent :
    (x : String) (xs : List String) → contains xs x ≡ false → count_if (λ y. x == y) xs ≡ 0
count_if_absent x [] absent = refl
count_if_absent x (y ∷ xs) absent = let rest = count_if_absent x xs in ground arith

count_if_unique : (x : String) (xs : List String) → IsUnique xs → count_if (λ y. x == y) xs ≤ 1
count_if_unique x [] u = omega arith
count_if_unique x (y ∷ xs) (new, u) =
    let rest = count_if_unique x xs u in let absent = count_if_absent x xs in ground arith

answers_to_absent :
    (id : String) (answers : List PollAnswer)
    → contains (map (λ a. a.question_id) answers) id ≡ false
    → answers_to id answers ≡ 0
unfolding answers_to
answers_to_absent id [] absent = refl
answers_to_absent id (a ∷ answers) absent = let rest = answers_to_absent id answers in ground arith

answers_to_unique :
    (id : String) (answers : List PollAnswer)
    → IsUnique (map (λ a. a.question_id) answers)
    → answers_to id answers ≤ 1
unfolding answers_to
answers_to_unique id [] u = omega arith
answers_to_unique id (a ∷ answers) (new, u) =
    let rest = answers_to_unique id answers u in
    let absent = answers_to_absent id answers in ground arith

abbrev SelectsOnce : PollAnswer → Type 0
SelectsOnce a = IsUnique a.selected_options

times_selected-le :
    (id opt : String) (answers : List PollAnswer)
    → All SelectsOnce answers
    → times_selected id opt answers ≤ answers_to id answers
unfolding times_selected answers_to
times_selected-le id opt [] once = omega arith
times_selected-le id opt (a ∷ answers) (u, once) =
    let rest = times_selected-le id opt answers once in
    let one = count_if_unique opt a.selected_options u in ground arith

-- A response that the webhook admitted, with one answer to a question at most, as the list-map key
-- of its answers in the custom resource definition demands.
abbrev pub IsStored : PollResponse → Type 0
IsStored r =
    (validate_response_create r ≡ admitted) × IsUnique (map (λ a. a.question_id) r.spec.answers)

answers_to-counted_answers :
    (poll : Poll) (id : String) (rs : List PollResponse)
    → All IsStored rs
    → answers_to id (counted_answers poll rs) ≤ count_if (is_counted poll) rs
unfolding counted_answers answers_to
answers_to-counted_answers poll id [] stored = omega arith
answers_to-counted_answers poll id (r ∷ rs) (s, stored) =
    let rest = answers_to-counted_answers poll id rs stored in
    let one = answers_to_unique id r.spec.answers s.1 in
    let both =
      count_if-append (λ a. id == a.question_id) r.spec.answers (counted_answers poll rs) in
    ground arith

SelectsOnce-counted_answers :
    (poll : Poll) (rs : List PollResponse)
    → All IsStored rs
    → All SelectsOnce (counted_answers poll rs)
unfolding counted_answers
SelectsOnce-counted_answers poll [] stored = tt
SelectsOnce-counted_answers poll (r ∷ rs) (s, stored) =
    let rest = SelectsOnce-counted_answers poll rs stored in
    elim (Bool-cases (is_counted poll r)) [
      | inl counted ↦ rw counted (
          All-append SelectsOnce r.spec.answers _
            (All-map IsUnique-of_HasOneForm r.spec.answers
              ((validate_response_create-eq-admitted_iff r).0 s.0))
            rest)
      | inr passed ↦ rw passed rest
    ]

count_if-length {ℓ} : {A : Type ℓ} (p : A → Bool) (xs : List A) → count_if p xs ≤ length xs
count_if-length p [] = omega arith
count_if-length p (x ∷ xs) = let rest = count_if-length p xs in ground arith

int32_small : (n : ℕ) → n < 2147483648 → int32 (pos n) ≡ pos n
unfolding int32
int32_small n small = ground arith

-- A row whose counts are not negative and at most `n`, with no option ahead of the question.
abbrev pub IsBounded : ℕ → QuestionResult → Type 0
IsBounded n row =
    (m : ℕ) × (row.responses ≡ pos m)
    × (m ≤ n)
    × All (λ o. (v : ℕ) × (o.votes ≡ pos v) × (v ≤ m)) row.options

votes_row-All :
    (votes : String → ℕ) (m : ℕ) (opts : List String)
    → m < 2147483648
    → ((opt : String) → votes opt ≤ m)
    → All (λ o. (v : ℕ) × (o.votes ≡ pos v) × (v ≤ m)) (map (votes_row votes) opts)
votes_row-All votes m [] small le = tt
votes_row-All votes m (opt ∷ opts) small le =
    let bound = le opt in
    ((votes opt, int32_small (votes opt) (omega arith), bound), votes_row-All votes m opts small le)

tally-IsBounded :
    (answers : List PollAnswer) (n : ℕ) (qs : List PollQuestion)
    → n < 2147483648
    → All SelectsOnce answers
    → ((id : String) → answers_to id answers ≤ n)
    → All (IsBounded n) (map (tally answers) qs)
unfolding tally
tally-IsBounded answers n [] small once le = tt
tally-IsBounded answers n (q ∷ qs) small once le =
    let m = answers_to q.id answers in
    let bound = le q.id in
    let fits : m < 2147483648 = omega arith in
    (
      (
        m,
        int32_small m fits,
        bound,
        votes_row-All (λ opt. times_selected q.id opt answers) m (tallied_options q) fits
            (λ opt. times_selected-le q.id opt answers once),
      ),
      tally-IsBounded answers n qs small once le,
    )

-- Fewer than 2^31 responses, each admitted and with one answer to a question at most, for a Poll
-- with unique question ids and options: no count overflows, the votes for an option are at most the
-- responses to its question, these are at most the total, and the total at most the number of
-- responses.
pub results-IsBounded :
    (poll : Poll) (rs : List PollResponse)
    → HasUniqueKeys poll.spec.questions
    → All IsStored rs
    → length rs < 2147483648
    → (n : ℕ) × ((aggregate_results poll rs).1 ≡ pos n)
      × (n ≤ length rs)
      × All (IsBounded n) (aggregate_results poll rs).0
results-IsBounded poll rs keys stored few =
    let n = count_if (is_counted poll) rs in
    let bound = count_if-length (is_counted poll) rs in
    let small : n < 2147483648 = omega arith in
    let e = aggregate_results-tally poll rs keys in
    (
      n,
      ap (λ x. x.1) e ∙ int32_small n small,
      bound,
      subst (λ (x : List QuestionResult × ℤ). All (IsBounded n) x.0) (sym e)
          (tally-IsBounded (counted_answers poll rs) n poll.spec.questions small
            (SelectsOnce-counted_answers poll rs stored)
            (λ id. answers_to-counted_answers poll id rs stored)),
    )
