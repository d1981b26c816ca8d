-- ===== src/PollController/Aggregate/Order.antt =====
-- The order in which the API server lists the responses, and the responses that do not count.
use mathlib.Core.Path.{fun_ext, ap₂}
use mathlib.Core.Logic.{∥∥₁_elim}
use mathlib.Core.List.{Perm, Permᴰ}
use native.Mathlib.Nat.{ℕ_set}
use poll_operator.Base.{
  ℕ, ◌+◌, false, Bool, List, [], ◌∷◌, ◌++◌, map, foldl, ◌≡◌, refl, ap, sym, ◌∙◌,
}
use poll_operator.Base.{
  arith, ◌==◌, string_eq, if◌then◌else◌, pos, int32, count_if, count_if-append, Bool-cases, inl,
  inr, keep,
}
use poll_operator.Api.{Poll, PollQuestion, PollResponse, PollAnswer}
use poll_operator.PollController.Aggregate.{aggregate_results, is_counted}
use poll_operator.PollController.Aggregate.Refines.{
  counted_answers, answers_to, times_selected, times_selected-append, tally, tally_row,
  HasUniqueKeys, aggregate_results-tally,
}

abbrev sum_of {ℓ} : {A : Type ℓ} → (A → ℕ) → List A → ℕ
sum_of f [] = 0
sum_of f (x ∷ xs) = f x + sum_of f xs

sum_of-permᴰ {ℓ} :
    {A : Type ℓ} (f : A → ℕ) {xs ys : List A} → Permᴰ xs ys → sum_of f xs ≡ sum_of f ys
sum_of-permᴰ f Permᴰ.nil = refl
sum_of-permᴰ f (Permᴰ.cons e p) = ap₂ ◌+◌ (ap f e) (sum_of-permᴰ f p)
sum_of-permᴰ f (Permᴰ.swap e d) = omega (arith, ap f e, ap f d)
sum_of-permᴰ f (Permᴰ.trans p q) = sum_of-permᴰ f p ∙ sum_of-permᴰ f q

sum_of-perm {ℓ} : {A : Type ℓ} (f : A → ℕ) {xs ys : List A} → Perm xs ys → sum_of f xs ≡ sum_of f ys
sum_of-perm f p = ∥∥₁_elim p (ℕ_set _ _) (sum_of-permᴰ f)

count_if-sum_of {ℓ} :
    {A : Type ℓ} (p : A → Bool) (xs : List A)
    → count_if p xs ≡ sum_of (λ x. if p x then 1 else 0) xs
count_if-sum_of p [] = refl
count_if-sum_of p (x ∷ xs) = omega (arith, count_if-sum_of p xs)

module _ (poll : Poll) where
  -- What one response adds to a count over answers.
  abbrev share : (List PollAnswer → ℕ) → PollResponse → ℕ
  share f r = if is_counted poll r then f r.spec.answers else 0

  counted_answers-sum_of :
      (f : List PollAnswer → ℕ) (rs : List PollResponse)
      → f [] ≡ 0
      → ((xs ys : List PollAnswer) → f (xs ++ ys) ≡ f xs + f ys)
      → f (counted_answers poll rs) ≡ sum_of (share f) rs
  unfolding counted_answers
  counted_answers-sum_of f [] none more = none
  counted_answers-sum_of f (r ∷ rs) none more =
      ground (
        arith,
        more r.spec.answers (counted_answers poll rs),
        counted_answers-sum_of f rs none more,
      )

  counted_answers-perm :
      (f : List PollAnswer → ℕ) {rs rs' : List PollResponse}
      → f [] ≡ 0
      → ((xs ys : List PollAnswer) → f (xs ++ ys) ≡ f xs + f ys)
      → Perm rs rs'
      → f (counted_answers poll rs) ≡ f (counted_answers poll rs')
  counted_answers-perm f {rs} {rs'} none more p =
      counted_answers-sum_of f rs none more
      ∙ sum_of-perm (share f) p
      ∙ sym (counted_answers-sum_of f rs' none more)

  tally-perm :
      {rs rs' : List PollResponse} (q : PollQuestion)
      → Perm rs rs'
      → tally (counted_answers poll rs) q ≡ tally (counted_answers poll rs') q
  unfolding tally times_selected answers_to
  tally-perm q p =
      ap₂ (tally_row q)
        (fun_ext λ opt.
          counted_answers-perm (times_selected q.id opt) refl (times_selected-append q.id opt) p)
        (counted_answers-perm (answers_to q.id) refl (count_if-append (λ a. q.id == a.question_id))
          p)

  -- The results and the total do not depend on the order in which the responses are listed, where
  -- question ids are unique, and the options of each question.
  pub aggregate_results-perm :
      {rs rs' : List PollResponse}
      → HasUniqueKeys poll.spec.questions
      → Perm rs rs'
      → aggregate_results poll rs ≡ aggregate_results poll rs'
  aggregate_results-perm {rs} {rs'} keys p =
      let total : count_if (is_counted poll) rs ≡ count_if (is_counted poll) rs' =
        count_if-sum_of (is_counted poll) rs
        ∙ sum_of-perm _ p
        ∙ sym (count_if-sum_of (is_counted poll) rs') in
      aggregate_results-tally poll rs keys
      ∙ ap₂ (λ f n. (map f poll.spec.questions, int32 (pos n))) (fun_ext (λ q. tally-perm q p))
          total
      ∙ sym (aggregate_results-tally poll rs' keys)

  foldl-keep {ℓ} :
      {S : Type ℓ} (step : S → PollResponse → S) (s : S) (rs : List PollResponse)
      → ((s : S) (r : PollResponse) → is_counted poll r ≡ false → step s r ≡ s)
      → foldl step s rs ≡ foldl step s (keep (is_counted poll) rs)
  foldl-keep step s [] idle = refl
  foldl-keep step s (r ∷ rs) idle = elim (Bool-cases (is_counted poll r)) [
    | inl counted ↦ rw counted (foldl-keep step (step s r) rs idle)
    | inr passed ↦ rw (passed, idle s r passed) (foldl-keep step s rs idle)
  ]

  -- A response that is not accepted, or refers to another poll, leaves no trace in the results,
  -- whatever it holds, and whatever the poll's questions are.
  pub aggregate_results-keep :
      (rs : List PollResponse)
      → aggregate_results poll rs ≡ aggregate_results poll (keep (is_counted poll) rs)
  unfolding aggregate_results
  aggregate_results-keep rs = foldl-keep _ _ rs (λ s r passed. rw passed)
