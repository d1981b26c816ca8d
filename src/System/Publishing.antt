-- ===== src/System/Publishing.antt =====
-- What a run of the reconciler of polls publishes.
pub mod Closed
use mathlib.Core.Path.{subst, ap₂}
use poll_operator.Base.{
  false, ℕ, suc, ◌≡◌, ◌≢◌, ◌⊎◌, ◌↔◌, refl, ap, sym, ◌∙◌, arith, String, Bool, true, List, [], ◌∷◌,
  map, pos, int32, int_eq, string_eq, nat_eq, count_if, length, Bool-cases, inl, inr,
}
use poll_operator.Api.{
  poll_phase_closed, Poll, OptionResult, PollQuestion, PollStatus, PollResponse, NamespacedName,
  PollAnswer,
}
use poll_operator.Kube.{Kube, ok, World}
use poll_operator.Kube.Lawful.{IsLawful}
use poll_operator.PollController.Aggregate.{is_counted, tallied_options, initial_result}
use poll_operator.PollController.Aggregate.Options.{votes_row}
use poll_operator.PollController.Aggregate.Refines.{
  HasUniqueKeys, counted_answers, tally, map-tally-initial, aggregate_results-tally,
}
use poll_operator.PollController.Phase.{compute_phase, has_closed}
use poll_operator.PollController.StatusEqual.{status_equal, results_by_id, all_same_results}
use poll_operator.PollController.StatusEqual.Exact.{HasKeys, results_found}
use poll_operator.PollController.StatusEqual.Laws.{shape, all_same_results_sound}
use poll_operator.PollController.Reconcile.{reconcile}
use poll_operator.PollController.Reconcile.Again.{
  Answer-cases, Succeeded, wanted_now, patch_now, reconcile_quiet, reconcile_patched,
  reconcile_unpatched,
}
use poll_operator.Kube.Format.{Format}
use poll_operator.System.Settling.{IsVote, AreSettled, answers_where, counted_answers-settled}
use poll_operator.System.Closing.{desired_status-results}

abbrev pub question_shape : PollQuestion → String × List String
question_shape q = (q.id, tallied_options q)

-- The rows in the status are those of the questions, in order, or there are more or fewer.
abbrev pub FitsQuestions : Poll → Type 0
FitsQuestions poll =
    (map shape poll.status.results ≡ map question_shape poll.spec.questions)
    ⊎ (length poll.status.results ≢ length poll.spec.questions)

options-tallied :
    (votes : String → ℕ) (opts : List String)
    → map (λ (o : OptionResult). o.option) (map (votes_row votes) opts) ≡ opts
options-tallied votes [] = refl
options-tallied votes (o ∷ opts) = ap (◌∷◌ o) (options-tallied votes opts)

shape-tally : (bs : List PollAnswer) (q : PollQuestion) → shape (tally bs q) ≡ question_shape q
unfolding tally
shape-tally bs q = ap (λ os. (q.id, os)) (options-tallied _ (tallied_options q))

shapes-tally :
    (bs : List PollAnswer) (qs : List PollQuestion)
    → map shape (map (tally bs) qs) ≡ map question_shape qs
shapes-tally bs [] = refl
shapes-tally bs (q ∷ qs) = ap₂ (λ a b. a ∷ b) (shape-tally bs q) (shapes-tally bs qs)

length-map {ℓ κ} :
    {A : Type ℓ} {B : Type κ} (f : A → B) (xs : List A) → length (map f xs) ≡ length xs
length-map f [] = refl
length-map f (x ∷ xs) = ap suc (length-map f xs)

-- The results and the total are those of the responses.
abbrev pub Publishes : Poll → List PollResponse → PollStatus → Type 0
Publishes poll rs s =
    (s.results ≡ map (tally (counted_answers poll rs)) poll.spec.questions)
    × (s.total_responses ≡ int32 (pos (count_if (is_counted poll) rs)))

status_equal-parts :
    (a b : PollStatus)
    → status_equal a b ≡ true
    → (a.phase ≡ b.phase)
      × (a.total_responses ≡ b.total_responses)
      × (length a.results ≡ length b.results)
      × (all_same_results (results_by_id a.results) b.results ≡ true)
unfolding status_equal
status_equal-parts a b h = ground arith

module _ (kube : Kube) (poll : Poll) (rs : List PollResponse)
    (keys : HasUniqueKeys poll.spec.questions) (own : HasKeys poll.status)
    (fits : FitsQuestions poll) where
  -- A status that takes no patch publishes what was wanted.
  kept-Publishes :
      (desired : PollStatus)
      → Publishes poll rs desired
      → status_equal poll.status desired ≡ true
      → Publishes poll rs poll.status
  kept-Publishes desired (results, total) same =
      let (_, totals, lengths, rows) = status_equal-parts poll.status desired same in
      let count =
        lengths
        ∙ ap length results
        ∙ length-map (tally (counted_answers poll rs)) poll.spec.questions in
      elim fits [
        | inl shapes ↦ (
          all_same_results_sound (results_by_id poll.status.results) poll.status.results
                desired.results (results_found poll.status own) own.options
                (shapes
                  ∙ sym (
                      ap (map shape) results
                      ∙ shapes-tally (counted_answers poll rs) poll.spec.questions))
                rows
              ∙ results,
          totals ∙ total,
        )
        | inr other ↦ absurd (other count)
      ]

-- A run that succeeds, over a lawful API server, leaves the Poll stored with the phase of the time
-- of the run, with the tallies of the listed responses that count, and with their number as the
-- total.
pub reconcile-Publishes :
    (kube : Kube) (req : NamespacedName) (poll : Poll) (rs : List PollResponse)
    (w : World kube.Store)
    → IsLawful kube
    → kube.get_poll w.store req ≡ ok poll
    → kube.list_responses w.store poll.meta.namespace ≡ ok rs
    → HasUniqueKeys poll.spec.questions
    → HasKeys poll.status
    → FitsQuestions poll
    → Succeeded (reconcile kube req w).0
    → (after : Poll) × (kube.get_poll (reconcile kube req w).1.store req ≡ ok after)
      × (after.status.phase ≡ (compute_phase poll poll.status (w.clock w.ticks)).0)
      × Publishes poll rs after.status
reconcile-Publishes kube req poll rs w law got listed keys own fits done =
    let desired = wanted_now kube req poll rs w got listed in
    let (results, total, phase) = desired_status-results kube poll rs _ _ _ in
    let counted = aggregate_results-tally poll rs keys in
    let wanted : Publishes poll rs desired =
      (results ∙ ap (λ x. x.0) counted, total ∙ ap (λ x. x.1) counted) in
    elim (Bool-cases (status_equal poll.status desired)) [
      | inl quiet ↦ (
        poll,
        rw (reconcile_quiet kube req poll rs w got listed quiet) got,
        (status_equal-parts poll.status desired quiet).0 ∙ phase,
        kept-Publishes kube poll rs keys own fits desired wanted quiet,
      )
      | inr noisy ↦ elim (Answer-cases (patch_now kube req poll rs w got listed).0) [
        | inl (patched, p) ↦
            let s = (patch_now kube req poll rs w got listed).1 in
            let named = law.get-key w.store req poll got in
            let (written, read, _) =
              law.patch_status w.store s poll patched desired (rw named got) (λ i. (p i, s)) in
            (
              patched,
              rw (reconcile_patched kube req poll rs w got listed patched noisy p)
                  (rw named at read),
              ap (λ a. a.status.phase) written ∙ phase,
              subst (λ a. Publishes poll rs a.status) (sym written) wanted,
            )
        | inr (x, p) ↦ absurd (reconcile_unpatched kube req poll rs w got listed x noisy p done)
      ]
    ]

-- However often and in whichever order the responses were judged before: once each one that refers
-- to the Poll has been judged, as its spec is now, by a run before the closing time on the Poll as it
-- is, a run of the reconciler of polls that succeeds leaves the Poll stored with the tallies of
-- exactly the responses to it all of whose answers fit its questions, and with their number as the
-- total, as `int32` numbers. The API server is lawful. Question ids are unique, and the options of
-- each question; the lists of the status that was read have unique keys; and its rows are those of
-- the questions in order, unless their numbers differ.
pub settled_published :
    (kube : Kube) (fmt : Format) (req : NamespacedName) (poll : Poll) (test : PollResponse → Bool)
    (rs settled : List PollResponse) (w : World kube.Store)
    → IsLawful kube
    → kube.get_poll w.store req ≡ ok poll
    → kube.list_responses w.store poll.meta.namespace ≡ ok settled
    → AreSettled kube fmt poll false rs settled
    → ((r : PollResponse) → (test r ≡ true) ↔ IsVote poll r)
    → HasUniqueKeys poll.spec.questions
    → HasKeys poll.status
    → FitsQuestions poll
    → Succeeded (reconcile kube req w).0
    → (after : Poll) × (kube.get_poll (reconcile kube req w).1.store req ≡ ok after)
      × (after.status.results ≡ map (tally (answers_where test rs)) poll.spec.questions)
      × (after.status.total_responses ≡ int32 (pos (count_if test rs)))
settled_published kube fmt req poll test rs settled w law got listed all decides keys own fits
      done =
    let (after, stored, _, (results, total)) =
      reconcile-Publishes kube req poll settled w law got listed keys own fits done in
    let (answers, count) =
      counted_answers-settled kube fmt poll false keys.0 test
        (λ r. (λ e. (refl, (decides r).0 e), λ (_, vote). (decides r).1 vote)) rs settled all in
    (
      after,
      stored,
      results ∙ ap (λ bs. map (tally bs) poll.spec.questions) answers,
      total ∙ ap (λ n. int32 (pos n)) count,
    )
