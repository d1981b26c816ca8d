-- ===== src/System/Publishing/Closed.antt =====
-- What is published once the responses have been judged after the closing time.
use poll_operator.Base.{
  false, ◌≡◌, refl, ap, sym, ◌∙◌, arith, true, List, [], ◌∷◌, map, pos, int32, int_eq, string_eq,
  nat_eq, count_if,
}
use poll_operator.Api.{poll_phase_closed, Poll, PollResponse, NamespacedName}
use poll_operator.Kube.{Kube, ok, World}
use poll_operator.Kube.Lawful.{IsLawful}
use poll_operator.PollController.Aggregate.{initial_result}
use poll_operator.PollController.Aggregate.Refines.{HasUniqueKeys, tally, map-tally-initial}
use poll_operator.PollController.Phase.{compute_phase, has_closed}
use poll_operator.PollController.StatusEqual.Exact.{HasKeys}
use poll_operator.PollController.Reconcile.{reconcile}
use poll_operator.PollController.Reconcile.Again.{Succeeded}
use poll_operator.Kube.Format.{Format}
use poll_operator.System.Settling.{AreSettled, answers_where, counted_answers-settled}
use poll_operator.System.Publishing.{FitsQuestions, reconcile-Publishes}

none_where : (rs : List PollResponse) → answers_where (λ _. false) rs ≡ []
none_where [] = refl
none_where (r ∷ rs) = none_where rs

none_count : (rs : List PollResponse) → count_if (λ _. false) rs ≡ 0
none_count [] = refl
none_count (r ∷ rs) = omega (arith, none_count rs)

-- Once each response that refers to the Poll has been judged by a run after the closing time, a run
-- of the reconciler of polls that succeeds after it leaves the Poll stored as Closed with the results
-- of a Poll that nobody has answered: all of them zero, also where responses had been counted before
-- it closed. The API server is lawful. Question ids are unique, and the options of each question;
-- the lists of the status that was read have unique keys; and its rows are those of the questions in
-- order, unless their numbers differ.
pub closed_published :
    (kube : Kube) (fmt : Format) (req : NamespacedName) (poll : Poll)
    (rs settled : List PollResponse) (w : World kube.Store)
    → IsLawful kube
    → kube.get_poll w.store req ≡ ok poll
    → kube.list_responses w.store poll.meta.namespace ≡ ok settled
    → AreSettled kube fmt poll true rs settled
    → has_closed poll.spec.closes_at (w.clock w.ticks) ≡ true
    → HasUniqueKeys poll.spec.questions
    → HasKeys poll.status
    → FitsQuestions poll
    → Succeeded (reconcile kube req w).0
    → (after : Poll) × (kube.get_poll (reconcile kube req w).1.store req ≡ ok after)
      × (after.status.phase ≡ poll_phase_closed)
      × (after.status.results ≡ map initial_result poll.spec.questions)
      × (after.status.total_responses ≡ pos 0)
unfolding compute_phase int32
closed_published kube fmt req poll rs settled w law got listed all closed keys own fits done =
    let (after, stored, phase, (results, total)) =
      reconcile-Publishes kube req poll settled w law got listed keys own fits done in
    let (answers, count) =
      counted_answers-settled kube fmt poll true keys.0 (λ _. false)
        (λ r. (λ e. absurd (cc), λ (early, _). cc)) rs settled all in
    (
      after,
      stored,
      phase ∙ rw closed refl,
      results
          ∙ ap (λ bs. map (tally bs) poll.spec.questions) (answers ∙ none_where rs)
          ∙ sym (map-tally-initial poll.spec.questions),
      total ∙ ap (λ n. int32 (pos n)) (count ∙ none_count rs),
    )
