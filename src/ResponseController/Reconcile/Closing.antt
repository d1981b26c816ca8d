-- ===== src/ResponseController/Reconcile/Closing.antt =====
-- What happens to responses, also to those that were accepted, once their Poll has closed.
use poll_operator.Base.{
  ◌≤◌, String, true, none, some, List, [], ◌∷◌, map, pos, ◌≡◌, ◌≢◌, refl, ◌∙◌, arith, string_eq,
  All, keep,
}
use poll_operator.Api.{Time, Poll, PollResponse, NamespacedName, response_phase_accepted}
use poll_operator.Kube.{Kube, ok, World}
use poll_operator.Kube.Format.{Format}
use poll_operator.PollController.Aggregate.{aggregate_results, initial_result, is_counted}
use poll_operator.PollController.Aggregate.Order.{aggregate_results-keep}
use poll_operator.ResponseController.Validate.{validate_response}
use poll_operator.ResponseController.Reconcile.{is_zero, is_owned_by, poll_key, reconcile_response}
use poll_operator.ResponseController.Reconcile.Verdicts.{IsWritten, reconcile_response_verdict}

validate_response_closed :
    (fmt : Format) (poll : Poll) (resp : PollResponse) (t now : Time)
    → poll.spec.closes_at ≡ some t
    → t ≤ now
    → validate_response fmt poll resp now ≢ none
unfolding validate_response
validate_response_closed fmt poll resp t now closes late = ground arith

-- A run at or after the closing time leaves a response that exists, is not being deleted and is
-- owned by its Poll with another phase than Accepted, whatever it answers, whenever it was
-- submitted, and also if it was Accepted before.
pub reconcile_response_late :
    (kube : Kube) (fmt : Format) (req : NamespacedName) (resp : PollResponse) (poll : Poll)
    (t : Time) (w : World kube.Store)
    → kube.get_response w.store req ≡ ok resp
    → is_zero resp.meta.deletion_timestamp ≡ true
    → kube.get_poll w.store (poll_key resp) ≡ ok poll
    → is_owned_by poll.meta.uid resp.meta.owner_references ≡ true
    → poll.spec.closes_at ≡ some t
    → t ≤ w.clock w.ticks
    → (phase : String) × (phase ≢ response_phase_accepted)
      × IsWritten kube resp phase w.store (reconcile_response kube fmt req w).1.store
reconcile_response_late kube fmt req resp poll t w got alive found owned closes late =
    let (phase, verdict, written) =
      reconcile_response_verdict kube fmt req resp w got alive poll found owned in
    (
      phase,
      λ same.
          validate_response_closed fmt poll resp t (w.clock w.ticks) closes late (verdict.0 same),
      written,
    )

keep_none :
    (poll : Poll) (rs : List PollResponse)
    → All (λ r. r.status.phase ≢ response_phase_accepted) rs
    → keep (is_counted poll) rs ≡ []
unfolding is_counted
keep_none poll [] none_accepted = refl
keep_none poll (r ∷ rs) (other, more) = ground (arith, keep_none poll rs more)

-- Where no response is Accepted, the results are those of a Poll that nobody has answered.
pub aggregate_results_unanswered :
    (poll : Poll) (rs : List PollResponse)
    → All (λ r. r.status.phase ≢ response_phase_accepted) rs
    → aggregate_results poll rs ≡ (map initial_result poll.spec.questions, pos 0)
unfolding aggregate_results
aggregate_results_unanswered poll rs none_accepted =
    aggregate_results-keep poll rs ∙ rw (keep_none poll rs none_accepted)
