-- ===== src/Tests/Together.antt =====
-- The poll about colours through its parts.
use poll_operator.Base.{
  Bool, inr, int_eq, ℕ_discrete, true, false, Option, none, some, ◌==◌, ◌&&◌, ◌↔◌, ◌+◌, [], ◌∷◌,
  ◌++◌, map, pos, int32, count_if, ◌≡◌, refl, arith, string_eq,
}
use poll_operator.Api.{response_phase_accepted, Poll, PollResponse, poll_phase_closed}
use poll_operator.PollController.Aggregate.{aggregate_results, initial_result, is_counted}
use poll_operator.PollController.Aggregate.Refines.{counted_answers, tally}
use poll_operator.PollController.Reconcile.{desired_status}
use poll_operator.ResponseController.Validate.{validate_response, ValidationError}
use poll_operator.ResponseController.Validate.Whole.{validate_response-eq-none_iff}
use poll_operator.Kube.Responses.{persisted_response}
use poll_operator.System.Settling.{IsVote, answers_where, wanted, written}
use poll_operator.System.Publishing.{settled_published}
use poll_operator.System.Publishing.Closed.{closed_published}
use poll_operator.PollController.Reconcile.{reconcile, requeue_at_close}
use poll_operator.PollController.Reconcile.Again.{Succeeded}
use poll_operator.PollController.StatusEqual.{status_equal}
use poll_operator.PollController.Phase.{compute_phase}
use poll_operator.Kube.{ok}
use poll_operator.Tests.Runs.{world, paint_key}
use poll_operator.System.Voting.{vote_of, judged_vote, vote_counts}
use poll_operator.Webhook.FieldError.{admitted}
use poll_operator.Webhook.ResponseWebhook.{validate_response_create}
use poll_operator.Tests.Admission.{paint-admitted}
use poll_operator.Tests.Data.{response, with_phase, paint, votes, both, calm}
use poll_operator.Tests.Forms.{filled, filled_built, paint-IsFilled}
use poll_operator.Tests.Memory.{Memory, memory, memory-IsLawful}
use poll_operator.Tests.Verdicts.{plain}
use poll_operator.Tests.Votes.{paint-HasUniqueKeys}
use poll_operator.Tests.Clusters.{first_vote}

vote_counts_example :
    (validate_response_create (vote_of paint filled (both ∷ calm ∷ [])) ≡ admitted)
    × (aggregate_results paint
          (votes ++ judged_vote memory plain paint filled (both ∷ calm ∷ []) 5 5 5 5 ∷ [])
        ≡ (
          map (tally (counted_answers paint votes ++ both ∷ calm ∷ [])) paint.spec.questions,
          int32 (pos (count_if (is_counted paint) votes + 1)),
        ))
vote_counts_example =
    vote_counts memory plain paint filled votes (both ∷ calm ∷ []) 5 5 5 5 paint-admitted
      paint-HasUniqueKeys paint-IsFilled refl filled_built

-- A vote that was pending, and an answer to no question that had been accepted for some reason
abbrev stray : PollResponse
stray = with_phase response_phase_accepted (response "s" (record calm { question_id = "who" } ∷ []))

abbrev judged_at_5 : PollResponse → PollResponse
judged_at_5 r = record r { status = persisted_response (wanted memory plain paint r 5 5 5 5) }

abbrev passes : Option ValidationError → Bool
passes none = true
passes (some e) = false

-- Decides what a vote is, by the code at a time before the closing time.
abbrev is_vote : PollResponse → Bool
is_vote r = r.spec.poll_ref.name == paint.meta.name && passes (validate_response plain paint r 5)

is_vote-IsVote : (r : PollResponse) → (is_vote r ≡ true) ↔ IsVote paint r
is_vote-IsVote r =
    let (sound, complete) = validate_response-eq-none_iff plain paint r 5 (paint-HasUniqueKeys.0) in
    (
      λ e. (ground arith, (sound (ground arith)).1),
      λ (named, fit). let none = complete (refl, fit) in ground arith,
    )

-- The Poll as it was stored first, and the two responses as runs at 5 left them
abbrev settled_memory : Memory
settled_memory = record {
  poll = paint;
  responses = judged_at_5 first_vote ∷ judged_at_5 stray ∷ [];
}

settled-Succeeded : Succeeded (reconcile memory paint_key (world settled_memory 1)).0
unfolding string_eq int_eq ℕ_discrete reconcile status_equal desired_status compute_phase
    requeue_at_close
settled-Succeeded = (refl, refl)

settled_published_example :
    (after : Poll) × (memory.get_poll
        (reconcile memory paint_key (world settled_memory 1)).1.store
        paint_key
      ≡ ok after)
    × (after.status.results
        ≡ map (tally (answers_where is_vote (first_vote ∷ stray ∷ []))) paint.spec.questions)
    × (after.status.total_responses ≡ int32 (pos (count_if is_vote (first_vote ∷ stray ∷ []))))
unfolding string_eq
settled_published_example =
    settled_published memory plain paint_key paint is_vote (first_vote ∷ stray ∷ [])
      (judged_at_5 first_vote ∷ judged_at_5 stray ∷ []) (world settled_memory 1) memory-IsLawful
      refl refl (written first_vote 5 5 5 5 refl refl, (written stray 5 5 5 5 refl refl, tt))
      is_vote-IsVote paint-HasUniqueKeys (record { types = tt; ids = tt; options = tt })
      (inr (omega arith)) settled-Succeeded

-- The two responses as runs left them that started eleven seconds in, when the Poll had closed
abbrev judged_late : PollResponse → PollResponse
judged_late r = record r {
  status = persisted_response (wanted memory plain paint r 11000000000 5 5 5);
}

abbrev late_memory : Memory
late_memory = record { poll = paint; responses = judged_late first_vote ∷ judged_late stray ∷ [] }

late-Succeeded : Succeeded (reconcile memory paint_key (world late_memory 11)).0
unfolding string_eq int_eq ℕ_discrete reconcile status_equal desired_status compute_phase
    requeue_at_close
late-Succeeded = (refl, refl)

closed_published_example :
    (after : Poll) × (memory.get_poll
        (reconcile memory paint_key (world late_memory 11)).1.store
        paint_key
      ≡ ok after)
    × (after.status.phase ≡ poll_phase_closed)
    × (after.status.results ≡ map initial_result paint.spec.questions)
    × (after.status.total_responses ≡ pos 0)
unfolding string_eq
closed_published_example =
    closed_published memory plain paint_key paint (first_vote ∷ stray ∷ [])
      (judged_late first_vote ∷ judged_late stray ∷ []) (world late_memory 11) memory-IsLawful refl
      refl
      (
        written first_vote 11000000000 5 5 5 refl refl,
        (written stray 11000000000 5 5 5 refl refl, tt),
      )
      refl paint-HasUniqueKeys (record { types = tt; ids = tt; options = tt }) (inr (omega arith))
      late-Succeeded
