-- ===== src/Tests/Judging.antt =====
-- Runs of the reconciler of responses over the store in memory.
use mathlib.Core.Path.{subst}
use poll_operator.Kube.{ok, finished}
use poll_operator.PollController.Aggregate.{is_counted}
use poll_operator.ResponseController.Validate.Whole.{Answers}
use poll_operator.System.Settling.Runs.{reconcile_response_settles}
use poll_operator.Tests.Votes.{paint-HasUniqueKeys}
use poll_operator.PollController.Phase.{has_closed}
use poll_operator.ResponseController.Status.{
  response_status_equal, accepted_status, set_response_condition,
}
use poll_operator.Base.{
  All, true, false, arith, IsUnique, int32, index_by, ap, ◌∙◌, ◌≡◌, ◌↔◌, refl, [], ◌∷◌, string_eq,
  Memᴰ,
}
use poll_operator.Api.{condition_types, NamespacedName, PollResponse, response_phase_accepted}
use poll_operator.ResponseController.Validate.{
  validate_response, check_answers, validate_answer, validate_choice, check_selections,
  validate_free_text,
}
use poll_operator.PollController.Reconcile.Again.{Succeeded}
use poll_operator.ResponseController.Reconcile.{
  reconcile_response, is_owned_by, ensure_owner_reference, accept, write_response_status, poll_key,
}
use poll_operator.Tests.Data.{paint, blue, calm, response, with_phase}
use poll_operator.Tests.Memory.{
  answered, answered_response, lookup, Memory, memory, memory-IsLawful, memory-KeepsResponses,
}
use poll_operator.Tests.Runs.{world, clock}
use poll_operator.ResponseController.Reconcile.Errors.{Ends, reconcile_response-Ends}
use poll_operator.ResponseController.Reconcile.Again.{reconcile_response_again}
use poll_operator.PollController.Reconcile.{poll_object}
use poll_operator.ResponseController.Reconcile.Watches.{IsAsked, watches_cover}
use poll_operator.Kube.Lawful.{key}
use text.Mathlib.TextEquality.{eq_iff}
use poll_operator.PollController.Reconcile.{poll_requests, response_object}
use poll_operator.ResponseController.Reconcile.{response_requests}
use poll_operator.Tests.Verdicts.{plain}

abbrev pub owned_response : PollResponse
owned_response =
    let r = with_phase response_phase_accepted (response "a" (blue ∷ calm ∷ [])) in
    record r {
      meta = record r.meta {
        owner_references = record { kind = "Poll"; name = "paint"; uid = "paint" } ∷ [];
      };
    }

abbrev one_response : Memory
one_response = record { poll = paint; responses = owned_response ∷ [] }

abbrev response_key : NamespacedName
response_key = record { namespace = "team"; name = "a" }

watches_cover_example :
    Memᴰ (key paint) (poll_requests (poll_object paint))
    × ((k : NamespacedName)
        → Memᴰ k (response_requests memory (poll_object paint) one_response)
          ↔ IsAsked paint (owned_response ∷ []) k)
    × ((r : PollResponse)
        → r.spec.poll_ref.name ≡ "paint"
        → r.meta.namespace ≡ "team"
        → Memᴰ
            (record { namespace = r.meta.namespace; name = r.meta.name })
            (response_requests memory (response_object r) one_response)
          × Memᴰ (key paint) (poll_requests (response_object r)))
watches_cover_example =
    watches_cover memory paint one_response (owned_response ∷ [])
      (ground (arith, eq_iff "paint" "")) refl

-- A response as it is created, and the clock at one second.
abbrev fresh_response : PollResponse
fresh_response = with_phase "" (response "a" (blue ∷ calm ∷ []))

abbrev created : Memory
created = record { poll = paint; responses = fresh_response ∷ [] }

reconcile_response-Ends_example :
    Ends memory plain response_key
      (world created 1)
      (reconcile_response memory plain response_key (world created 1))
reconcile_response-Ends_example =
    reconcile_response-Ends memory plain response_key (world created 1)

first_run-Succeeded : Succeeded (reconcile_response memory plain response_key (world created 1)).0
unfolding string_eq is_owned_by reconcile_response ensure_owner_reference accept
    write_response_status response_status_equal validate_response check_answers index_by
    validate_answer validate_choice check_selections validate_free_text int32 accepted_status
    set_response_condition
first_run-Succeeded = (refl, refl)

-- The first run sets the owner reference and accepts the response.
reconcile_response_again_example :
    let s = (reconcile_response memory plain response_key (world created 1)).1.store in
    (reconcile_response memory plain response_key (world s 7)).1.store ≡ s
unfolding string_eq
reconcile_response_again_example =
    let found = λ (resp : PollResponse) (e : ok fresh_response ≡ ok resp).
      ap (λ x. answered_response x fresh_response) e in
    reconcile_response_again memory memory-IsLawful memory-KeepsResponses plain response_key
      (world created 1) clock 7
      (λ resp e. subst (λ r. IsUnique (condition_types r.status.conditions)) (found resp e) tt)
      (λ resp poll e e'.
        subst (λ p. has_closed p.spec.closes_at 7000000000 ≡ has_closed p.spec.closes_at 1000000000)
          (ap (λ x. answered x paint) (ap (λ r. lookup created (poll_key r)) (found resp e) ∙ e'))
          refl)
      first_run-Succeeded

settles_run-finished : (reconcile_response memory plain response_key (world created 1)).0 ≡ finished
unfolding string_eq is_owned_by reconcile_response ensure_owner_reference accept
    write_response_status response_status_equal validate_response check_answers index_by
    validate_answer validate_choice check_selections validate_free_text int32 accepted_status
    set_response_condition
settles_run-finished = refl

reconcile_response_settles_example :
    (after : PollResponse) × (memory.get_response
        (reconcile_response memory plain response_key (world created 1)).1.store
        response_key
      ≡ ok after)
    × (after.spec ≡ fresh_response.spec)
    × ((is_counted paint after ≡ true) ↔ (
        (has_closed paint.spec.closes_at ((world created 1).clock (world created 1).ticks) ≡ false)
        × All (Answers paint.spec.questions) fresh_response.spec.answers))
unfolding string_eq
reconcile_response_settles_example =
    reconcile_response_settles memory plain memory-IsLawful memory-KeepsResponses response_key
      (world created 1) fresh_response paint refl refl refl (paint-HasUniqueKeys.0)
      settles_run-finished
