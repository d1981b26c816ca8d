-- ===== src/ResponseController/Reconcile.antt =====
-- `PollResponseReconciler.Reconcile`, `ensureOwnerReference`, `accept`, `reject` and
-- `mapPollToResponses` of internal/controller/pollresponse_controller.go.
pub mod Verdicts
pub mod Closing
pub mod Watches
pub mod Judged
pub mod Errors
pub mod Wanted
pub mod Settled
pub mod Quiet
pub mod Again
use poll_operator.Base.{ℤ, pos, String, ◌<>◌, Bool, true, false, Option, none, some, List, [], ◌∷◌}
use poll_operator.Base.{not, ◌==◌, string_eq, nat_eq, if◌then◌else◌}
use poll_operator.Api.{Time, NamespacedName, OwnerReference, Poll, PollResponse, PollResponseStatus}
use poll_operator.Kube.{
  Kube, Answer, ok, failed, ApiError, is_not_found, is_conflict, Outcome, World, finished, requeued,
  gave_up, pure, now, reads, writes, ◌>>=◌,
}
use poll_operator.Kube.Format.{Format}
use poll_operator.PollController.Reconcile.{Object, poll_object, response_object}
use poll_operator.ResponseController.Validate.{
  ValidationError, validate_response, reason_poll_not_found,
}
use poll_operator.ResponseController.Status.{
  accepted_status, rejected_status, response_status_equal,
}

-- `t.IsZero()`, of a pointer that may be nil
abbrev pub is_zero : Option Time → Bool
is_zero none = true
is_zero (some t) = t == 0

unfoldable pub is_owned_by : String → List OwnerReference → Bool
is_owned_by uid [] = false
is_owned_by uid (ref ∷ refs) = if ref.uid == uid then true else is_owned_by uid refs

-- The response as it is afterwards, or the error and the step that failed.
pub data Owned : Type 0 where
  owned : PollResponse → Owned
  not_owned : String → ApiError → Owned

abbrev pub after_owner_patch : Answer PollResponse → Owned
after_owner_patch (ok resp) = owned resp
after_owner_patch (failed e) = not_owned "patch owner reference" e

-- The end of `accept` and of `reject`: the status patch, unless nothing has changed.
abbrev pub after_status_patch : Answer PollResponse → Outcome
after_status_patch (ok resp) = finished
after_status_patch (failed e) =
    if is_conflict e then requeued else gave_up "patch PollResponse status" e

-- The responses that refer to a Poll, as requests.
unfoldable pub requests_for : Poll → List PollResponse → List NamespacedName
requests_for poll [] = []
requests_for poll (resp ∷ resps) =
    let rest = requests_for poll resps in
    if not (resp.spec.poll_ref.name == poll.meta.name)
    then rest
    else record { namespace = resp.meta.namespace; name = resp.meta.name } ∷ rest

abbrev pub requests_of : Poll → Answer (List PollResponse) → List NamespacedName
requests_of poll (failed e) = []
requests_of poll (ok resps) = requests_for poll resps

abbrev pub poll_key : PollResponse → NamespacedName
poll_key resp = record { namespace = resp.meta.namespace; name = resp.spec.poll_ref.name }

module _ (kube : Kube) where
  open kube use {
    Store, get_poll, get_response, list_responses, patch_response, patch_response_status,
    set_controller_reference,
  }

  abbrev Action : Type 0 → Type 0
  Action A = World Store → A × World Store

  unfoldable pub write_response_status : PollResponse → PollResponseStatus → Action Outcome
  write_response_status resp desired =
      if response_status_equal resp.status desired then pure finished else do
        patched ← writes (λ s. patch_response_status s resp (record resp { status = desired }))
        pure (after_status_patch patched)

  -- The clock is read where `acceptedAt` is not set yet.
  abbrev pub acceptance_time : Option Time → Action (Option Time)
  acceptance_time (some t) = pure (some t)
  acceptance_time none = do t ← now; pure (some t)

  unfoldable pub accept : PollResponse → ℤ → Action Outcome
  accept resp poll_generation = do
    t ← acceptance_time resp.status.accepted_at
    t₁ ← now
    t₂ ← now
    write_response_status resp
        (accepted_status kube resp.status resp.meta.generation poll_generation t t₁ t₂)

  unfoldable pub reject : PollResponse → ℤ → String → String → Action Outcome
  reject resp poll_generation reason message = do
    t₁ ← now
    t₂ ← now
    write_response_status resp
        (rejected_status kube resp.status resp.meta.generation poll_generation reason message t₁ t₂)

  abbrev pub patch_owner : PollResponse → Answer PollResponse → Action Owned
  patch_owner resp (failed e) = pure (not_owned "set controller reference" e)
  patch_owner resp (ok changed) = do
    patched ← writes (λ s. patch_response s resp changed)
    pure (after_owner_patch patched)

  unfoldable pub ensure_owner_reference : PollResponse → Poll → Action Owned
  unfolding is_owned_by
  ensure_owner_reference resp poll =
      if is_owned_by poll.meta.uid resp.meta.owner_references
      then pure (owned resp)
      else patch_owner resp (set_controller_reference poll resp)

  module _ (fmt : Format) where
    abbrev pub judge : PollResponse → Poll → Option ValidationError → Action Outcome
    judge resp poll none = accept resp poll.meta.generation
    judge resp poll (some e) = reject resp poll.meta.generation e.reason e.message

    abbrev pub after_owned : Poll → Owned → Action Outcome
    after_owned poll (not_owned context e) = pure (gave_up context e)
    after_owned poll (owned resp) = do t ← now; judge resp poll (validate_response fmt poll resp t)

    abbrev pub not_found_message : PollResponse → String
    not_found_message resp =
        "Poll "
        <> fmt.quote resp.spec.poll_ref.name
        <> " not found in namespace "
        <> fmt.quote resp.meta.namespace

    abbrev pub after_poll : PollResponse → Answer Poll → Action Outcome
    after_poll resp (failed e) =
        if is_not_found e
        then reject resp (pos 0) reason_poll_not_found (not_found_message resp)
        else pure (gave_up "get Poll" e)
    after_poll resp (ok poll) = do
      result ← ensure_owner_reference resp poll
      after_owned poll result

    abbrev pub after_response : Answer PollResponse → Action Outcome
    after_response (failed e) =
        pure (if is_not_found e then finished else gave_up "get PollResponse" e)
    after_response (ok resp) =
        if not (is_zero resp.meta.deletion_timestamp)
        then pure finished
        else do answer ← reads (λ s. get_poll s (poll_key resp)); after_poll resp answer

    unfoldable pub reconcile_response : NamespacedName → Action Outcome
    reconcile_response req = do answer ← reads (λ s. get_response s req); after_response answer

  unfoldable pub map_poll_to_responses : Object → Store → List NamespacedName
  unfolding requests_for
  map_poll_to_responses (response_object resp) s = []
  map_poll_to_responses (poll_object poll) s =
      requests_of poll (list_responses s poll.meta.namespace)

  -- What `SetupWithManager` asks for: a changed response for its own reconcile, and a changed Poll
  -- for those of its responses.
  unfoldable pub response_requests : Object → Store → List NamespacedName
  response_requests (response_object resp) s =
      record { namespace = resp.meta.namespace; name = resp.meta.name } ∷ []
  response_requests (poll_object poll) s = map_poll_to_responses (poll_object poll) s
