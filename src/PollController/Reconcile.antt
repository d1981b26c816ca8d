-- ===== src/PollController/Reconcile.antt =====
-- `PollReconciler.Reconcile` of internal/controller/poll_controller.go, and the mapping of a
-- changed response to its Poll.
pub mod Desired
pub mod Quiet
pub mod Again
pub mod Errors
pub mod Timing
pub mod Written
use poll_operator.Base.{
  ℕ, ℤ, pos, negsuc, String, Bool, Option, none, some, List, [], ◌∷◌, ◌-◌, min, leb, not,
}
use poll_operator.Base.{◌&&◌, ◌==◌, string_eq, if◌then◌else◌, is_positive}
use poll_operator.Api.{
  Time, NamespacedName, Poll, PollStatus, PollPhase, PollResponse, poll_phase_open,
}
use poll_operator.Kube.{
  Kube, Answer, ok, failed, ApiError, is_not_found, is_conflict, Outcome, World, finished, requeued,
  requeued_after, gave_up, pure, now, reads, writes, ◌>>=◌,
}
use poll_operator.PollController.Phase.{compute_phase}
use poll_operator.PollController.Aggregate.{aggregate_results}
use poll_operator.PollController.Ready.{set_ready_condition}
use poll_operator.PollController.StatusEqual.{status_equal}

abbrev pub max_duration : ℕ
max_duration = 9223372036854775807

-- `time.Until`: the time left, a duration, which saturates.
unfoldable pub until : Time → Time → ℤ
until t now =
    if leb now t then pos (min (t - now) max_duration) else negsuc (min (now - t - 1) max_duration)

module _ (kube : Kube) where
  open kube use {Store, get_poll, list_responses, patch_poll_status}

  abbrev Action : Type 0
  Action = World Store → Outcome × World Store

  -- The status that is wanted: lifecycle, results, and the Ready condition. `t` is the reading at
  -- the start, and `t'` and `t''` are those of `setReadyCondition`.
  unfoldable pub desired_status : Poll → List PollResponse → Time → Time → Time → PollStatus
  unfolding set_ready_condition
  desired_status poll responses t t' t'' =
      let (phase, status) = compute_phase poll poll.status t in
      let (results, total) = aggregate_results poll responses in
      set_ready_condition kube
        (record status { phase = phase; results = results; total_responses = total }) phase
        poll.meta.generation t' t''

  -- The end of the handler: requeue at `closesAt`.
  unfoldable pub requeue_at_close : PollPhase → Poll → Action
  unfolding until
  requeue_at_close phase poll = elim poll.spec.closes_at [
    | none ↦ pure finished
    | some t ↦
        if phase == poll_phase_open
        then (do
          t' ← now
          pure (if is_positive (until t t') then requeued_after (until t t') else finished))
        else pure finished
  ]

  -- After the patch, whose answer replaces the Poll at hand.
  abbrev pub after_patch : PollPhase → Answer Poll → Action
  after_patch phase (ok poll) = requeue_at_close phase poll
  after_patch phase (failed e) =
      if is_conflict e then pure requeued else pure (gave_up "patch Poll status" e)

  abbrev pub write_status : PollPhase → Poll → PollStatus → Action
  write_status phase poll desired =
      if not (status_equal poll.status desired)
      then (do
        patched ← writes (λ s. patch_poll_status s poll (record poll { status = desired }))
        after_patch phase patched)
      else requeue_at_close phase poll

  abbrev pub after_list : Poll → Time → Answer (List PollResponse) → Action
  after_list poll t (failed e) = pure (gave_up "list PollResponses" e)
  after_list poll t (ok responses) = do
    t' ← now
    t'' ← now
    write_status (compute_phase poll poll.status t).0 poll (desired_status poll responses t t' t'')

  abbrev pub after_get : Answer Poll → Action
  after_get (failed e) = pure (if is_not_found e then finished else gave_up "get Poll" e)
  after_get (ok poll) = do
    t ← now
    answer ← reads (λ s. list_responses s poll.meta.namespace)
    after_list poll t answer

  unfoldable pub reconcile : NamespacedName → Action
  unfolding requeue_at_close
  reconcile req = do answer ← reads (λ s. get_poll s req); after_get answer

-- The object that a watch delivers, of either kind.
pub data Object : Type 0 where
  poll_object : Poll → Object
  response_object : PollResponse → Object

unfoldable pub map_response_to_poll : Object → List NamespacedName
map_response_to_poll (poll_object poll) = []
map_response_to_poll (response_object resp) =
    if resp.spec.poll_ref.name == ""
    then []
    else record { namespace = resp.meta.namespace; name = resp.spec.poll_ref.name } ∷ []

-- What `SetupWithManager` asks for: a changed Poll for its own reconcile, and a changed response for
-- that of its Poll.
unfoldable pub poll_requests : Object → List NamespacedName
poll_requests (poll_object poll) =
    record { namespace = poll.meta.namespace; name = poll.meta.name } ∷ []
poll_requests (response_object resp) = map_response_to_poll (response_object resp)
