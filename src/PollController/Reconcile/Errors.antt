-- ===== src/PollController/Reconcile/Errors.antt =====
-- What a run of the reconciler may write, and how it reports the failures of the API server.
use poll_operator.Base.{
  suc, true, false, List, ◌≡◌, ◌⊎◌, inl, inr, ap, ◌∙◌, arith, if◌then◌else◌, Bool-cases,
}
use poll_operator.Api.{NamespacedName, Poll, PollStatus, PollResponse, PollPhase}
use poll_operator.Kube.{
  Kube, Answer, ok, failed, ApiError, is_not_found, is_conflict, World, Outcome, finished, requeued,
  gave_up,
}
use poll_operator.PollController.Phase.{compute_phase}
use poll_operator.PollController.Reconcile.{reconcile, after_patch, write_status, requeue_at_close}
use poll_operator.PollController.Reconcile.Again.{
  reconcile-found, wanted_now, patch_now, requeue_at_close-store, reconcile_quiet,
  reconcile_patched, Answer-cases, Succeeded,
}
use poll_operator.PollController.StatusEqual.{status_equal}

module _ (kube : Kube) (req : NamespacedName) (w : World kube.Store) where
  -- What the store is after one patch of the status of the Poll that was read.
  abbrev pub IsPatched : kube.Store → Type 0
  IsPatched s =
      (poll : Poll) × (desired : PollStatus) × (kube.get_poll w.store req ≡ ok poll)
      × (s ≡ (kube.patch_poll_status w.store poll (record poll { status = desired })).1)

  after_patch-store :
      (phase : PollPhase) (answer : Answer Poll) (v : World kube.Store)
      → (after_patch kube phase answer v).1.store ≡ v.store
  after_patch-store phase (ok poll) v = requeue_at_close-store kube phase poll v
  after_patch-store phase (failed x) v = ground arith

  -- A run leaves the store as it was, or makes one patch: of the status of the Poll that it was
  -- called for, and of nothing else.
  pub reconcile_one_write :
      ((reconcile kube req w).1.store ≡ w.store) ⊎ IsPatched (reconcile kube req w).1.store
  unfolding reconcile
  reconcile_one_write = elim (Answer-cases (kube.get_poll w.store req)) [
    | inr (x, missing) ↦ inl (rw missing)
    | inl (poll, got) ↦ elim (Answer-cases (kube.list_responses w.store poll.meta.namespace)) [
      | inr (x, unlisted) ↦ inl (rw (got, unlisted))
      | inl (responses, listed) ↦
          elim (Bool-cases
            (status_equal poll.status (wanted_now kube req poll responses w got listed))) [
              | inl quiet ↦ inl (reconcile_quiet kube req poll responses w got listed quiet)
              | inr noisy ↦ inr (
                poll,
                wanted_now kube req poll responses w got listed,
                got,
                ap (λ o. o.1.store) (reconcile-found kube req poll responses w got listed)
                    ∙ rw noisy (after_patch-store _ _ _),
              )
            ]
    ]
  ]

  -- How a run ends: the result, and the world that it leaves.
  pub data Ends (r : Outcome × World kube.Store) : Type 0 where
    gone :
        (x : ApiError)
        → kube.get_poll w.store req ≡ failed x
        → is_not_found x ≡ true
        → r ≡ (finished, w)
        → Ends r
    unread :
        (x : ApiError)
        → kube.get_poll w.store req ≡ failed x
        → is_not_found x ≡ false
        → r ≡ (gave_up "get Poll" x, w)
        → Ends r
    unlisted :
        (poll : Poll) (x : ApiError)
        → kube.get_poll w.store req ≡ ok poll
        → kube.list_responses w.store poll.meta.namespace ≡ failed x
        → r.0 ≡ gave_up "list PollResponses" x
        → r.1.store ≡ w.store
        → Ends r
    quiet :
        (poll : Poll) (responses : List PollResponse) (got : kube.get_poll w.store req ≡ ok poll)
        (listed : kube.list_responses w.store poll.meta.namespace ≡ ok responses)
        → status_equal poll.status (wanted_now kube req poll responses w got listed) ≡ true
        → Succeeded r.0
        → r.1.store ≡ w.store
        → Ends r
    patched :
        (poll : Poll) (responses : List PollResponse) (p : Poll)
        (got : kube.get_poll w.store req ≡ ok poll)
        (listed : kube.list_responses w.store poll.meta.namespace ≡ ok responses)
        → status_equal poll.status (wanted_now kube req poll responses w got listed) ≡ false
        → (patch_now kube req poll responses w got listed).0 ≡ ok p
        → Succeeded r.0
        → r.1.store ≡ (patch_now kube req poll responses w got listed).1
        → Ends r
    refused :
        (poll : Poll) (responses : List PollResponse) (x : ApiError)
        (got : kube.get_poll w.store req ≡ ok poll)
        (listed : kube.list_responses w.store poll.meta.namespace ≡ ok responses)
        → status_equal poll.status (wanted_now kube req poll responses w got listed) ≡ false
        → (patch_now kube req poll responses w got listed).0 ≡ failed x
        → r.0 ≡ (if is_conflict x then requeued else gave_up "patch Poll status" x)
        → r.1.store ≡ (patch_now kube req poll responses w got listed).1
        → Ends r

  requeue_at_close-Succeeded :
      (phase : PollPhase) (poll : Poll) (v : World kube.Store)
      → Succeeded (requeue_at_close kube phase poll v).0
  unfolding requeue_at_close
  requeue_at_close-Succeeded phase poll v = ground arith

  module _ (poll : Poll) (responses : List PollResponse) (got : kube.get_poll w.store req ≡ ok poll)
      (listed : kube.list_responses w.store poll.meta.namespace ≡ ok responses) where
    run :
        reconcile kube req w
        ≡ write_status kube
            (compute_phase poll poll.status (w.clock w.ticks)).0
            poll
            (wanted_now kube req poll responses w got listed)
            (record w { ticks = suc (suc (suc w.ticks)) })
    run = reconcile-found kube req poll responses w got listed

    listed-Ends : Ends (reconcile kube req w)
    listed-Ends =
        elim (Bool-cases
          (status_equal poll.status (wanted_now kube req poll responses w got listed))) [
            | inl same ↦
                quiet poll responses got listed same
                  (rw (run, same) (requeue_at_close-Succeeded _ poll _))
                  (reconcile_quiet kube req poll responses w got listed same)
            | inr noisy ↦ elim (Answer-cases (patch_now kube req poll responses w got listed).0) [
              | inl (p, e) ↦
                  patched poll responses p got listed noisy e
                    (rw (run, noisy, e) (requeue_at_close-Succeeded _ p _))
                    (reconcile_patched kube req poll responses w got listed p noisy e)
              | inr (x, e) ↦
                  refused poll responses x got listed noisy e
                    (ap (λ o. o.0) run ∙ rw (noisy, e) (ground arith))
                    (ap (λ o. o.1.store) run ∙ rw (noisy, e) (ground arith))
            ]
          ]

  -- Every run ends in one of six ways. A Poll that is gone ends it without an error and a Poll that
  -- cannot be read, or whose responses cannot be listed, with the step that failed, and nothing is
  -- written. Otherwise the run succeeds with nothing to write, or succeeds after one patch, or the
  -- patch fails: a conflict asks for another run at once, any other failure is returned.
  pub reconcile-Ends : Ends (reconcile kube req w)
  unfolding reconcile
  reconcile-Ends = elim (Answer-cases (kube.get_poll w.store req)) [
    | inr (x, missing) ↦ elim (Bool-cases (is_not_found x)) [
      | inl absent ↦ gone x missing absent (rw (missing, absent))
      | inr broken ↦ unread x missing broken (rw (missing, broken))
    ]
    | inl (poll, got) ↦ elim (Answer-cases (kube.list_responses w.store poll.meta.namespace)) [
      | inr (x, lost) ↦ unlisted poll x got lost (rw (got, lost)) (rw (got, lost))
      | inl (responses, listed) ↦ listed-Ends poll responses got listed
    ]
  ]
