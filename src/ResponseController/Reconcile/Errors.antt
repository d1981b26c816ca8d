-- ===== src/ResponseController/Reconcile/Errors.antt =====
-- How the reconciler of responses ends, and how it reports the failures of the API server.
use poll_operator.Base.{true, false, some, ◌≡◌, inl, inr, refl, Bool-cases, string_eq, pos, suc}
use poll_operator.Api.{NamespacedName, Poll, PollResponse}
use poll_operator.Kube.{Kube, ok, failed, ApiError, is_not_found, World, Outcome, finished, gave_up}
use poll_operator.Kube.Format.{Format}
use poll_operator.PollController.Reconcile.Again.{Answer-cases}
use poll_operator.ResponseController.Validate.{validate_response}
use poll_operator.ResponseController.Reconcile.Judged.{
  orphan_error, EndsJudged, judge-EndsJudged, reject-EndsJudged,
}
use poll_operator.ResponseController.Reconcile.{
  owned, after_owned, is_zero, is_owned_by, ensure_owner_reference, poll_key, reconcile_response,
}

module _ (kube : Kube) (fmt : Format) (req : NamespacedName) (w : World kube.Store) where
  -- The response with its owner reference, and the store that holds it: the reference was there, or
  -- was added by a patch.
  pub data IsOwned (resp : PollResponse) (poll : Poll) (o : PollResponse) (s : kube.Store)
      : Type 0 where
    before :
        is_owned_by poll.meta.uid resp.meta.owner_references ≡ true
        → o ≡ resp
        → s ≡ w.store
        → IsOwned resp poll o s
    added :
        (changed : PollResponse)
        → is_owned_by poll.meta.uid resp.meta.owner_references ≡ false
        → kube.set_controller_reference poll resp ≡ ok changed
        → kube.patch_response w.store resp changed ≡ (ok o, s)
        → IsOwned resp poll o s

  pub data Ends (r : Outcome × World kube.Store) : Type 0 where
    gone :
        (x : ApiError)
        → kube.get_response w.store req ≡ failed x
        → is_not_found x ≡ true
        → r ≡ (finished, w)
        → Ends r
    unread :
        (x : ApiError)
        → kube.get_response w.store req ≡ failed x
        → is_not_found x ≡ false
        → r ≡ (gave_up "get PollResponse" x, w)
        → Ends r
    deleting :
        (resp : PollResponse)
        → kube.get_response w.store req ≡ ok resp
        → is_zero resp.meta.deletion_timestamp ≡ false
        → r ≡ (finished, w)
        → Ends r
    orphaned :
        (resp : PollResponse) (x : ApiError)
        → kube.get_response w.store req ≡ ok resp
        → is_zero resp.meta.deletion_timestamp ≡ true
        → kube.get_poll w.store (poll_key resp) ≡ failed x
        → is_not_found x ≡ true
        → EndsJudged kube resp (pos 0) (some (orphan_error kube fmt resp)) w.store r
        → Ends r
    poll_unread :
        (resp : PollResponse) (x : ApiError)
        → kube.get_response w.store req ≡ ok resp
        → is_zero resp.meta.deletion_timestamp ≡ true
        → kube.get_poll w.store (poll_key resp) ≡ failed x
        → is_not_found x ≡ false
        → r ≡ (gave_up "get Poll" x, w)
        → Ends r
    unreferenced :
        (resp : PollResponse) (poll : Poll) (x : ApiError)
        → kube.get_response w.store req ≡ ok resp
        → is_zero resp.meta.deletion_timestamp ≡ true
        → kube.get_poll w.store (poll_key resp) ≡ ok poll
        → kube.set_controller_reference poll resp ≡ failed x
        → r ≡ (gave_up "set controller reference" x, w)
        → Ends r
    unowned :
        (resp changed : PollResponse) (poll : Poll) (x : ApiError)
        → kube.get_response w.store req ≡ ok resp
        → is_zero resp.meta.deletion_timestamp ≡ true
        → kube.get_poll w.store (poll_key resp) ≡ ok poll
        → kube.set_controller_reference poll resp ≡ ok changed
        → kube.patch_response w.store resp changed ≡ (failed x, r.1.store)
        → r.0 ≡ gave_up "patch owner reference" x
        → Ends r
    judged :
        (resp o : PollResponse) (poll : Poll) (s : kube.Store)
        → kube.get_response w.store req ≡ ok resp
        → is_zero resp.meta.deletion_timestamp ≡ true
        → kube.get_poll w.store (poll_key resp) ≡ ok poll
        → IsOwned resp poll o s
        → EndsJudged kube o poll.meta.generation
            (validate_response fmt poll o (w.clock w.ticks))
            s
            r
        → Ends r

  module _ (resp : PollResponse) (got : kube.get_response w.store req ≡ ok resp)
      (alive : is_zero resp.meta.deletion_timestamp ≡ true) where
    judged-Ends :
        (poll : Poll) (o : PollResponse) (s : kube.Store)
        → kube.get_poll w.store (poll_key resp) ≡ ok poll
        → IsOwned resp poll o s
        → Ends (after_owned kube fmt poll (owned o) (record w { store = s }))
    judged-Ends poll o s found by = judged resp o poll s got alive found by (
        judge-EndsJudged kube fmt o poll (validate_response fmt poll o (w.clock w.ticks))
          (record w { store = s; ticks = suc w.ticks }))

    found-Ends :
        (poll : Poll)
        → kube.get_poll w.store (poll_key resp) ≡ ok poll
        → Ends (reconcile_response kube fmt req w)
    unfolding reconcile_response ensure_owner_reference
    found-Ends poll found =
        elim (Bool-cases (is_owned_by poll.meta.uid resp.meta.owner_references)) [
          | inl mine ↦
              rw (got, alive, found, mine)
                (judged-Ends poll resp w.store found (before mine refl refl))
          | inr other ↦ elim (Answer-cases (kube.set_controller_reference poll resp)) [
            | inr (x, e) ↦
                unreferenced resp poll x got alive found e (rw (got, alive, found, other, e))
            | inl (changed, set) ↦
                let patch = kube.patch_response w.store resp changed in
                elim (Answer-cases patch.0) [
                  | inr (x, e) ↦
                      rw (got, alive, found, other, set, e)
                        (unowned resp changed poll x got alive found set (λ i. (e i, patch.1)) refl)
                  | inl (o, e) ↦
                      rw (got, alive, found, other, set, e)
                        (judged-Ends poll o patch.1 found
                          (added changed other set (λ i. (e i, patch.1))))
                ]
          ]
        ]

    alive-Ends : Ends (reconcile_response kube fmt req w)
    unfolding reconcile_response
    alive-Ends = elim (Answer-cases (kube.get_poll w.store (poll_key resp))) [
      | inl (poll, found) ↦ found-Ends poll found
      | inr (x, missing) ↦ elim (Bool-cases (is_not_found x)) [
        | inl absent ↦ orphaned resp x got alive missing absent (
            rw (got, alive, missing, absent)
              (reject-EndsJudged kube resp (pos 0) (orphan_error kube fmt resp) w))
        | inr broken ↦
            poll_unread resp x got alive missing broken (rw (got, alive, missing, broken))
      ]
    ]

  -- Every run ends in one of eight ways. A response that is gone or is being deleted ends it without
  -- an error, and one that cannot be read, or whose Poll cannot be read, with the step that failed,
  -- and nothing is written. Where the Poll is gone, the status of a rejection for that reason is
  -- wanted. Otherwise the owner reference is set, where it is missing, and a failure of that is
  -- returned; and then the status is wanted of the verdict at the time of the run. A status that is
  -- wanted takes no patch, if nothing but transition times would change, or one: where that fails, a
  -- conflict asks for another run at once and any other failure is returned.
  pub reconcile_response-Ends : Ends (reconcile_response kube fmt req w)
  unfolding reconcile_response
  reconcile_response-Ends = elim (Answer-cases (kube.get_response w.store req)) [
    | inr (x, missing) ↦ elim (Bool-cases (is_not_found x)) [
      | inl absent ↦ gone x missing absent (rw (missing, absent))
      | inr broken ↦ unread x missing broken (rw (missing, broken))
    ]
    | inl (resp, got) ↦ elim (Bool-cases (is_zero resp.meta.deletion_timestamp)) [
      | inl alive ↦ alive-Ends resp got alive
      | inr deleted ↦ deleting resp got deleted (rw (got, deleted))
    ]
  ]
