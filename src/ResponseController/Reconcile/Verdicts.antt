-- ===== src/ResponseController/Reconcile/Verdicts.antt =====
-- What a run of the reconciler of a response leaves behind.
use mathlib.Core.Path.{subst}
use poll_operator.Base.{
  String, true, Option, none, some, ◌≡◌, ◌↔◌, ◌⊎◌, inl, inr, refl, arith, string_eq, Bool-cases, ℤ,
}
use poll_operator.Api.{
  Time, Poll, PollResponse, PollResponseStatus, NamespacedName, response_phase_accepted,
  response_phase_rejected, rejected-ne-accepted,
}
use poll_operator.Kube.{Kube, ok, failed, not_found, World, now}
use poll_operator.Kube.Format.{Format}
use poll_operator.ResponseController.Validate.{ValidationError, validate_response}
use poll_operator.ResponseController.Status.{
  accepted_status, rejected_status, set_response_condition, response_status_equal,
}
use poll_operator.ResponseController.Reconcile.{
  write_response_status, acceptance_time, accept, reject, judge, is_zero, is_owned_by,
  ensure_owner_reference, poll_key, reconcile_response,
}

module _ (kube : Kube) (resp : PollResponse) where
  -- A status with this phase was wanted, and the store holds it, or the answer to its patch.
  pub record IsWritten (phase : String) (before after : kube.Store) : Type 0 where
    pub desired : PollResponseStatus
    pub wanted : desired.phase ≡ phase
    pub kept_or_patched :
        ((after ≡ before) × (resp.status.phase ≡ phase))
        ⊎ (after ≡ (kube.patch_response_status before resp (record resp { status = desired })).1)

  pub response_status_equal-phase :
      (desired : PollResponseStatus)
      → response_status_equal resp.status desired ≡ true
      → resp.status.phase ≡ desired.phase
  unfolding response_status_equal
  response_status_equal-phase desired e = ground arith

  write_response_status-IsWritten :
      (desired : PollResponseStatus) (v : World kube.Store)
      → IsWritten desired.phase v.store (write_response_status kube resp desired v).1.store
  unfolding write_response_status
  write_response_status-IsWritten desired v =
      elim (Bool-cases (response_status_equal resp.status desired)) [
        | inl same ↦ record {
          desired = desired;
          wanted = refl;
          kept_or_patched = inl (rw same, response_status_equal-phase desired same);
        }
        | inr noisy ↦ record { desired = desired; wanted = refl; kept_or_patched = inr (rw noisy) }
      ]

  acceptance_time-store :
      (t : Option Time) (v : World kube.Store) → (acceptance_time kube t v).1.store ≡ v.store
  acceptance_time-store none v = refl
  acceptance_time-store (some t) v = refl

  accept-IsWritten :
      (generation : ℤ) (v : World kube.Store)
      → IsWritten response_phase_accepted v.store (accept kube resp generation v).1.store
  unfolding accept accepted_status set_response_condition
  accept-IsWritten generation v =
      let (t, v') = acceptance_time kube resp.status.accepted_at v in
      let (t₁, v₁) = now v' in
      let (t₂, v₂) = now v₁ in
      subst (λ s. IsWritten response_phase_accepted s (accept kube resp generation v).1.store)
        (acceptance_time-store resp.status.accepted_at v)
        (write_response_status-IsWritten
          (accepted_status kube resp.status resp.meta.generation generation t t₁ t₂) v₂)

  reject-IsWritten :
      (generation : ℤ) (reason message : String) (v : World kube.Store)
      → IsWritten response_phase_rejected v.store
          (reject kube resp generation reason message v).1.store
  unfolding reject rejected_status set_response_condition
  reject-IsWritten generation reason message v = write_response_status-IsWritten _ _

module _ (kube : Kube) (fmt : Format) (req : NamespacedName) (resp : PollResponse)
    (w : World kube.Store) (got : kube.get_response w.store req ≡ ok resp)
    (alive : is_zero resp.meta.deletion_timestamp ≡ true) where
  judge-IsWritten :
      (poll : Poll) (verdict : Option ValidationError) (v : World kube.Store)
      → (phase : String) × ((phase ≡ response_phase_accepted) ↔ (verdict ≡ none))
        × IsWritten kube resp phase v.store (judge kube fmt resp poll verdict v).1.store
  judge-IsWritten poll none v = (
    response_phase_accepted,
    (λ _. refl, λ _. refl),
    accept-IsWritten kube resp poll.meta.generation v,
  )
  judge-IsWritten poll (some e) v = (
    response_phase_rejected,
    (λ same. absurd (rejected-ne-accepted same), λ h. cc),
    reject-IsWritten kube resp poll.meta.generation e.reason e.message v,
  )

  -- A run on a response that exists, is not being deleted and is owned by its Poll leaves it
  -- Accepted exactly if it passes validation at the time of the run: it is so already, or its status
  -- is patched to be so.
  pub reconcile_response_verdict :
      (poll : Poll)
      → kube.get_poll w.store (poll_key resp) ≡ ok poll
      → is_owned_by poll.meta.uid resp.meta.owner_references ≡ true
      → (phase : String) × ((phase ≡ response_phase_accepted)
          ↔ (validate_response fmt poll resp (w.clock w.ticks) ≡ none))
        × IsWritten kube resp phase w.store (reconcile_response kube fmt req w).1.store
  unfolding reconcile_response ensure_owner_reference
  reconcile_response_verdict poll found owned =
      rw (got, alive, found, owned)
        (judge-IsWritten poll (validate_response fmt poll resp (w.clock w.ticks)) _)

  -- A run on a response that exists and is not being deleted, and whose Poll is gone, leaves it
  -- Rejected.
  pub reconcile_response_orphan :
      (m : String)
      → kube.get_poll w.store (poll_key resp) ≡ failed (not_found m)
      → IsWritten kube resp response_phase_rejected w.store
          (reconcile_response kube fmt req w).1.store
  unfolding reconcile_response
  reconcile_response_orphan m missing =
      rw (got, alive, missing) (reject-IsWritten kube resp _ _ _ w)
