-- ===== src/ResponseController/Reconcile/Judged.antt =====
-- The status that a verdict wants, and how a run ends that wants it.
use poll_operator.Base.{
  ℤ, true, false, Option, none, some, ◌≡◌, if◌then◌else◌, Bool-cases, inl, inr,
}
use poll_operator.Api.{Time, Poll, PollResponse, PollResponseStatus}
use poll_operator.Kube.{
  Kube, ok, failed, ApiError, is_conflict, World, Outcome, finished, requeued, gave_up, now, ◌>>=◌,
}
use poll_operator.Kube.Format.{Format}
use poll_operator.PollController.Reconcile.Again.{Answer-cases}
use poll_operator.ResponseController.Validate.{ValidationError, reason_poll_not_found}
use poll_operator.ResponseController.Status.{
  accepted_status, rejected_status, response_status_equal,
}
use poll_operator.ResponseController.Reconcile.{
  write_response_status, acceptance_time, accept, reject, judge, not_found_message,
}

-- A time of acceptance stays as it is.
abbrev pub first_set : Option Time → Time → Option Time
first_set (some t) u = some t
first_set none u = some u

module _ (kube : Kube) where
  abbrev pub orphan_error : Format → PollResponse → ValidationError
  orphan_error fmt resp = record {
    reason = reason_poll_not_found;
    message = not_found_message kube fmt resp;
  }

  -- `u` is the time of acceptance, if there is none yet.
  abbrev pub judged_status :
      PollResponse → ℤ → Option ValidationError → Time → Time → Time → PollResponseStatus
  judged_status resp generation none u t₁ t₂ =
      accepted_status kube resp.status resp.meta.generation generation
        (first_set resp.status.accepted_at u) t₁ t₂
  judged_status resp generation (some e) u t₁ t₂ =
      rejected_status kube resp.status resp.meta.generation generation e.reason e.message t₁ t₂

  -- A run that finds a response in a store and wants this status for it, and how it ends.
  pub data EndsWrite (resp : PollResponse) (desired : PollResponseStatus) (s : kube.Store)
      (r : Outcome × World kube.Store) : Type 0 where
    quiet :
        response_status_equal resp.status desired ≡ true
        → r.0 ≡ finished
        → r.1.store ≡ s
        → EndsWrite resp desired s r
    patched :
        (p : PollResponse)
        → response_status_equal resp.status desired ≡ false
        → kube.patch_response_status s resp (record resp { status = desired }) ≡ (ok p, r.1.store)
        → r.0 ≡ finished
        → EndsWrite resp desired s r
    refused :
        (x : ApiError)
        → response_status_equal resp.status desired ≡ false
        → kube.patch_response_status s resp (record resp { status = desired })
          ≡ (failed x, r.1.store)
        → r.0 ≡ (if is_conflict x then requeued else gave_up "patch PollResponse status" x)
        → EndsWrite resp desired s r

  -- A verdict is carried out.
  abbrev pub EndsJudged :
      PollResponse → ℤ → Option ValidationError → kube.Store → Outcome × World kube.Store → Type 0
  EndsJudged resp generation verdict s r =
      (u t₁ t₂ : Time) × EndsWrite resp (judged_status resp generation verdict u t₁ t₂) s r

  write_response_status-EndsWrite :
      (resp : PollResponse) (desired : PollResponseStatus) (v : World kube.Store)
      → EndsWrite resp desired v.store (write_response_status kube resp desired v)
  unfolding write_response_status
  write_response_status-EndsWrite resp desired v =
      let patch = kube.patch_response_status v.store resp (record resp { status = desired }) in
      elim (Bool-cases (response_status_equal resp.status desired)) [
        | inl same ↦ quiet same (rw same) (rw same)
        | inr noisy ↦ elim (Answer-cases patch.0) [
          | inl (p, e) ↦ patched p noisy (rw noisy (λ i. (e i, patch.1))) (rw (noisy, e))
          | inr (x, e) ↦ refused x noisy (rw noisy (λ i. (e i, patch.1))) (rw (noisy, e))
        ]
      ]

  -- `accept` from a time of acceptance.
  abbrev accept_from :
      PollResponse → ℤ → Option Time → World kube.Store → Outcome × World kube.Store
  accept_from resp generation at = do
    t ← acceptance_time kube at
    t₁ ← now
    t₂ ← now
    write_response_status kube resp
        (accepted_status kube resp.status resp.meta.generation generation t t₁ t₂)

  accept_from-EndsWrite :
      (resp : PollResponse) (generation : ℤ) (at : Option Time) (v : World kube.Store)
      → (u t₁ t₂ : Time) × EndsWrite resp
          (accepted_status kube resp.status resp.meta.generation generation (first_set at u) t₁ t₂)
          v.store
          (accept_from resp generation at v)
  accept_from-EndsWrite resp generation (some t) v =
      let (t₁, v₁) = now v in
      let (t₂, v₂) = now v₁ in (0, t₁, t₂, write_response_status-EndsWrite resp _ v₂)
  accept_from-EndsWrite resp generation none v =
      let (t, v') = now v in
      let (t₁, v₁) = now v' in
      let (t₂, v₂) = now v₁ in (t, t₁, t₂, write_response_status-EndsWrite resp _ v₂)

  accept-EndsJudged :
      (resp : PollResponse) (generation : ℤ) (v : World kube.Store)
      → EndsJudged resp generation none v.store (accept kube resp generation v)
  unfolding accept
  accept-EndsJudged resp generation v =
      accept_from-EndsWrite resp generation resp.status.accepted_at v

  pub reject-EndsJudged :
      (resp : PollResponse) (generation : ℤ) (e : ValidationError) (v : World kube.Store)
      → EndsJudged resp generation
          (some e)
          v.store
          (reject kube resp generation e.reason e.message v)
  unfolding reject
  reject-EndsJudged resp generation e v =
      let (t₁, v₁) = now v in
      let (t₂, v₂) = now v₁ in (0, t₁, t₂, write_response_status-EndsWrite resp _ v₂)

  pub judge-EndsJudged :
      (fmt : Format) (resp : PollResponse) (poll : Poll) (verdict : Option ValidationError)
      (v : World kube.Store)
      → EndsJudged resp poll.meta.generation verdict v.store (judge kube fmt resp poll verdict v)
  judge-EndsJudged fmt resp poll none v = accept-EndsJudged resp poll.meta.generation v
  judge-EndsJudged fmt resp poll (some e) v = reject-EndsJudged resp poll.meta.generation e v
