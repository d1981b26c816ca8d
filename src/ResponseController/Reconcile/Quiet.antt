-- ===== src/ResponseController/Reconcile/Quiet.antt =====
-- Runs of the reconciler of responses that find nothing to write.
use poll_operator.Base.{
  ℕ, suc, ℤ, pos, String, true, Option, some, List, [], ◌∷◌, Memᴰ, ◌≡◌, refl, ap, sym, ◌∙◌, arith,
  string_eq, nat_eq, if◌then◌else◌,
}
use poll_operator.Api.{Time, NamespacedName, OwnerReference, Poll, PollResponse, PollResponseStatus}
use poll_operator.Kube.{
  Kube, ok, failed, ApiError, is_not_found, is_conflict, World, Outcome, requeued, gave_up,
}
use poll_operator.Kube.Format.{Format}
use poll_operator.PollController.Phase.{has_closed}
use poll_operator.PollController.Reconcile.Again.{Succeeded}
use poll_operator.ResponseController.Validate.{ValidationError, validate_response}
use poll_operator.ResponseController.Status.{response_status_equal}
use poll_operator.ResponseController.Reconcile.{
  is_zero, is_owned_by, poll_key, ensure_owner_reference, reconcile_response,
}
use poll_operator.ResponseController.Reconcile.Judged.{
  orphan_error, judged_status, EndsWrite, judge-EndsJudged, reject-EndsJudged,
}

pub is_owned_by-mem :
    (uid : String) (ref : OwnerReference) (refs : List OwnerReference)
    → Memᴰ ref refs
    → ref.uid ≡ uid
    → is_owned_by uid refs ≡ true
unfolding is_owned_by
is_owned_by-mem uid ref [] m e = elim m [ ]
is_owned_by-mem uid ref (x ∷ refs) (Memᴰ.head h) e =
    let same : x.uid ≡ uid = ap (λ r. r.uid) (sym h) ∙ e in ground arith
is_owned_by-mem uid ref (x ∷ refs) (Memᴰ.tail m) e =
    let rest = is_owned_by-mem uid ref refs m e in ground arith

pub validate_response_later :
    (fmt : Format) (poll : Poll) (resp : PollResponse) (t u : Time)
    → has_closed poll.spec.closes_at u ≡ has_closed poll.spec.closes_at t
    → validate_response fmt poll resp u ≡ validate_response fmt poll resp t
unfolding validate_response
validate_response_later fmt poll resp t u same = rw same refl

pub validate_response-written :
    (fmt : Format) (poll : Poll) (resp : PollResponse) (s : PollResponseStatus) (now : Time)
    → validate_response fmt poll (record resp { status = s }) now
      ≡ validate_response fmt poll resp now
unfolding validate_response
validate_response-written fmt poll resp s now = refl

pub not-Succeeded_refused :
    (o : Outcome) (context : String) (x : ApiError) → Succeeded o → ¬ (o ≡ gave_up context x)
not-Succeeded_refused o context x done e =
    let same = ap (λ y. y.error) e in let none_left = done.0 in cc

pub refused_not-Succeeded :
    (o : Outcome) (x : ApiError)
    → Succeeded o
    → ¬ (o ≡ (if is_conflict x then requeued else gave_up "patch PollResponse status" x))
refused_not-Succeeded o x done e =
    let same = ap (λ y. y.error) e in
    let again = ap (λ y. y.result.requeue) e in let (none_left, no_retry) = done in ground arith

module _ (kube : Kube) where
  EndsWrite-store :
      (resp : PollResponse) (desired : PollResponseStatus) (s : kube.Store)
      (r : Outcome × World kube.Store)
      → response_status_equal resp.status desired ≡ true
      → EndsWrite kube resp desired s r
      → r.1.store ≡ s
  EndsWrite-store resp desired s r same (EndsWrite.quiet e fin kept) = kept
  EndsWrite-store resp desired s r same (EndsWrite.patched p e patch fin) = cc
  EndsWrite-store resp desired s r same (EndsWrite.refused x e patch fin) = cc

  -- Whatever the clock shows, the verdict wants nothing else.
  abbrev pub IsSettled : PollResponse → ℤ → Option ValidationError → Type 0
  IsSettled resp g verdict =
      (u t₁ t₂ : Time)
      → response_status_equal resp.status (judged_status kube resp g verdict u t₁ t₂) ≡ true

  module _ (fmt : Format) (req : NamespacedName) (clock : ℕ → Time) (ticks : ℕ) where
    abbrev pub IsQuiet : kube.Store → Type 0
    IsQuiet s =
        (reconcile_response kube fmt req
          (record { store = s; clock = clock; ticks = ticks })).1.store
        ≡ s

    module _ (s : kube.Store) (o : PollResponse) (got : kube.get_response s req ≡ ok o)
        (alive : is_zero o.meta.deletion_timestamp ≡ true) where
      pub found-IsQuiet :
          (poll : Poll)
          → kube.get_poll s (poll_key o) ≡ ok poll
          → is_owned_by poll.meta.uid o.meta.owner_references ≡ true
          → IsSettled o poll.meta.generation (validate_response fmt poll o (clock ticks))
          → IsQuiet s
      unfolding reconcile_response ensure_owner_reference
      found-IsQuiet poll found mine settled =
          let verdict = validate_response fmt poll o (clock ticks) in
          let (u, t₁, t₂, ends) =
            judge-EndsJudged kube fmt o poll verdict
              (record { store = s; clock = clock; ticks = suc ticks }) in
          rw (got, alive, found, mine) (EndsWrite-store o _ s _ (settled u t₁ t₂) ends)

      pub orphan-IsQuiet :
          (x : ApiError)
          → kube.get_poll s (poll_key o) ≡ failed x
          → is_not_found x ≡ true
          → IsSettled o (pos 0) (some (orphan_error kube fmt o))
          → IsQuiet s
      unfolding reconcile_response
      orphan-IsQuiet x missing absent settled =
          let (u, t₁, t₂, ends) =
            reject-EndsJudged kube o (pos 0) (orphan_error kube fmt o)
              (record { store = s; clock = clock; ticks = ticks }) in
          rw (got, alive, missing, absent) (EndsWrite-store o _ s _ (settled u t₁ t₂) ends)
