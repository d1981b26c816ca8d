-- ===== src/System/Settling/Runs.antt =====
-- Runs of the reconciler of responses over a lawful API server leave settled responses behind.
use mathlib.Core.Path.{subst}
use poll_operator.Base.{refl, ◌≡◌, ◌↔◌, ap, sym, true, false}
use poll_operator.Base.{map, IsUnique, All, Bool-cases, inl, inr, string_eq}
use poll_operator.Api.{Poll, PollResponse, NamespacedName}
use poll_operator.Kube.{Kube, ok, is_conflict, World, Outcome, finished}
use poll_operator.Kube.Format.{Format}
use poll_operator.Kube.Lawful.{IsLawful}
use poll_operator.Kube.Responses.{KeepsResponses}
use poll_operator.PollController.Phase.{has_closed}
use poll_operator.PollController.Aggregate.{is_counted}
use poll_operator.ResponseController.Validate.{validate_response}
use poll_operator.ResponseController.Validate.Whole.{Answers}
use poll_operator.ResponseController.Reconcile.{is_zero, poll_key, reconcile_response}
use poll_operator.ResponseController.Reconcile.Judged.{EndsJudged, quiet, patched, refused}
use poll_operator.ResponseController.Reconcile.Errors.{
  IsOwned, before, added, Ends, gone, unread, deleting, orphaned, poll_unread, unreferenced,
  unowned, judged, reconcile_response-Ends,
}
use poll_operator.System.Settling.{IsSettled, kept, written, IsSettled-spec, is_counted-IsVote}

module _ (kube : Kube) (fmt : Format) (req : NamespacedName) (w : World kube.Store) where
  -- The verdict on the response with its owner reference is carried out.
  abbrev Carried : PollResponse → Poll → Outcome × World kube.Store → Type 0
  Carried resp poll r =
      (o : PollResponse) × (s : kube.Store) × IsOwned kube fmt req w resp poll o s
      × EndsJudged kube o poll.meta.generation (validate_response fmt poll o (w.clock w.ticks)) s r

module _ (kube : Kube) (fmt : Format) (law : IsLawful kube) (keeps : KeepsResponses kube)
    (req : NamespacedName) (w : World kube.Store) (resp : PollResponse) (poll : Poll)
    (got : kube.get_response w.store req ≡ ok resp)
    (alive : is_zero resp.meta.deletion_timestamp ≡ true)
    (found : kube.get_poll w.store (poll_key resp) ≡ ok poll) where
  -- The response that the verdict is carried out on is stored, and has the spec of the one read.
  IsOwned-stored :
      (o : PollResponse) (s : kube.Store)
      → IsOwned kube fmt req w resp poll o s
      → (kube.get_response s req ≡ ok o) × (o.spec ≡ resp.spec)
  IsOwned-stored o s (before mine same stored) = (rw (same, stored) got, ap (λ r. r.spec) same)
  IsOwned-stored o s (added changed other set patch) =
      let (refs, ref, shape, _, _) = keeps.set_reference poll resp changed set in
      let (same, stored, _) =
        keeps.patch_references w.store s req resp o refs got (rw (sym shape) patch) in
      (stored, ap (λ r. r.spec) same)

  -- A run that ends without asking for another has carried out a verdict.
  finished-judged :
      (r : Outcome × World kube.Store)
      → Ends kube fmt req w r
      → r.0 ≡ finished
      → Carried kube fmt req w resp poll r
  finished-judged r (gone x missing _ _) e = absurd (cc)
  finished-judged r (unread x missing _ _) e = absurd (cc)
  finished-judged r (deleting other at deleted _) e = absurd (cc)
  finished-judged r (orphaned other x at _ missing _ _) e = absurd (cc)
  finished-judged r (poll_unread other x at _ missing _ _) e = absurd (cc)
  finished-judged r (unreferenced other p x at _ _ _ ends) e = absurd (cc)
  finished-judged r (unowned other changed p x at _ _ _ _ ends) e = absurd (cc)
  finished-judged r (judged other o p s at _ at_poll owned ends) e =
      let same : other ≡ resp = cc in
      let same_poll : p ≡ poll = cc in
      subst (λ x. Carried kube fmt req w x poll r) same
        (subst (λ y. Carried kube fmt req w other y r) same_poll (o, s, owned, ends))

  EndsWrite-IsSettled :
      (o : PollResponse) (s : kube.Store) (r : Outcome × World kube.Store)
      → EndsJudged kube o poll.meta.generation (validate_response fmt poll o (w.clock w.ticks)) s r
      → kube.get_response s req ≡ ok o
      → o.spec ≡ resp.spec
      → r.0 ≡ finished
      → (after : PollResponse) × (kube.get_response r.1.store req ≡ ok after)
        × IsSettled kube fmt poll (has_closed poll.spec.closes_at (w.clock w.ticks)) resp after
  EndsWrite-IsSettled o s r (u, t₁, t₂, quiet same _ stored) at spec e =
      (o, rw stored at, kept o (w.clock w.ticks) u t₁ t₂ spec refl same)
  EndsWrite-IsSettled o s r (u, t₁, t₂, patched p noisy patch _) at spec e =
      let (stored, _) = keeps.patch_status s r.1.store req o p _ at patch in
      (_, stored, written o (w.clock w.ticks) u t₁ t₂ spec refl)
  EndsWrite-IsSettled o s r (u, t₁, t₂, refused x noisy patch ends) at spec e =
      elim (Bool-cases (is_conflict x)) [ inl c ↦ absurd (cc) | inr c ↦ absurd (cc) ]

  -- A run of the reconciler of responses that succeeds, on a response that is not being deleted and
  -- whose Poll is found: the response that is stored then has the same spec, and the Poll counts it
  -- exactly if the closing time had not come at the time of the run and each answer is to one of the
  -- Poll's questions and fits it, whatever its status was before, and also where the run set the
  -- owner reference or wrote no status. The API server is lawful and question ids are unique.
  pub reconcile_response_settles :
      IsUnique (map (λ q. q.id) poll.spec.questions)
      → let run = reconcile_response kube fmt req w in
        run.0 ≡ finished
        → (after : PollResponse) × (kube.get_response run.1.store req ≡ ok after)
          × (after.spec ≡ resp.spec)
          × ((is_counted poll after ≡ true) ↔ (
              (has_closed poll.spec.closes_at (w.clock w.ticks) ≡ false)
              × All (Answers poll.spec.questions) resp.spec.answers))
  reconcile_response_settles u e =
      let late = has_closed poll.spec.closes_at (w.clock w.ticks) in
      let (o, s, owned, ends) = finished-judged _ (reconcile_response-Ends kube fmt req w) e in
      let (at, spec) = IsOwned-stored o s owned in
      let (after, stored, settled) = EndsWrite-IsSettled o s _ ends at spec e in
      let (counted, counts) = is_counted-IsVote kube fmt poll late u resp after settled in
      let named = sym (ap (λ k. k.name) (law.get-key w.store (poll_key resp) poll found)) in
      (
        after,
        stored,
        IsSettled-spec kube fmt poll late u resp after settled,
        (
          λ c. let (early, (_, fit)) = counted c in (early, fit),
          λ (early, fit). counts (early, (named, fit)),
        ),
      )
