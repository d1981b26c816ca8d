-- ===== src/ResponseController/Reconcile/Again.antt =====
-- A second run of the reconciler of responses.
use mathlib.Core.Path.{subst}
use poll_operator.Base.{
  ℕ, ℤ, pos, true, false, Option, some, ◌≡◌, refl, ap, sym, ◌∙◌, string_eq, nat_eq, IsUnique,
}
use poll_operator.Api.{
  Time, NamespacedName, Poll, PollResponse, PollResponseStatus, condition_types,
}
use poll_operator.Kube.{Kube, ok, failed, ApiError, is_not_found, World, Outcome}
use poll_operator.Kube.Format.{Format}
use poll_operator.Kube.Lawful.{IsLawful}
use poll_operator.Kube.Responses.{KeepsResponses}
use poll_operator.PollController.Phase.{has_closed}
use poll_operator.PollController.Reconcile.Again.{Succeeded}
use poll_operator.ResponseController.Validate.{ValidationError, validate_response}
use poll_operator.ResponseController.Reconcile.{is_zero, is_owned_by, poll_key, reconcile_response}
use poll_operator.ResponseController.Reconcile.Judged.{orphan_error, judged_status, EndsWrite}
use poll_operator.ResponseController.Reconcile.Errors.{Ends, IsOwned, reconcile_response-Ends}
use poll_operator.ResponseController.Reconcile.Settled.{written, written_settled, still_settled}
use poll_operator.ResponseController.Reconcile.Quiet.{
  is_owned_by-mem, validate_response_later, validate_response-written, not-Succeeded_refused,
  refused_not-Succeeded, IsSettled, IsQuiet, found-IsQuiet, orphan-IsQuiet,
}

module _ (kube : Kube) where
  module _ (law : IsLawful kube) (keeps : KeepsResponses kube) (fmt : Format) (req : NamespacedName)
      (w : World kube.Store) (clock : ℕ → Time) (ticks : ℕ) where
    -- What the run after the owner reference works on.
    record Found (poll : Poll) (o : PollResponse) (s : kube.Store) : Type 0 where
      got : kube.get_response s req ≡ ok o
      alive : is_zero o.meta.deletion_timestamp ≡ true
      found : kube.get_poll s (poll_key o) ≡ ok poll
      mine : is_owned_by poll.meta.uid o.meta.owner_references ≡ true
      types : IsUnique (condition_types o.status.conditions)

    IsOwned-Found :
        (resp o : PollResponse) (poll : Poll) (s : kube.Store)
        → kube.get_response w.store req ≡ ok resp
        → is_zero resp.meta.deletion_timestamp ≡ true
        → kube.get_poll w.store (poll_key resp) ≡ ok poll
        → IsUnique (condition_types resp.status.conditions)
        → IsOwned kube fmt req w resp poll o s
        → Found poll o s
    IsOwned-Found resp o poll s got alive found types (IsOwned.before mine same_o same_s) =
        subst (λ (x : PollResponse × kube.Store). Found poll x.0 x.1)
          (λ i. (sym same_o i, sym same_s i))
          (record { got = got; alive = alive; found = found; mine = mine; types = types })
    IsOwned-Found resp o poll s got alive found types (IsOwned.added changed other set patch) =
        let (refs, ref, same, m, uid) = keeps.set_reference poll resp changed set in
        let (same_o, read, polls) =
          keeps.patch_references w.store s req resp o refs got
            (ap (kube.patch_response w.store resp) (sym same) ∙ patch) in
        subst (λ x. Found poll x s) (sym same_o)
          (record {
            got = read ∙ ap ok same_o;
            alive = alive;
            found = polls _ ∙ found;
            mine = is_owned_by-mem poll.meta.uid ref refs m uid;
            types = types;
          })

    -- A status that was wanted and is settled leaves nothing to do for the next run.
    module _ (o : PollResponse) (g : ℤ) (verdict : Option ValidationError) (s : kube.Store)
        (r : Outcome × World kube.Store) (got : kube.get_response s req ≡ ok o)
        (types : IsUnique (condition_types o.status.conditions))
        (next : (o' : PollResponse) (s' : kube.Store) (st : PollResponseStatus)
          → o' ≡ record o { status = st }
          → kube.get_response s' req ≡ ok o'
          → ((k : NamespacedName) → kube.get_poll s' k ≡ kube.get_poll s k)
          → IsSettled kube o' g verdict
          → IsQuiet kube fmt req clock ticks s') where
      after_write :
          (u t₁ t₂ : Time)
          → EndsWrite kube o (judged_status kube o g verdict u t₁ t₂) s r
          → Succeeded r.0
          → IsQuiet kube fmt req clock ticks r.1.store
      after_write u t₁ t₂ (EndsWrite.quiet e fin kept) done =
          subst (IsQuiet kube fmt req clock ticks) (sym kept) (
            next o s o.status refl got (λ k. refl)
              (λ u' t₁' t₂'. still_settled kube law o g verdict u t₁ t₂ u' t₁' t₂' e))
      after_write u t₁ t₂ (EndsWrite.patched p e patch fin) done =
          let (read, polls) =
            keeps.patch_status s r.1.store req o p (judged_status kube o g verdict u t₁ t₂) got
              patch in
          next (written kube law o g verdict u t₁ t₂ 0 0 0) r.1.store _ refl read polls
            (λ u' t₁' t₂'. written_settled kube law o g verdict u t₁ t₂ u' t₁' t₂' types)
      after_write u t₁ t₂ (EndsWrite.refused x e patch fin) done =
          absurd (refused_not-Succeeded r.0 x done fin)

    abbrev Side : Poll → Type 0
    Side poll =
        has_closed poll.spec.closes_at (clock ticks)
        ≡ has_closed poll.spec.closes_at (w.clock w.ticks)

    Found-next :
        (poll : Poll) (o : PollResponse) (s : kube.Store)
        → Found poll o s
        → Side poll
        → (o' : PollResponse) (s' : kube.Store) (st : PollResponseStatus)
        → o' ≡ record o { status = st }
        → kube.get_response s' req ≡ ok o'
        → ((k : NamespacedName) → kube.get_poll s' k ≡ kube.get_poll s k)
        → IsSettled kube o' poll.meta.generation (validate_response fmt poll o (w.clock w.ticks))
        → IsQuiet kube fmt req clock ticks s'
    Found-next poll o s f same o' s' st e read polls settled =
        let verdict =
          ap (λ x. validate_response fmt poll x (clock ticks)) e
          ∙ validate_response-written fmt poll o st (clock ticks)
          ∙ validate_response_later fmt poll o (w.clock w.ticks) (clock ticks) same in
        found-IsQuiet kube fmt req clock ticks s' o' read
          (ap (λ x. is_zero x.meta.deletion_timestamp) e ∙ f.alive) poll
          (ap (λ x. kube.get_poll s' (poll_key x)) e ∙ polls _ ∙ f.found)
          (ap (λ x. is_owned_by poll.meta.uid x.meta.owner_references) e ∙ f.mine)
          (subst (λ v. IsSettled kube o' poll.meta.generation v) (sym verdict) settled)

    orphan_next :
        (resp : PollResponse) (x : ApiError)
        → is_zero resp.meta.deletion_timestamp ≡ true
        → kube.get_poll w.store (poll_key resp) ≡ failed x
        → is_not_found x ≡ true
        → (o' : PollResponse) (s' : kube.Store) (st : PollResponseStatus)
        → o' ≡ record resp { status = st }
        → kube.get_response s' req ≡ ok o'
        → ((k : NamespacedName) → kube.get_poll s' k ≡ kube.get_poll w.store k)
        → IsSettled kube o' (pos 0) (some (orphan_error kube fmt resp))
        → IsQuiet kube fmt req clock ticks s'
    orphan_next resp x alive missing absent o' s' st e read polls settled =
        orphan-IsQuiet kube fmt req clock ticks s' o' read
          (ap (λ y. is_zero y.meta.deletion_timestamp) e ∙ alive) x
          (ap (λ y. kube.get_poll s' (poll_key y)) e ∙ polls _ ∙ missing) absent
          (subst (λ v. IsSettled kube o' (pos 0) (some v)) (sym (ap (orphan_error kube fmt) e))
            settled)

    gone-IsQuiet :
        (s : kube.Store) (x : ApiError)
        → kube.get_response s req ≡ failed x
        → IsQuiet kube fmt req clock ticks s
    unfolding reconcile_response
    gone-IsQuiet s x missing = rw missing refl

    deleting-IsQuiet :
        (s : kube.Store) (resp : PollResponse)
        → kube.get_response s req ≡ ok resp
        → is_zero resp.meta.deletion_timestamp ≡ false
        → IsQuiet kube fmt req clock ticks s
    unfolding reconcile_response
    deleting-IsQuiet s resp got deleted = rw (got, deleted) refl

    module _
        (unique : (resp : PollResponse)
          → kube.get_response w.store req ≡ ok resp
          → IsUnique (condition_types resp.status.conditions))
        (side : (resp : PollResponse) (poll : Poll)
          → kube.get_response w.store req ≡ ok resp
          → kube.get_poll w.store (poll_key resp) ≡ ok poll
          → Side poll) where
      IsQuiet-after :
          (r : Outcome × World kube.Store)
          → Ends kube fmt req w r
          → Succeeded r.0
          → IsQuiet kube fmt req clock ticks r.1.store
      IsQuiet-after r (Ends.gone x missing absent e) done =
          subst (λ y. IsQuiet kube fmt req clock ticks y.1.store) (sym e)
            (gone-IsQuiet w.store x missing)
      IsQuiet-after r (Ends.unread x missing broken e) done =
          absurd (not-Succeeded_refused r.0 _ x done (ap (λ y. y.0) e))
      IsQuiet-after r (Ends.deleting resp got deleted e) done =
          subst (λ y. IsQuiet kube fmt req clock ticks y.1.store) (sym e)
            (deleting-IsQuiet w.store resp got deleted)
      IsQuiet-after r (Ends.orphaned resp x got alive missing absent (u, t₁, t₂, ends)) done =
          after_write resp (pos 0) (some (orphan_error kube fmt resp)) w.store r got
            (unique resp got) (orphan_next resp x alive missing absent) u t₁ t₂ ends done
      IsQuiet-after r (Ends.poll_unread resp x got alive missing broken e) done =
          absurd (not-Succeeded_refused r.0 _ x done (ap (λ y. y.0) e))
      IsQuiet-after r (Ends.unreferenced resp poll x got alive found e refused) done =
          absurd (not-Succeeded_refused r.0 _ x done (ap (λ y. y.0) refused))
      IsQuiet-after r (Ends.unowned resp changed poll x got alive found set patch refused) done =
          absurd (not-Succeeded_refused r.0 _ x done refused)
      IsQuiet-after r (Ends.judged resp o poll s got alive found by (u, t₁, t₂, ends)) done =
          let f = IsOwned-Found resp o poll s got alive found (unique resp got) by in
          after_write o poll.meta.generation (validate_response fmt poll o (w.clock w.ticks)) s r
            f.got f.types (Found-next poll o s f (side resp poll got found)) u t₁ t₂ ends done

      -- Over a lawful API server, a run of the reconciler of responses that succeeded, on a response
      -- whose condition types are unique, is followed by one that writes nothing, where the closing
      -- time of its Poll has not come in between: whatever the verdict is, also where the Poll is
      -- gone or the first run set the owner reference.
      pub reconcile_response_again :
          Succeeded (reconcile_response kube fmt req w).0
          → let s = (reconcile_response kube fmt req w).1.store in
            (reconcile_response kube fmt req
              (record { store = s; clock = clock; ticks = ticks })).1.store
            ≡ s
      reconcile_response_again = IsQuiet-after _ (reconcile_response-Ends kube fmt req w)
