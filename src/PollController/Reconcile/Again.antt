-- ===== src/PollController/Reconcile/Again.antt =====
-- A second run of the reconciler.
use mathlib.Core.Path.{subst}
use poll_operator.Base.{
  ℕ, suc, true, false, none, List, ◌≡◌, ◌⊎◌, refl, ap, sym, ◌∙◌, arith, IsUnique, string_eq,
  Bool-cases, inl, inr,
}
use poll_operator.Api.{
  Time, PollStatus, NamespacedName, condition_types, Poll, PollResponse, PollPhase,
}
use poll_operator.Kube.{Kube, Answer, ok, failed, World, Outcome, ApiError}
use poll_operator.Kube.Lawful.{IsLawful, persisted}
use poll_operator.PollController.Phase.{has_closed, compute_phase}
use poll_operator.PollController.Aggregate.Refines.{HasUniqueKeys}
use poll_operator.PollController.Reconcile.{
  reconcile, desired_status, requeue_at_close, write_status, after_patch,
}
use poll_operator.PollController.Reconcile.Quiet.{status_equal_later}
use poll_operator.PollController.Reconcile.Written.{written_quiet}
use poll_operator.PollController.StatusEqual.{status_equal}

-- A run that returned no error and did not ask for an immediate retry.
abbrev pub Succeeded : Outcome → Type 0
Succeeded o = (o.error ≡ none) × (o.result.requeue ≡ false)

pub Answer-cases :
    {A : Type 0} (r : Answer A) → ((a : A) × (r ≡ ok a)) ⊎ ((x : ApiError) × (r ≡ failed x))
Answer-cases (ok a) = inl (a, refl)
Answer-cases (failed x) = inr (x, refl)

module _ (kube : Kube) where
  not-Succeeded_failed :
      (phase : PollPhase) (x : ApiError) (w : World kube.Store)
      → ¬ Succeeded (after_patch kube phase (failed x) w).0
  not-Succeeded_failed phase x w done = ground arith

  pub requeue_at_close-store :
      (phase : PollPhase) (poll : Poll) (w : World kube.Store)
      → (requeue_at_close kube phase poll w).1.store ≡ w.store
  unfolding requeue_at_close
  requeue_at_close-store phase poll w = ground arith

  module _ (req : NamespacedName) (poll : Poll) (responses : List PollResponse)
      (w : World kube.Store) (got : kube.get_poll w.store req ≡ ok poll)
      (listed : kube.list_responses w.store poll.meta.namespace ≡ ok responses) where
    -- The status that this run wants: it reads the clock three times.
    abbrev pub wanted_now : PollStatus
    wanted_now =
        desired_status kube poll responses (w.clock w.ticks) (w.clock (suc w.ticks))
          (w.clock (suc (suc w.ticks)))

    pub reconcile-found :
        reconcile kube req w
        ≡ write_status kube
            (compute_phase poll poll.status (w.clock w.ticks)).0
            poll
            wanted_now
            (record w { ticks = suc (suc (suc w.ticks)) })
    unfolding reconcile
    reconcile-found = rw (got, listed)

    pub reconcile_quiet :
        status_equal poll.status wanted_now ≡ true → (reconcile kube req w).1.store ≡ w.store
    reconcile_quiet e = ap (λ o. o.1.store) reconcile-found ∙ rw e (requeue_at_close-store _ poll _)

    -- The patch that a run makes, where it makes one.
    abbrev pub patch_now : Answer Poll × kube.Store
    patch_now = kube.patch_poll_status w.store poll (record poll { status = wanted_now })

    pub reconcile_patched :
        (patched : Poll)
        → status_equal poll.status wanted_now ≡ false
        → patch_now.0 ≡ ok patched
        → (reconcile kube req w).1.store ≡ patch_now.1
    reconcile_patched patched e p =
        ap (λ o. o.1.store) reconcile-found ∙ rw (e, p) (requeue_at_close-store _ patched _)

    pub reconcile_unpatched :
        (x : ApiError)
        → status_equal poll.status wanted_now ≡ false
        → patch_now.0 ≡ failed x
        → ¬ Succeeded (reconcile kube req w).0
    reconcile_unpatched x e p done =
        let run = ap (λ o. o.0) reconcile-found in
        not-Succeeded_failed (compute_phase poll poll.status (w.clock w.ticks)).0 x _
          (rw (run, e, p) at done)

  abbrev IsQuiet : NamespacedName → (ℕ → Time) → ℕ → kube.Store → Type 0
  IsQuiet req clock ticks s =
      (reconcile kube req (record { store = s; clock = clock; ticks = ticks })).1.store ≡ s

  -- After a patch the Poll is read back as it was written.
  reconcile_after_patch :
      IsLawful kube
      → (req : NamespacedName) (poll patched : Poll) (responses : List PollResponse)
        (w : World kube.Store) (got : kube.get_poll w.store req ≡ ok poll)
        (listed : kube.list_responses w.store poll.meta.namespace ≡ ok responses)
      → HasUniqueKeys poll.spec.questions
      → IsUnique (condition_types poll.status.conditions)
      → (patch_now req poll responses w got listed).0 ≡ ok patched
      → (clock : ℕ → Time) (ticks : ℕ)
      → has_closed poll.spec.closes_at (clock ticks)
        ≡ has_closed poll.spec.closes_at (w.clock w.ticks)
      → IsQuiet req clock ticks (patch_now req poll responses w got listed).1
  reconcile_after_patch law req poll patched responses w got listed keys types p clock ticks same =
      let s' = (patch_now req poll responses w got listed).1 in
      let named = law.get-key w.store req poll got in
      let (written, read, others) =
        law.patch_status w.store s' poll patched (wanted_now req poll responses w got listed)
          (rw named got) (λ i. (p i, s')) in
      let later = record poll { status = persisted (wanted_now req poll responses w got listed) } in
      reconcile_quiet req later responses (record { store = s'; clock = clock; ticks = ticks })
        (rw named at read ∙ ap ok written) (others poll.meta.namespace ∙ listed)
        (written_quiet kube law poll responses keys types _ _ _ _ _ _ same)

  -- Over a lawful API server, a run that succeeded on a Poll whose question ids, options and
  -- condition types are unique is followed by one that writes nothing, where the closing time has
  -- not come in between: whatever the timestamps are rounded to when they are stored.
  pub reconcile_again :
      IsLawful kube
      → (req : NamespacedName) (poll : Poll) (responses : List PollResponse) (w : World kube.Store)
      → kube.get_poll w.store req ≡ ok poll
      → kube.list_responses w.store poll.meta.namespace ≡ ok responses
      → HasUniqueKeys poll.spec.questions
      → IsUnique (condition_types poll.status.conditions)
      → Succeeded (reconcile kube req w).0
      → (clock : ℕ → Time) (ticks : ℕ)
      → has_closed poll.spec.closes_at (clock ticks)
        ≡ has_closed poll.spec.closes_at (w.clock w.ticks)
      → let s = (reconcile kube req w).1.store in
        (reconcile kube req (record { store = s; clock = clock; ticks = ticks })).1.store ≡ s
  reconcile_again law req poll responses w got listed keys types done clock ticks same =
      elim (Bool-cases (status_equal poll.status (wanted_now req poll responses w got listed))) [
        | inl quiet ↦
            subst (IsQuiet req clock ticks)
              (sym (reconcile_quiet req poll responses w got listed quiet))
              (reconcile_quiet req poll responses (record w { clock = clock; ticks = ticks }) got
                listed (status_equal_later kube law responses poll _ _ _ _ _ _ same quiet))
        | inr noisy ↦ elim (Answer-cases (patch_now req poll responses w got listed).0) [
          | inl (patched, p) ↦
              subst (IsQuiet req clock ticks)
                (sym (reconcile_patched req poll responses w got listed patched noisy p))
                (reconcile_after_patch law req poll patched responses w got listed keys types p
                  clock ticks same)
          | inr (x, p) ↦ absurd (reconcile_unpatched req poll responses w got listed x noisy p done)
        ]
      ]
