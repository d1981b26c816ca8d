-- ===== src/PollController/Reconcile/Timing.antt =====
-- When the reconciler of a Poll asks to be run again.
use poll_operator.Base.{
  ℕ, suc, ◌+◌, ◌-◌, ◌≤◌, ◌<◌, min, pos, true, some, List, ◌≡◌, ap, ◌∙◌, arith, string_eq,
  Bool-cases, inl, inr,
}
use poll_operator.Api.{
  Time, NamespacedName, Poll, PollStatus, PollResponse, PollPhase, poll_phase_open,
}
use poll_operator.Kube.{Kube, ok, World, Outcome, finished, requeued_after}
use poll_operator.Kube.Lawful.{IsLawful}
use poll_operator.PollController.Phase.{compute_phase}
use poll_operator.PollController.Phase.Laws.{compute_phase-has_closed}
use poll_operator.PollController.Reconcile.{
  reconcile, desired_status, requeue_at_close, max_duration,
}
use poll_operator.PollController.Reconcile.Again.{
  Succeeded, Answer-cases, reconcile-found, wanted_now, patch_now, reconcile_unpatched,
}
use poll_operator.PollController.StatusEqual.{status_equal}

status_equal-phase : (a b : PollStatus) → status_equal a b ≡ true → a.phase ≡ b.phase
unfolding status_equal
status_equal-phase a b e = ground arith

-- A run that read the clock last at `last` asks to be run again after a positive delay that ends at
-- `t`, or after the longest duration if that is earlier.
abbrev pub AsksAgain : Outcome → Time → Time → Type 0
AsksAgain o t last =
    (d : ℕ) × (0 < d) × (o ≡ requeued_after (pos d)) × (last + d ≡ min t (last + max_duration))

module _ (kube : Kube) where
  requeue_at_close-ahead :
      (poll : Poll) (t : Time) (w : World kube.Store)
      → poll.spec.closes_at ≡ some t
      → w.clock w.ticks < t
      → (d : ℕ) × (0 < d)
        × ((requeue_at_close kube poll_phase_open poll w).0 ≡ requeued_after (pos d))
        × (w.clock w.ticks + d ≡ min t (w.clock w.ticks + max_duration))
  unfolding requeue_at_close
  requeue_at_close-ahead poll t w closes h =
      (min (t - w.clock w.ticks) max_duration, omega arith, ground arith, omega arith)

  -- Over a lawful API server, take a Poll whose closing time is ahead at the first and at the last
  -- reading of the clock. A run that succeeded on it, whether or not it patched the status, asks to
  -- be run again after a positive delay that ends at the closing time, or after the longest duration
  -- if that is earlier.
  pub reconcile_requeues :
      IsLawful kube
      → (req : NamespacedName) (poll : Poll) (responses : List PollResponse) (w : World kube.Store)
        (t : Time)
      → kube.get_poll w.store req ≡ ok poll
      → kube.list_responses w.store poll.meta.namespace ≡ ok responses
      → poll.spec.closes_at ≡ some t
      → w.clock w.ticks < t
      → w.clock (suc (suc (suc w.ticks))) < t
      → Succeeded (reconcile kube req w).0
      → AsksAgain (reconcile kube req w).0 t (w.clock (suc (suc (suc w.ticks))))
  reconcile_requeues law req poll responses w t got listed closes before after done =
      let last = suc (suc (suc w.ticks)) in
      let wanted = wanted_now kube req poll responses w got listed in
      let run = ap (λ o. o.0) (reconcile-found kube req poll responses w got listed) in
      let opened : (compute_phase poll poll.status (w.clock w.ticks)).0 ≡ poll_phase_open =
        (compute_phase-has_closed poll poll.status (w.clock w.ticks)).1.1 (ground arith) in
      elim (Bool-cases (status_equal poll.status wanted)) [
        | inl quiet ↦
            let (d, more, asks, ends) =
              requeue_at_close-ahead poll t (record w { ticks = last }) closes after in
            (d, more, run ∙ rw (quiet, opened) asks, ends)
        | inr noisy ↦ elim (Answer-cases (patch_now kube req poll responses w got listed).0) [
          | inl (patched, p) ↦
              let s' = (patch_now kube req poll responses w got listed).1 in
              let written =
                (law.patch_status w.store s' poll patched wanted
                  (rw (law.get-key w.store req poll got) got) (λ i. (p i, s'))).0 in
              let (d, more, asks, ends) =
                requeue_at_close-ahead patched t (record w { ticks = last; store = s' })
                  (ap (λ x. x.spec.closes_at) written ∙ closes) after in
              (d, more, run ∙ rw (noisy, opened, p) asks, ends)
          | inr (x, p) ↦
              absurd (reconcile_unpatched kube req poll responses w got listed x noisy p done)
        ]
      ]

  requeue_at_close-past :
      (phase : PollPhase) (poll : Poll) (t : Time) (w : World kube.Store)
      → poll.spec.closes_at ≡ some t
      → t ≤ w.clock w.ticks
      → ((requeue_at_close kube phase poll w).0 ≡ finished)
        × ((requeue_at_close kube phase poll w).1.store ≡ w.store)
  unfolding requeue_at_close
  requeue_at_close-past phase poll t w closes h = ground arith

  -- If the closing time passes while a run is under way that finds the Poll Open and nothing to
  -- write, the run ends without a requeue and without a write, and the Poll is left Open.
  pub reconcile_missed :
      (req : NamespacedName) (poll : Poll) (responses : List PollResponse) (w : World kube.Store)
      (t : Time) (got : kube.get_poll w.store req ≡ ok poll)
      (listed : kube.list_responses w.store poll.meta.namespace ≡ ok responses)
      → poll.spec.closes_at ≡ some t
      → w.clock w.ticks < t
      → t ≤ w.clock (suc (suc (suc w.ticks)))
      → status_equal poll.status (wanted_now kube req poll responses w got listed) ≡ true
      → ((reconcile kube req w).0 ≡ finished)
        × ((reconcile kube req w).1.store ≡ w.store)
        × (poll.status.phase ≡ poll_phase_open)
  unfolding desired_status
  reconcile_missed req poll responses w t got listed closes before after quiet =
      let n = w.ticks in
      let run = reconcile-found kube req poll responses w got listed in
      let (ends, keeps) =
        requeue_at_close-past (compute_phase poll poll.status (w.clock n)).0 poll t
          (record w { ticks = suc (suc (suc n)) }) closes after in
      (
        ap (λ o. o.0) run ∙ rw quiet ends,
        ap (λ o. o.1.store) run ∙ rw quiet keeps,
        status_equal-phase poll.status _ quiet
            ∙ (compute_phase-has_closed poll poll.status (w.clock n)).1.1 (ground arith),
      )
