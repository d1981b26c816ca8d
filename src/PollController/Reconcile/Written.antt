-- ===== src/PollController/Reconcile/Written.antt =====
-- Once the wanted status is written and read back, there is nothing to write.
use mathlib.Core.Path.{ap₂, subst}
use poll_operator.Base.{
  string_eq, ℕ, String, true, List, [], ◌∷◌, map, ◌≡◌, refl, ap, sym, ◌∙◌, arith, IsUnique, All,
}
use poll_operator.Api.{
  Time, strip, condition_types, Poll, PollStatus, PollResponse, PollQuestion, PollAnswer,
}
use poll_operator.Kube.{Kube}
use poll_operator.Kube.Lawful.{
  IsLawful, persisted, upsert, upsert_again, upsert-IsUnique, condition_types-strip,
  strip-persisted,
}
use poll_operator.PollController.Phase.{has_closed, compute_phase}
use poll_operator.PollController.Aggregate.{tallied_options}
use poll_operator.PollController.Aggregate.Options.{votes_row}
use poll_operator.PollController.Aggregate.Refines.{HasUniqueKeys, tally, aggregate_results-tally}
use poll_operator.PollController.Ready.{ready_condition}
use poll_operator.PollController.Reconcile.{desired_status}
use poll_operator.PollController.Reconcile.Desired.{
  phase_of, expected, expected_from, strip-desired_status,
}
use poll_operator.PollController.Reconcile.Quiet.{
  aggregate_results-status, IsSettled-persisted, compute_phase_later, desired_status-IsSettled,
}
use poll_operator.PollController.StatusEqual.{status_equal}
use poll_operator.PollController.StatusEqual.Laws.{HasUniqueOptions}
use poll_operator.PollController.StatusEqual.Exact.{strip_status, HasKeys, status_equal_of_strip}

tally-ids :
    (answers : List PollAnswer) (qs : List PollQuestion)
    → map (λ r. r.question_id) (map (tally answers) qs) ≡ map (λ q. q.id) qs
unfolding tally
tally-ids answers [] = refl
tally-ids answers (q ∷ qs) = ap (◌∷◌ q.id) (tally-ids answers qs)

votes_row-options :
    (f : String → ℕ) (os : List String) → map (λ o. o.option) (map (votes_row f) os) ≡ os
votes_row-options f [] = refl
votes_row-options f (o ∷ os) = ap (◌∷◌ o) (votes_row-options f os)

tally-HasUniqueOptions :
    (answers : List PollAnswer) (qs : List PollQuestion)
    → All (λ q. IsUnique (tallied_options q)) qs
    → All HasUniqueOptions (map (tally answers) qs)
unfolding tally
tally-HasUniqueOptions answers [] u = tt
tally-HasUniqueOptions answers (q ∷ qs) (u, us) =
    (rw votes_row-options u, tally-HasUniqueOptions answers qs us)

compute_phase-phase_of :
    (poll : Poll) (s : PollStatus) (t : Time)
    → (compute_phase poll s t).0 ≡ phase_of (has_closed poll.spec.closes_at t)
unfolding compute_phase
compute_phase-phase_of poll s t = ground arith

module _ (kube : Kube) (law : IsLawful kube) (poll : Poll) (rs : List PollResponse)
    (keys : HasUniqueKeys poll.spec.questions)
    (types : IsUnique (condition_types poll.status.conditions)) (t t' t'' : Time) where
  abbrev pub wanted : PollStatus
  wanted = desired_status kube poll rs t t' t''

  strip-wanted : strip_status wanted ≡ expected poll rs t
  strip-wanted = strip-desired_status kube law poll rs t t' t''

  written-types :
      condition_types (persisted wanted).conditions
      ≡ condition_types (expected poll rs t).conditions
  written-types =
      sym (condition_types-strip _)
      ∙ ap condition_types (strip-persisted wanted.conditions ∙ ap (λ s. s.conditions) strip-wanted)

  written-HasKeys : HasKeys (persisted wanted)
  unfolding desired_status
  written-HasKeys = record {
    types =
        subst (λ ks. IsUnique ks) (sym written-types)
          (upsert-IsUnique _ (map strip poll.status.conditions) (rw condition_types-strip types));
    ids = rw (aggregate_results-tally poll rs keys, tally-ids) keys.0;
    options = rw (aggregate_results-tally poll rs keys) (tally-HasUniqueOptions _ _ keys.1);
  }

  written-expected :
      (u : Time)
      → has_closed poll.spec.closes_at u ≡ has_closed poll.spec.closes_at t
      → strip_status (persisted wanted) ≡ expected (record poll { status = persisted wanted }) rs u
  written-expected u same =
      let phase = compute_phase-phase_of poll poll.status t in
      let e = strip-wanted in
      let later = record poll { status = persisted wanted } in
      let settled = IsSettled-persisted (desired_status-IsSettled kube law rs poll t t' t'') in
      let read : map strip (persisted wanted).conditions ≡ (expected poll rs t).conditions =
        strip-persisted wanted.conditions ∙ ap (λ s. s.conditions) e in
      let again = sym (upsert_again _ (map strip poll.status.conditions)) in
      let ready = ap (λ p. strip (ready_condition p poll.meta.generation 0)) phase in
      let results = sym (aggregate_results-status poll (persisted wanted) rs) in
      let written : strip_status (persisted wanted)
          ≡ expected_from later rs (phase_of (has_closed poll.spec.closes_at t), persisted wanted) =
        λ i. record (persisted wanted) {
          phase = (ap (λ s. s.phase) e ∙ phase) i;
          results = (ap (λ s. s.results) e ∙ ap (λ a. a.0) results) i;
          total_responses = (ap (λ s. s.total_responses) e ∙ ap (λ a. a.1) results) i;
          conditions = (read ∙ again ∙ ap₂ upsert ready (sym read)) i;
        } in
      written
      ∙ ap (expected_from later rs)
          (sym (compute_phase_later later t u same (persisted wanted) settled))

  -- The second run has nothing to write, on the same side of the closing time.
  pub written_quiet :
      (u u' u'' : Time)
      → has_closed poll.spec.closes_at u ≡ has_closed poll.spec.closes_at t
      → let later = record poll { status = persisted wanted } in
        status_equal later.status (desired_status kube later rs u u' u'') ≡ true
  written_quiet u u' u'' same =
      status_equal_of_strip _ _ written-HasKeys
        (written-expected u same ∙ sym (strip-desired_status kube law _ rs u u' u''))
