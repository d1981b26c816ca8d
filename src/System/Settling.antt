-- ===== src/System/Settling.antt =====
-- What the results are once a run has judged each response of an open Poll.
pub mod Runs
use mathlib.Core.Path.{subst}
use mathlib.Core.Option.{none-ne-some}
use poll_operator.Base.{
  ◌≡◌, ◌≢◌, ◌↔◌, refl, ap, sym, ◌∙◌, arith, Bool, true, false, List, [], ◌∷◌, ◌++◌, map, pos, int32,
  count_if, All, IsUnique, string_eq, Bool-cases, Option-cases, inl, inr, if◌then◌else◌,
}
use poll_operator.Api.{
  Time, Poll, PollAnswer, PollResponse, PollResponseStatus, PollResponseSpec,
  response_phase_accepted, rejected-ne-accepted,
}
use poll_operator.Kube.{Kube}
use poll_operator.Kube.Format.{Format}
use poll_operator.Kube.Responses.{persisted_response}
use poll_operator.PollController.Phase.{has_closed}
use poll_operator.PollController.Aggregate.{is_counted}
use poll_operator.PollController.Aggregate.Refines.{
  HasUniqueKeys, counted_answers, tally, aggregate_results-tally,
}
use poll_operator.PollController.Reconcile.{desired_status}
use poll_operator.ResponseController.Validate.{validate_response}
use poll_operator.ResponseController.Validate.Whole.{Answers, validate_response-eq-none_iff}
use poll_operator.ResponseController.Status.{
  accepted_status, rejected_status, response_status_equal, set_response_condition,
}
use poll_operator.ResponseController.Reconcile.Judged.{judged_status}
use poll_operator.ResponseController.Reconcile.Verdicts.{response_status_equal-phase}
use poll_operator.System.Closing.{desired_status-results}

-- A response to the Poll, each answer of which is to one of its questions and fits it.
abbrev pub IsVote : Poll → PollResponse → Type 0
IsVote poll r =
    (r.spec.poll_ref.name ≡ poll.meta.name) × All (Answers poll.spec.questions) r.spec.answers

-- The answers of the responses that a test selects, in order
abbrev pub answers_where : (PollResponse → Bool) → List PollResponse → List PollAnswer
answers_where test [] = []
answers_where test (r ∷ rs) =
    let rest = answers_where test rs in if test r then r.spec.answers ++ rest else rest

module _ (kube : Kube) (fmt : Format) (poll : Poll) where
  -- The status that a run wants which reads the clock as `now`, `u`, `t₁` and `t₂`
  abbrev pub wanted : PollResponse → Time → Time → Time → Time → PollResponseStatus
  wanted r now u t₁ t₂ =
      judged_status kube r poll.meta.generation (validate_response fmt poll r now) u t₁ t₂

-- `late` tells whether the runs started after the closing time.
module _ (kube : Kube) (fmt : Format) (poll : Poll) (late : Bool) where
  -- What a run leaves that judged a response with the spec of `r`, if that refers to the Poll;
  -- `before` is the response as the run read it.
  pub data IsSettled (r : PollResponse) : PollResponse → Type 0 where
    elsewhere :
        (after : PollResponse)
        → r.spec.poll_ref.name ≢ poll.meta.name
        → after.spec ≡ r.spec
        → IsSettled r after
    kept :
        (before : PollResponse) (now u t₁ t₂ : Time)
        → before.spec ≡ r.spec
        → has_closed poll.spec.closes_at now ≡ late
        → response_status_equal before.status (wanted kube fmt poll before now u t₁ t₂) ≡ true
        → IsSettled r before
    written :
        (before : PollResponse) (now u t₁ t₂ : Time)
        → before.spec ≡ r.spec
        → has_closed poll.spec.closes_at now ≡ late
        → IsSettled r (record before {
          status = persisted_response (wanted kube fmt poll before now u t₁ t₂);
        })

  abbrev pub AreSettled : List PollResponse → List PollResponse → Type 0
  AreSettled [] [] = Unit
  AreSettled (r ∷ rs) (r' ∷ rs') = IsSettled r r' × AreSettled rs rs'
  AreSettled rs rs' = ⊥

  module _ (u : IsUnique (map (λ q. q.id) poll.spec.questions)) where
    wanted-phase :
        (r : PollResponse) (now v t₁ t₂ : Time)
        → has_closed poll.spec.closes_at now ≡ late
        → ((wanted kube fmt poll r now v t₁ t₂).phase ≡ response_phase_accepted)
          ↔ ((late ≡ false) × All (Answers poll.spec.questions) r.spec.answers)
    unfolding accepted_status rejected_status set_response_condition
    wanted-phase r now v t₁ t₂ same_time =
        let (sound, complete) = validate_response-eq-none_iff fmt poll r now u in
        elim (Option-cases (validate_response fmt poll r now)) [
          | inl passes ↦
              rw passes (λ _. (sym same_time ∙ (sound passes).0, (sound passes).1), λ _. refl)
          | inr (e, fails) ↦ rw fails (
            λ e. absurd (rejected-ne-accepted e),
            λ (early, fit).
                absurd (none-ne-some e (sym (complete (same_time ∙ early, fit)) ∙ fails)),
          )
        ]

    is_counted_iff :
        (r : PollResponse)
        → (is_counted poll r ≡ true)
          ↔ ((r.status.phase ≡ response_phase_accepted) × (r.spec.poll_ref.name ≡ poll.meta.name))
    unfolding is_counted
    is_counted_iff r = ground arith

    pub IsSettled-spec : (r r' : PollResponse) → IsSettled r r' → r'.spec ≡ r.spec
    IsSettled-spec r r' (elsewhere after other same) = same
    IsSettled-spec r r' (kept before now v t₁ t₂ same same_time equal) = same
    IsSettled-spec r r' (written before now v t₁ t₂ same same_time) = same

    -- A status that was wanted counts exactly for a vote.
    counted_wanted :
        (r b a : PollResponse) (now v t₁ t₂ : Time)
        → b.spec ≡ r.spec
        → a.spec ≡ r.spec
        → has_closed poll.spec.closes_at now ≡ late
        → a.status.phase ≡ (wanted kube fmt poll b now v t₁ t₂).phase
        → (is_counted poll a ≡ true) ↔ ((late ≡ false) × IsVote poll r)
    counted_wanted r b a now v t₁ t₂ same_b same_a same_time phase =
        let (sound, complete) = wanted-phase b now v t₁ t₂ same_time in
        let (counted, counts) = is_counted_iff a in
        (
          λ e.
              let (early, fit) = sound (sym phase ∙ (counted e).0) in
              (
                early,
                (
                  sym (ap (λ s. s.poll_ref.name) same_a) ∙ (counted e).1,
                  subst (λ (s : PollResponseSpec). All (Answers poll.spec.questions) s.answers)
                      same_b fit,
                ),
              ),
          λ (early, (here, fit)). counts (
            phase
                ∙ complete (
                  early,
                  subst (λ (s : PollResponseSpec). All (Answers poll.spec.questions) s.answers)
                      (sym same_b) fit,
                ),
            ap (λ s. s.poll_ref.name) same_a ∙ here,
          ),
        )

    -- What a run leaves counts exactly if it is a vote and the run was early.
    pub is_counted-IsVote :
        (r r' : PollResponse)
        → IsSettled r r'
        → (is_counted poll r' ≡ true) ↔ ((late ≡ false) × IsVote poll r)
    is_counted-IsVote r r' (elsewhere after other same) =
        let named = ap (λ s. s.poll_ref.name) same in
        let (counted, _) = is_counted_iff after in
        (λ e. absurd (other (sym named ∙ (counted e).1)), λ (_, (here, _)). absurd (other here))
    is_counted-IsVote r r' (kept before now v t₁ t₂ same same_time equal) =
        counted_wanted r before before now v t₁ t₂ same same same_time
          (response_status_equal-phase kube before (wanted kube fmt poll before now v t₁ t₂) equal)
    is_counted-IsVote r r' (written before now v t₁ t₂ same same_time) =
        counted_wanted r before _ now v t₁ t₂ same same same_time refl

    module _ (test : PollResponse → Bool)
        (decides : (r : PollResponse) → (test r ≡ true) ↔ ((late ≡ false) × IsVote poll r)) where
      is_counted-test : (r r' : PollResponse) → IsSettled r r' → is_counted poll r' ≡ test r
      is_counted-test r r' settled =
          let (there, back) = is_counted-IsVote r r' settled in
          let (sound, complete) = decides r in
          elim (Bool-cases (test r)) [
            | inl e ↦ back (sound e) ∙ sym e
            | inr e ↦ elim (Bool-cases (is_counted poll r')) [
              | inl e' ↦ e' ∙ sym (complete (there e'))
              | inr e' ↦ e' ∙ sym e
            ]
          ]

      pub counted_answers-settled :
          (rs rs' : List PollResponse)
          → AreSettled rs rs'
          → (counted_answers poll rs' ≡ answers_where test rs)
            × (count_if (is_counted poll) rs' ≡ count_if test rs)
      unfolding counted_answers
      counted_answers-settled [] [] all = (refl, refl)
      counted_answers-settled (r ∷ rs) (r' ∷ rs') (settled, all) =
          let (answers, count) = counted_answers-settled rs rs' all in
          let same = is_counted-test r r' settled in
          let spec = IsSettled-spec r r' settled in
          (rw (same, answers, spec) refl, rw (same, count) refl)
      counted_answers-settled [] (r' ∷ rs') all = absurd all
      counted_answers-settled (r ∷ rs) [] all = absurd all
