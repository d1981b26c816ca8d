-- ===== src/ResponseController/Reconcile/Settled.antt =====
-- Once the status of a verdict is written and read back, the same verdict wants nothing else.
use mathlib.Core.Option
use mathlib.Core.Path.{subst}
use poll_operator.Base.{
  ℤ, true, Option, none, some, List, map, ◌≡◌, refl, ap, sym, ◌∙◌, arith, string_eq, int_eq, nat_eq,
  IsUnique,
}
use poll_operator.Api.{Time, Condition, strip, condition_types, PollResponse, PollResponseStatus}
use poll_operator.Kube.{Kube}
use poll_operator.Kube.Lawful.{
  IsLawful, upsert, upsert-IsUnique, condition_types-strip, strip-persisted, to_second,
}
use poll_operator.Kube.Responses.{persisted_response}
use poll_operator.PollController.StatusEqual.Laws.{time_ptr_equal_sound}
use poll_operator.ResponseController.Validate.{ValidationError}
use poll_operator.ResponseController.Status.{
  accepted_status, rejected_status, set_response_condition, response_status_equal,
}
use poll_operator.ResponseController.Reconcile.Judged.{first_set, judged_status}
use poll_operator.ResponseController.Reconcile.Wanted.{
  strip_response, response_status_equal-strip, response_status_equal_of_strip, upsert_two_again,
  validated_mark, counted_mark, acceptance, both_set, expected, marks-ne,
}

module _ (kube : Kube) (law : IsLawful kube) where
  set_two-strip :
      (t₁ t₂ : Time) (cs : List Condition) (c d : Condition)
      → map strip (kube.set_status_condition t₂ (kube.set_status_condition t₁ cs c) d)
        ≡ upsert (strip d) (upsert (strip c) (map strip cs))
  set_two-strip t₁ t₂ cs c d =
      law.set_condition t₂ (kube.set_status_condition t₁ cs c) d
      ∙ ap (upsert (strip d)) (law.set_condition t₁ cs c)

  strip-judged_status :
      (resp : PollResponse) (g : ℤ) (verdict : Option ValidationError) (u t₁ t₂ : Time)
      → strip_response (judged_status kube resp g verdict u t₁ t₂) ≡ expected resp g verdict u
  unfolding accepted_status rejected_status set_response_condition
  strip-judged_status resp g none u t₁ t₂ =
      ap (λ cs. record (expected resp g none u) { conditions = cs })
        (set_two-strip t₁ t₂ resp.status.conditions _ _)
  strip-judged_status resp g (some e) u t₁ t₂ =
      ap (λ cs. record (expected resp g (some e) u) { conditions = cs })
        (set_two-strip t₁ t₂ resp.status.conditions _ _)

  module _ (resp : PollResponse) (g : ℤ) (verdict : Option ValidationError)
      (u t₁ t₂ u' t₁' t₂' : Time) where
    abbrev pub written : PollResponse
    written = record resp {
      status = persisted_response (judged_status kube resp g verdict u t₁ t₂);
    }

    first_set-persisted :
        (at : Option Time)
        → Option.map to_second (first_set at u)
          ≡ first_set (Option.map to_second (first_set at u)) u'
    first_set-persisted none = refl
    first_set-persisted (some t) = refl

    acceptance-persisted :
        (x : Option ValidationError) (at : Option Time)
        → Option.map to_second (acceptance x at u)
          ≡ acceptance x (Option.map to_second (acceptance x at u)) u'
    acceptance-persisted none at = first_set-persisted at
    acceptance-persisted (some e) at = refl

    judged_status-IsUnique :
        IsUnique (condition_types resp.status.conditions)
        → IsUnique (condition_types written.status.conditions)
    judged_status-IsUnique types =
        subst (λ cs. IsUnique cs)
          (sym (
              ap condition_types (
                strip-persisted _
                ∙ ap (λ s. s.conditions) (strip-judged_status resp g verdict u t₁ t₂)))
            ∙ condition_types-strip _)
          (upsert-IsUnique _ _
            (upsert-IsUnique _ (map strip resp.status.conditions) (rw condition_types-strip types)))

    written-expected : strip_response written.status ≡ expected written g verdict u'
    written-expected =
        let e = strip-judged_status resp g verdict u t₁ t₂ in
        let n = resp.meta.generation in
        let read : map strip written.status.conditions ≡ (expected resp g verdict u).conditions =
          strip-persisted _ ∙ ap (λ s. s.conditions) e in
        let again = sym (
          upsert_two_again (validated_mark n verdict) (counted_mark n verdict)
            (map strip resp.status.conditions) (marks-ne n verdict)) in
        let at = ap (λ s. Option.map to_second s.accepted_at) e in
        λ i. record {
          conditions = (read ∙ again ∙ ap (both_set n verdict) (sym read)) i;
          phase = ap (λ s. s.phase) e i;
          observed_poll_generation = ap (λ s. s.observed_poll_generation) e i;
          accepted_at =
              (at
                  ∙ acceptance-persisted verdict resp.status.accepted_at
                  ∙ ap (λ x. acceptance verdict x u') (sym at))
                i;
        }

    pub written_settled :
        IsUnique (condition_types resp.status.conditions)
        → response_status_equal written.status (judged_status kube written g verdict u' t₁' t₂')
          ≡ true
    written_settled types =
        response_status_equal_of_strip _ _ (judged_status-IsUnique types)
          (written-expected ∙ sym (strip-judged_status written g verdict u' t₁' t₂'))

    first_set-kept : (at : Option Time) → at ≡ first_set at u → first_set at u' ≡ first_set at u
    first_set-kept none e = cc
    first_set-kept (some t) e = refl

    acceptance-kept :
        (x : Option ValidationError) (at : Option Time)
        → at ≡ acceptance x at u
        → acceptance x at u' ≡ acceptance x at u
    acceptance-kept none at e = first_set-kept at e
    acceptance-kept (some x) at e = refl

    response_status_equal-acceptance :
        (a b : PollResponseStatus)
        → response_status_equal a b ≡ true
        → a.accepted_at ≡ b.accepted_at
    unfolding response_status_equal
    response_status_equal-acceptance a b e =
        ground (arith, time_ptr_equal_sound a.accepted_at b.accepted_at)

    -- Nothing to write at one reading, nothing to write at another.
    pub still_settled :
        response_status_equal resp.status (judged_status kube resp g verdict u t₁ t₂) ≡ true
        → response_status_equal resp.status (judged_status kube resp g verdict u' t₁' t₂') ≡ true
    still_settled same =
        let e = strip-judged_status resp g verdict u t₁ t₂ in
        let at = response_status_equal-acceptance resp.status _ same ∙ ap (λ s. s.accepted_at) e in
        let kept = acceptance-kept verdict resp.status.accepted_at at in
        response_status_equal-strip resp.status _ _ (
          strip-judged_status resp g verdict u' t₁' t₂'
          ∙ ap (λ x. record (expected resp g verdict u) { accepted_at = x }) kept
          ∙ sym e)
        ∙ same
