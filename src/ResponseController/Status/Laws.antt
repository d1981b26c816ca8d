-- ===== src/ResponseController/Status/Laws.antt =====
-- What the statuses of a verdict say.
use text.Mathlib.TextEquality.{eq_iff}
use poll_operator.Base.{
  ℤ, String, Bool, true, Option, none, some, List, [], ◌∷◌, map, ◌≡◌, refl, ap, sym, ◌∙◌, arith,
  ◌==◌, string_eq, if◌then◌else◌,
}
use poll_operator.Api.{
  Time, Condition, strip, PollResponseStatus, condition_true, condition_false,
  response_phase_accepted, response_phase_rejected,
}
use poll_operator.Kube.{Kube}
use poll_operator.Kube.Lawful.{IsLawful, upsert}
use poll_operator.ResponseController.Status.{
  set_response_condition, accepted_status, rejected_status, validated_condition, counted_condition,
}

-- The status of the first condition of a type.
unfoldable pub condition_status : String → List Condition → Option String
condition_status k [] = none
condition_status k (c ∷ cs) = if c.type == k then some c.status else condition_status k cs

condition_status-strip :
    (k : String) (cs : List Condition) → condition_status k (map strip cs) ≡ condition_status k cs
unfolding condition_status
condition_status-strip k [] = refl
condition_status-strip k (c ∷ cs) = ground (arith, condition_status-strip k cs)

condition_status-upsert :
    (k : String) (c : Condition) (cs : List Condition)
    → condition_status k (upsert c cs)
      ≡ (if c.type == k then some c.status else condition_status k cs)
unfolding condition_status
condition_status-upsert k c [] = refl
condition_status-upsert k c (d ∷ ds) = ground (arith, condition_status-upsert k c ds)

abbrev pub is_verdict : String → Bool
is_verdict k = if k == validated_condition then true else k == counted_condition

-- The conditions that are no part of a verdict, without their transition times.
unfoldable pub other_conditions : List Condition → List Condition
other_conditions [] = []
other_conditions (c ∷ cs) =
    let rest = other_conditions cs in if is_verdict c.type then rest else strip c ∷ rest

other_conditions-strip :
    (cs : List Condition) → other_conditions (map strip cs) ≡ other_conditions cs
unfolding other_conditions
other_conditions-strip [] = refl
other_conditions-strip (c ∷ cs) = ground (arith, other_conditions-strip cs)

other_conditions-upsert :
    (c : Condition) (cs : List Condition)
    → is_verdict c.type ≡ true
    → other_conditions (upsert c cs) ≡ other_conditions cs
unfolding other_conditions
other_conditions-upsert c [] verdict = ground arith
other_conditions-upsert c (d ∷ ds) verdict = ground (arith, other_conditions-upsert c ds)

module _ (kube : Kube) (law : IsLawful kube) where
  condition_status-set :
      (k : String) (t : Time) (cs : List Condition) (c : Condition)
      → condition_status k (kube.set_status_condition t cs c)
        ≡ (if c.type == k then some c.status else condition_status k cs)
  condition_status-set k t cs c =
      sym (condition_status-strip k _)
      ∙ ap (condition_status k) (law.set_condition t cs c)
      ∙ condition_status-upsert k (strip c) (map strip cs)
      ∙ ground (arith, condition_status-strip k cs)

  condition_status-set_two :
      (k : String) (t₁ t₂ : Time) (cs : List Condition) (c d : Condition)
      → condition_status k (kube.set_status_condition t₂ (kube.set_status_condition t₁ cs c) d) ≡ (
          if d.type == k
          then some d.status
          else if c.type == k
          then some c.status
          else condition_status k cs)
  condition_status-set_two k t₁ t₂ cs c d =
      condition_status-set k t₂ (kube.set_status_condition t₁ cs c) d
      ∙ ground (arith, condition_status-set k t₁ cs c)

  other_conditions-set :
      (t : Time) (cs : List Condition) (c : Condition)
      → is_verdict c.type ≡ true
      → other_conditions (kube.set_status_condition t cs c) ≡ other_conditions cs
  other_conditions-set t cs c verdict =
      sym (other_conditions-strip _)
      ∙ ap other_conditions (law.set_condition t cs c)
      ∙ other_conditions-upsert (strip c) (map strip cs) verdict
      ∙ other_conditions-strip cs

  -- The verdict's conditions are set, and the conditions of all other types are the same ones in the
  -- same order, each with its status, reason, message and generation: only their transition times
  -- are left open.
  pub record HasVerdict (mark : String) (before after : PollResponseStatus) : Type 0 where
    pub validated : condition_status validated_condition after.conditions ≡ some mark
    pub counted : condition_status counted_condition after.conditions ≡ some mark
    pub others : other_conditions after.conditions ≡ other_conditions before.conditions

  two_conditions-HasVerdict :
      (mark : String) (before after : PollResponseStatus) (t₁ t₂ : Time) (c d : Condition)
      → c.type ≡ validated_condition
      → d.type ≡ counted_condition
      → c.status ≡ mark
      → d.status ≡ mark
      → after.conditions
        ≡ kube.set_status_condition t₂ (kube.set_status_condition t₁ before.conditions c) d
      → HasVerdict mark before after
  two_conditions-HasVerdict mark before after t₁ t₂ c d ct dt cm dm e =
      let at = λ (k : String).
        ap (condition_status k) e ∙ condition_status-set_two k t₁ t₂ before.conditions c d in
      record {
        validated = at validated_condition ∙ ground (arith, eq_iff "Counted" "Validated");
        counted = at counted_condition ∙ ground arith;
        others =
            ap other_conditions e
            ∙ other_conditions-set t₂ (kube.set_status_condition t₁ before.conditions c) d
                (ground arith)
            ∙ other_conditions-set t₁ before.conditions c (ground arith);
      }

  -- Over a lawful API server, an accepted response is Validated and Counted, a rejected one is
  -- neither; the conditions of other types stay as they are, in order and up to transition times;
  -- only the accepted one has a time of acceptance.
  pub verdict_status :
      (s : PollResponseStatus) (g pg : ℤ) (at t₁ t₂ : Time) (reason message : String)
      → let yes_status = accepted_status kube s g pg (some at) t₁ t₂ in
        let no_status = rejected_status kube s g pg reason message t₁ t₂ in
        HasVerdict condition_true s yes_status
        × (yes_status.phase ≡ response_phase_accepted)
        × (yes_status.accepted_at ≡ some at)
        × HasVerdict condition_false s no_status
        × (no_status.phase ≡ response_phase_rejected)
        × (no_status.accepted_at ≡ none)
  unfolding accepted_status rejected_status set_response_condition
  verdict_status s g pg at t₁ t₂ reason message = (
    two_conditions-HasVerdict condition_true s _ t₁ t₂ _ _ refl refl refl refl refl,
    refl,
    refl,
    two_conditions-HasVerdict condition_false s _ t₁ t₂ _ _ refl refl refl refl refl,
    refl,
    refl,
  )
