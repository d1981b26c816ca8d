-- ===== src/PollController/Reconcile/Quiet.antt =====
-- Why a second run finds nothing to write.
use mathlib.Core.Path.{subst}
use poll_operator.Base.{
  String, Bool, true, Option, none, some, List, [], ◌∷◌, map, ◌≡◌, refl, ap, sym, ◌∙◌, arith,
  nat_eq, string_eq, int_eq,
}
use poll_operator.Api.{Time, Condition, strip, Poll, PollStatus, PollResponse}
use poll_operator.Kube.{Kube}
use poll_operator.Kube.Lawful.{IsLawful, persisted}
use poll_operator.PollController.Phase.{has_closed, compute_phase}
use poll_operator.PollController.Aggregate.{aggregate_results, is_counted}
use poll_operator.PollController.Reconcile.{desired_status}
use poll_operator.PollController.Reconcile.Desired.{
  IsSettled, phase_of, compute_phase_settled, compute_phase-IsSettled, expected, expected_from,
  strip-desired_status,
}
use poll_operator.PollController.StatusEqual.{
  status_equal, same_condition, all_same_conditions, conditions_equal_ignoring_transition,
  conditions_by_type,
}
use poll_operator.PollController.StatusEqual.Laws.{length_of_strip, time_ptr_equal_sound}
use poll_operator.PollController.StatusEqual.Exact.{strip_status}

same_condition-strip :
    (o : Option Condition) (b b' : Condition)
    → strip b ≡ strip b'
    → same_condition o b ≡ same_condition o b'
same_condition-strip none b b' e = refl
same_condition-strip (some a) b b' e = ground arith

pub all_same_conditions-strip :
    (m : String → Option Condition) (xs ys : List Condition)
    → map strip xs ≡ map strip ys
    → all_same_conditions m xs ≡ all_same_conditions m ys
unfolding all_same_conditions
all_same_conditions-strip m [] [] e = refl
all_same_conditions-strip m [] (y ∷ ys) e = cc
all_same_conditions-strip m (x ∷ xs) [] e = cc
all_same_conditions-strip m (x ∷ xs) (y ∷ ys) e =
    let same : x.type ≡ y.type = ground arith in
    ground
      (arith, same_condition-strip (m x.type) x y, ap m same, all_same_conditions-strip m xs ys)

-- The comparison does not look at the transition times of the wanted status.
status_equal-strip :
    (a b b' : PollStatus) → strip_status b ≡ strip_status b' → status_equal a b ≡ status_equal a b'
unfolding status_equal conditions_equal_ignoring_transition
status_equal-strip a b b' e = ground (
  arith,
  all_same_conditions-strip (conditions_by_type a.conditions) b.conditions b'.conditions,
  length_of_strip b.conditions b'.conditions,
)

pub aggregate_results-status :
    (poll : Poll) (s : PollStatus) (rs : List PollResponse)
    → aggregate_results (record poll { status = s }) rs ≡ aggregate_results poll rs
unfolding aggregate_results is_counted
aggregate_results-status poll s rs = refl

pub IsSettled-persisted :
    {closed : Bool} {s : PollStatus} → IsSettled closed s → IsSettled closed (persisted s)
IsSettled-persisted settled = ground arith

pub status_equal-times :
    (a b : PollStatus)
    → status_equal a b ≡ true
    → (a.opened_at ≡ b.opened_at) × (a.closed_at ≡ b.closed_at)
unfolding status_equal
status_equal-times a b e = ground (
  arith,
  time_ptr_equal_sound a.opened_at b.opened_at,
  time_ptr_equal_sound a.closed_at b.closed_at,
)

IsSettled-times :
    {closed : Bool} {a b : PollStatus}
    → (a.opened_at ≡ b.opened_at) × (a.closed_at ≡ b.closed_at)
    → IsSettled closed b
    → IsSettled closed a
IsSettled-times same settled = ground arith

-- Where timestamps are recorded, a later reading on the same side changes nothing.
module _ (poll : Poll) (t u : Time)
    (same : has_closed poll.spec.closes_at u ≡ has_closed poll.spec.closes_at t) where
  pub compute_phase_later :
      (s : PollStatus)
      → IsSettled (has_closed poll.spec.closes_at t) s
      → compute_phase poll s u ≡ (phase_of (has_closed poll.spec.closes_at t), s)
  compute_phase_later s settled =
      compute_phase_settled poll s u (subst (λ c. IsSettled c s) (sym same) settled)
      ∙ ap (λ c. (phase_of c, s)) same

  expected_later :
      (rs : List PollResponse)
      → IsSettled (has_closed poll.spec.closes_at t) poll.status
      → expected poll rs u ≡ expected poll rs t
  expected_later rs settled = ap (expected_from poll rs) (
      compute_phase_later poll.status settled
      ∙ sym (compute_phase_settled poll poll.status t settled))

module _ (kube : Kube) (law : IsLawful kube) (rs : List PollResponse) where
  pub desired_status-IsSettled :
      (poll : Poll) (t t' t'' : Time)
      → IsSettled (has_closed poll.spec.closes_at t) (desired_status kube poll rs t t' t'')
  unfolding desired_status
  desired_status-IsSettled poll t t' t'' =
      let s = compute_phase-IsSettled poll poll.status t in
      record { opening = s.opening; closing = s.closing; no_closing = s.no_closing }

  -- Nothing to write at one reading, nothing to write at a later one on the same side.
  pub status_equal_later :
      (poll : Poll) (t t' t'' u u' u'' : Time)
      → has_closed poll.spec.closes_at u ≡ has_closed poll.spec.closes_at t
      → status_equal poll.status (desired_status kube poll rs t t' t'') ≡ true
      → status_equal poll.status (desired_status kube poll rs u u' u'') ≡ true
  status_equal_later poll t t' t'' u u' u'' same e =
      let settled =
        IsSettled-times (status_equal-times poll.status _ e)
          (desired_status-IsSettled poll t t' t'') in
      status_equal-strip poll.status _ _ (
        strip-desired_status kube law poll rs u u' u''
        ∙ expected_later poll t u same rs settled
        ∙ sym (strip-desired_status kube law poll rs t t' t''))
      ∙ e
