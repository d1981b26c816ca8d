-- ===== src/PollController/Phase/Laws.antt =====
-- The lifecycle that `compute_phase` keeps.
use poll_operator.Base.{
  ◌≤◌, ◌<◌, true, false, Option, none, some, ◌≡◌, ◌≢◌, ◌↔◌, ◌⊎◌, inl, inr, refl, arith,
}
use poll_operator.Api.{Time, Poll, PollStatus, poll_phase_open, poll_phase_closed, open-ne-closed}
use poll_operator.PollController.Phase.{has_closed, compute_phase}

pub compute_phase-has_closed :
    (poll : Poll) (status : PollStatus) (now : Time)
    → (((compute_phase poll status now).0 ≡ poll_phase_closed)
        ↔ (has_closed poll.spec.closes_at now ≡ true))
      × (((compute_phase poll status now).0 ≡ poll_phase_open)
          ↔ (has_closed poll.spec.closes_at now ≡ false))
unfolding compute_phase
compute_phase-has_closed poll status now = ground (arith, open-ne-closed)

-- The closing time, where there is one, is not after the instant.
abbrev pub IsDue : Option Time → Time → Type 0
IsDue closes_at now = (t : Time) × (closes_at ≡ some t) × (t ≤ now)

-- There is no closing time, or it is after the instant.
abbrev pub IsAhead : Option Time → Time → Type 0
IsAhead closes_at now = (closes_at ≡ none) ⊎ ((t : Time) × (closes_at ≡ some t) × (now < t))

has_closed-IsDue :
    (closes_at : Option Time) (now : Time)
    → ((has_closed closes_at now ≡ true) ↔ IsDue closes_at now)
      × ((has_closed closes_at now ≡ false) ↔ IsAhead closes_at now)
has_closed-IsDue none now =
    ((λ e. ground arith, λ (t, e, h). ground arith), (λ e. inl refl, λ h. refl))
has_closed-IsDue (some t) now = (
  (λ e. (t, refl, ground arith), λ (t', e, h). ground arith),
  (
    λ e. inr (t, refl, ground arith),
    λ h. elim h [ inl e ↦ ground arith | inr (t', e, h') ↦ ground arith ],
  ),
)

-- The Poll is Closed exactly if it has a closing time and that is not after the current time, and
-- Open exactly if it has none or it is still ahead.
pub compute_phase-phase :
    (poll : Poll) (status : PollStatus) (now : Time)
    → (((compute_phase poll status now).0 ≡ poll_phase_closed) ↔ IsDue poll.spec.closes_at now)
      × (((compute_phase poll status now).0 ≡ poll_phase_open) ↔ IsAhead poll.spec.closes_at now)
compute_phase-phase poll status now =
    let ((closed, closed'), (opened, opened')) = compute_phase-has_closed poll status now in
    let ((due, due'), (ahead, ahead')) = has_closed-IsDue poll.spec.closes_at now in
    ((λ e. due (closed e), λ h. closed' (due' h)), (λ e. ahead (opened e), λ h. opened' (ahead' h)))

abbrev AtMost : Option Time → Time → Type 0
AtMost none t = Unit
AtMost (some s) t = s ≤ t

-- A closing is preceded by an opening.
abbrev InOrder : Option Time → Option Time → Type 0
InOrder opened none = Unit
InOrder none (some c) = ⊥
InOrder (some o) (some c) = o ≤ c

-- The timeline of a status as it stands at an instant.
pub record IsTimeline (status : PollStatus) (t : Time) : Type 0 where
  pub opened_by : AtMost status.opened_at t
  pub closed_by : AtMost status.closed_at t
  pub in_order : InOrder status.opened_at status.closed_at

-- From a sound timeline, a later call makes a sound one in which the opening is recorded, and the
-- closing exactly if the phase is Closed.
pub compute_phase-IsTimeline :
    (poll : Poll) (status : PollStatus) (t now : Time)
    → IsTimeline status t
    → t ≤ now
    → let (phase, next) = compute_phase poll status now in
      IsTimeline next now
      × (next.opened_at ≢ none)
      × ((next.closed_at ≢ none) ↔ (phase ≡ poll_phase_closed))
unfolding compute_phase
compute_phase-IsTimeline poll status t now line h = ground (arith, open-ne-closed)

-- A second call on the same side of the closing time changes nothing: timestamps are kept.
pub compute_phase_again :
    (poll : Poll) (status : PollStatus) (t now : Time)
    → has_closed poll.spec.closes_at now ≡ has_closed poll.spec.closes_at t
    → compute_phase poll (compute_phase poll status t).1 now ≡ compute_phase poll status t
unfolding compute_phase
compute_phase_again poll status t now same = ground arith

-- Once Closed, a Poll whose closing time is left alone stays Closed at every later call,
-- with the same timestamps.
pub compute_phase_final :
    (poll : Poll) (status : PollStatus) (t now : Time)
    → (compute_phase poll status t).0 ≡ poll_phase_closed
    → t ≤ now
    → compute_phase poll (compute_phase poll status t).1 now ≡ compute_phase poll status t
compute_phase_final poll status t now closed h =
    compute_phase_again poll status t now
      (ground (arith, (compute_phase-has_closed poll status t).0.0))
