-- ===== src/PollController/Phase.antt =====
-- `computePhase` of internal/controller/poll_controller.go.
pub mod Laws
use poll_operator.Base.{ℕ, Bool, false, Option, none, some, not, ltb, if◌then◌else◌}
use poll_operator.Api.{Time, Poll, PollStatus, PollPhase, poll_phase_open, poll_phase_closed}

-- `poll.Spec.ClosesAt != nil && !now.Before(poll.Spec.ClosesAt.Time)`
abbrev pub has_closed : Option Time → Time → Bool
has_closed none now = false
has_closed (some t) now = not (ltb now t)

-- The assignment under `if x == nil`.
abbrev pub if_unset : Option Time → Option Time → Option Time
if_unset none t = t
if_unset (some old) t = some old

-- The phase, and the status with the timestamps of the transition.
unfoldable pub compute_phase : Poll → PollStatus → Time → PollPhase × PollStatus
compute_phase poll status now =
    if has_closed poll.spec.closes_at now
    then (let closed = if_unset status.closed_at (some now) in
        (
          poll_phase_closed,
          record status { opened_at = if_unset status.opened_at closed; closed_at = closed },
        ))
    else (
      poll_phase_open,
      record status { opened_at = if_unset status.opened_at (some now); closed_at = none },
    )
