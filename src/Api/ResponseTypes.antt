-- ===== src/Api/ResponseTypes.antt =====
-- api/v1/pollresponse_types.go
use text.Mathlib.TextEquality.{eq_iff}
use poll_operator.Base.{◌≢◌, arith, ℤ, String, Option, List}
use poll_operator.Api.MetaTypes.{Time, ObjectMeta, Condition}

abbrev pub PollResponsePhase : Type 0
PollResponsePhase = String

abbrev pub response_phase_pending : PollResponsePhase
response_phase_pending = "Pending"

abbrev pub response_phase_accepted : PollResponsePhase
response_phase_accepted = "Accepted"

abbrev pub response_phase_rejected : PollResponsePhase
response_phase_rejected = "Rejected"

pub record PollAnswer : Type 0 where
  pub question_id : String
  pub selected_options : List String
  pub text : String

pub record PollReference : Type 0 where
  pub name : String

pub record PollResponseSpec : Type 0 where
  pub poll_ref : PollReference
  pub respondent : String
  pub answers : List PollAnswer
  pub submitted_at : Option Time

pub record PollResponseStatus : Type 0 where
  pub conditions : List Condition
  pub phase : PollResponsePhase
  pub observed_poll_generation : ℤ
  pub accepted_at : Option Time

pub record PollResponse : Type 0 where
  pub meta : ObjectMeta
  pub spec : PollResponseSpec
  pub status : PollResponseStatus

pub rejected-ne-accepted : ◌≢◌ {A = String} response_phase_rejected response_phase_accepted
rejected-ne-accepted = ground (arith, eq_iff "Rejected" "Accepted")
