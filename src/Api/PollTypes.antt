-- ===== src/Api/PollTypes.antt =====
-- api/v1/poll_types.go
use text.Mathlib.TextEquality.{eq_iff}
use poll_operator.Base.{◌≢◌, arith, ℤ, String, Bool, Option, List}
use poll_operator.Api.MetaTypes.{Time, ObjectMeta, Condition}

-- Named string types: a value of another spelling is possible, and so is the empty string.
abbrev pub PollPhase : Type 0
PollPhase = String

abbrev pub poll_phase_pending : PollPhase
poll_phase_pending = "Pending"

abbrev pub poll_phase_open : PollPhase
poll_phase_open = "Open"

abbrev pub poll_phase_closed : PollPhase
poll_phase_closed = "Closed"

abbrev pub QuestionType : Type 0
QuestionType = String

abbrev pub question_type_choice : QuestionType
question_type_choice = "Choice"

abbrev pub question_type_free_text : QuestionType
question_type_free_text = "FreeText"

pub record ChoiceQuestion : Type 0 where
  pub options : List String
  pub allow_multiple_choices : Bool

pub record FreeTextQuestion : Type 0 where
  pub max_response_length : ℤ

pub record PollQuestion : Type 0 where
  pub id : String
  pub prompt : String
  pub type : QuestionType
  pub choice : Option ChoiceQuestion
  pub free_text : Option FreeTextQuestion

pub record PollSpec : Type 0 where
  pub title : String
  pub questions : List PollQuestion
  pub closes_at : Option Time

pub record OptionResult : Type 0 where
  pub option : String
  pub votes : ℤ

pub record QuestionResult : Type 0 where
  pub question_id : String
  pub options : List OptionResult
  pub responses : ℤ

pub record PollStatus : Type 0 where
  pub conditions : List Condition
  pub phase : PollPhase
  pub opened_at : Option Time
  pub closed_at : Option Time
  pub results : List QuestionResult
  pub total_responses : ℤ

pub record Poll : Type 0 where
  pub meta : ObjectMeta
  pub spec : PollSpec
  pub status : PollStatus

-- The constants are different texts.
pub open-ne-closed : ◌≢◌ {A = String} poll_phase_open poll_phase_closed
open-ne-closed = ground (arith, eq_iff "Open" "Closed")

pub choice-ne-free_text : ◌≢◌ {A = String} question_type_choice question_type_free_text
choice-ne-free_text = ground (arith, eq_iff "Choice" "FreeText")
