-- ===== src/DeepCopy/Layout.antt =====
-- The structs of api/v1 as they lie in memory, where slices and pointers are addresses.
use poll_operator.Base.{ℕ, ℤ, String, Bool, List, Option}
use poll_operator.Api.{
  Time, Condition, OwnerReference, PollPhase, QuestionType, FreeTextQuestion, OptionResult,
  PollReference, PollResponsePhase,
}

-- A pointer to an element of an array. A struct made by `new` is an array of one element.
pub record Ptr : Type 0 where
  pub array : ℕ
  pub index : ℕ

-- A slice that is not nil.
pub record Slice : Type 0 where
  pub array : ℕ
  pub start : ℕ
  pub size : ℕ

pub record TypeMeta : Type 0 where
  pub kind : String
  pub api_version : String

-- What the operator uses of `metav1.ObjectMeta`.
pub record ObjectMetaMem : Type 0 where
  pub name : String
  pub generate_name : String
  pub namespace : String
  pub uid : String
  pub generation : ℤ
  pub deletion_timestamp : Option Ptr
  pub owner_references : Option Slice

pub record ListMetaMem : Type 0 where
  pub resource_version : String
  pub continue_token : String
  pub remaining_item_count : Option Ptr

-- api/v1/poll_types.go
pub record ChoiceQuestionMem : Type 0 where
  pub options : Option Slice
  pub allow_multiple_choices : Bool

pub record PollQuestionMem : Type 0 where
  pub id : String
  pub prompt : String
  pub type : QuestionType
  pub choice : Option Ptr
  pub free_text : Option Ptr

pub record PollSpecMem : Type 0 where
  pub title : String
  pub questions : Option Slice
  pub closes_at : Option Ptr

pub record QuestionResultMem : Type 0 where
  pub question_id : String
  pub options : Option Slice
  pub responses : ℤ

pub record PollStatusMem : Type 0 where
  pub conditions : Option Slice
  pub phase : PollPhase
  pub opened_at : Option Ptr
  pub closed_at : Option Ptr
  pub results : Option Slice
  pub total_responses : ℤ

pub record PollMem : Type 0 where
  pub type_meta : TypeMeta
  pub meta : ObjectMetaMem
  pub spec : PollSpecMem
  pub status : PollStatusMem

pub record PollListMem : Type 0 where
  pub type_meta : TypeMeta
  pub meta : ListMetaMem
  pub items : Option Slice

-- api/v1/pollresponse_types.go
pub record PollAnswerMem : Type 0 where
  pub question_id : String
  pub selected_options : Option Slice
  pub text : String

pub record PollResponseSpecMem : Type 0 where
  pub poll_ref : PollReference
  pub respondent : String
  pub answers : Option Slice
  pub submitted_at : Option Ptr

pub record PollResponseStatusMem : Type 0 where
  pub conditions : Option Slice
  pub phase : PollResponsePhase
  pub observed_poll_generation : ℤ
  pub accepted_at : Option Ptr

pub record PollResponseMem : Type 0 where
  pub type_meta : TypeMeta
  pub meta : ObjectMetaMem
  pub spec : PollResponseSpecMem
  pub status : PollResponseStatusMem

pub record PollResponseListMem : Type 0 where
  pub type_meta : TypeMeta
  pub meta : ListMetaMem
  pub items : Option Slice

-- The arrays of whole objects, and those of the parts of objects.
pub data Object : Type 0 where
  poll_array : List PollMem → Object
  poll_list_array : List PollListMem → Object
  response_array : List PollResponseMem → Object
  response_list_array : List PollResponseListMem → Object

pub data Part : Type 0 where
  string_array : List String → Part
  int_array : List ℤ → Part
  time_array : List Time → Part
  condition_array : List Condition → Part
  owner_array : List OwnerReference → Part
  choice_array : List ChoiceQuestionMem → Part
  free_text_array : List FreeTextQuestion → Part
  question_array : List PollQuestionMem → Part
  spec_array : List PollSpecMem → Part
  option_result_array : List OptionResult → Part
  question_result_array : List QuestionResultMem → Part
  status_array : List PollStatusMem → Part
  answer_array : List PollAnswerMem → Part
  reference_array : List PollReference → Part
  response_spec_array : List PollResponseSpecMem → Part
  response_status_array : List PollResponseStatusMem → Part

pub data Cell : Type 0 where
  object : Object → Cell
  part : Part → Cell
