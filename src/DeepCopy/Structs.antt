-- ===== src/DeepCopy/Structs.antt =====
-- The structs that have a DeepCopy method, with the method and the reader of each.
use poll_operator.Base.{Option}
use poll_operator.Api.{
  ChoiceQuestion, FreeTextQuestion, OptionResult, Poll, PollAnswer, PollQuestion, PollReference,
  PollResponse, PollResponseSpec, PollResponseStatus, PollSpec, PollStatus, QuestionResult,
}
use poll_operator.DeepCopy.Layout.{Ptr}
use poll_operator.DeepCopy.Kinds.{
  choices, free_texts, option_results, polls, answers, poll_lists, questions, references, responses,
  response_lists, response_specs, response_statuses, specs, statuses, question_results,
}
use poll_operator.DeepCopy.Heap.{Reader, plain, read_ptr}
use poll_operator.DeepCopy.Reading.{
  Typed, Listed, read_choice, read_poll, read_answer, read_poll_list, read_question, read_response,
  read_response_list, read_response_spec, read_response_status, read_spec, read_status, read_result,
}
use poll_operator.DeepCopy.Copying.{Copier}
use poll_operator.DeepCopy.Copies.{
  Machinery, deep_copy_choice, deep_copy_free_text, deep_copy_option_result, deep_copy_poll,
  deep_copy_answer, deep_copy_poll_list, deep_copy_question, deep_copy_reference,
  deep_copy_response, deep_copy_response_list, deep_copy_response_spec, deep_copy_response_status,
  deep_copy_spec, deep_copy_status, deep_copy_result,
}

pub data Struct : Type 0 where
  choice_question : Struct
  free_text_question : Struct
  option_result : Struct
  poll : Struct
  poll_answer : Struct
  poll_list : Struct
  poll_question : Struct
  poll_reference : Struct
  poll_response : Struct
  poll_response_list : Struct
  poll_response_spec : Struct
  poll_response_status : Struct
  poll_spec : Struct
  poll_status : Struct
  question_result : Struct

abbrev pub Value : Struct → Type 0
Value choice_question = ChoiceQuestion
Value free_text_question = FreeTextQuestion
Value option_result = OptionResult
Value poll = Typed Poll
Value poll_answer = PollAnswer
Value poll_list = Listed Poll
Value poll_question = PollQuestion
Value poll_reference = PollReference
Value poll_response = Typed PollResponse
Value poll_response_list = Listed PollResponse
Value poll_response_spec = PollResponseSpec
Value poll_response_status = PollResponseStatus
Value poll_spec = PollSpec
Value poll_status = PollStatus
Value question_result = QuestionResult

unfoldable pub read_struct : (t : Struct) → Reader (Option Ptr) (Option (Value t))
read_struct choice_question = read_ptr choices read_choice
read_struct free_text_question = read_ptr free_texts plain
read_struct option_result = read_ptr option_results plain
read_struct poll = read_ptr polls read_poll
read_struct poll_answer = read_ptr answers read_answer
read_struct poll_list = read_ptr poll_lists read_poll_list
read_struct poll_question = read_ptr questions read_question
read_struct poll_reference = read_ptr references plain
read_struct poll_response = read_ptr responses read_response
read_struct poll_response_list = read_ptr response_lists read_response_list
read_struct poll_response_spec = read_ptr response_specs read_response_spec
read_struct poll_response_status = read_ptr response_statuses read_response_status
read_struct poll_spec = read_ptr specs read_spec
read_struct poll_status = read_ptr statuses read_status
read_struct question_result = read_ptr question_results read_result

-- The method DeepCopy of the struct
unfoldable pub deep_copy : Machinery → Struct → Copier (Option Ptr)
deep_copy k choice_question = deep_copy_choice
deep_copy k free_text_question = deep_copy_free_text
deep_copy k option_result = deep_copy_option_result
deep_copy k poll = deep_copy_poll k
deep_copy k poll_answer = deep_copy_answer
deep_copy k poll_list = deep_copy_poll_list k
deep_copy k poll_question = deep_copy_question
deep_copy k poll_reference = deep_copy_reference
deep_copy k poll_response = deep_copy_response k
deep_copy k poll_response_list = deep_copy_response_list k
deep_copy k poll_response_spec = deep_copy_response_spec k
deep_copy k poll_response_status = deep_copy_response_status k
deep_copy k poll_spec = deep_copy_spec k
deep_copy k poll_status = deep_copy_status k
deep_copy k question_result = deep_copy_result
