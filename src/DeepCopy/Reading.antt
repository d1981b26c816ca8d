-- ===== src/DeepCopy/Reading.antt =====
-- The readers of the structs of api/v1.
use poll_operator.Base.{ℤ, String, List, Option, some}
use poll_operator.Api.{
  ChoiceQuestion, PollQuestion, PollSpec, QuestionResult, PollStatus, Poll, PollAnswer,
  PollResponseSpec, PollResponseStatus, PollResponse,
}
use poll_operator.DeepCopy.Layout.{
  TypeMeta, ListMetaMem, ChoiceQuestionMem, PollQuestionMem, PollSpecMem, QuestionResultMem,
  PollStatusMem, PollMem, PollListMem, PollAnswerMem, PollResponseSpecMem, PollResponseStatusMem,
  PollResponseMem, PollResponseListMem,
}
use poll_operator.DeepCopy.Kinds.{
  strings, ints, conditions, choices, free_texts, questions, option_results, question_results,
  answers, polls, responses,
}
use poll_operator.DeepCopy.Heap.{
  Reader, plain, read_slice, read_ptr, read_time, read_object_meta, ◌>>=◌,
}

-- An object with its `metav1.TypeMeta`, which Api leaves out
pub record Typed (A : Type 0) : Type 0 where
  pub type_meta : TypeMeta
  pub object : A

pub record ListMeta : Type 0 where
  pub resource_version : String
  pub continue_token : String
  pub remaining_item_count : Option ℤ

pub record Listed (A : Type 0) : Type 0 where
  pub type_meta : TypeMeta
  pub meta : ListMeta
  pub items : List (Typed A)

unfoldable pub read_list_meta : Reader ListMetaMem ListMeta
read_list_meta m h = do
  count ← read_ptr ints plain m.remaining_item_count h
  some record {
    resource_version = m.resource_version;
    continue_token = m.continue_token;
    remaining_item_count = count;
  }

unfoldable pub read_choice : Reader ChoiceQuestionMem ChoiceQuestion
read_choice m h = do
  options ← read_slice strings plain m.options h
  some record { options = options; allow_multiple_choices = m.allow_multiple_choices }

unfoldable pub read_question : Reader PollQuestionMem PollQuestion
read_question m h = do
  choice ← read_ptr choices read_choice m.choice h
  free_text ← read_ptr free_texts plain m.free_text h
  some
      record { id = m.id; prompt = m.prompt; type = m.type; choice = choice; free_text = free_text }

unfoldable pub read_spec : Reader PollSpecMem PollSpec
read_spec m h = do
  qs ← read_slice questions read_question m.questions h
  closes ← read_time m.closes_at h
  some record { title = m.title; questions = qs; closes_at = closes }

unfoldable pub read_result : Reader QuestionResultMem QuestionResult
read_result m h = do
  options ← read_slice option_results plain m.options h
  some record { question_id = m.question_id; options = options; responses = m.responses }

unfoldable pub read_status : Reader PollStatusMem PollStatus
read_status m h = do
  conds ← read_slice conditions plain m.conditions h
  opened ← read_time m.opened_at h
  closed ← read_time m.closed_at h
  results ← read_slice question_results read_result m.results h
  some record {
    conditions = conds;
    phase = m.phase;
    opened_at = opened;
    closed_at = closed;
    results = results;
    total_responses = m.total_responses;
  }

unfoldable pub read_poll : Reader PollMem (Typed Poll)
read_poll m h = do
  meta ← read_object_meta m.meta h
  spec ← read_spec m.spec h
  status ← read_status m.status h
  some record {
    type_meta = m.type_meta;
    object = record { meta = meta; spec = spec; status = status };
  }

unfoldable pub read_poll_list : Reader PollListMem (Listed Poll)
read_poll_list m h = do
  meta ← read_list_meta m.meta h
  items ← read_slice polls read_poll m.items h
  some record { type_meta = m.type_meta; meta = meta; items = items }

unfoldable pub read_answer : Reader PollAnswerMem PollAnswer
read_answer m h = do
  selected ← read_slice strings plain m.selected_options h
  some record { question_id = m.question_id; selected_options = selected; text = m.text }

unfoldable pub read_response_spec : Reader PollResponseSpecMem PollResponseSpec
read_response_spec m h = do
  given ← read_slice answers read_answer m.answers h
  submitted ← read_time m.submitted_at h
  some record {
    poll_ref = m.poll_ref;
    respondent = m.respondent;
    answers = given;
    submitted_at = submitted;
  }

unfoldable pub read_response_status : Reader PollResponseStatusMem PollResponseStatus
read_response_status m h = do
  conds ← read_slice conditions plain m.conditions h
  accepted ← read_time m.accepted_at h
  some record {
    conditions = conds;
    phase = m.phase;
    observed_poll_generation = m.observed_poll_generation;
    accepted_at = accepted;
  }

unfoldable pub read_response : Reader PollResponseMem (Typed PollResponse)
read_response m h = do
  meta ← read_object_meta m.meta h
  spec ← read_response_spec m.spec h
  status ← read_response_status m.status h
  some record {
    type_meta = m.type_meta;
    object = record { meta = meta; spec = spec; status = status };
  }

unfoldable pub read_response_list : Reader PollResponseListMem (Listed PollResponse)
read_response_list m h = do
  meta ← read_list_meta m.meta h
  items ← read_slice responses read_response m.items h
  some record { type_meta = m.type_meta; meta = meta; items = items }
