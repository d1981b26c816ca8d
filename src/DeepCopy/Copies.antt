-- ===== src/DeepCopy/Copies.antt =====
-- api/v1/zz_generated.deepcopy.go: DeepCopyInto gives what it writes to `out`, and DeepCopy a
-- pointer to it. The copies of Kubernetes' own types are a parameter.
use mathlib.Core.Option
use mathlib.Core.Option.{Option}
use poll_operator.Base.{none, some}
use poll_operator.Api.{Condition, FreeTextQuestion, OptionResult, PollReference}
use poll_operator.DeepCopy.Layout.{
  Ptr, ObjectMetaMem, ListMetaMem, ChoiceQuestionMem, PollQuestionMem, PollSpecMem,
  QuestionResultMem, PollStatusMem, PollMem, PollListMem, PollAnswerMem, PollResponseSpecMem,
  PollResponseStatusMem, PollResponseMem, PollResponseListMem,
}
use poll_operator.DeepCopy.Kinds.{
  strings, conditions, choices, free_texts, questions, specs, option_results, question_results,
  statuses, answers, references, response_specs, response_statuses, polls, poll_lists, responses,
  response_lists,
}
use poll_operator.DeepCopy.Copying.{M, Copier, assign, pure, copy_slice, copy_ptr, ◌>>=◌}

-- The methods of `metav1.ObjectMeta`, `metav1.ListMeta`, `metav1.Condition` and `metav1.Time`
pub record Machinery : Type 0 where
  pub object_meta : Copier ObjectMetaMem
  pub list_meta : Copier ListMetaMem
  pub condition : Copier Condition
  pub time : Copier (Option Ptr)

unfoldable pub choice_into : Copier ChoiceQuestionMem
choice_into m = do
  options ← copy_slice strings assign m.options
  pure record m { options = options }

unfoldable pub free_text_into : Copier FreeTextQuestion
free_text_into = assign

unfoldable pub option_result_into : Copier OptionResult
option_result_into = assign

unfoldable pub answer_into : Copier PollAnswerMem
answer_into m = do
  selected ← copy_slice strings assign m.selected_options
  pure record m { selected_options = selected }

-- The free text is assigned through the pointers, `**out = **in`.
unfoldable pub question_into : Copier PollQuestionMem
question_into m = do
  choice ← copy_ptr choices choice_into m.choice
  free_text ← copy_ptr free_texts assign m.free_text
  pure record m { choice = choice; free_text = free_text }

unfoldable pub reference_into : Copier PollReference
reference_into = assign

unfoldable pub result_into : Copier QuestionResultMem
result_into m = do
  options ← copy_slice option_results assign m.options
  pure record m { options = options }

abbrev pub deep_copy_choice : Copier (Option Ptr)
deep_copy_choice = copy_ptr choices choice_into

abbrev pub deep_copy_free_text : Copier (Option Ptr)
deep_copy_free_text = copy_ptr free_texts free_text_into

abbrev pub deep_copy_option_result : Copier (Option Ptr)
deep_copy_option_result = copy_ptr option_results option_result_into

abbrev pub deep_copy_answer : Copier (Option Ptr)
deep_copy_answer = copy_ptr answers answer_into

abbrev pub deep_copy_question : Copier (Option Ptr)
deep_copy_question = copy_ptr questions question_into

abbrev pub deep_copy_reference : Copier (Option Ptr)
deep_copy_reference = copy_ptr references reference_into

abbrev pub deep_copy_result : Copier (Option Ptr)
deep_copy_result = copy_ptr question_results result_into

-- `runtime.Object`, where it is not nil: a pointer with the type that it points to
pub data RuntimeObject : Type 0 where
  of_poll : Ptr → RuntimeObject
  of_poll_list : Ptr → RuntimeObject
  of_response : Ptr → RuntimeObject
  of_response_list : Ptr → RuntimeObject

-- `if c := in.DeepCopy(); c != nil { return c }; return nil`
unfoldable pub copy_object :
    (Ptr → RuntimeObject) → Copier (Option Ptr) → Option Ptr → M (Option RuntimeObject)
copy_object of deep_copy p = do c ← deep_copy p; pure (Option.map of c)

module _ (k : Machinery) where
  -- `(*in).DeepCopy()` of a time that is not nil
  unfoldable pub time_ptr : Copier (Option Ptr)
  time_ptr none = pure none
  time_ptr (some p) = k.time (some p)

  unfoldable pub spec_into : Copier PollSpecMem
  spec_into m = do
    qs ← copy_slice questions question_into m.questions
    closes ← time_ptr m.closes_at
    pure record m { questions = qs; closes_at = closes }

  unfoldable pub status_into : Copier PollStatusMem
  status_into m = do
    conds ← copy_slice conditions k.condition m.conditions
    opened ← time_ptr m.opened_at
    closed ← time_ptr m.closed_at
    results ← copy_slice question_results result_into m.results
    pure record m { conditions = conds; opened_at = opened; closed_at = closed; results = results }

  unfoldable pub poll_into : Copier PollMem
  poll_into m = do
    meta ← k.object_meta m.meta
    spec ← spec_into m.spec
    status ← status_into m.status
    pure record m { meta = meta; spec = spec; status = status }

  unfoldable pub poll_list_into : Copier PollListMem
  poll_list_into m = do
    meta ← k.list_meta m.meta
    items ← copy_slice polls poll_into m.items
    pure record m { meta = meta; items = items }

  unfoldable pub response_spec_into : Copier PollResponseSpecMem
  response_spec_into m = do
    given ← copy_slice answers answer_into m.answers
    submitted ← time_ptr m.submitted_at
    pure record m { answers = given; submitted_at = submitted }

  unfoldable pub response_status_into : Copier PollResponseStatusMem
  response_status_into m = do
    conds ← copy_slice conditions k.condition m.conditions
    accepted ← time_ptr m.accepted_at
    pure record m { conditions = conds; accepted_at = accepted }

  unfoldable pub response_into : Copier PollResponseMem
  response_into m = do
    meta ← k.object_meta m.meta
    spec ← response_spec_into m.spec
    status ← response_status_into m.status
    pure record m { meta = meta; spec = spec; status = status }

  unfoldable pub response_list_into : Copier PollResponseListMem
  response_list_into m = do
    meta ← k.list_meta m.meta
    items ← copy_slice responses response_into m.items
    pure record m { meta = meta; items = items }

  abbrev pub deep_copy_spec : Copier (Option Ptr)
  deep_copy_spec = copy_ptr specs spec_into

  abbrev pub deep_copy_status : Copier (Option Ptr)
  deep_copy_status = copy_ptr statuses status_into

  abbrev pub deep_copy_poll : Copier (Option Ptr)
  deep_copy_poll = copy_ptr polls poll_into

  abbrev pub deep_copy_poll_list : Copier (Option Ptr)
  deep_copy_poll_list = copy_ptr poll_lists poll_list_into

  abbrev pub deep_copy_response_spec : Copier (Option Ptr)
  deep_copy_response_spec = copy_ptr response_specs response_spec_into

  abbrev pub deep_copy_response_status : Copier (Option Ptr)
  deep_copy_response_status = copy_ptr response_statuses response_status_into

  abbrev pub deep_copy_response : Copier (Option Ptr)
  deep_copy_response = copy_ptr responses response_into

  abbrev pub deep_copy_response_list : Copier (Option Ptr)
  deep_copy_response_list = copy_ptr response_lists response_list_into

  abbrev pub deep_copy_poll_object : Option Ptr → M (Option RuntimeObject)
  deep_copy_poll_object = copy_object of_poll deep_copy_poll

  abbrev pub deep_copy_poll_list_object : Option Ptr → M (Option RuntimeObject)
  deep_copy_poll_list_object = copy_object of_poll_list deep_copy_poll_list

  abbrev pub deep_copy_response_object : Option Ptr → M (Option RuntimeObject)
  deep_copy_response_object = copy_object of_response deep_copy_response

  abbrev pub deep_copy_response_list_object : Option Ptr → M (Option RuntimeObject)
  deep_copy_response_list_object = copy_object of_response_list deep_copy_response_list
