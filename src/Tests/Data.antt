-- ===== src/Tests/Data.antt =====
-- A poll with a question of each type, and responses to it.
use poll_operator.Base.{pos, String, true, none, some, List, [], ◌∷◌}
use poll_operator.Api.{
  Time, ObjectMeta, Poll, PollStatus, PollQuestion, ChoiceQuestion, PollAnswer, PollResponse,
  PollResponseStatus, question_type_choice, question_type_free_text, response_phase_accepted,
  response_phase_pending,
}

abbrev pub second : Time
second = 1000000000

abbrev pub named : String → ObjectMeta
named name = record {
  name = name;
  generate_name = "";
  namespace = "team";
  uid = name;
  generation = pos 1;
  deletion_timestamp = none;
  owner_references = [];
}

abbrev pub colours : ChoiceQuestion
colours = record { options = "red" ∷ "blue" ∷ []; allow_multiple_choices = true }

abbrev pub colour : PollQuestion
colour = record {
  id = "colour";
  prompt = "Which colour?";
  type = question_type_choice;
  choice = some colours;
  free_text = none;
}

abbrev pub why : PollQuestion
why = record {
  id = "why";
  prompt = "Why?";
  type = question_type_free_text;
  choice = none;
  free_text = some (record { max_response_length = pos 5 });
}

abbrev pub new_status : PollStatus
new_status = record {
  conditions = [];
  phase = "";
  opened_at = none;
  closed_at = none;
  results = [];
  total_responses = pos 0;
}

-- It closes after ten seconds.
abbrev pub paint : Poll
paint = record {
  meta = named "paint";
  spec = record { title = "Paint"; questions = colour ∷ why ∷ []; closes_at = some 10000000000 };
  status = new_status;
}

abbrev pub blue : PollAnswer
blue = record { question_id = "colour"; selected_options = "blue" ∷ []; text = "" }

abbrev pub both : PollAnswer
both = record { question_id = "colour"; selected_options = "red" ∷ "blue" ∷ []; text = "" }

abbrev pub calm : PollAnswer
calm = record { question_id = "why"; selected_options = []; text = "calm" }

abbrev pub new_response_status : PollResponseStatus
new_response_status = record {
  conditions = [];
  phase = "";
  observed_poll_generation = pos 0;
  accepted_at = none;
}

abbrev pub response : String → List PollAnswer → PollResponse
response name answers = record {
  meta = named name;
  spec = record {
    poll_ref = record { name = "paint" };
    respondent = "";
    answers = answers;
    submitted_at = none;
  };
  status = new_response_status;
}

abbrev pub with_phase : String → PollResponse → PollResponse
with_phase phase r = record r { status = record r.status { phase = phase } }

abbrev pub votes : List PollResponse
votes =
    with_phase response_phase_accepted (response "a" (blue ∷ calm ∷ []))
    ∷ with_phase response_phase_pending (response "b" (blue ∷ []))
    ∷ with_phase response_phase_accepted (response "c" (both ∷ []))
    ∷ []
