-- ===== src/Tests/Copies.antt =====
-- Deep copies of a Poll and of a response in a small heap.
use mathlib.Core.Option
use poll_operator.DeepCopy.Copies.{of_poll, deep_copy_poll_object}
use mathlib.Core.Option.{bind}
use poll_operator.Base.{ℕ, ◌≡◌, refl, String, true, Option, none, some, List, [], ◌∷◌, pos}
use poll_operator.Api.{
  Condition, condition_true, question_type_choice, Poll, PollResponse, PollResponseStatus,
}
use poll_operator.DeepCopy.Layout.{
  Ptr, TypeMeta, Slice, Cell, object, part, PollMem, PollResponseMem, ObjectMetaMem, poll_array,
  string_array, choice_array, question_array, time_array, condition_array, status_array,
  response_array, response_status_array, answer_array,
}
use poll_operator.DeepCopy.Structs.{deep_copy, read_struct, poll, poll_response}
use poll_operator.DeepCopy.Separate.{Write, write_all, to_old, to_new, deep_copy-separate}
use poll_operator.DeepCopy.Assigning.{poll_patch_base, response_patch_base}
use poll_operator.DeepCopy.PatchBase.{poll_patch_base_lem, response_patch_base_lem}
use poll_operator.Tests.Data.{second, paint, named, colour, both, new_status, new_response_status}
use poll_operator.Tests.Machinery.{machinery, machinery-IsLawful, heap_of, heap_of-IsFresh}
use poll_operator.DeepCopy.Heap.{
  Heap, read_object_meta, read_slice, read_ptr, read_all, load, load_slice, load_array,
}
use poll_operator.DeepCopy.Reading.{
  Typed, read_poll, read_spec, read_status, read_question, read_choice, read_result, read_response,
  read_response_spec, read_response_status, read_answer,
}

abbrev at : ℕ → Ptr
at a = record { array = a; index = 0 }

abbrev slice : ℕ → ℕ → Slice
slice a n = record { array = a; start = 0; size = n }

abbrev type_meta : String → TypeMeta
type_meta name = record { kind = name; api_version = "polls.jef.app/v1" }

abbrev meta_of : String → ObjectMetaMem
meta_of name = record {
  name = name;
  generate_name = "";
  namespace = "team";
  uid = name;
  generation = pos 1;
  deletion_timestamp = none;
  owner_references = none;
}

abbrev ready : Condition
ready = record {
  type = "Ready";
  status = condition_true;
  observed_generation = pos 1;
  last_transition_time = second;
  reason = "Open";
  message = "Poll is open";
}

abbrev poll_mem : PollMem
poll_mem = record {
  type_meta = type_meta "Poll";
  meta = meta_of "paint";
  spec = record { title = "Paint"; questions = some (slice 2 1); closes_at = some (at 3) };
  status = record {
    conditions = some (slice 4 1);
    phase = "Open";
    opened_at = none;
    closed_at = none;
    results = none;
    total_responses = pos 0;
  };
}

abbrev response_mem : PollResponseMem
response_mem = record {
  type_meta = type_meta "PollResponse";
  meta = meta_of "paint-1";
  spec = record {
    poll_ref = record { name = "paint" };
    respondent = "";
    answers = some (slice 6 1);
    submitted_at = some (at 3);
  };
  status = record {
    conditions = none;
    phase = "";
    observed_poll_generation = pos 0;
    accepted_at = none;
  };
}

-- The heap: a Poll at 5, its desired status at 8, a response at 7 and its desired status at 9. The
-- conditions of the Poll and of both desired statuses are one array.
abbrev cells : List Cell
cells =
    part (string_array ("red" ∷ "blue" ∷ []))
    ∷ part
        (choice_array (record { options = some (slice 0 2); allow_multiple_choices = true } ∷ []))
    ∷ part (
        question_array (
          record {
            id = "colour";
            prompt = "Which colour?";
            type = question_type_choice;
            choice = some (at 1);
            free_text = none;
          }
          ∷ []))
    ∷ part (time_array (10000000000 ∷ []))
    ∷ part (condition_array (ready ∷ []))
    ∷ object (poll_array (poll_mem ∷ []))
    ∷ part (
        answer_array
          (record { question_id = "colour"; selected_options = some (slice 0 2); text = "" } ∷ []))
    ∷ object (response_array (response_mem ∷ []))
    ∷ part (status_array (record poll_mem.status { total_responses = pos 3 } ∷ []))
    ∷ part (
        response_status_array (
          record response_mem.status { conditions = some (slice 4 1); accepted_at = some (at 3) }
          ∷ []))
    ∷ []

abbrev heap : Heap
heap = heap_of cells

abbrev stored_poll : Typed Poll
stored_poll = record {
  type_meta = type_meta "Poll";
  object = record paint {
    spec = record paint.spec { questions = colour ∷ [] };
    status = record new_status { conditions = ready ∷ []; phase = "Open" };
  };
}

abbrev stored_response : Typed PollResponse
stored_response = record {
  type_meta = type_meta "PollResponse";
  object = record {
    meta = named "paint-1";
    spec = record {
      poll_ref = record { name = "paint" };
      respondent = "";
      answers = both ∷ [];
      submitted_at = some 10000000000;
    };
    status = new_response_status;
  };
}

-- One write to the options of the Poll, and one to an address that the copy fills
abbrev writes : List Write
writes =
    record { address = 0; new_cell = part (string_array []) }
    ∷ record { address = 12; new_cell = part (string_array []) }
    ∷ []

deep_copy-separate_example :
    (q : Option Ptr) × (g : Heap) × (deep_copy machinery poll (some (at 5)) heap ≡ some (q, g))
    × (deep_copy_poll_object machinery (some (at 5)) heap ≡ some (Option.map of_poll q, g))
    × (read_struct poll q (write_all (to_old heap writes) g) ≡ some (some stored_poll))
    × (read_struct poll (some (at 5)) (write_all (to_new heap writes) g) ≡ some (some stored_poll))
unfolding deep_copy bind read_struct read_poll read_object_meta read_spec read_status read_question
    read_choice read_result read_slice read_ptr read_all load load_slice load_array
deep_copy-separate_example =
    deep_copy-separate machinery machinery-IsLawful poll heap (some (at 5)) (some stored_poll)
      writes of_poll (heap_of-IsFresh cells) refl

poll_patch_base_lem_example :
    (base : Option Ptr) × (g : Heap) × (poll_patch_base machinery (at 5) (at 8) heap
      ≡ some (base, g))
    × (read_struct poll base g ≡ some (some stored_poll))
    × (read_struct poll (some (at 5)) g
        ≡ some (
            some (record stored_poll {
              object = record stored_poll.object {
                status = record stored_poll.object.status { total_responses = pos 3 };
              };
            })))
unfolding bind read_struct read_poll read_object_meta read_spec read_status read_question
    read_choice read_result read_slice read_ptr read_all load load_slice load_array
poll_patch_base_lem_example =
    poll_patch_base_lem machinery machinery-IsLawful heap (at 5) (at 8) stored_poll
      (record stored_poll.object.status { total_responses = pos 3 }) (heap_of-IsFresh cells) refl
      refl

abbrev accepted : PollResponseStatus
accepted = record new_response_status { conditions = ready ∷ []; accepted_at = some 10000000000 }

response_patch_base_lem_example :
    (base : Option Ptr) × (g : Heap) × (response_patch_base machinery (at 7) (at 9) heap
      ≡ some (base, g))
    × (read_struct poll_response base g ≡ some (some stored_response))
    × (read_struct poll_response (some (at 7)) g
        ≡ some (
            some (record stored_response {
              object = record stored_response.object { status = accepted };
            })))
unfolding bind read_struct read_response read_object_meta read_response_spec read_response_status
    read_answer read_slice read_ptr read_all load load_slice load_array
response_patch_base_lem_example =
    response_patch_base_lem machinery machinery-IsLawful heap (at 7) (at 9) stored_response accepted
      (heap_of-IsFresh cells) refl refl
