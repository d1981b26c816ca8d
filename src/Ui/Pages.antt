-- ===== src/Ui/Pages.antt =====
-- The handlers of internal/ui/handlers.go. A reply is what a handler writes, before it is rendered;
-- a page is its template's data, without the title, which is a constant or the poll's.
pub mod Votes
use poll_operator.Base.{
  ℕ, pos, String, ◌<>◌, Bool, Option, none, some, List, [], ◌∷◌, nonempty, if◌then◌else◌,
}
use poll_operator.Api.{NamespacedName, Poll, PollAnswer, PollResponse}
use poll_operator.Kube.{
  Kube, Answer, ok, failed, ApiError, not_found, conflict, other, is_not_found,
}
use poll_operator.Ui.Answers.{Form, first_text, build_answers, no_answers}
use poll_operator.Ui.Flash.{cookie_text, read_flash}
use poll_operator.Ui.Listing.{PollListItem, list_items}
use poll_operator.Ui.Views.{QuestionView, question_views, is_open}

pub data Reply : Type 0 where
  missing : Reply
  http_error : String → ℕ → Reply
  redirect : String → ℕ → Reply
  -- The text of the cookie that is set, and the location.
  flash_redirect : String → String → Reply
  index_page : List PollListItem → Reply
  poll_page : Poll → List QuestionView → String → Bool → Reply
  healthy : Reply

abbrev pub server_error : String → Reply
server_error action = http_error ("Failed to " <> action) 500

-- `err.Error()`
abbrev pub text_of : ApiError → String
text_of (not_found m) = m
text_of (conflict m) = m
text_of (other m) = m

unfoldable pub handle_root : List String → Reply
handle_root segments = if nonempty segments then missing else redirect "/polls" 302

abbrev pub poll_path : String → String → String
poll_path ns name = "/polls/" <> ns <> "/" <> name

unfoldable pub flash_and_redirect : String → String → String → Reply
flash_and_redirect ns name msg = flash_redirect (cookie_text msg) (poll_path ns name)

abbrev pub list_reply : Answer (List Poll) → Reply
list_reply (failed e) = server_error "list polls"
list_reply (ok polls) = index_page (list_items polls)

abbrev pub failed_get : ApiError → Reply
failed_get e = if is_not_found e then missing else server_error "get poll"

abbrev pub detail_reply : Option String → Answer Poll → Reply
detail_reply cookie (failed e) = failed_get e
detail_reply cookie (ok poll) =
    poll_page poll (question_views poll) (read_flash cookie) (is_open poll)

-- The object that a vote creates; fields that are not set have their zero values.
abbrev pub new_response : String → String → String → List PollAnswer → PollResponse
new_response ns name respondent answers = record {
  meta = record {
    name = "";
    generate_name = name <> "-";
    namespace = ns;
    uid = "";
    generation = pos 0;
    deletion_timestamp = none;
    owner_references = [];
  };
  spec = record {
    poll_ref = record { name = name };
    respondent = respondent;
    answers = answers;
    submitted_at = none;
  };
  status = record {
    conditions = [];
    phase = "";
    observed_poll_generation = pos 0;
    accepted_at = none;
  };
}

abbrev pub created_reply : String → String → Answer PollResponse → Reply
created_reply ns name (failed e) =
    flash_and_redirect ns name ("Server refused the vote: " <> text_of e)
created_reply ns name (ok resp) =
    flash_and_redirect ns name ("Thanks — your response was recorded as " <> resp.meta.name <> ".")

module _ (kube : Kube) where
  open kube use {Store, get_poll, list_polls, create_response}

  unfoldable pub handle_list_polls : Store → Reply
  handle_list_polls s = list_reply (list_polls s)

  unfoldable pub handle_poll_detail : String → String → Option String → Store → Reply
  handle_poll_detail ns name cookie s =
      detail_reply cookie (get_poll s (record { namespace = ns; name = name }))

  abbrev pub submit : String → String → Form → Option (List PollAnswer) → Store → Reply × Store
  submit ns name form none s =
      (flash_and_redirect ns name ("Could not build response: " <> no_answers), s)
  submit ns name form (some answers) s =
      let (answer, s') =
        create_response s (new_response ns name (first_text (form "respondent")) answers) in
      (created_reply ns name answer, s')

  abbrev pub vote_on : String → String → Form → Answer Poll → Store → Reply × Store
  vote_on ns name form (failed e) s = (failed_get e, s)
  vote_on ns name form (ok poll) s = submit ns name form (build_answers poll form) s

  abbrev pub vote_with : String → String → Option Form → Store → Reply × Store
  vote_with ns name none s = (http_error "invalid form" 400, s)
  vote_with ns name (some form) s =
      vote_on ns name form (get_poll s (record { namespace = ns; name = name })) s

  -- The form is none where it cannot be parsed.
  unfoldable pub handle_vote : String → String → Option Form → Store → Reply × Store
  handle_vote ns name posted s = vote_with ns name posted s
