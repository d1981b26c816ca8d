-- ===== src/Ui/Pages/Votes.antt =====
-- What a vote on the page leads to.
use poll_operator.Base.{
  String, ◌<>◌, true, false, Option, none, some, List, [], pos, ◌≡◌, inl, inr, refl, Option-cases,
  Bool-cases,
}
use poll_operator.Api.{Poll, PollAnswer, PollResponse}
use poll_operator.Kube.{Kube, Answer, ok, failed, ApiError, is_not_found}
use poll_operator.PollController.Reconcile.Again.{Answer-cases}
use poll_operator.Ui.Answers.{Form, first_text, build_answers, no_answers}
use poll_operator.Ui.Pages.{
  Reply, missing, http_error, text_of, flash_and_redirect, new_response, handle_vote,
}

module _ (kube : Kube) (ns name : String) (s : kube.Store) where
  abbrev pub poll_read : Answer Poll
  poll_read = kube.get_poll s (record { namespace = ns; name = name })

  -- The vote of a form: a response to the Poll of the path, under a name that the server makes, with
  -- the answers, the respondent of the form, and nothing else set.
  pub record IsVoteOf (form : Form) (answers : List PollAnswer) (vote : PollResponse) : Type 0 where
    pub names_poll : vote.spec.poll_ref.name ≡ name
    pub in_namespace : vote.meta.namespace ≡ ns
    pub unnamed : vote.meta.name ≡ ""
    pub generates_name : vote.meta.generate_name ≡ name <> "-"
    pub has_answers : vote.spec.answers ≡ answers
    pub has_respondent : vote.spec.respondent ≡ first_text (form "respondent")
    pub not_submitted : vote.spec.submitted_at ≡ none
    pub not_owned : vote.meta.owner_references ≡ []
    pub not_deleted : vote.meta.deletion_timestamp ≡ none
    pub no_uid : vote.meta.uid ≡ ""
    pub no_generation : vote.meta.generation ≡ pos 0
    pub not_judged : vote.status ≡ record {
      conditions = [];
      phase = "";
      observed_poll_generation = pos 0;
      accepted_at = none;
    }

  new_response-IsVoteOf :
      (form : Form) (answers : List PollAnswer)
      → IsVoteOf form answers (new_response ns name (first_text (form "respondent")) answers)
  new_response-IsVoteOf form answers = record {
    names_poll = refl;
    in_namespace = refl;
    unnamed = refl;
    generates_name = refl;
    has_answers = refl;
    has_respondent = refl;
    not_submitted = refl;
    not_owned = refl;
    not_deleted = refl;
    no_uid = refl;
    no_generation = refl;
    not_judged = refl;
  }

  -- What the request that creates a response answers, and the store after it.
  abbrev pub creation : PollResponse → Answer PollResponse × kube.Store
  creation vote = kube.create_response s vote

  -- How a vote ends: the reply, and the store that it leaves.
  pub data Voted (posted : Option Form) (r : Reply × kube.Store) : Type 0 where
    unparsed : posted ≡ none → r ≡ (http_error "invalid form" 400, s) → Voted posted r
    gone :
        (e : ApiError)
        → poll_read ≡ failed e
        → is_not_found e ≡ true
        → r ≡ (missing, s)
        → Voted posted r
    unread :
        (e : ApiError)
        → poll_read ≡ failed e
        → is_not_found e ≡ false
        → r ≡ (http_error "Failed to get poll" 500, s)
        → Voted posted r
    unanswered :
        (form : Form) (poll : Poll)
        → posted ≡ some form
        → poll_read ≡ ok poll
        → build_answers poll form ≡ none
        → r ≡ (flash_and_redirect ns name ("Could not build response: " <> no_answers), s)
        → Voted posted r
    refused :
        (form : Form) (poll : Poll) (answers : List PollAnswer) (vote : PollResponse) (e : ApiError)
        → IsVoteOf form answers vote
        → posted ≡ some form
        → poll_read ≡ ok poll
        → build_answers poll form ≡ some answers
        → (creation vote).0 ≡ failed e
        → r ≡ (
          flash_and_redirect ns name ("Server refused the vote: " <> text_of e),
          (creation vote).1,
        )
        → Voted posted r
    recorded :
        (form : Form) (poll : Poll) (answers : List PollAnswer) (vote resp : PollResponse)
        → IsVoteOf form answers vote
        → posted ≡ some form
        → poll_read ≡ ok poll
        → build_answers poll form ≡ some answers
        → (creation vote).0 ≡ ok resp
        → r ≡ (
          flash_and_redirect ns name
              ("Thanks — your response was recorded as " <> resp.meta.name <> "."),
          (creation vote).1,
        )
        → Voted posted r

  submitted :
      (form : Form) (poll : Poll) (answers : List PollAnswer)
      → poll_read ≡ ok poll
      → build_answers poll form ≡ some answers
      → Voted (some form) (handle_vote kube ns name (some form) s)
  unfolding handle_vote
  submitted form poll answers got built =
      let vote = new_response ns name (first_text (form "respondent")) answers in
      let is_vote = new_response-IsVoteOf form answers in
      elim (Answer-cases (creation vote).0) [
        | inl (resp, done) ↦
            recorded form poll answers vote resp is_vote refl got built done (rw (got, built, done))
        | inr (e, no_luck) ↦
            refused form poll answers vote e is_vote refl got built no_luck
              (rw (got, built, no_luck))
      ]

  Voted-form : (form : Form) → Voted (some form) (handle_vote kube ns name (some form) s)
  unfolding handle_vote
  Voted-form form = elim (Answer-cases poll_read) [
    | inr (e, lost) ↦ elim (Bool-cases (is_not_found e)) [
      | inl absent ↦ gone e lost absent (rw (lost, absent))
      | inr broken ↦ unread e lost broken (rw (lost, broken))
    ]
    | inl (poll, got) ↦ elim (Option-cases (build_answers poll form)) [
      | inl empty ↦ unanswered form poll refl got empty (rw (got, empty))
      | inr (answers, built) ↦ submitted form poll answers got built
    ]
  ]

  -- Every vote ends in one of six ways. A form that cannot be parsed is a bad request; a Poll that
  -- is gone is not found, and one that cannot be read is a server error; a form without answers is
  -- sent back to the page; in these cases nothing is written. Otherwise exactly one response is
  -- created, which names the Poll, lies in its namespace and holds the answers and the respondent of
  -- the form, and the voter is sent back with its name or with the server's refusal.
  pub handle_vote-Voted : (posted : Option Form) → Voted posted (handle_vote kube ns name posted s)
  unfolding handle_vote
  handle_vote-Voted none = unparsed refl refl
  handle_vote-Voted (some form) = Voted-form form
