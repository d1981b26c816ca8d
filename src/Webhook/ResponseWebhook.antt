-- ===== src/Webhook/ResponseWebhook.antt =====
-- internal/webhook/v1/pollresponse_webhook.go
pub mod OneForm
use poll_operator.Base.{
  ℕ, suc, String, ◌<>◌, Bool, true, false, List, [], ◌∷◌, ◌++◌, not, ◌&&◌, ◌==◌, string_eq,
  if◌then◌else◌, nonempty, GoMap, empty, put, is_found,
}
use poll_operator.Api.{PollAnswer, PollResponse}
use poll_operator.Kube.Format.{Format}
use poll_operator.Webhook.FieldError.{
  FieldPath, FieldError, Verdict, verdict, root, child, index, bad_text, bad_answer, required,
  forbidden, invalid, duplicate, admitted,
}

-- The loop over `ans.SelectedOptions`, from an index on.
unfoldable pub check_selected : FieldPath → ℕ → GoMap (Unit {0}) → List String → List FieldError
check_selected p j seen [] = []
check_selected p j seen (sel ∷ sels) =
    if sel == ""
    then invalid (index (child p "selectedOptions") j) (bad_text sel)
        "selected option must not be empty"
      ∷ check_selected p (suc j) seen sels
    else (if is_found (seen sel)
        then duplicate (index (child p "selectedOptions") j) sel ∷ []
        else [])
      ++ check_selected p (suc j) (put sel tt seen) sels

-- The `switch` on what the answer sets.
unfoldable pub form_errors : PollAnswer → FieldPath → List FieldError
form_errors ans p =
    let has_selections = nonempty ans.selected_options in
    let has_text = not (ans.text == "") in
    if has_selections && has_text
    then invalid p (bad_answer ans) "exactly one of selectedOptions or text must be set, not both"
      ∷ []
    else if not has_selections && not has_text
    then required p "exactly one of selectedOptions or text must be set" ∷ []
    else []

-- The body of the loop over `obj.Spec.Answers`.
unfoldable pub answer_errors : PollAnswer → FieldPath → List FieldError
answer_errors ans p =
    form_errors ans p
    ++ (if nonempty ans.selected_options then check_selected p 0 empty ans.selected_options else [])

unfoldable pub answers_errors : FieldPath → ℕ → List PollAnswer → List FieldError
answers_errors path i [] = []
answers_errors path i (ans ∷ answers) =
    answer_errors ans (index path i) ++ answers_errors path (suc i) answers

unfoldable pub validate_poll_response_spec : PollResponse → List FieldError
validate_poll_response_spec obj = answers_errors (child (root "spec") "answers") 0 obj.spec.answers

unfoldable pub validate_response_create : PollResponse → Verdict
validate_response_create obj =
    verdict "PollResponse" obj.meta.name (validate_poll_response_spec obj)

-- The error for another `pollRef.name`.
unfoldable pub ref_errors : Format → PollResponse → PollResponse → List FieldError
ref_errors fmt old_obj new_obj =
    if not (old_obj.spec.poll_ref.name == new_obj.spec.poll_ref.name)
    then forbidden (child (child (root "spec") "pollRef") "name")
        ("field is immutable (was " <> fmt.quote old_obj.spec.poll_ref.name <> ")")
      ∷ []
    else []

unfoldable pub validate_response_update : Format → PollResponse → PollResponse → Verdict
validate_response_update fmt old_obj new_obj =
    verdict "PollResponse" new_obj.meta.name
      (validate_poll_response_spec new_obj ++ ref_errors fmt old_obj new_obj)

unfoldable pub validate_response_delete : PollResponse → Verdict
validate_response_delete obj = admitted
