-- ===== src/Webhook/ResponseWebhook/OneForm.antt =====
-- The responses that the webhook admits.
use poll_operator.Base.{
  Bool-cases, inl, inr, ℕ, suc, String, true, List, [], ◌∷◌, ◌≡◌, ◌≢◌, ◌↔◌, refl, arith, string_eq,
  nonempty, All, IsUnique, GoMap, empty, put, IsFresh, IsFresh-put, IsFresh-empty,
}
use poll_operator.Api.{PollAnswer, PollResponse}
use poll_operator.Kube.Format.{Format}
use poll_operator.Webhook.FieldError.{
  FieldPath, admitted, index, child, root, append-eq-[]_iff, verdict-eq-admitted_iff,
}
use poll_operator.Webhook.ResponseWebhook.{
  check_selected, form_errors, answer_errors, answers_errors, validate_poll_response_spec,
  validate_response_create, ref_errors, validate_response_update,
}

-- An answer selects options, different and not empty, or has a text, and not both.
pub data HasOneForm (ans : PollAnswer) : Type 0 where
  selections :
      ans.selected_options ≢ []
      → ans.text ≡ ""
      → All (λ s. s ≢ "") ans.selected_options
      → IsUnique ans.selected_options
      → HasOneForm ans
  text : ans.selected_options ≡ [] → ans.text ≢ "" → HasOneForm ans

check_selected-eq-[]_iff :
    (p : FieldPath) (j : ℕ) (seen : GoMap (Unit {0})) (sels : List String)
    → (check_selected p j seen sels ≡ [])
      ↔ (All (λ s. s ≢ "") sels × IsFresh seen sels × IsUnique sels)
unfolding check_selected
check_selected-eq-[]_iff p j seen [] = (λ _. (tt, tt, tt), λ _. refl)
check_selected-eq-[]_iff p j seen (s ∷ sels) = ground (
  arith,
  check_selected-eq-[]_iff p (suc j) seen sels,
  check_selected-eq-[]_iff p (suc j) (put s tt seen) sels,
  IsFresh-put s seen sels,
)

-- What the inner loop asks of an answer with selections.
picks_of :
    (ans : PollAnswer) (p : FieldPath)
    → nonempty ans.selected_options ≡ true
    → answer_errors ans p ≡ []
    → All (λ s. s ≢ "") ans.selected_options × IsUnique ans.selected_options
unfolding answer_errors
picks_of ans p some_option h =
    let (own, picks) = (append-eq-[]_iff (form_errors ans p) _).0 h in
    let (good, fresh, u) =
      (check_selected-eq-[]_iff p 0 empty ans.selected_options).0 (rw some_option at picks) in
    (good, u)

form_of : (ans : PollAnswer) (p : FieldPath) → answer_errors ans p ≡ [] → HasOneForm ans
unfolding form_errors answer_errors
form_of ans p h = elim (Bool-cases (nonempty ans.selected_options)) [
  | inl some_option ↦
      let own = ((append-eq-[]_iff (form_errors ans p) _).0 h).0 in
      let (good, u) = picks_of ans p some_option h in
      selections (ground arith) (ground arith) good u
  | inr no_option ↦
      let own = ((append-eq-[]_iff (form_errors ans p) _).0 h).0 in
      text (ground arith) (ground arith)
]

no_errors_of : (ans : PollAnswer) (p : FieldPath) → HasOneForm ans → answer_errors ans p ≡ []
unfolding answer_errors form_errors
no_errors_of ans p (selections some_option no_text good u) = ground (
  arith,
  check_selected-eq-[]_iff p 0 empty ans.selected_options,
  IsFresh-empty ans.selected_options,
)
no_errors_of ans p (text no_options some_text) = ground arith

answers_errors-eq-[]_iff :
    (p : FieldPath) (i : ℕ) (answers : List PollAnswer)
    → (answers_errors p i answers ≡ []) ↔ All HasOneForm answers
unfolding answers_errors
answers_errors-eq-[]_iff p i [] = (λ _. tt, λ _. refl)
answers_errors-eq-[]_iff p i (ans ∷ answers) =
    let (split, join) = append-eq-[]_iff (answer_errors ans (index p i)) _ in
    let (to, from) = answers_errors-eq-[]_iff p (suc i) answers in
    (
      λ h. (form_of ans (index p i) (split h).0, to (split h).1),
      λ (f, fs). join (no_errors_of ans (index p i) f, from fs),
    )

-- A new response is admitted exactly if every answer has one form.
pub validate_response_create-eq-admitted_iff :
    (obj : PollResponse)
    → (validate_response_create obj ≡ admitted) ↔ All HasOneForm obj.spec.answers
unfolding validate_response_create validate_poll_response_spec
validate_response_create-eq-admitted_iff obj =
    let (to, from) =
      verdict-eq-admitted_iff "PollResponse" obj.meta.name (validate_poll_response_spec obj) in
    let (sound, complete) =
      answers_errors-eq-[]_iff (child (root "spec") "answers") 0 obj.spec.answers in
    (λ h. sound (to h), λ w. from (complete w))

ref_errors-eq-[]_iff :
    (fmt : Format) (old_obj new_obj : PollResponse)
    → (ref_errors fmt old_obj new_obj ≡ [])
      ↔ (old_obj.spec.poll_ref.name ≡ new_obj.spec.poll_ref.name)
unfolding ref_errors
ref_errors-eq-[]_iff fmt old_obj new_obj = ground arith

-- An update is admitted exactly if the new response would be admitted as a new one and refers to
-- the Poll that the old one referred to.
pub validate_response_update-eq-admitted_iff :
    (fmt : Format) (old_obj new_obj : PollResponse)
    → (validate_response_update fmt old_obj new_obj ≡ admitted) ↔ (
        (validate_response_create new_obj ≡ admitted)
        × (old_obj.spec.poll_ref.name ≡ new_obj.spec.poll_ref.name))
unfolding validate_response_create validate_response_update
validate_response_update-eq-admitted_iff fmt old_obj new_obj =
    let (no_errors, admits) = verdict-eq-admitted_iff "PollResponse" new_obj.meta.name _ in
    let (to, from) =
      verdict-eq-admitted_iff "PollResponse" new_obj.meta.name
        (validate_poll_response_spec new_obj) in
    let (split, join) =
      append-eq-[]_iff (validate_poll_response_spec new_obj) (ref_errors fmt old_obj new_obj) in
    let (same, keeps) = ref_errors-eq-[]_iff fmt old_obj new_obj in
    (
      λ h. (from (split (no_errors h)).0, same (split (no_errors h)).1),
      λ (c, r). admits (join (to c, keeps r)),
    )
