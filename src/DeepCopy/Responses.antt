-- ===== src/DeepCopy/Responses.antt =====
-- The deep copies of the structs of api/v1/pollresponse_types.go are deep copies.
use mathlib.Core.Option.{bind}
use poll_operator.Base.{refl}
use poll_operator.DeepCopy.Kinds.{strings, conditions, answers, responses}
use poll_operator.DeepCopy.Reading.{
  read_answer, read_response_spec, read_response_status, read_response, read_response_list,
}
use poll_operator.DeepCopy.Copies.{
  Machinery, answer_into, response_spec_into, response_status_into, response_into,
  response_list_into,
}
use poll_operator.DeepCopy.Growth.{Region, everything, Persists-same, Persists-bind}
use poll_operator.DeepCopy.Rules.{Copies-pure, Copies-bind}
use poll_operator.DeepCopy.Lawful.{
  IsDeepCopy, Within-parts, Within-everything, assign-IsDeepCopy, copy_slice-IsDeepCopy,
}
use poll_operator.DeepCopy.Polls.{IsLawful, time_ptr-IsDeepCopy}

pub answer-IsDeepCopy : (r : Region) → IsDeepCopy r read_answer answer_into
unfolding read_answer answer_into bind
answer-IsDeepCopy r =
    let selected =
      copy_slice-IsDeepCopy (assign-IsDeepCopy _ r) strings (Within-parts strings r λ o. refl) in
    record {
      stays = λ m h g keep.
          Persists-bind (selected.stays m.selected_options h g keep) λ _. Persists-same;
      copies = λ h m.
          Copies-bind _ (selected.copies h m.selected_options)
            λ _ _. Copies-pure _ λ g a. rw a refl;
    }

module _ (k : Machinery) (l : IsLawful k) where
  pub response_spec-IsDeepCopy :
      (r : Region) → IsDeepCopy r read_response_spec (response_spec_into k)
  unfolding read_response_spec response_spec_into bind
  response_spec-IsDeepCopy r =
      let given =
        copy_slice-IsDeepCopy (answer-IsDeepCopy r) answers (Within-parts answers r λ o. refl) in
      let submitted = time_ptr-IsDeepCopy k l r in
      record {
        stays = λ m h g keep.
            Persists-bind (given.stays m.answers h g keep)
              λ _. Persists-bind (submitted.stays m.submitted_at h g keep) λ _. Persists-same;
        copies = λ h m. Copies-bind _ (given.copies h m.answers) λ _ _.
            Copies-bind _ (submitted.copies h m.submitted_at)
              λ _ _. Copies-pure _ λ g b a. rw (a, b) refl;
      }

  pub response_status-IsDeepCopy :
      (r : Region) → IsDeepCopy r read_response_status (response_status_into k)
  unfolding read_response_status response_status_into bind
  response_status-IsDeepCopy r =
      let conds =
        copy_slice-IsDeepCopy (l.condition r) conditions (Within-parts conditions r λ o. refl) in
      let accepted = time_ptr-IsDeepCopy k l r in
      record {
        stays = λ m h g keep.
            Persists-bind (conds.stays m.conditions h g keep)
              λ _. Persists-bind (accepted.stays m.accepted_at h g keep) λ _. Persists-same;
        copies = λ h m. Copies-bind _ (conds.copies h m.conditions) λ _ _.
            Copies-bind _ (accepted.copies h m.accepted_at)
              λ _ _. Copies-pure _ λ g b a. rw (a, b) refl;
      }

  pub response-IsDeepCopy : (r : Region) → IsDeepCopy r read_response (response_into k)
  unfolding read_response response_into bind
  response-IsDeepCopy r =
      let meta = l.object_meta r in
      let spec = response_spec-IsDeepCopy r in
      let status = response_status-IsDeepCopy r in
      record {
        stays = λ m h g keep. Persists-bind (meta.stays m.meta h g keep) λ _.
            Persists-bind (spec.stays m.spec h g keep)
              λ _. Persists-bind (status.stays m.status h g keep) λ _. Persists-same;
        copies = λ h m. Copies-bind _ (meta.copies h m.meta) λ _ _.
            Copies-bind _ (spec.copies h m.spec) λ _ _.
              Copies-bind _ (status.copies h m.status)
                λ _ _. Copies-pure _ λ g c b a. rw (a, b, c) refl;
      }

  pub response_list-IsDeepCopy : IsDeepCopy everything read_response_list (response_list_into k)
  unfolding read_response_list response_list_into bind
  response_list-IsDeepCopy =
      let meta = l.list_meta everything in
      let items =
        copy_slice-IsDeepCopy (response-IsDeepCopy everything) responses
          (Within-everything responses) in
      record {
        stays = λ m h g keep.
            Persists-bind (meta.stays m.meta h g keep)
              λ _. Persists-bind (items.stays m.items h g keep) λ _. Persists-same;
        copies = λ h m. Copies-bind _ (meta.copies h m.meta) λ _ _.
            Copies-bind _ (items.copies h m.items) λ _ _. Copies-pure _ λ g b a. rw (a, b) refl;
      }
