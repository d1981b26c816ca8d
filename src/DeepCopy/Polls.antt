-- ===== src/DeepCopy/Polls.antt =====
-- The deep copies of the structs of api/v1/poll_types.go are deep copies.
use mathlib.Core.Option.{bind}
use poll_operator.Base.{◌≡◌, refl, Option, none, some}
use poll_operator.DeepCopy.Layout.{Ptr}
use poll_operator.DeepCopy.Kinds.{
  strings, conditions, choices, free_texts, questions, option_results, question_results, polls,
}
use poll_operator.DeepCopy.Heap.{Heap, plain, read_ptr, read_time, read_object_meta}
use poll_operator.DeepCopy.Reading.{
  read_list_meta, read_choice, read_question, read_spec, read_result, read_status, read_poll,
  read_poll_list,
}
use poll_operator.DeepCopy.Copies.{
  Machinery, choice_into, question_into, spec_into, result_into, status_into, poll_into,
  poll_list_into, time_ptr,
}
use poll_operator.DeepCopy.Growth.{Region, everything, Persists-bind, Persists-same}
use poll_operator.DeepCopy.Rules.{Copies, Copies-pure, Copies-bind}
use poll_operator.DeepCopy.Lawful.{
  IsDeepCopy, Within-parts, Within-everything, assign-IsDeepCopy, copy_slice-IsDeepCopy,
  copy_ptr-IsDeepCopy,
}

-- What the operator relies on of Kubernetes' deep copies
pub record IsLawful (k : Machinery) : Type 0 where
  pub object_meta : (r : Region) → IsDeepCopy r read_object_meta k.object_meta
  pub list_meta : (r : Region) → IsDeepCopy r read_list_meta k.list_meta
  pub condition : (r : Region) → IsDeepCopy r plain k.condition
  pub time : (r : Region) → IsDeepCopy r read_time k.time

pub choice-IsDeepCopy : (r : Region) → IsDeepCopy r read_choice choice_into
unfolding read_choice choice_into bind
choice-IsDeepCopy r =
    let options =
      copy_slice-IsDeepCopy (assign-IsDeepCopy _ r) strings (Within-parts strings r λ o. refl) in
    record {
      stays = λ m h g keep. Persists-bind (options.stays m.options h g keep) λ _. Persists-same;
      copies =
          λ h m. Copies-bind _ (options.copies h m.options) λ _ _. Copies-pure _ λ g a. rw a refl;
    }

pub question-IsDeepCopy : (r : Region) → IsDeepCopy r read_question question_into
unfolding read_question question_into bind
question-IsDeepCopy r =
    let choice =
      copy_ptr-IsDeepCopy (choice-IsDeepCopy r) choices (Within-parts choices r λ o. refl) in
    let free_text =
      copy_ptr-IsDeepCopy (assign-IsDeepCopy _ r) free_texts
        (Within-parts free_texts r λ o. refl) in
    record {
      stays = λ m h g keep.
          Persists-bind (choice.stays m.choice h g keep)
            λ _. Persists-bind (free_text.stays m.free_text h g keep) λ _. Persists-same;
      copies = λ h m. Copies-bind _ (choice.copies h m.choice) λ _ _.
          Copies-bind _ (free_text.copies h m.free_text)
            λ _ _. Copies-pure _ λ g b a. rw (a, b) refl;
    }

pub result-IsDeepCopy : (r : Region) → IsDeepCopy r read_result result_into
unfolding read_result result_into bind
result-IsDeepCopy r =
    let options =
      copy_slice-IsDeepCopy (assign-IsDeepCopy _ r) option_results
        (Within-parts option_results r λ o. refl) in
    record {
      stays = λ m h g keep. Persists-bind (options.stays m.options h g keep) λ _. Persists-same;
      copies =
          λ h m. Copies-bind _ (options.copies h m.options) λ _ _. Copies-pure _ λ g a. rw a refl;
    }

module _ (k : Machinery) (l : IsLawful k) where
  time_ptr-Copies :
      (r : Region) (h : Heap) (p : Option Ptr)
      → Copies h (read_time p h) (time_ptr k p) (λ v q g. read_time q g ≡ some v)
  unfolding time_ptr read_ptr
  time_ptr-Copies r h none = Copies-pure none λ g. refl
  time_ptr-Copies r h (some p) = (l.time r).copies h (some p)

  pub time_ptr-IsDeepCopy : (r : Region) → IsDeepCopy r read_time (time_ptr k)
  time_ptr-IsDeepCopy r = record { stays = (l.time r).stays; copies = time_ptr-Copies r }

  pub spec-IsDeepCopy : (r : Region) → IsDeepCopy r read_spec (spec_into k)
  unfolding read_spec spec_into bind
  spec-IsDeepCopy r =
      let qs =
        copy_slice-IsDeepCopy (question-IsDeepCopy r) questions
          (Within-parts questions r λ o. refl) in
      let closes = time_ptr-IsDeepCopy r in
      record {
        stays = λ m h g keep.
            Persists-bind (qs.stays m.questions h g keep)
              λ _. Persists-bind (closes.stays m.closes_at h g keep) λ _. Persists-same;
        copies = λ h m. Copies-bind _ (qs.copies h m.questions) λ _ _.
            Copies-bind _ (closes.copies h m.closes_at)
              λ _ _. Copies-pure _ λ g b a. rw (a, b) refl;
      }

  pub status-IsDeepCopy : (r : Region) → IsDeepCopy r read_status (status_into k)
  unfolding read_status status_into bind
  status-IsDeepCopy r =
      let conds =
        copy_slice-IsDeepCopy (l.condition r) conditions (Within-parts conditions r λ o. refl) in
      let time = time_ptr-IsDeepCopy r in
      let results =
        copy_slice-IsDeepCopy (result-IsDeepCopy r) question_results
          (Within-parts question_results r λ o. refl) in
      record {
        stays = λ m h g keep. Persists-bind (conds.stays m.conditions h g keep) λ _.
            Persists-bind (time.stays m.opened_at h g keep) λ _.
              Persists-bind (time.stays m.closed_at h g keep)
                λ _. Persists-bind (results.stays m.results h g keep) λ _. Persists-same;
        copies = λ h m. Copies-bind _ (conds.copies h m.conditions) λ _ _.
            Copies-bind _ (time.copies h m.opened_at) λ _ _.
              Copies-bind _ (time.copies h m.closed_at) λ _ _.
                Copies-bind _ (results.copies h m.results)
                  λ _ _. Copies-pure _ λ g d c b a. rw (a, b, c, d) refl;
      }

  pub poll-IsDeepCopy : (r : Region) → IsDeepCopy r read_poll (poll_into k)
  unfolding read_poll poll_into bind
  poll-IsDeepCopy r =
      let meta = l.object_meta r in
      let spec = spec-IsDeepCopy r in
      let status = status-IsDeepCopy r in
      record {
        stays = λ m h g keep. Persists-bind (meta.stays m.meta h g keep) λ _.
            Persists-bind (spec.stays m.spec h g keep)
              λ _. Persists-bind (status.stays m.status h g keep) λ _. Persists-same;
        copies = λ h m. Copies-bind _ (meta.copies h m.meta) λ _ _.
            Copies-bind _ (spec.copies h m.spec) λ _ _.
              Copies-bind _ (status.copies h m.status)
                λ _ _. Copies-pure _ λ g c b a. rw (a, b, c) refl;
      }

  pub poll_list-IsDeepCopy : IsDeepCopy everything read_poll_list (poll_list_into k)
  unfolding read_poll_list poll_list_into bind
  poll_list-IsDeepCopy =
      let meta = l.list_meta everything in
      let items =
        copy_slice-IsDeepCopy (poll-IsDeepCopy everything) polls (Within-everything polls) in
      record {
        stays = λ m h g keep.
            Persists-bind (meta.stays m.meta h g keep)
              λ _. Persists-bind (items.stays m.items h g keep) λ _. Persists-same;
        copies = λ h m. Copies-bind _ (meta.copies h m.meta) λ _ _.
            Copies-bind _ (items.copies h m.items) λ _ _. Copies-pure _ λ g b a. rw (a, b) refl;
      }
