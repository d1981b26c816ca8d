-- ===== src/Kube/Responses.antt =====
-- What the proofs assume of the API server about responses.
use mathlib.Core.Option
use poll_operator.Base.{List, map, Memᴰ, ◌≡◌}
use poll_operator.Api.{NamespacedName, OwnerReference, Poll, PollResponse, PollResponseStatus}
use poll_operator.Kube.{Kube, ok}
use poll_operator.Kube.Lawful.{to_second, persisted_condition}

-- What is read back of a status that was written.
abbrev pub persisted_response : PollResponseStatus → PollResponseStatus
persisted_response s = record s {
  accepted_at = Option.map to_second s.accepted_at;
  conditions = map persisted_condition s.conditions;
}

abbrev pub with_references : PollResponse → List OwnerReference → PollResponse
with_references resp refs = record resp { meta = record resp.meta { owner_references = refs } }

pub record KeepsResponses (kube : Kube) : Type 0 where
  -- `SetControllerReference` leaves the response with a reference to the Poll, and changes nothing
  -- else of it.
  pub set_reference :
      (poll : Poll) (resp changed : PollResponse)
      → kube.set_controller_reference poll resp ≡ ok changed
      → (refs : List OwnerReference) × (ref : OwnerReference) × (changed
          ≡ with_references resp refs)
        × Memᴰ ref refs
        × (ref.uid ≡ poll.meta.uid)
  -- A patch of the references that succeeds, of a response that nobody else has changed, answers
  -- with the response as it is read from then on, and concerns no Poll.
  pub patch_references :
      (s s' : kube.Store) (k : NamespacedName) (resp patched : PollResponse)
      (refs : List OwnerReference)
      → kube.get_response s k ≡ ok resp
      → kube.patch_response s resp (with_references resp refs) ≡ (ok patched, s')
      → (patched ≡ with_references resp refs)
        × (kube.get_response s' k ≡ ok patched)
        × ((k' : NamespacedName) → kube.get_poll s' k' ≡ kube.get_poll s k')
  -- So does a patch of the status.
  pub patch_status :
      (s s' : kube.Store) (k : NamespacedName) (resp patched : PollResponse)
      (desired : PollResponseStatus)
      → kube.get_response s k ≡ ok resp
      → kube.patch_response_status s resp (record resp { status = desired }) ≡ (ok patched, s')
      → (kube.get_response s' k ≡ ok (record resp { status = persisted_response desired }))
        × ((k' : NamespacedName) → kube.get_poll s' k' ≡ kube.get_poll s k')
