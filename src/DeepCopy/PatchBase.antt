-- ===== src/DeepCopy/PatchBase.antt =====
-- internal/controller: the base of a status patch is what the object was, since it is a deep copy.
-- The rest of the development relies on it where a patch takes the old value and the new one.
use mathlib.Core.Option.{bind, some-injective, bind-eq-some_iff}
use poll_operator.Base.{◌≡◌, refl, ap, Option, some}
use poll_operator.Api.{Poll, PollStatus, PollResponse, PollResponseStatus}
use poll_operator.DeepCopy.Layout.{
  Ptr, PollMem, PollStatusMem, PollResponseMem, PollResponseStatusMem,
}
use poll_operator.DeepCopy.Kinds.{polls, statuses, responses, response_statuses}
use poll_operator.DeepCopy.Heap.{Heap, read_object_meta}
use poll_operator.DeepCopy.Reading.{
  Typed, read_spec, read_response_spec, read_poll, read_status, read_response, read_response_status,
}
use poll_operator.DeepCopy.Copies.{Machinery, poll_into, response_into}
use poll_operator.DeepCopy.Growth.{everything, parts, Keeps, IsFresh}
use poll_operator.DeepCopy.Structs.{
  read_struct, poll, poll_status, poll_response, poll_response_status,
}
use poll_operator.DeepCopy.Polls.{IsLawful, spec-IsDeepCopy, poll-IsDeepCopy, status-IsDeepCopy}
use poll_operator.DeepCopy.Responses.{
  response_spec-IsDeepCopy, response-IsDeepCopy, response_status-IsDeepCopy,
}
use poll_operator.DeepCopy.Assigning.{poll_patch_base, response_patch_base, assign_status-base}

module _ (k : Machinery) (l : IsLawful k) where
  poll_assigned :
      (x : PollMem) (s : PollStatusMem) (h g : Heap) (v : Typed Poll) (w : PollStatus)
      → Keeps parts 0 h g
      → read_poll x h ≡ some v
      → read_status s h ≡ some w
      → read_poll (record x { status = s }) g
        ≡ some (record v { object = record v.object { status = w } })
  unfolding read_poll bind
  poll_assigned x s h g v w keep e es =
      let (meta, e1, e) = (bind-eq-some_iff (read_object_meta x.meta h) _).0 e in
      let (spec, e2, e) = (bind-eq-some_iff (read_spec x.spec h) _).0 e in
      let (status, e3, e) = (bind-eq-some_iff (read_status x.status h) _).0 e in
      let meta_stays = ((l.object_meta parts).stays x.meta h g keep).at meta e1 in
      let spec_stays = ((spec-IsDeepCopy k l parts).stays x.spec h g keep).at spec e2 in
      let status_stays = ((status-IsDeepCopy k l parts).stays s h g keep).at w es in
      rw (meta_stays, spec_stays, status_stays)
        (ap (λ (u : Typed Poll). some (record u { object = record u.object { status = w } }))
          (some-injective _ _ e))

  -- Where a Poll and a desired status can be read, the statements between the comparison of the
  -- statuses and the patch return. The base of the patch then reads as the Poll did before them,
  -- and the Poll as it did but for its status, which is the desired one. Addresses from `next` on
  -- are free before, and Kubernetes' own types have deep copies.
  pub poll_patch_base_lem :
      (h : Heap) (p desired : Ptr) (v : Typed Poll) (w : PollStatus)
      → IsFresh h
      → read_struct poll (some p) h ≡ some (some v)
      → read_struct poll_status (some desired) h ≡ some (some w)
      → (base : Option Ptr) × (g : Heap) × (poll_patch_base k p desired h ≡ some (base, g))
        × (read_struct poll base g ≡ some (some v))
        × (read_struct poll (some p) g
            ≡ some (some (record v { object = record v.object { status = w } })))
  unfolding read_struct
  poll_patch_base_lem h p desired v w =
      assign_status-base polls read_poll (poll_into k) statuses read_status _ _
        (poll-IsDeepCopy k l everything) (status-IsDeepCopy k l everything).stays (λ c. refl)
        poll_assigned h p desired v w

  response_assigned :
      (x : PollResponseMem) (s : PollResponseStatusMem) (h g : Heap) (v : Typed PollResponse)
      (w : PollResponseStatus)
      → Keeps parts 0 h g
      → read_response x h ≡ some v
      → read_response_status s h ≡ some w
      → read_response (record x { status = s }) g
        ≡ some (record v { object = record v.object { status = w } })
  unfolding read_response bind
  response_assigned x s h g v w keep e es =
      let (meta, e1, e) = (bind-eq-some_iff (read_object_meta x.meta h) _).0 e in
      let (spec, e2, e) = (bind-eq-some_iff (read_response_spec x.spec h) _).0 e in
      let (status, e3, e) = (bind-eq-some_iff (read_response_status x.status h) _).0 e in
      let meta_stays = ((l.object_meta parts).stays x.meta h g keep).at meta e1 in
      let spec_stays = ((response_spec-IsDeepCopy k l parts).stays x.spec h g keep).at spec e2 in
      let status_stays = ((response_status-IsDeepCopy k l parts).stays s h g keep).at w es in
      rw (meta_stays, spec_stays, status_stays)
        (ap
          (λ (u : Typed PollResponse). some (record u { object = record u.object { status = w } }))
          (some-injective _ _ e))

  -- Where a response and a desired status can be read, the statements of accept and reject between
  -- the comparison of the statuses and the patch return. The base of the patch then reads as the
  -- response did before them, and the response as it did but for its status, which is the desired
  -- one. Addresses from `next` on are free before, and Kubernetes' own types have deep copies.
  pub response_patch_base_lem :
      (h : Heap) (p desired : Ptr) (v : Typed PollResponse) (w : PollResponseStatus)
      → IsFresh h
      → read_struct poll_response (some p) h ≡ some (some v)
      → read_struct poll_response_status (some desired) h ≡ some (some w)
      → (base : Option Ptr) × (g : Heap) × (response_patch_base k p desired h ≡ some (base, g))
        × (read_struct poll_response base g ≡ some (some v))
        × (read_struct poll_response (some p) g
            ≡ some (some (record v { object = record v.object { status = w } })))
  unfolding read_struct
  response_patch_base_lem h p desired v w =
      assign_status-base responses read_response (response_into k) response_statuses
        read_response_status _ _ (response-IsDeepCopy k l everything)
        (response_status-IsDeepCopy k l everything).stays (λ c. refl) response_assigned h p desired
        v w
