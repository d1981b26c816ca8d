-- ===== src/Tests/Memory.antt =====
-- One poll and its responses in memory: a store that keeps what the proofs assume.
use mathlib.Core.Path.{subst}
use poll_operator.Base.{
  ◌≡◌, ◌∙◌, Memᴰ, refl, ap, sym, arith, String, List, [], ◌∷◌, ◌++◌, map, ◌==◌, string_eq,
  if◌then◌else◌,
}
use poll_operator.Api.{Time, Condition, strip, NamespacedName, Poll, PollResponse}
use poll_operator.Kube.{Kube, Answer, ok, failed, not_found}
use poll_operator.Kube.Lawful.{IsLawful, persisted, upsert, key}
use poll_operator.Kube.Responses.{KeepsResponses, persisted_response, with_references}

pub record Memory : Type 0 where
  pub poll : Poll
  pub responses : List PollResponse

abbrev pub lookup : Memory → NamespacedName → Answer Poll
lookup m k =
    if m.poll.meta.namespace == k.namespace
    then (if m.poll.meta.name == k.name then ok m.poll else failed (not_found "poll"))
    else failed (not_found "poll")

abbrev pub find : List PollResponse → String → Answer PollResponse
find [] name = failed (not_found "response")
find (r ∷ rs) name = let rest = find rs name in if r.meta.name == name then ok r else rest

abbrev pub replace : PollResponse → List PollResponse → List PollResponse
replace new [] = []
replace new (r ∷ rs) =
    let rest = replace new rs in if r.meta.name == new.meta.name then new ∷ rest else r ∷ rest

abbrev pub save : Memory → PollResponse → Answer PollResponse × Memory
save m r = (ok r, record m { responses = replace r m.responses })

abbrev pub stamped : Time → Condition → Condition
stamped t c = record c { last_transition_time = t }

abbrev pub written : Poll → Poll
written poll = record poll { status = persisted poll.status }

abbrev pub written_response : PollResponse → PollResponse
written_response resp = record resp { status = persisted_response resp.status }

abbrev pub memory : Kube
memory = record {
  Store = Memory;
  get_poll = lookup;
  get_response = λ m k. find m.responses k.name;
  list_polls = λ m. ok (m.poll ∷ []);
  list_responses = λ m namespace. ok m.responses;
  patch_poll_status = λ m old changed. (ok (written changed), record m { poll = written changed });
  patch_response = λ m old changed. save m changed;
  patch_response_status = λ m old changed. save m (written_response changed);
  create_response = λ m r. (ok r, record m { responses = m.responses ++ r ∷ [] });
  set_controller_reference = λ poll resp. ok (record resp {
    meta = record resp.meta {
      owner_references = record { kind = "Poll"; name = poll.meta.name; uid = poll.meta.uid } ∷ [];
    };
  });
  set_status_condition = λ t cs c. upsert (stamped t c) cs;
}

strip-upsert :
    (t : Time) (cs : List Condition) (c : Condition)
    → map strip (upsert (stamped t c) cs) ≡ upsert (strip c) (map strip cs)
strip-upsert t [] c = refl
strip-upsert t (d ∷ ds) c = ground (arith, strip-upsert t ds c)

abbrev pub answered : Answer Poll → Poll → Poll
answered (ok p) q = p
answered (failed e) q = q

lookup-key : (m : Memory) (k : NamespacedName) (poll : Poll) → lookup m k ≡ ok poll → key poll ≡ k
lookup-key m k poll h = ground arith

lookup_own : (m : Memory) → lookup m (key m.poll) ≡ ok m.poll
lookup_own m = ground arith

pub memory-IsLawful : IsLawful memory
memory-IsLawful = record {
  set_condition = strip-upsert;
  get-key = lookup-key;
  patch_status = λ s s' poll patched desired got e. (
    ap (λ x. answered x.0 patched) (sym e),
    subst (λ x. lookup x.1 (key poll) ≡ x.0) e
        (lookup_own (record s { poll = written (record poll { status = desired }) })),
    λ namespace. ap (λ x. ok x.1.responses) (sym e),
  );
}

find-name :
    (rs : List PollResponse) (name : String) (r : PollResponse)
    → find rs name ≡ ok r
    → r.meta.name ≡ name
find-name [] name r h = cc
find-name (x ∷ rs) name r h = let rest = find-name rs name r in ground arith

find-replace :
    (rs : List PollResponse) (name : String) (old new : PollResponse)
    → find rs name ≡ ok old
    → new.meta.name ≡ name
    → find (replace new rs) name ≡ ok new
find-replace [] name old new h e = cc
find-replace (x ∷ rs) name old new h e = let rest = find-replace rs name old new in ground arith

abbrev pub answered_response : Answer PollResponse → PollResponse → PollResponse
answered_response (ok r) s = r
answered_response (failed e) s = s

-- What a response that was found is read as, once another with its name is saved.
save_found :
    (m m' : Memory) (k : NamespacedName) (old new answer : PollResponse)
    → find m.responses k.name ≡ ok old
    → new.meta.name ≡ old.meta.name
    → save m new ≡ (ok answer, m')
    → (answer ≡ new) × (find m'.responses k.name ≡ ok new) × (m'.poll ≡ m.poll)
save_found m m' k old new answer found same e =
    let named = same ∙ find-name m.responses k.name old found in
    (
      cc,
      ap (λ x. find x.1.responses k.name) (sym e)
          ∙ find-replace m.responses k.name old new found named,
      ap (λ x. x.1.poll) (sym e),
    )

pub memory-KeepsResponses : KeepsResponses memory
memory-KeepsResponses = record {
  set_reference = λ poll resp changed e. (
    _,
    record { kind = "Poll"; name = poll.meta.name; uid = poll.meta.uid },
    ap (λ x. answered_response x changed) (sym e),
    Memᴰ.head refl,
    refl,
  );
  patch_references = λ s s' k resp patched refs got e.
      let (same, read, kept) =
        save_found s s' k resp (with_references resp refs) patched got refl e in
      (same, read ∙ ap ok (sym same), λ k'. ap (λ p. lookup (record s { poll = p }) k') kept);
  patch_status = λ s s' k resp patched desired got e.
      let (same, read, kept) =
        save_found s s' k resp (record resp { status = persisted_response desired }) patched got
          refl e in
      (read, λ k'. ap (λ p. lookup (record s { poll = p }) k') kept);
}
