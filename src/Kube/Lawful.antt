-- ===== src/Kube/Lawful.antt =====
-- What the proofs assume of Kubernetes' libraries and of the API server.
use mathlib.Core.Option
use poll_operator.Base.{
  ◌*◌, ◌/◌, ◌≡◌, refl, ap, arith, String, true, List, [], ◌∷◌, map, ◌==◌, string_eq, if◌then◌else◌,
  contains, IsUnique,
}
use poll_operator.Api.{Time, Condition, strip, condition_types, NamespacedName, Poll, PollStatus}
use poll_operator.Kube.{Kube, ok}

-- `metav1.Time` is written in RFC 3339, which has whole seconds.
abbrev pub to_second : Time → Time
to_second t = t / 1000000000 * 1000000000

abbrev pub persisted_condition : Condition → Condition
persisted_condition c = record c { last_transition_time = to_second c.last_transition_time }

-- What is read back of a status that was written.
abbrev pub persisted : PollStatus → PollStatus
persisted s = record s {
  opened_at = Option.map to_second s.opened_at;
  closed_at = Option.map to_second s.closed_at;
  conditions = map persisted_condition s.conditions;
}

-- A condition put in the place of the first of its type, or at the end.
abbrev pub upsert : Condition → List Condition → List Condition
upsert c [] = c ∷ []
upsert c (d ∷ ds) = if d.type == c.type then c ∷ ds else d ∷ upsert c ds

abbrev pub key : Poll → NamespacedName
key poll = record { namespace = poll.meta.namespace; name = poll.meta.name }

pub record IsLawful (kube : Kube) : Type 0 where
  -- `meta.SetStatusCondition` updates the condition of the type or appends it; the transition time
  -- is left open.
  pub set_condition :
      (t : Time) (cs : List Condition) (c : Condition)
      → map strip (kube.set_status_condition t cs c) ≡ upsert (strip c) (map strip cs)
  -- An object is read under its own key.
  pub get-key :
      (s : kube.Store) (k : NamespacedName) (poll : Poll)
      → kube.get_poll s k ≡ ok poll
      → key poll ≡ k
  -- A patch of a status that succeeds, on a Poll that nobody else has changed, answers with the
  -- object as it is read from then on, and concerns no other kind of object.
  pub patch_status :
      (s s' : kube.Store) (poll patched : Poll) (desired : PollStatus)
      → kube.get_poll s (key poll) ≡ ok poll
      → kube.patch_poll_status s poll (record poll { status = desired }) ≡ (ok patched, s')
      → (patched ≡ record poll { status = persisted desired })
        × (kube.get_poll s' (key poll) ≡ ok patched)
        × ((namespace : String)
            → kube.list_responses s' namespace ≡ kube.list_responses s namespace)

pub upsert_again : (c : Condition) (cs : List Condition) → upsert c (upsert c cs) ≡ upsert c cs
upsert_again c [] = ground arith
upsert_again c (d ∷ ds) = ground (arith, upsert_again c ds)

contains-upsert :
    (k : String) (c : Condition) (cs : List Condition)
    → contains (condition_types (upsert c cs)) k
      ≡ (if c.type == k then true else contains (condition_types cs) k)
contains-upsert k c [] = ground arith
contains-upsert k c (d ∷ ds) = ground (arith, contains-upsert k c ds)

pub upsert-IsUnique :
    (c : Condition) (cs : List Condition)
    → IsUnique (condition_types cs)
    → IsUnique (condition_types (upsert c cs))
upsert-IsUnique c [] u = (refl, tt)
upsert-IsUnique c (d ∷ ds) u = ground (arith, upsert-IsUnique c ds, contains-upsert d.type c ds)

pub condition_types-strip :
    (cs : List Condition) → condition_types (map strip cs) ≡ condition_types cs
condition_types-strip [] = refl
condition_types-strip (c ∷ cs) = ap (◌∷◌ c.type) (condition_types-strip cs)

pub strip-persisted : (cs : List Condition) → map strip (map persisted_condition cs) ≡ map strip cs
strip-persisted [] = refl
strip-persisted (c ∷ cs) = ap (◌∷◌ (strip c)) (strip-persisted cs)
