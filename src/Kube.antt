-- ===== src/Kube.antt =====
-- What the operator calls of Kubernetes' libraries (controller-runtime's client and
-- `controllerutil`, `meta.SetStatusCondition`), as an interface over an unknown store, and the
-- effects of a reconciler: reads of the clock and requests to that store.
pub mod Lawful
pub mod Responses
pub mod Format
use poll_operator.Base.{ℕ, suc, ℤ, pos, String, Bool, true, false, Option, none, some, List}
use poll_operator.Api.{Time, Condition, NamespacedName, Poll, PollResponse}

-- What `apierrors.IsNotFound` and `apierrors.IsConflict` tell apart.
pub data ApiError : Type 0 where
  not_found : String → ApiError
  conflict : String → ApiError
  other : String → ApiError

abbrev pub is_not_found : ApiError → Bool
is_not_found (not_found m) = true
is_not_found _ = false

abbrev pub is_conflict : ApiError → Bool
is_conflict (conflict m) = true
is_conflict _ = false

-- A value, or the error that comes back in its place.
pub data Answer (A : Type 0) : Type 0 where
  ok : A → Answer A
  failed : ApiError → Answer A

-- A patch takes the object as it was read and as it was changed, and answers with the object as
-- the server has it then.
pub record Kube : Type 1 where
  pub Store : Type 0
  pub get_poll : Store → NamespacedName → Answer Poll
  pub get_response : Store → NamespacedName → Answer PollResponse
  pub list_polls : Store → Answer (List Poll)
  pub list_responses : Store → String → Answer (List PollResponse)
  pub patch_poll_status : Store → Poll → Poll → Answer Poll × Store
  pub patch_response : Store → PollResponse → PollResponse → Answer PollResponse × Store
  pub patch_response_status : Store → PollResponse → PollResponse → Answer PollResponse × Store
  pub create_response : Store → PollResponse → Answer PollResponse × Store
  pub set_controller_reference : Poll → PollResponse → Answer PollResponse
  -- The first argument is what the clock shows at the call.
  pub set_status_condition : Time → List Condition → Condition → List Condition

-- `ctrl.Result`; a duration is a number of nanoseconds.
pub record Result : Type 0 where
  pub requeue : Bool
  pub requeue_after : ℤ

-- The error of a reconciler: a text, and the error that it wraps.
pub record Error : Type 0 where
  pub context : String
  pub cause : ApiError

pub record Outcome : Type 0 where
  pub result : Result
  pub error : Option Error

abbrev pub no_requeue : Result
no_requeue = record { requeue = false; requeue_after = pos 0 }

-- `ctrl.Result{}, nil`
abbrev pub finished : Outcome
finished = record { result = no_requeue; error = none }

abbrev pub requeued : Outcome
requeued = record { result = record no_requeue { requeue = true }; error = none }

abbrev pub requeued_after : ℤ → Outcome
requeued_after d = record { result = record no_requeue { requeue_after = d }; error = none }

abbrev pub gave_up : String → ApiError → Outcome
gave_up context cause = record {
  result = no_requeue;
  error = some (record { context = context; cause = cause });
}

-- `clock n` is the n-th reading of the clock, and `ticks` counts the readings made so far.
pub record World (S : Type 0) : Type 0 where
  pub store : S
  pub clock : ℕ → Time
  pub ticks : ℕ

module _ {S : Type 0} where
  abbrev pub pure : {A : Type 0} → A → World S → A × World S
  pure a w = (a, w)

  -- `time.Now()`
  abbrev pub now : World S → Time × World S
  now w = (w.clock w.ticks, record w { ticks = suc w.ticks })

  abbrev pub reads : {A : Type 0} → (S → A) → World S → A × World S
  reads f w = (f w.store, w)

  abbrev pub writes : {A : Type 0} → (S → A × S) → World S → A × World S
  writes f w = let (a, s) = f w.store in (a, record w { store = s })

  infixl 5 ◌>>=◌
  abbrev pub ◌>>=◌ :
      {A B : Type 0} → (World S → A × World S) → (A → World S → B × World S) → World S → B × World S
  ◌>>=◌ m f w = let (a, w') = m w in f a w'
