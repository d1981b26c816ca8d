-- ===== src/Webhook/FieldError.antt =====
-- The errors of `k8s.io/apimachinery/pkg/util/validation/field`, as far as the webhooks build them,
-- and the verdict of an admission.
use poll_operator.Base.{ℕ, String, List, [], ◌∷◌, ◌++◌, ◌≡◌, ◌↔◌, refl}
use poll_operator.Api.{PollAnswer}

-- A path, from the last step back to the root.
pub data FieldPath : Type 0 where
  root : String → FieldPath
  child : FieldPath → String → FieldPath
  index : FieldPath → ℕ → FieldPath

pub data BadValue : Type 0 where
  bad_text : String → BadValue
  bad_answer : PollAnswer → BadValue

-- Its constructors are the package's functions.
pub data FieldError : Type 0 where
  required : FieldPath → String → FieldError
  forbidden : FieldPath → String → FieldError
  invalid : FieldPath → BadValue → String → FieldError
  duplicate : FieldPath → String → FieldError
  not_supported : FieldPath → String → List String → FieldError

-- `nil`, or `apierrors.NewInvalid` of a kind, a name and the errors.
pub data Verdict : Type 0 where
  admitted : Verdict
  not_valid : String → String → List FieldError → Verdict

-- The end of a handler: `if len(errs) > 0`.
abbrev pub verdict : String → String → List FieldError → Verdict
verdict kind name [] = admitted
verdict kind name (e ∷ errs) = not_valid kind name (e ∷ errs)

pub append-eq-[]_iff : {A : Type 0} (xs ys : List A) → (xs ++ ys ≡ []) ↔ ((xs ≡ []) × (ys ≡ []))
append-eq-[]_iff [] ys = (λ h. (refl, h), λ h. h.1)
append-eq-[]_iff (x ∷ xs) ys = (λ h. cc, λ h. cc)

pub verdict-eq-admitted_iff :
    (kind name : String) (errs : List FieldError)
    → (verdict kind name errs ≡ admitted) ↔ (errs ≡ [])
verdict-eq-admitted_iff kind name [] = (λ h. refl, λ h. refl)
verdict-eq-admitted_iff kind name (e ∷ errs) = (λ h. cc, λ h. cc)
