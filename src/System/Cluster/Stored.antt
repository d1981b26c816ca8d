-- ===== src/System/Cluster/Stored.antt =====
-- The responses that are stored, while single ones come, change and go.
use poll_operator.Base.{
  suc, ◌<◌, List, [], ◌∷◌, ◌++◌, length, ◌≡◌, refl, ap, ◌∙◌, arith, All, All-append,
  All-append_left, All-append_right, IsUnique, string_eq,
}
use poll_operator.Api.{OwnerReference, PollQuestion, PollResponse, PollResponseStatus}
use poll_operator.PollController.Aggregate.{tallied_options}
use poll_operator.System.Bounds.{IsStored}
use poll_operator.Webhook.PollWebhook.WellFormed.{IsWellFormed, choice, free_text}
use poll_operator.Webhook.ResponseWebhook.{validate_response_create, validate_poll_response_spec}

pub tallied_options-IsUnique : (q : PollQuestion) → IsWellFormed q → IsUnique (tallied_options q)
tallied_options-IsUnique q (choice c is_choice set good unset) =
    let offered : tallied_options q ≡ c.options = unfold tallied_options in ground arith in
    rw offered good.1
tallied_options-IsUnique q (free_text f is_text set unset) =
    let none_offered : tallied_options q ≡ [] = unfold tallied_options in ground arith in
    rw none_offered tt

pub IsStored-status :
    (r : PollResponse) (s : PollResponseStatus) → IsStored r → IsStored (record r { status = s })
unfolding validate_response_create validate_poll_response_spec
IsStored-status r s stored = stored

pub IsStored-owned :
    (r : PollResponse) (refs : List OwnerReference)
    → IsStored r
    → IsStored (record r { meta = record r.meta { owner_references = refs } })
unfolding validate_response_create validate_poll_response_spec
IsStored-owned r refs stored = stored

All-insert {ℓ κ} :
    {A : Type ℓ} (P : A → Type κ) (xs ys : List A) (a : A)
    → All P (xs ++ ys)
    → P a
    → All P (xs ++ a ∷ ys)
All-insert P xs ys a ps p =
    All-append P xs (a ∷ ys) (All-append_left P xs ys ps) (p, All-append_right P xs ys ps)

All-delete {ℓ κ} :
    {A : Type ℓ} (P : A → Type κ) (xs ys : List A) (a : A)
    → All P (xs ++ a ∷ ys)
    → P a × All P (xs ++ ys)
All-delete P xs ys a ps =
    let (p, rest) = All-append_right P xs (a ∷ ys) ps in
    (p, All-append P xs ys (All-append_left P xs (a ∷ ys) ps) rest)

length-insert {ℓ} :
    {A : Type ℓ} (xs ys : List A) (a : A) → length (xs ++ a ∷ ys) ≡ suc (length (xs ++ ys))
length-insert [] ys a = refl
length-insert (x ∷ xs) ys a = ap suc (length-insert xs ys a)

-- The responses that are stored, and fewer than 2^31 of them.
abbrev pub AreStored : List PollResponse → Type 0
AreStored rs = All IsStored rs × (length rs < 2147483648)

pub AreStored-insert :
    (rs xs ys : List PollResponse) (r : PollResponse)
    → rs ≡ xs ++ ys
    → AreStored rs
    → IsStored r
    → suc (length rs) < 2147483648
    → AreStored (xs ++ r ∷ ys)
AreStored-insert rs xs ys r e (stored, few) good small =
    (All-insert IsStored xs ys r (rw e at stored) good, rw (length-insert xs ys r) (rw e at small))

pub AreStored-delete :
    (rs xs ys : List PollResponse) (r : PollResponse)
    → rs ≡ xs ++ r ∷ ys
    → AreStored rs
    → AreStored (xs ++ ys)
AreStored-delete rs xs ys r e (stored, few) =
    let one_more = ap length e ∙ length-insert xs ys r in
    ((All-delete IsStored xs ys r (rw e at stored)).1, omega arith)

pub AreStored-replace :
    (rs xs ys : List PollResponse) (r r' : PollResponse)
    → rs ≡ xs ++ r ∷ ys
    → AreStored rs
    → (IsStored r → IsStored r')
    → AreStored (xs ++ r' ∷ ys)
AreStored-replace rs xs ys r r' e (stored, few) keeps =
    let (old, rest) = All-delete IsStored xs ys r (rw e at stored) in
    let one_more = ap length e ∙ length-insert xs ys r in
    let as_many = length-insert xs ys r' in
    (All-insert IsStored xs ys r' rest (keeps old), omega arith)
