-- ===== src/Webhook/PollWebhook/Chains.antt =====
-- Chains of updates: how long a question keeps its type.
use poll_operator.Base.{
  same_of_key, contains, false, true, String, List, [], ◌∷◌, map, Memᴰ, ◌≡◌, ◌≢◌, ap, sym, ◌∙◌,
  arith, All, All-map, All-mem, IsUnique, string_eq,
}
use poll_operator.Api.{Poll, PollQuestion}
use poll_operator.Kube.Format.{Format}
use poll_operator.Webhook.FieldError.{admitted}
use poll_operator.Webhook.PollWebhook.{validate_update, validate_create}
use poll_operator.Webhook.PollWebhook.WellFormed.{validate_create-eq-admitted_iff}
use poll_operator.Webhook.PollWebhook.Updates.{KeepsType, validate_update-eq-admitted_iff}

abbrev pub HasUniqueIds : Poll → Type 0
HasUniqueIds p = IsUnique (map (λ q. q.id) p.spec.questions)

abbrev pub IsAsked : String → PollQuestion → Poll → Type 0
IsAsked id q p = Memᴰ q p.spec.questions × (q.id ≡ id)

-- Admitted updates from one Poll to another, all with a question of this id.
pub data Chain (fmt : Format) (id : String) (p : Poll) : Poll → Type 0 where
  none_yet : Chain fmt id p p
  then :
      {old new : Poll} (q : PollQuestion)
      → Chain fmt id p old
      → HasUniqueIds old
      → IsAsked id q old
      → validate_update fmt old new ≡ admitted
      → Chain fmt id p new

same_type :
    (fmt : Format) (old new : Poll) (q q' : PollQuestion) (id : String)
    → HasUniqueIds old
    → validate_update fmt old new ≡ admitted
    → IsAsked id q old
    → IsAsked id q' new
    → q.type ≡ q'.type
same_type fmt old new q q' id u admits (m, named) (m', named') =
    let keeps = ((validate_update-eq-admitted_iff fmt old new u).0 admits).1 in
    All-mem (KeepsType old.spec.questions) new.spec.questions keeps m' q m (named ∙ sym named')

-- A question keeps its type through all admitted updates for as long as every Poll on the way has a
-- question with its id, where ids are unique.
pub Chain-keeps_type :
    (fmt : Format) (id : String) (first last : Poll) (q q' : PollQuestion)
    → HasUniqueIds first
    → IsAsked id q first
    → Chain fmt id first last
    → IsAsked id q' last
    → q.type ≡ q'.type
Chain-keeps_type fmt id first last q q' u (m, named) none_yet (m', named') =
    ap (λ x. x.type) (same_of_key (λ x. x.id) first.spec.questions q' q u m' m (named ∙ sym named'))
Chain-keeps_type fmt id first last q q' u asked (then {old} mid chain u' asked' admits) asked'' =
    Chain-keeps_type fmt id first old q mid u asked chain asked'
    ∙ same_type fmt old last mid q' id u' admits asked' asked''

-- No question of the second Poll has an id of the first.
abbrev pub SharesNone : Poll → Poll → Type 0
SharesNone old new =
    All (λ q. contains (map (λ x. x.id) old.spec.questions) q.id ≡ false) new.spec.questions

contains-id :
    (qs : List PollQuestion) (q : PollQuestion) (id : String)
    → Memᴰ q qs
    → q.id ≡ id
    → contains (map (λ x. x.id) qs) id ≡ true
contains-id [] q id m named = elim m [ ]
contains-id (x ∷ qs) q id (Memᴰ.head e) named =
    let same : x.id ≡ id = ap (λ y. y.id) (sym e) ∙ named in ground arith
contains-id (x ∷ qs) q id (Memᴰ.tail m) named =
    let rest = contains-id qs q id m named in ground arith

clash :
    (old : Poll) (q q' : PollQuestion)
    → Memᴰ q' old.spec.questions
    → q'.id ≡ q.id
    → contains (map (λ x. x.id) old.spec.questions) q.id ≢ false
clash old q q' m named fresh = let known = contains-id old.spec.questions q' q.id m named in cc

renewed :
    (fmt : Format) (old new : Poll)
    → HasUniqueIds old
    → validate_create fmt new ≡ admitted
    → SharesNone old new
    → validate_update fmt old new ≡ admitted
renewed fmt old new u good none_shared = (validate_update-eq-admitted_iff fmt old new u).1 (
  (validate_create-eq-admitted_iff fmt new).0 good,
  All-map (λ q fresh old' m named. absurd (clash old q old' m named fresh)) new.spec.questions
      none_shared,
)

-- Any Poll that would be admitted as a new one can take the place of another by two admitted updates,
-- the first to a Poll that shares no question id with either, where ids are unique: a question id can
-- so get another type.
pub any_type_in_two_updates :
    (fmt : Format) (old mid new : Poll)
    → HasUniqueIds old
    → HasUniqueIds mid
    → validate_create fmt mid ≡ admitted
    → validate_create fmt new ≡ admitted
    → SharesNone old mid
    → SharesNone mid new
    → (validate_update fmt old mid ≡ admitted) × (validate_update fmt mid new ≡ admitted)
any_type_in_two_updates fmt old mid new u u' good good' apart apart' =
    (renewed fmt old mid u good apart, renewed fmt mid new u' good' apart')
