-- ===== src/ResponseController/Reconcile/Watches.antt =====
-- Which reconciles a changed object asks for.
use poll_operator.Base.{
  false, true, List, [], ◌∷◌, Memᴰ, ◌≡◌, ◌≢◌, ◌↔◌, refl, ap, ◌∙◌, arith, ◌==◌, string_eq,
  Bool-cases, inl, inr, eq_of_==,
}
use poll_operator.Api.{NamespacedName, Poll, PollResponse}
use poll_operator.Kube.{Kube, ok}
use poll_operator.Kube.Lawful.{key}
use poll_operator.PollController.Reconcile.{
  poll_object, response_object, map_response_to_poll, poll_requests,
}
use poll_operator.ResponseController.Reconcile.{
  requests_for, map_poll_to_responses, response_requests,
}

abbrev pub response_key : PollResponse → NamespacedName
response_key resp = record { namespace = resp.meta.namespace; name = resp.meta.name }

-- A listed response that refers to the Poll has this key.
abbrev pub IsAsked : Poll → List PollResponse → NamespacedName → Type 0
IsAsked poll rs k =
    (r : PollResponse) × Memᴰ r rs × (r.spec.poll_ref.name ≡ poll.meta.name) × (k ≡ response_key r)

later :
    (poll : Poll) (r : PollResponse) (rs : List PollResponse) (k : NamespacedName)
    → IsAsked poll rs k
    → IsAsked poll (r ∷ rs) k
later poll r rs k (x, m, named, same) = (x, Memᴰ.tail m, named, same)

asked_head :
    (poll : Poll) (r : PollResponse) (rs : List PollResponse) (ks : List NamespacedName)
    (k : NamespacedName)
    → r.spec.poll_ref.name ≡ poll.meta.name
    → (Memᴰ k ks → IsAsked poll rs k)
    → Memᴰ k (response_key r ∷ ks)
    → IsAsked poll (r ∷ rs) k
asked_head poll r rs ks k named rest (Memᴰ.head e) = (r, Memᴰ.head refl, named, e)
asked_head poll r rs ks k named rest (Memᴰ.tail m) = later poll r rs k (rest m)

asked_of_mem :
    (poll : Poll) (rs : List PollResponse) (k : NamespacedName)
    → Memᴰ k (requests_for poll rs)
    → IsAsked poll rs k
unfolding requests_for
asked_of_mem poll [] k m = elim m [ ]
asked_of_mem poll (r ∷ rs) k m = elim (Bool-cases (r.spec.poll_ref.name == poll.meta.name)) [
  | inl named ↦
      asked_head poll r rs (requests_for poll rs) k (eq_of_== _ _ named) (asked_of_mem poll rs k)
        (rw named at m)
  | inr other ↦ later poll r rs k (asked_of_mem poll rs k (rw other at m))
]

mem_of_asked :
    (poll : Poll) (rs : List PollResponse) (k : NamespacedName)
    → IsAsked poll rs k
    → Memᴰ k (requests_for poll rs)
unfolding requests_for
mem_of_asked poll [] k (x, m, named, same) = elim m [ ]
mem_of_asked poll (r ∷ rs) k (x, Memᴰ.head e, named, same) =
    let found : (r.spec.poll_ref.name == poll.meta.name) ≡ true =
      ground (arith, ap (λ x. x.spec.poll_ref.name) e) in
    rw found (Memᴰ.head (same ∙ ap response_key e))
mem_of_asked poll (r ∷ rs) k (x, Memᴰ.tail m, named, same) =
    let rest = mem_of_asked poll rs k (x, m, named, same) in
    elim (Bool-cases (r.spec.poll_ref.name == poll.meta.name)) [
      | inl mine ↦ rw mine (Memᴰ.tail rest)
      | inr other ↦ rw other rest
    ]

-- A changed Poll asks for the reconcile of exactly the listed responses that refer to it.
pub map_poll_to_responses-mem_iff :
    (kube : Kube) (poll : Poll) (s : kube.Store) (rs : List PollResponse) (k : NamespacedName)
    → kube.list_responses s poll.meta.namespace ≡ ok rs
    → Memᴰ k (map_poll_to_responses kube (poll_object poll) s) ↔ IsAsked poll rs k
unfolding map_poll_to_responses
map_poll_to_responses-mem_iff kube poll s rs k listed =
    (λ m. asked_of_mem poll rs k (rw listed at m), λ a. rw listed (mem_of_asked poll rs k a))

-- The two watches agree: a Poll with a name asks for the reconcile of a listed response of its
-- namespace exactly where that response asks for the reconcile of the Poll.
pub watches_agree :
    (poll : Poll) (r : PollResponse)
    → poll.meta.name ≢ ""
    → r.meta.namespace ≡ poll.meta.namespace
    → (requests_for poll (r ∷ []) ≡ response_key r ∷ [])
      ↔ (map_response_to_poll (response_object r) ≡ key poll ∷ [])
unfolding requests_for map_response_to_poll
watches_agree poll r given same = (λ h. ground arith, λ h. ground arith)

-- A changed Poll asks for its own reconcile and for those of exactly the listed responses that refer
-- to it, and a changed response that refers to a Poll with a name in its own namespace asks for its
-- own reconcile and for that of the Poll.
pub watches_cover :
    (kube : Kube) (poll : Poll) (s : kube.Store) (rs : List PollResponse)
    → poll.meta.name ≢ ""
    → kube.list_responses s poll.meta.namespace ≡ ok rs
    → Memᴰ (key poll) (poll_requests (poll_object poll))
      × ((k : NamespacedName)
          → Memᴰ k (response_requests kube (poll_object poll) s) ↔ IsAsked poll rs k)
      × ((r : PollResponse)
          → r.spec.poll_ref.name ≡ poll.meta.name
          → r.meta.namespace ≡ poll.meta.namespace
          → Memᴰ (response_key r) (response_requests kube (response_object r) s)
            × Memᴰ (key poll) (poll_requests (response_object r)))
unfolding poll_requests response_requests map_response_to_poll
watches_cover kube poll s rs given listed = (
  Memᴰ.head refl,
  λ k. map_poll_to_responses-mem_iff kube poll s rs k listed,
  λ r named near.
      let asked : (r.spec.poll_ref.name == "") ≡ false = ground arith in
      (Memᴰ.head refl, rw asked (Memᴰ.head (cc (named, near)))),
)
