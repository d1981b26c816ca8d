-- ===== src/Ui/Routes/Safe.antt =====
-- Which requests write.
use mathlib.Core.Path.{subst}
use poll_operator.Base.{
  String, Bool, true, false, ◌&&◌, not, some, List, [], ◌∷◌, ◌≡◌, ◌≢◌, ◌⊎◌, inl, inr, refl, sym, ap,
  arith, ◌==◌, string_eq, Bool-cases,
}
use poll_operator.Api.{PollAnswer, PollResponse}
use poll_operator.Kube.{Kube}
use poll_operator.Ui.Answers.{Form}
use poll_operator.Ui.Pages.{Reply}
use poll_operator.Ui.Pages.Votes.{Voted, IsVoteOf, creation, handle_vote-Voted}
use poll_operator.Ui.Routes.{
  Route, root, list, detail, vote, health, not_allowed, Request, is_get, get_route, post_route,
  route, serve_route, serve,
}

abbrev is_vote : Route → Bool
is_vote (vote ns name) = true
is_vote _ = false

get_route_quiet : (segments : List String) → is_vote (get_route segments) ≡ false
unfolding get_route
get_route_quiet [] = refl
get_route_quiet (a ∷ []) = ground arith
get_route_quiet (a ∷ b ∷ []) = refl
get_route_quiet (a ∷ b ∷ c ∷ []) = ground arith
get_route_quiet (a ∷ b ∷ c ∷ d ∷ segments) = refl

-- A path that a vote is posted to.
abbrev pub IsVotePath : String → String → List String → Type 0
IsVotePath ns name segments =
    (segments ≡ "polls" ∷ ns ∷ name ∷ "vote" ∷ []) × (ns ≢ "") × (name ≢ "")

post_route-cases :
    (segments : List String)
    → (is_vote (post_route segments) ≡ false)
      ⊎ ((ns : String) × (name : String) × (post_route segments ≡ vote ns name)
          × IsVotePath ns name segments)
unfolding post_route
post_route-cases [] = inl refl
post_route-cases (a ∷ []) = inl refl
post_route-cases (a ∷ b ∷ []) = inl refl
post_route-cases (a ∷ b ∷ c ∷ []) = inl refl
post_route-cases (a ∷ ns ∷ name ∷ b ∷ []) =
    elim (Bool-cases (a == "polls" && b == "vote" && not (ns == "") && not (name == ""))) [
      | inl fits ↦ inr (ns, name, rw fits, (ground arith, ground arith, ground arith))
      | inr other ↦ inl (rw other)
    ]
post_route-cases (a ∷ b ∷ c ∷ d ∷ e ∷ segments) = inl refl

module _ (kube : Kube) (r : Request) (s : kube.Store) where
  serve_route_quiet : (x : Route) → is_vote x ≡ false → (serve_route kube x r s).1 ≡ s
  serve_route_quiet root h = refl
  serve_route_quiet list h = refl
  serve_route_quiet (detail ns name) h = refl
  serve_route_quiet (vote ns name) h = cc
  serve_route_quiet health h = refl
  serve_route_quiet not_allowed h = refl

  -- A form that was posted to a vote's path, and the store after its one creation.
  abbrev pub IsRecorded : kube.Store → Type 0
  IsRecorded s' =
      (ns : String) × (name : String) × (form : Form) × (answers : List PollAnswer)
      × (v : PollResponse) × (r.method ≡ "POST")
      × IsVotePath ns name r.segments
      × (r.posted ≡ some form)
      × IsVoteOf kube ns name s form answers v
      × (s' ≡ (creation kube ns name s v).1)

  IsRecorded-of_Voted :
      (ns name : String) (reply : Reply × kube.Store)
      → r.method ≡ "POST"
      → IsVotePath ns name r.segments
      → Voted kube ns name s r.posted reply
      → (reply.1 ≡ s) ⊎ IsRecorded reply.1
  IsRecorded-of_Voted ns name reply post path (Voted.unparsed _ e) = inl (ap (λ x. x.1) e)
  IsRecorded-of_Voted ns name reply post path (Voted.gone _ _ _ e) = inl (ap (λ x. x.1) e)
  IsRecorded-of_Voted ns name reply post path (Voted.unread _ _ _ e) = inl (ap (λ x. x.1) e)
  IsRecorded-of_Voted ns name reply post path (Voted.unanswered _ _ _ _ _ e) = inl (ap (λ x. x.1) e)
  IsRecorded-of_Voted ns name reply post path
        (Voted.refused form poll answers v _ voted sent _ _ _ e) =
      inr (ns, name, form, answers, v, post, path, sent, voted, ap (λ x. x.1) e)
  IsRecorded-of_Voted ns name reply post path
        (Voted.recorded form poll answers v _ voted sent _ _ _ e) =
      inr (ns, name, form, answers, v, post, path, sent, voted, ap (λ x. x.1) e)

  posted_writes :
      r.method ≡ "POST"
      → ((serve_route kube (post_route r.segments) r s).1 ≡ s)
        ⊎ IsRecorded (serve_route kube (post_route r.segments) r s).1
  posted_writes post = elim (post_route-cases r.segments) [
    | inl quiet ↦ inl (serve_route_quiet (post_route r.segments) quiet)
    | inr (ns, name, routed, path) ↦
        subst (λ x. ((serve_route kube x r s).1 ≡ s) ⊎ IsRecorded (serve_route kube x r s).1)
          (sym routed)
          (IsRecorded-of_Voted ns name _ post path (handle_vote-Voted kube ns name s r.posted))
  ]

  -- A request leaves the store as it was, or is a form posted to the path of a vote, and creates one
  -- response: no page that is read writes anything.
  pub serve_writes : ((serve kube r s).1 ≡ s) ⊎ IsRecorded (serve kube r s).1
  unfolding serve route
  serve_writes = elim (Bool-cases (is_get r.method)) [
    | inl read ↦
        inl (rw read (serve_route_quiet (get_route r.segments) (get_route_quiet r.segments)))
    | inr other ↦ elim (Bool-cases (r.method == "POST")) [
      | inl post ↦ rw (other, post) (posted_writes (ground arith))
      | inr neither ↦ inl (rw (other, neither))
    ]
  ]
