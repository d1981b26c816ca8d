-- ===== src/System/Cluster.antt =====
-- A Poll and its responses, and everything that happens to them, in any order. The runs of the two
-- controllers work on what they read, each object apart, which may be older than what they patch;
-- a patch is `client.MergeFrom`: it carries what differs from the object that was read.
pub mod Stored
pub mod Published
use poll_operator.Base.{
  ℕ, Bool, true, suc, ◌<◌, List, [], ◌∷◌, ◌++◌, map, length, ◌≡◌, ◌≢◌, ◌⊎◌, IsUnique, string_eq,
}
use poll_operator.Api.{Time, OwnerReference, Poll, PollStatus, PollResponse, PollResponseStatus}
use poll_operator.Kube.{Kube}
use poll_operator.Kube.Format.{Format}
use poll_operator.Kube.Lawful.{persisted}
use poll_operator.Kube.Responses.{persisted_response}
use poll_operator.PollController.Reconcile.{desired_status}
use poll_operator.ResponseController.Validate.{validate_response}
use poll_operator.ResponseController.Reconcile.Judged.{judged_status}
use poll_operator.Webhook.FieldError.{admitted}
use poll_operator.Webhook.PollWebhook.{validate_update}
use poll_operator.Webhook.ResponseWebhook.{validate_response_create, validate_response_update}

pub record Cluster : Type 0 where
  pub poll : Poll
  pub responses : List PollResponse

-- The list-map keys of the custom resource definitions.
abbrev pub AnswersOnce : PollResponse → Type 0
AnswersOnce r = IsUnique (map (λ a. a.question_id) r.spec.answers)

abbrev pub AsksOnce : Poll → Type 0
AsksOnce p = IsUnique (map (λ q. q.id) p.spec.questions)

-- A part of an object under a merge patch: the difference of what was read and what is wanted is
-- written, and where there is none the part stays as it is stored.
abbrev pub IsMerged : {A : Type 0} → A → A → A → A → Type 0
IsMerged read wanted stored next =
    ((read ≡ wanted) × (next ≡ stored)) ⊎ ((read ≢ wanted) × (next ≡ wanted))

-- The status of a Poll under a merge patch, in which lists are replaced as a whole.
pub record IsPatched (read wanted stored next : PollStatus) : Type 0 where
  pub conditions : IsMerged read.conditions wanted.conditions stored.conditions next.conditions
  pub phase : IsMerged read.phase wanted.phase stored.phase next.phase
  pub opened_at : IsMerged read.opened_at wanted.opened_at stored.opened_at next.opened_at
  pub closed_at : IsMerged read.closed_at wanted.closed_at stored.closed_at next.closed_at
  pub results : IsMerged read.results wanted.results stored.results next.results
  pub total_responses :
      IsMerged read.total_responses wanted.total_responses stored.total_responses
        next.total_responses

-- The status of a response under a merge patch.
pub record IsResponsePatched (read wanted stored next : PollResponseStatus) : Type 0 where
  pub conditions : IsMerged read.conditions wanted.conditions stored.conditions next.conditions
  pub phase : IsMerged read.phase wanted.phase stored.phase next.phase
  pub observed_poll_generation :
      IsMerged read.observed_poll_generation wanted.observed_poll_generation
        stored.observed_poll_generation next.observed_poll_generation
  pub accepted_at : IsMerged read.accepted_at wanted.accepted_at stored.accepted_at next.accepted_at

-- Writes of users go through the webhooks and leave the status alone; there are never 2^31 responses.
pub data Reachable (kube : Kube) (fmt : Format) (stale : Bool) (start : Cluster)
    : Cluster → Type 0 where
  begins : Reachable kube fmt stale start start
  creates :
      {c : Cluster} (xs ys : List PollResponse) (r : PollResponse)
      → Reachable kube fmt stale start c
      → c.responses ≡ xs ++ ys
      → validate_response_create r ≡ admitted
      → AnswersOnce r
      → suc (length c.responses) < 2147483648
      → Reachable kube fmt stale start (record c { responses = xs ++ r ∷ ys })
  updates :
      {c : Cluster} (xs ys : List PollResponse) (r new : PollResponse)
      → Reachable kube fmt stale start c
      → c.responses ≡ xs ++ r ∷ ys
      → validate_response_update fmt r new ≡ admitted
      → AnswersOnce new
      → Reachable kube fmt stale start
          (record c { responses = xs ++ record new { status = r.status } ∷ ys })
  deletes :
      {c : Cluster} (xs ys : List PollResponse) (r : PollResponse)
      → Reachable kube fmt stale start c
      → c.responses ≡ xs ++ r ∷ ys
      → Reachable kube fmt stale start (record c { responses = xs ++ ys })
  edits :
      {c : Cluster} (new : Poll)
      → Reachable kube fmt stale start c
      → validate_update fmt c.poll new ≡ admitted
      → AsksOnce new
      → Reachable kube fmt stale start (record c { poll = record new { status = c.poll.status } })
  -- A run on a response sets its owner references.
  owns :
      {c : Cluster} (xs ys : List PollResponse) (r : PollResponse) (refs : List OwnerReference)
      → Reachable kube fmt stale start c
      → c.responses ≡ xs ++ r ∷ ys
      → Reachable kube fmt stale start (record c {
        responses = xs ++ record r { meta = record r.meta { owner_references = refs } } ∷ ys;
      })
  -- A run on a response read the Poll and the response as `poll` and `read`.
  judges :
      {c : Cluster} (xs ys : List PollResponse) (r read : PollResponse) (poll : Poll)
      (now u t₁ t₂ : Time) (next : PollResponseStatus)
      → Reachable kube fmt stale start c
      → c.responses ≡ xs ++ r ∷ ys
      → IsResponsePatched
          (persisted_response read.status)
          (persisted_response (
            judged_status kube read poll.meta.generation
              (validate_response fmt poll read now)
              u
              t₁
              t₂))
          r.status
          next
      → Reachable kube fmt stale start
          (record c { responses = xs ++ record r { status = next } ∷ ys })
  -- A run on the Poll read the Poll when the cluster was in the state `seen`, and the responses when
  -- it was in the state `listed`. Where `stale` is false, it read the status that is stored, though
  -- the questions and the responses may be older.
  counts :
      {c seen listed : Cluster} (t t' t'' : Time) (next : PollStatus)
      → Reachable kube fmt stale start c
      → Reachable kube fmt stale start seen
      → Reachable kube fmt stale start listed
      → (stale ≡ true) ⊎ (seen.poll.status ≡ c.poll.status)
      → IsPatched
          (persisted seen.poll.status)
          (persisted (desired_status kube seen.poll listed.responses t t' t''))
          c.poll.status
          next
      → Reachable kube fmt stale start (record c { poll = record c.poll { status = next } })
