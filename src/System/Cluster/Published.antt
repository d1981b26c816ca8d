-- ===== src/System/Cluster/Published.antt =====
-- What is published of the results, at any time.
use mathlib.Core.Path.{subst}
use poll_operator.Base.{
  ℕ, ℤ, Bool, true, ◌⊎◌, inl, inr, ◌<◌, List, [], pos, ◌≡◌, ap, sym, ◌∙◌, arith, All, All-map,
  string_eq,
}
use poll_operator.Api.{Time, Poll, PollStatus, QuestionResult, PollResponse}
use poll_operator.Kube.{Kube}
use poll_operator.Kube.Format.{Format}
use poll_operator.PollController.Aggregate.Refines.{HasUniqueKeys}
use poll_operator.PollController.Reconcile.{desired_status}
use poll_operator.System.Bounds.{IsBounded, results-IsBounded}
use poll_operator.System.Closing.{desired_status-results}
use poll_operator.System.Cluster.Stored.{
  IsStored-status, IsStored-owned, AreStored, AreStored-insert, AreStored-delete, AreStored-replace,
  tallied_options-IsUnique,
}
use poll_operator.System.Cluster.{
  Cluster, Reachable, begins, creates, updates, deletes, edits, owns, judges, counts, AsksOnce,
  IsMerged,
}
use poll_operator.Webhook.FieldError.{admitted}
use poll_operator.Webhook.PollWebhook.{validate_create}
use poll_operator.Webhook.PollWebhook.WellFormed.{IsWellFormed, validate_create-eq-admitted_iff}
use poll_operator.Webhook.PollWebhook.Updates.{validate_update-eq-admitted_iff}
use poll_operator.Webhook.ResponseWebhook.OneForm.{validate_response_update-eq-admitted_iff}

-- A count that is not negative and has not wrapped.
abbrev pub IsCount : ℤ → Type 0
IsCount total = (n : ℕ) × (total ≡ pos n) × (n < 2147483648)

-- A row in which no count is negative or has wrapped, and no option has more votes than the question
-- has responses.
abbrev pub IsRow : QuestionResult → Type 0
IsRow row = (n : ℕ) × (n < 2147483648) × IsBounded n row

-- No question has more responses than the total.
abbrev pub IsWithinTotal : PollStatus → Type 0
IsWithinTotal s = (n : ℕ) × (s.total_responses ≡ pos n) × All (IsBounded n) s.results

record IsSound (stale : Bool) (c : Cluster) : Type 0 where
  asks_once : AsksOnce c.poll
  formed : All IsWellFormed c.poll.spec.questions
  stored : AreStored c.responses
  total : IsCount c.poll.status.total_responses
  rows : All IsRow c.poll.status.results
  within : (stale ≡ true) ⊎ IsWithinTotal c.poll.status

-- What holds of what is stored and of what is wanted holds after the patch.
merged_either :
    {A : Type 0} (P : A → Type 0) {read wanted stored next : A}
    → IsMerged read wanted stored next
    → P stored
    → P wanted
    → P next
merged_either P (inl (same, kept)) old new = subst P (sym kept) old
merged_either P (inr (differs, written)) old new = subst P (sym written) new

-- A patch of what was read as it is stored writes what is wanted.
merged_current :
    {A : Type 0} {read wanted stored next : A}
    → read ≡ stored
    → IsMerged read wanted stored next
    → next ≡ wanted
merged_current current (inl (same, kept)) = kept ∙ sym current ∙ same
merged_current current (inr (differs, written)) = written

module _ (kube : Kube) (fmt : Format) (stale : Bool) where
  -- What a run wants, whatever questions and responses it read.
  desired_status-IsBounded :
      (poll : Poll) (rs : List PollResponse) (t t' t'' : Time)
      → AsksOnce poll
      → All IsWellFormed poll.spec.questions
      → AreStored rs
      → let wanted = desired_status kube poll rs t t' t'' in
        (n : ℕ) × (wanted.total_responses ≡ pos n)
        × (n < 2147483648)
        × All (IsBounded n) wanted.results
  desired_status-IsBounded poll rs t t' t'' once formed (stored, few) =
      let keys : HasUniqueKeys poll.spec.questions =
        (once, All-map tallied_options-IsUnique poll.spec.questions formed) in
      let (n, total, bound, rows) = results-IsBounded poll rs keys stored few in
      let (results, sum, phase) = desired_status-results kube poll rs t t' t'' in
      (n, sum ∙ total, omega arith, subst (λ rs. All (IsBounded n) rs) (sym results) rows)

  module _ (start : Cluster) (sound : IsSound stale start) where
    Reachable-IsSound : {c : Cluster} → Reachable kube fmt stale start c → IsSound stale c
    Reachable-IsSound begins = sound
    Reachable-IsSound (creates {c} xs ys r reach split good once small) =
        let s = Reachable-IsSound reach in
        record {
          asks_once = s.asks_once;
          formed = s.formed;
          stored = AreStored-insert c.responses xs ys r split s.stored (good, once) small;
          total = s.total;
          rows = s.rows;
          within = s.within;
        }
    Reachable-IsSound (updates {c} xs ys r new reach split good once) =
        let s = Reachable-IsSound reach in
        let admits = ((validate_response_update-eq-admitted_iff fmt r new).0 good).0 in
        record {
          asks_once = s.asks_once;
          formed = s.formed;
          stored =
              AreStored-replace c.responses xs ys r (record new { status = r.status }) split
                s.stored (λ old. IsStored-status new r.status (admits, once));
          total = s.total;
          rows = s.rows;
          within = s.within;
        }
    Reachable-IsSound (deletes {c} xs ys r reach split) =
        let s = Reachable-IsSound reach in
        record {
          asks_once = s.asks_once;
          formed = s.formed;
          stored = AreStored-delete c.responses xs ys r split s.stored;
          total = s.total;
          rows = s.rows;
          within = s.within;
        }
    Reachable-IsSound (edits {c} new reach good once) =
        let s = Reachable-IsSound reach in
        record {
          asks_once = once;
          formed = ((validate_update-eq-admitted_iff fmt c.poll new s.asks_once).0 good).0;
          stored = s.stored;
          total = s.total;
          rows = s.rows;
          within = s.within;
        }
    Reachable-IsSound (owns {c} xs ys r refs reach split) =
        let s = Reachable-IsSound reach in
        record {
          asks_once = s.asks_once;
          formed = s.formed;
          stored =
              AreStored-replace c.responses xs ys r
                (record r { meta = record r.meta { owner_references = refs } }) split s.stored
                (IsStored-owned r refs);
          total = s.total;
          rows = s.rows;
          within = s.within;
        }
    Reachable-IsSound (judges {c} xs ys r read poll now u t₁ t₂ next reach split merged) =
        let s = Reachable-IsSound reach in
        record {
          asks_once = s.asks_once;
          formed = s.formed;
          stored =
              AreStored-replace c.responses xs ys r (record r { status = next }) split s.stored
                (IsStored-status r next);
          total = s.total;
          rows = s.rows;
          within = s.within;
        }
    Reachable-IsSound (counts {c} {seen} {listed} t t' t'' next reach read list reads merged) =
        let s = Reachable-IsSound reach in
        let before = Reachable-IsSound read in
        let (n, total, small, rows) =
          desired_status-IsBounded seen.poll listed.responses t t' t'' before.asks_once
            before.formed (Reachable-IsSound list).stored in
        record {
          asks_once = s.asks_once;
          formed = s.formed;
          stored = s.stored;
          total = merged_either IsCount merged.total_responses s.total (n, total, small);
          rows =
              merged_either (All IsRow) merged.results s.rows
                (All-map (λ row bounded. (n, small, bounded)) _ rows);
          within = elim reads [
            | inl old ↦ inl old
            | inr current ↦ inr (
              n,
              merged_current (ap (λ s. s.total_responses) current) merged.total_responses ∙ total,
              subst (All (IsBounded n))
                  (sym (merged_current (ap (λ s. s.results) current) merged.results)) rows,
            )
          ];
        }

  -- Take a Poll that is admitted with unique question ids, without results and without responses,
  -- and whatever is created, changed, deleted, owned, judged and counted in whichever order, also
  -- where the runs read old state, as long as there are never 2^31 responses. Of what is published,
  -- no count is negative or has wrapped, and no option has more votes than its question has
  -- responses; and no question has more responses than the total, unless runs on the Poll may read a
  -- status that is not the stored one. The questions and the responses that they read may be older.
  pub Reachable-IsPublished :
      (poll : Poll) (c : Cluster)
      → validate_create fmt poll ≡ admitted
      → AsksOnce poll
      → poll.status.results ≡ []
      → poll.status.total_responses ≡ pos 0
      → Reachable kube fmt stale (record { poll = poll; responses = [] }) c
      → IsCount c.poll.status.total_responses
        × All IsRow c.poll.status.results
        × ((stale ≡ true) ⊎ IsWithinTotal c.poll.status)
  Reachable-IsPublished poll c admits once no_results no_total reach =
      let start : Cluster = record { poll = poll; responses = [] } in
      let first : IsSound stale start = record {
        asks_once = once;
        formed = (validate_create-eq-admitted_iff fmt poll).0 admits;
        stored = (tt, omega arith);
        total = (0, no_total, omega arith);
        rows = rw no_results tt;
        within = inr (0, no_total, rw no_results tt);
      } in
      let s = Reachable-IsSound start first reach in (s.total, s.rows, s.within)
