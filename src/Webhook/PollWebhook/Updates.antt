-- ===== src/Webhook/PollWebhook/Updates.antt =====
-- The updates of a Poll that the webhook admits, and what admission means for validation.
use poll_operator.Base.{
  ℕ, suc, some, List, [], ◌∷◌, map, Memᴰ, ◌≡◌, ◌↔◌, inl, inr, refl, sym, ap, ◌∙◌, arith, string_eq,
  All, All-mem, IsUnique, GoMap, empty, index_by, index_by-All, index_by-some, Option-cases,
}
use poll_operator.Api.{Poll, PollQuestion}
use poll_operator.Kube.Format.{Format}
use poll_operator.Webhook.FieldError.{
  FieldPath, admitted, index, append-eq-[]_iff, verdict-eq-admitted_iff,
}
use poll_operator.Webhook.PollWebhook.{
  type_change, type_changes, validate_poll_spec, validate_poll_update, validate_update,
  questions_path,
}
use poll_operator.Webhook.PollWebhook.WellFormed.{IsWellFormed, validate_questions-eq-[]_iff}

-- A question has the type that an old one with its id had.
abbrev pub KeepsType : List PollQuestion → PollQuestion → Type 0
KeepsType olds q = (old : PollQuestion) → Memᴰ old olds → old.id ≡ q.id → old.type ≡ q.type

abbrev by_id : List PollQuestion → GoMap PollQuestion
by_id qs = index_by (λ q. q.id) (λ q. q) qs empty

type_change-eq-[]_iff :
    (fmt : Format) (prev q : PollQuestion) (p : FieldPath)
    → (type_change fmt (some prev) q p ≡ []) ↔ (prev.type ≡ q.type)
type_change-eq-[]_iff fmt prev q p = ground arith

module _ (fmt : Format) (olds : List PollQuestion) (u : IsUnique (map (λ q. q.id) olds)) where
  found_old : (old : PollQuestion) → Memᴰ old olds → by_id olds old.id ≡ some old
  found_old old m = All-mem _ olds (index_by-All (λ q. q.id) (λ q. q) olds empty u) m

  type_change_sound :
      (q : PollQuestion) (p : FieldPath)
      → type_change fmt (by_id olds q.id) q p ≡ []
      → KeepsType olds q
  type_change_sound q p h old m named =
      (type_change-eq-[]_iff fmt old q p).0
        (ap (λ o. type_change fmt o q p) (sym (found_old old m) ∙ ap (by_id olds) named) ∙ h)

  type_change_complete :
      (q : PollQuestion) (p : FieldPath)
      → KeepsType olds q
      → type_change fmt (by_id olds q.id) q p ≡ []
  type_change_complete q p kept = elim (Option-cases (by_id olds q.id)) [
    | inl new ↦ rw new
    | inr (prev, found) ↦ elim (index_by-some (λ q. q.id) (λ q. q) q.id olds empty prev found) [
      | inl (old, m, named, same) ↦
          ap (λ o. type_change fmt o q p) found
          ∙ (type_change-eq-[]_iff fmt prev q p).1 (ap (λ x. x.type) (sym same) ∙ kept old m named)
      | inr absent ↦ absurd (ground arith)
    ]
  ]

  type_changes-eq-[]_iff :
      (p : FieldPath) (i : ℕ) (qs : List PollQuestion)
      → (type_changes fmt (by_id olds) p i qs ≡ []) ↔ All (KeepsType olds) qs
  unfolding type_changes
  type_changes-eq-[]_iff p i [] = (λ _. tt, λ _. refl)
  type_changes-eq-[]_iff p i (q ∷ qs) =
      let (split, join) = append-eq-[]_iff (type_change fmt (by_id olds q.id) q (index p i)) _ in
      let (to, from) = type_changes-eq-[]_iff p (suc i) qs in
      (
        λ h. (type_change_sound q (index p i) (split h).0, to (split h).1),
        λ (k, ks). join (type_change_complete q (index p i) k, from ks),
      )

-- An update is admitted exactly if every question of the new Poll is well formed and has the type
-- that an old one with its id had, where the old ids are unique. Ids may come and go.
pub validate_update-eq-admitted_iff :
    (fmt : Format) (old_obj new_obj : Poll)
    → IsUnique (map (λ q. q.id) old_obj.spec.questions)
    → (validate_update fmt old_obj new_obj ≡ admitted) ↔ (
        All IsWellFormed new_obj.spec.questions
        × All (KeepsType old_obj.spec.questions) new_obj.spec.questions)
unfolding validate_update validate_poll_spec validate_poll_update
validate_update-eq-admitted_iff fmt old_obj new_obj u =
    let (no_errors, admits) = verdict-eq-admitted_iff "Poll" new_obj.meta.name _ in
    let (split, join) =
      append-eq-[]_iff (validate_poll_spec fmt new_obj)
        (validate_poll_update fmt old_obj new_obj) in
    let (sound, complete) =
      validate_questions-eq-[]_iff fmt questions_path 0 new_obj.spec.questions in
    let (kept, keeps) =
      type_changes-eq-[]_iff fmt old_obj.spec.questions u questions_path 0 new_obj.spec.questions in
    (
      λ h. (sound (split (no_errors h)).0, kept (split (no_errors h)).1),
      λ (w, k). admits (join (complete w, keeps k)),
    )
