-- ===== src/DeepCopy/Assigning.antt =====
-- The statements of the controllers between the comparison of the statuses and the patch: a deep
-- copy of the object, and the assignment of its status.
use mathlib.Core.Option.{bind, none-ne-some, some-injective}
use poll_operator.Base.{
  ℕ, ◌<◌, ◌≡◌, ◌∙◌, refl, ap, sym, arith, Option, none, some, List, ℕ_discrete,
}
use poll_operator.DeepCopy.Layout.{Ptr, Cell, Part, object, part}
use poll_operator.DeepCopy.Kinds.{Kind, polls, statuses, responses, response_statuses}
use poll_operator.DeepCopy.Heap.{Heap, Reader, read_ptr, load}
use poll_operator.DeepCopy.Copying.{
  M, Copier, pure, reads, run-bind, run-reads, copy_ptr, ◌>>=◌, ◌>>◌,
}
use poll_operator.DeepCopy.Copies.{Machinery, poll_into, response_into}
use poll_operator.DeepCopy.Growth.{
  everything, parts, Held, Keeps, IsFresh, in_use, Grows-refl, Persists,
}
use poll_operator.DeepCopy.Lawful.{IsDeepCopy, Within-everything, copy_ptr-IsDeepCopy, load-Stays}
use poll_operator.DeepCopy.Storing.{store, Stores, store_lem, read_ptr-some}

module _ {A S : Type 0} (k : Kind A) (into : Copier A) (ks : Kind S) (with_status : A → S → A) where
  -- `patch := client.MergeFrom(x.DeepCopy()); x.Status = *desired`, which gives the base of the patch
  unfoldable pub assign_status : Ptr → Ptr → M (Option Ptr)
  assign_status p desired = do
    base ← copy_ptr k into (some p)
    s ← reads (load ks desired)
    x ← reads (load k p)
    store k p (with_status x s)
    pure base

module _ (k : Machinery) where
  abbrev pub poll_patch_base : Ptr → Ptr → M (Option Ptr)
  poll_patch_base = assign_status polls (poll_into k) statuses (λ x s. record x { status = s })

  abbrev pub response_patch_base : Ptr → Ptr → M (Option Ptr)
  response_patch_base =
      assign_status responses (response_into k) response_statuses (λ x s. record x { status = s })

whole-Held :
    {A : Type 0} (k : Kind A)
    → ((c : Part) → k.unwrap (part c) ≡ none)
    → (c : Cell) (xs : List A) → Held c parts
    → k.unwrap c ≡ some xs
    → ⊥
whole-Held k other (part c) xs held e = none-ne-some xs (rw (other c) at e)
whole-Held k other (object c) xs held e = held

-- An assignment to an object changes no part, and nothing that was made since.
module _ {A : Type 0} {k : Kind A} {p : Ptr} {x : A} {h : Heap} (stored : Stores k p x h) where
  Stores-Keeps_parts : ((c : Part) → k.unwrap (part c) ≡ none) → Keeps parts 0 h stored.after
  Stores-Keeps_parts other a c held le e = elim (ℕ_discrete a p.array) [
    | no n ↦ stored.others a c n e
    | yes same ↦
        let (xs, typed) = stored.typed in
        let at = stored.at in
        absurd (
          whole-Held k other c xs held
            (rw (some-injective c stored.used (sym e ∙ ap h.cell same ∙ at)) typed))
  ]

  Stores-Keeps_from : (n : ℕ) → p.array < n → Keeps everything n h stored.after
  Stores-Keeps_from n lt a c held le e = stored.others a c (λ same. omega (arith, same)) e

module _ {A V S W : Type 0} (k : Kind A) (read : Reader A V) (into : Copier A) (ks : Kind S)
    (read_s : Reader S W) (with_status : A → S → A) (new_value : V → W → V)
    (d : IsDeepCopy everything read into)
    (ds : (x : S) (h g : Heap) → Keeps everything 0 h g → Persists (read_s x h) (read_s x g))
    (other : (c : Part) → k.unwrap (part c) ≡ none)
    (assigned : (x : A) (s : S) (h g : Heap) (v : V) (w : W)
      → Keeps parts 0 h g
      → read x h ≡ some v
      → read_s s h ≡ some w
      → read (with_status x s) g ≡ some (new_value v w)) where
  pub assign_status-base :
      (h : Heap) (p desired : Ptr) (v : V) (w : W)
      → IsFresh h
      → read_ptr k read (some p) h ≡ some (some v)
      → read_ptr ks read_s (some desired) h ≡ some (some w)
      → (base : Option Ptr) × (g : Heap) × (assign_status k into ks with_status p desired h
          ≡ some (base, g))
        × (read_ptr k read base g ≡ some (some v))
        × (read_ptr k read (some p) g ≡ some (some (new_value v w)))
  unfolding assign_status pure
  assign_status-base h p desired v w fresh e es =
      let made =
        ((copy_ptr-IsDeepCopy d k (Within-everything k)).copies h (some p)).makes h
          (Grows-refl h fresh) (some v) e in
      let copied = made.after in
      let (x, loaded, seen) = read_ptr-some k read p h v e in
      let (s, loaded_s, seen_s) = read_ptr-some ks read_s desired h w es in
      let kept = (load-Stays k (Within-everything k) p h copied made.grows.keeps).at x loaded in
      let kept_s =
        (load-Stays ks (Within-everything ks) desired h copied made.grows.keeps).at s loaded_s in
      let stored = store_lem k p x (with_status x s) copied kept in
      let copying = made.runs in
      let storing = stored.runs in
      let reading = stored.loads in
      let own = store_lem k p x x h loaded in
      let lt = in_use h p.array own.used fresh own.at in
      let now =
        assigned x s copied stored.after v w (Stores-Keeps_parts stored other)
          ((d.stays x h copied made.grows.keeps).at v seen)
          ((ds s h copied made.grows.keeps).at w seen_s) in
      (
        made.value,
        stored.after,
        run-bind _ _ _ _ _ copying
            ∙ run-reads _ _ _ _ kept_s
            ∙ run-reads _ _ _ _ kept
            ∙ run-bind _ _ _ _ _ storing,
        made.holds stored.after (Stores-Keeps_from stored h.next lt),
        unfold read_ptr bind in rw (reading, now) refl,
      )
