-- ===== src/Ui/Listing/Order.antt =====
-- The order that the index page is meant to have, stated apart from the comparisons that make it.
use Prim.Native.Nat.{Ordering}
use Prim.Native.Char.{code}
use text.Mathlib.TextEquality.{Char-path}
use poll_operator.Base.{
  String, ◌<◌, ◌≡◌, ◌⊎◌, refl, arith, string_eq, List, [], ◌∷◌, All, All-map, ◌≢◌, ◌↔◌,
}
use poll_operator.Ui.Listing.{PollListItem, compare_texts, compare_items}

-- A text that is a proper beginning of the other, or has the lower code where they first differ.
abbrev pub IsBefore : String → String → Type 0
IsBefore String.[] String.[] = ⊥
IsBefore String.[] (String.◌∷◌ d t) = Unit
IsBefore (String.◌∷◌ c s) String.[] = ⊥
IsBefore (String.◌∷◌ c s) (String.◌∷◌ d t) = (code c < code d) ⊎ ((c ≡ d) × IsBefore s t)

-- The namespace comes first; in one namespace, the name decides.
abbrev pub IsRowBefore : PollListItem → PollListItem → Type 0
IsRowBefore a b =
    IsBefore a.namespace b.namespace ⊎ ((a.namespace ≡ b.namespace) × IsBefore a.name b.name)

-- Each row comes before all that follow.
abbrev pub IsOrdered : List PollListItem → Type 0
IsOrdered [] = Unit
IsOrdered (a ∷ items) = All (IsRowBefore a) items × IsOrdered items

compare_texts-IsBefore : (s t : String) → (compare_texts s t ≡ Ordering.lt) ↔ IsBefore s t
unfolding compare_texts
compare_texts-IsBefore String.[] String.[] = (λ e. cc, λ h. absurd h)
compare_texts-IsBefore String.[] (String.◌∷◌ d t) = (λ e. tt, λ h. refl)
compare_texts-IsBefore (String.◌∷◌ c s) String.[] = (λ e. cc, λ h. absurd h)
compare_texts-IsBefore (String.◌∷◌ c s) (String.◌∷◌ d t) =
    ground (arith, Char-path c d, compare_texts-IsBefore s t)

compare_texts_refl : (s : String) → compare_texts s s ≡ Ordering.eq
unfolding compare_texts
compare_texts_refl String.[] = refl
compare_texts_refl (String.◌∷◌ c s) = ground (arith, compare_texts_refl s)

pub compare_items-IsRowBefore :
    (a b : PollListItem) → (compare_items a b ≡ Ordering.lt) ↔ IsRowBefore a b
unfolding compare_items
compare_items-IsRowBefore a b = ground (
  arith,
  compare_texts_refl a.namespace,
  compare_texts-IsBefore a.namespace b.namespace,
  compare_texts-IsBefore a.name b.name,
)

compare_texts-eq : (s t : String) → compare_texts s t ≡ Ordering.eq → s ≡ t
unfolding compare_texts
compare_texts-eq String.[] String.[] e = refl
compare_texts-eq String.[] (String.◌∷◌ d t) e = cc
compare_texts-eq (String.◌∷◌ c s) String.[] e = cc
compare_texts-eq (String.◌∷◌ c s) (String.◌∷◌ d t) e =
    ground (arith, Char-path c d, compare_texts-eq s t)

-- A row that the sort does not put after the other.
abbrev pub LeItem : PollListItem → PollListItem → Type 0
LeItem a b = compare_items a b ≢ Ordering.gt

-- Two rows of different objects.
abbrev pub Differs : PollListItem → PollListItem → Type 0
Differs a b = ¬ ((a.namespace ≡ b.namespace) × (a.name ≡ b.name))

compare_items-Differs :
    (a b : PollListItem) → (compare_items a b ≡ Ordering.lt) ↔ (LeItem a b × Differs a b)
unfolding compare_items
compare_items-Differs a b = ground (
  arith,
  compare_texts_refl a.namespace,
  compare_texts_refl a.name,
  compare_texts-eq a.namespace b.namespace,
  compare_texts-eq a.name b.name,
)

-- The rows as the sort leaves them.
abbrev pub IsSorted : List PollListItem → Type 0
IsSorted [] = Unit
IsSorted (a ∷ items) = All (λ b. LeItem a b × Differs a b) items × IsSorted items

pub IsSorted-IsOrdered : (items : List PollListItem) → IsSorted items ↔ IsOrdered items
IsSorted-IsOrdered [] = (λ o. tt, λ o. tt)
IsSorted-IsOrdered (a ∷ items) =
    let (to, from) = IsSorted-IsOrdered items in
    (
      λ (first, o). (
        All-map (λ b h. (compare_items-IsRowBefore a b).0 ((compare_items-Differs a b).1 h)) items
            first,
        to o,
      ),
      λ (first, o). (
        All-map (λ b h. (compare_items-Differs a b).0 ((compare_items-IsRowBefore a b).1 h)) items
            first,
        from o,
      ),
    )
