-- ===== src/Ui/Listing.antt =====
-- The index page of internal/ui/handlers.go: `pollListItem` and the order of the rows.
pub mod Texts
pub mod Order
pub mod Rows
use Prim.Native.Nat.{compare, Ordering}
use Prim.Native.Char.{code}
use poll_operator.Base.{
  ℤ, String, Bool, true, false, List, [], ◌∷◌, map, not, ◌==◌, string_eq, if◌then◌else◌,
}
use poll_operator.Api.{Poll}

pub record PollListItem : Type 0 where
  pub namespace : String
  pub name : String
  pub title : String
  pub phase : String
  pub total_responses : ℤ

abbrev pub item_of : Poll → PollListItem
item_of p = record {
  namespace = p.meta.namespace;
  name = p.meta.name;
  title = p.spec.title;
  phase = p.status.phase;
  total_responses = p.status.total_responses;
}

-- `strings.Compare`: the order of the bytes, which is that of the code points.
unfoldable pub compare_texts : String → String → Ordering
compare_texts String.[] String.[] = Ordering.eq
compare_texts String.[] (String.◌∷◌ d t) = Ordering.lt
compare_texts (String.◌∷◌ c s) String.[] = Ordering.gt
compare_texts (String.◌∷◌ c s) (String.◌∷◌ d t) = elim (compare (code c) (code d)) [
  | Ordering.lt ↦ Ordering.lt
  | Ordering.eq ↦ compare_texts s t
  | Ordering.gt ↦ Ordering.gt
]

unfoldable pub compare_items : PollListItem → PollListItem → Ordering
compare_items a b =
    if not (a.namespace == b.namespace)
    then compare_texts a.namespace b.namespace
    else compare_texts a.name b.name

abbrev pub is_gt : Ordering → Bool
is_gt Ordering.gt = true
is_gt _ = false

unfoldable pub insert : PollListItem → List PollListItem → List PollListItem
insert a [] = a ∷ []
insert a (b ∷ items) =
    let rest = insert a items in if is_gt (compare_items a b) then b ∷ rest else a ∷ b ∷ items

-- `slices.SortFunc`, as an insertion sort. Its algorithm is open, but where no two items have the
-- same namespace and name, there is one sorted list.
unfoldable pub sort : List PollListItem → List PollListItem
unfolding insert
sort [] = []
sort (a ∷ items) = insert a (sort items)

unfoldable pub list_items : List Poll → List PollListItem
list_items polls = sort (map item_of polls)
