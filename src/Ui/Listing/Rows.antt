-- ===== src/Ui/Listing/Rows.antt =====
-- The rows of the index page are in order, and their order is the only one.
use Prim.Native.Nat.{Ordering}
use mathlib.Core.Path.{subst, ap₂}
use mathlib.Core.List.{Permᴰ}
use mathlib.Core.List.Permᴰ
use poll_operator.Base.{
  List, [], ◌∷◌, map, Memᴰ, ◌≡◌, ◌↔◌, inl, inr, refl, sym, ap, ◌∙◌, arith, string_eq, All, All-mem,
  Bool-cases,
}
use poll_operator.Api.{Poll}
use poll_operator.Ui.Listing.{PollListItem, item_of, compare_items, is_gt, insert, sort, list_items}
use poll_operator.Ui.Listing.Order.{IsOrdered, LeItem, Differs, IsSorted, IsSorted-IsOrdered}
use poll_operator.Ui.Listing.Texts.{Le-total, Le-trans, Le-antisymm}

LeItem-total : (a b : PollListItem) → compare_items a b ≡ Ordering.gt → LeItem b a
unfolding compare_items
LeItem-total a b h = ground (arith, Le-total a.namespace b.namespace, Le-total a.name b.name)

LeItem-antisymm :
    (a b : PollListItem) → LeItem a b → LeItem b a → (a.namespace ≡ b.namespace) × (a.name ≡ b.name)
unfolding compare_items
LeItem-antisymm a b h k =
    ground (arith, Le-antisymm a.namespace b.namespace, Le-antisymm a.name b.name)

LeItem-trans : (a b c : PollListItem) → LeItem a b → LeItem b c → LeItem a c
unfolding compare_items
LeItem-trans a b c h k = ground (
  arith,
  Le-trans a.namespace b.namespace c.namespace,
  Le-antisymm a.namespace b.namespace,
  Le-trans a.name b.name c.name,
)

-- No two rows are of one object.
abbrev pub IsDistinct : List PollListItem → Type 0
IsDistinct [] = Unit
IsDistinct (a ∷ items) = All (Differs a) items × IsDistinct items

insert-perm : (a : PollListItem) (items : List PollListItem) → Permᴰ (insert a items) (a ∷ items)
unfolding insert
insert-perm a [] = Permᴰ.refl _
insert-perm a (b ∷ items) = elim (Bool-cases (is_gt (compare_items a b))) [
  | inl later ↦
      rw later (Permᴰ.trans (Permᴰ.cons refl (insert-perm a items)) (Permᴰ.swap refl refl))
  | inr here ↦ rw here (Permᴰ.refl _)
]

sort-perm : (items : List PollListItem) → Permᴰ (sort items) items
unfolding sort
sort-perm [] = Permᴰ.nil
sort-perm (a ∷ items) = Permᴰ.trans (insert-perm a (sort items)) (Permᴰ.cons refl (sort-perm items))

All-perm :
    (P : PollListItem → Type 0) {xs ys : List PollListItem} → Permᴰ xs ys → All P ys → All P xs
All-perm P Permᴰ.nil ps = tt
All-perm P (Permᴰ.cons e p) (q, ps) = (rw e q, All-perm P p ps)
All-perm P (Permᴰ.swap e d) (q, (r, ps)) = (rw e r, (rw d q, ps))
All-perm P (Permᴰ.trans p p') ps = All-perm P p (All-perm P p' ps)

Differs-sym : (a b : PollListItem) → Differs a b → Differs b a
Differs-sym a b d (e, e') = d (sym e, sym e')

-- A row that is not later comes before all that the next one comes before.
before-All :
    (a b : PollListItem) (items : List PollListItem)
    → LeItem a b
    → All (λ c. LeItem b c × Differs b c) items
    → All (Differs a) items
    → All (λ c. LeItem a c × Differs a c) items
before-All a b [] le ps ds = tt
before-All a b (c ∷ items) le ((p, d'), ps) (d, ds) =
    ((LeItem-trans a b c le p, d), before-All a b items le ps ds)

insert-IsSorted :
    (a : PollListItem) (items : List PollListItem)
    → All (Differs a) items
    → IsSorted items
    → IsSorted (insert a items)
unfolding insert
insert-IsSorted a [] ds o = (tt, tt)
insert-IsSorted a (b ∷ items) (d, ds) (first, o) = elim (Bool-cases (is_gt (compare_items a b))) [
  | inl later ↦ rw later (
    All-perm (λ c. LeItem b c × Differs b c) (insert-perm a items)
        ((LeItem-total a b (ground arith), Differs-sym a b d), first),
    insert-IsSorted a items ds o,
  )
  | inr here ↦
      let le : LeItem a b = λ e. ground arith in
      rw here (((le, d), before-All a b items le first ds), (first, o))
]

sort-IsSorted : (items : List PollListItem) → IsDistinct items → IsSorted (sort items)
unfolding sort
sort-IsSorted [] ds = tt
sort-IsSorted (a ∷ items) (d, ds) =
    insert-IsSorted a (sort items) (All-perm (Differs a) (sort-perm items) d)
      (sort-IsSorted items ds)

mem-perm : (a : PollListItem) {xs ys : List PollListItem} → Permᴰ xs ys → Memᴰ a xs → Memᴰ a ys
mem-perm a Permᴰ.nil m = m
mem-perm a (Permᴰ.cons e p) (Memᴰ.head h) = Memᴰ.head (h ∙ e)
mem-perm a (Permᴰ.cons e p) (Memᴰ.tail m) = Memᴰ.tail (mem-perm a p m)
mem-perm a (Permᴰ.swap e d) (Memᴰ.head h) = Memᴰ.tail (Memᴰ.head (h ∙ e))
mem-perm a (Permᴰ.swap e d) (Memᴰ.tail (Memᴰ.head h)) = Memᴰ.head (h ∙ d)
mem-perm a (Permᴰ.swap e d) (Memᴰ.tail (Memᴰ.tail m)) = Memᴰ.tail (Memᴰ.tail m)
mem-perm a (Permᴰ.trans p p') m = mem-perm a p' (mem-perm a p m)

-- The same rows, in whatever order.
abbrev pub HasSameRows : List PollListItem → List PollListItem → Type 0
HasSameRows xs ys = (a : PollListItem) → Memᴰ a xs ↔ Memᴰ a ys

-- The first row of one list is the first of the other.
heads_agree :
    (x y : PollListItem) (xs ys : List PollListItem)
    → IsSorted (x ∷ xs)
    → IsSorted (y ∷ ys)
    → HasSameRows (x ∷ xs) (y ∷ ys)
    → x ≡ y
heads_agree x y xs ys (first, o) (first', o') same = elim ((same x).0 (Memᴰ.head refl)) [
  | Memᴰ.head e ↦ e
  | Memᴰ.tail m ↦ elim ((same y).1 (Memᴰ.head refl)) [
    | Memᴰ.head e ↦ sym e
    | Memᴰ.tail m' ↦
        let (le, d) = All-mem (λ b. LeItem x b × Differs x b) xs first m' in
        let (le', d') = All-mem (λ b. LeItem y b × Differs y b) ys first' m in
        absurd (d (LeItem-antisymm x y le le'))
  ]
]

rest_of_mem :
    (x a : PollListItem) (xs ys : List PollListItem)
    → IsSorted (x ∷ xs)
    → Memᴰ a xs
    → Memᴰ a (x ∷ ys)
    → Memᴰ a ys
rest_of_mem x a xs ys (first, o) m (Memᴰ.tail m') = m'
rest_of_mem x a xs ys (first, o) m (Memᴰ.head e) = absurd (
    (All-mem (λ b. LeItem x b × Differs x b) xs first m).1
      (ap (λ i. i.namespace) (sym e), ap (λ i. i.name) (sym e)))

ordered_unique :
    (xs ys : List PollListItem) → IsSorted xs → IsSorted ys → HasSameRows xs ys → xs ≡ ys
ordered_unique [] [] o o' same = refl
ordered_unique [] (y ∷ ys) o o' same = absurd (elim ((same y).1 (Memᴰ.head refl)) [ ])
ordered_unique (x ∷ xs) [] o o' same = absurd (elim ((same x).0 (Memᴰ.head refl)) [ ])
ordered_unique (x ∷ xs) (y ∷ ys) o o' same =
    let e = heads_agree x y xs ys o o' same in
    ap₂ ◌∷◌ e (
      ordered_unique xs ys o.1 o'.1 (λ a. (
        (λ m.
            rest_of_mem x a xs ys o m
              (subst (λ z. Memᴰ a (z ∷ ys)) (sym e) ((same a).0 (Memᴰ.tail m)))),
        λ m. rest_of_mem y a ys xs o' m (subst (λ z. Memᴰ a (z ∷ xs)) e ((same a).1 (Memᴰ.tail m))),
      )))

-- Where no two Polls have the same namespace and name, the index page has one row for each Poll, in
-- ascending order of the namespaces and, in one namespace, of the names, by the codes of their
-- characters; and its rows are the only list that does.
pub list_items-IsOrdered :
    (polls : List Poll)
    → IsDistinct (map item_of polls)
    → IsOrdered (list_items polls)
      × HasSameRows (list_items polls) (map item_of polls)
      × ((rows : List PollListItem)
          → IsOrdered rows
          → HasSameRows rows (map item_of polls)
          → rows ≡ list_items polls)
unfolding list_items
list_items-IsOrdered polls ds =
    let p = sort-perm (map item_of polls) in
    let o = sort-IsSorted (map item_of polls) ds in
    let same : HasSameRows (sort (map item_of polls)) (map item_of polls) =
      λ a. (mem-perm a p, mem-perm a (Permᴰ.symm p)) in
    (
      (IsSorted-IsOrdered (sort (map item_of polls))).0 o,
      same,
      λ rows o' same'.
          ordered_unique rows (sort (map item_of polls)) ((IsSorted-IsOrdered rows).1 o') o
            (λ a. (λ m. (same a).1 ((same' a).0 m), λ m. (same' a).1 ((same a).0 m))),
    )
