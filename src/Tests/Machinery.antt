-- ===== src/Tests/Machinery.antt =====
-- An implementation of Kubernetes' deep copies, and heaps made of a list of cells.
use mathlib.Core.Option.{bind}
use poll_operator.Base.{ℕ, zero, suc, ◌≤◌, ◌≡◌, refl, arith, none, List, [], ◌∷◌, length}
use poll_operator.DeepCopy.Layout.{Cell, ObjectMetaMem, ListMetaMem}
use poll_operator.DeepCopy.Kinds.{ints, times, owners}
use poll_operator.DeepCopy.Heap.{Heap, element, read_time, read_object_meta}
use poll_operator.DeepCopy.Reading.{read_list_meta}
use poll_operator.DeepCopy.Copying.{Copier, assign, pure, copy_slice, copy_ptr, ◌>>=◌}
use poll_operator.DeepCopy.Copies.{Machinery}
use poll_operator.DeepCopy.Growth.{Region, IsFresh, Persists-same, Persists-bind}
use poll_operator.DeepCopy.Rules.{Copies-pure, Copies-bind}
use poll_operator.DeepCopy.Lawful.{
  IsDeepCopy, Within-parts, assign-IsDeepCopy, copy_slice-IsDeepCopy, copy_ptr-IsDeepCopy,
}
use poll_operator.DeepCopy.Polls.{IsLawful}

unfoldable pub object_meta_into : Copier ObjectMetaMem
object_meta_into m = do
  deleted ← copy_ptr times assign m.deletion_timestamp
  refs ← copy_slice owners assign m.owner_references
  pure record m { deletion_timestamp = deleted; owner_references = refs }

unfoldable pub list_meta_into : Copier ListMetaMem
list_meta_into m = do
  count ← copy_ptr ints assign m.remaining_item_count
  pure record m { remaining_item_count = count }

abbrev pub machinery : Machinery
machinery = record {
  object_meta = object_meta_into;
  list_meta = list_meta_into;
  condition = assign;
  time = copy_ptr times assign;
}

time-IsDeepCopy : (r : Region) → IsDeepCopy r read_time machinery.time
time-IsDeepCopy r =
    copy_ptr-IsDeepCopy (assign-IsDeepCopy _ r) times (Within-parts times r λ o. refl)

object_meta-IsDeepCopy : (r : Region) → IsDeepCopy r read_object_meta object_meta_into
unfolding read_object_meta object_meta_into bind
object_meta-IsDeepCopy r =
    let refs =
      copy_slice-IsDeepCopy (assign-IsDeepCopy _ r) owners (Within-parts owners r λ o. refl) in
    let time = time-IsDeepCopy r in
    record {
      stays = λ m h g keep.
          Persists-bind (time.stays m.deletion_timestamp h g keep)
            λ _. Persists-bind (refs.stays m.owner_references h g keep) λ _. Persists-same;
      copies = λ h m. Copies-bind _ (time.copies h m.deletion_timestamp) λ _ _.
          Copies-bind _ (refs.copies h m.owner_references)
            λ _ _. Copies-pure _ λ g b a. rw (a, b) refl;
    }

list_meta-IsDeepCopy : (r : Region) → IsDeepCopy r read_list_meta list_meta_into
unfolding read_list_meta list_meta_into bind
list_meta-IsDeepCopy r =
    let count = copy_ptr-IsDeepCopy (assign-IsDeepCopy _ r) ints (Within-parts ints r λ o. refl) in
    record {
      stays = λ m h g keep.
          Persists-bind (count.stays m.remaining_item_count h g keep) λ _. Persists-same;
      copies = λ h m.
          Copies-bind _ (count.copies h m.remaining_item_count)
            λ _ _. Copies-pure _ λ g a. rw a refl;
    }

pub machinery-IsLawful : IsLawful machinery
machinery-IsLawful = record {
  object_meta = object_meta-IsDeepCopy;
  list_meta = list_meta-IsDeepCopy;
  condition = λ r. assign-IsDeepCopy _ r;
  time = time-IsDeepCopy;
}

abbrev pub heap_of : List Cell → Heap
heap_of cells = record { next = length cells; cell = λ a. element a cells }

element_past : {A : Type 0} (i : ℕ) (xs : List A) → length xs ≤ i → element i xs ≡ none
element_past i [] le = refl
element_past zero (x ∷ xs) le = absurd (omega (arith, le))
element_past (suc i) (x ∷ xs) le = element_past i xs (omega (arith, le))

pub heap_of-IsFresh : (cells : List Cell) → IsFresh (heap_of cells)
heap_of-IsFresh cells a le = element_past a cells le
