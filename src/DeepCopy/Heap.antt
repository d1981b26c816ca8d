-- ===== src/DeepCopy/Heap.antt =====
-- The heap, and the readers that give what stands in it as the values of Api.
use mathlib.Core.Option.{bind}
use poll_operator.Base.{ℕ, zero, suc, List, [], ◌∷◌, Option, none, some}
use poll_operator.Api.{Time, ObjectMeta}
use poll_operator.DeepCopy.Layout.{Ptr, Slice, Cell, ObjectMetaMem}
use poll_operator.DeepCopy.Kinds.{Kind, times, owners}

-- Addresses from `next` on are free.
pub record Heap : Type 0 where
  pub next : ℕ
  pub cell : ℕ → Option Cell

infixl 5 ◌>>=◌
abbrev pub ◌>>=◌ : {A B : Type 0} → Option A → (A → Option B) → Option B
◌>>=◌ = bind

module _ {A : Type 0} where
  abbrev pub skip : ℕ → List A → List A
  skip zero xs = xs
  skip (suc n) [] = []
  skip (suc n) (x ∷ xs) = skip n xs

  -- The first `n` elements, where there are that many.
  abbrev pub take_exact : ℕ → List A → Option (List A)
  take_exact zero xs = some []
  take_exact (suc n) [] = none
  take_exact (suc n) (x ∷ xs) = do ys ← take_exact n xs; some (x ∷ ys)

  abbrev pub element : ℕ → List A → Option A
  element i [] = none
  element zero (x ∷ xs) = some x
  element (suc i) (x ∷ xs) = element i xs

  -- The whole array at an address; none where there is none of this type.
  unfoldable pub load_array : Kind A → ℕ → Heap → Option (List A)
  load_array k a h = do c ← h.cell a; k.unwrap c

  unfoldable pub load_slice : Kind A → Slice → Heap → Option (List A)
  load_slice k s h = do xs ← load_array k s.array h; take_exact s.size (skip s.start xs)

  -- `*p`
  unfoldable pub load : Kind A → Ptr → Heap → Option A
  load k p h = do xs ← load_array k p.array h; element p.index xs

-- The value of type `V` that stands in memory as an `A`
abbrev pub Reader : Type 0 → Type 0 → Type 0
Reader A V = A → Heap → Option V

abbrev pub plain : {A : Type 0} → Reader A A
plain x h = some x

module _ {A V : Type 0} where
  unfoldable pub read_all : Reader A V → Reader (List A) (List V)
  read_all read [] h = some []
  read_all read (x ∷ xs) h = do v ← read x h; vs ← read_all read xs h; some (v ∷ vs)

  -- A slice as a list. A nil slice reads as the empty one.
  unfoldable pub read_slice : Kind A → Reader A V → Reader (Option Slice) (List V)
  read_slice k read none h = some []
  read_slice k read (some s) h = do xs ← load_slice k s h; read_all read xs h

  -- What a pointer leads to, where it is not nil
  unfoldable pub read_ptr : Kind A → Reader A V → Reader (Option Ptr) (Option V)
  read_ptr k read none h = some none
  read_ptr k read (some p) h = do x ← load k p h; v ← read x h; some (some v)

abbrev pub read_time : Reader (Option Ptr) (Option Time)
read_time = read_ptr times plain

unfoldable pub read_object_meta : Reader ObjectMetaMem ObjectMeta
read_object_meta m h = do
  deleted ← read_time m.deletion_timestamp h
  refs ← read_slice owners plain m.owner_references h
  some record {
    name = m.name;
    generate_name = m.generate_name;
    namespace = m.namespace;
    uid = m.uid;
    generation = m.generation;
    deletion_timestamp = deleted;
    owner_references = refs;
  }
