-- ===== src/DeepCopy/Copying.antt =====
-- Actions on the heap, and the ways to copy that the deep copies are made of.
use poll_operator.Base.{
  ℕ, suc, ◌≡◌, refl, List, [], ◌∷◌, Option, none, some, length, ◌==◌, if◌then◌else◌, nat_eq,
}
use poll_operator.DeepCopy.Layout.{Ptr, Slice, Cell}
use poll_operator.DeepCopy.Kinds.{Kind}
use poll_operator.DeepCopy.Heap.{Heap, load_slice, load}

-- `none` is a panic, such as a read through a pointer that leads nowhere.
abbrev pub M : Type 0 → Type 0
M A = Heap → Option (A × Heap)

module _ {A : Type 0} where
  unfoldable pub pure : A → M A
  pure a h = some (a, h)

  unfoldable pub reads : (Heap → Option A) → M A
  reads r h = elim (r h) [ none ↦ none | some a ↦ some (a, h) ]

  infixl 5 ◌>>=◌
  unfoldable pub ◌>>=◌ : {B : Type 0} → M A → (A → M B) → M B
  (m >>= f) h = elim (m h) [ none ↦ none | some (a, h') ↦ f a h' ]

  -- A block goes on from what its first action returns.
  pub run-bind :
      {B : Type 0} (m : M A) (f : A → M B) (a : A) (h h' : Heap)
      → m h ≡ some (a, h')
      → (m >>= f) h ≡ f a h'
  unfolding ◌>>=◌
  run-bind m f a h h' e = rw (e, ◌>>=◌) refl

  pub run-reads :
      {B : Type 0} (r : Heap → Option A) (f : A → M B) (a : A) (h : Heap)
      → r h ≡ some a
      → (reads r >>= f) h ≡ f a h
  unfolding ◌>>=◌ reads
  run-reads r f a h e = rw (e, ◌>>=◌, reads) refl

infixl 5 ◌>>◌
abbrev pub ◌>>◌ : {A : Type 0} → M (Unit {0}) → M A → M A
m >> n = m >>= λ _. n

abbrev pub update : (ℕ → Option Cell) → ℕ → Cell → ℕ → Option Cell
update f a c b = if b == a then some c else f b

-- A fresh address. What is put there comes later, and nothing reads it before.
unfoldable pub reserve : M ℕ
reserve h = some (h.next, record h { next = suc h.next })

unfoldable pub put : ℕ → Cell → M (Unit {0})
put a c h = some (tt, record h { cell = update h.cell a c })

-- A new array, reserved first and filled with what `m` gives
unfoldable pub fill : {A : Type 0} → Kind A → M (List A) → M ℕ
fill k m = do a ← reserve; xs ← m; put a (k.wrap xs); pure a

abbrev pub Copier : Type 0 → Type 0
Copier A = A → M A

module _ {A : Type 0} where
  -- `*out = *in` for a struct without pointers
  abbrev pub assign : Copier A
  assign = pure

  -- `for i := range *in { (*in)[i].DeepCopyInto(&(*out)[i]) }`, and `copy(*out, *in)`
  -- where the elements are assigned.
  unfoldable pub copy_all : Copier A → Copier (List A)
  copy_all into [] = pure []
  copy_all into (x ∷ xs) = do y ← into x; ys ← copy_all into xs; pure (y ∷ ys)

  -- A slice that is not nil gets an array of its own, made with its length.
  unfoldable pub copy_slice : Kind A → Copier A → Copier (Option Slice)
  copy_slice k into none = pure none
  copy_slice k into (some s) = do
    xs ← reads (load_slice k s)
    a ← fill k (copy_all into xs)
    pure (some record { array = a; start = 0; size = length xs })

  -- `out := new(T); in.DeepCopyInto(out)`, where `x` is `*in`
  unfoldable pub copy_new : Kind A → Copier A → A → M Ptr
  copy_new k into x = do
    a ← fill k (do y ← into x; pure (y ∷ []))
    pure record { array = a; index = 0 }

  -- The same of a pointer, unless it is nil
  unfoldable pub copy_ptr : Kind A → Copier A → Copier (Option Ptr)
  copy_ptr k into none = pure none
  copy_ptr k into (some p) = do x ← reads (load k p); q ← copy_new k into x; pure (some q)
