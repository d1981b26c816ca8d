-- ===== src/DeepCopy/Lawful.antt =====
-- What makes a deep copy one, and that slices and pointers of deep copies are deep copies.
use mathlib.Core.Option.{bind, none-ne-some}
use poll_operator.Base.{
  ℕ, suc, ◌≡◌, refl, ap, sym, arith, Option, none, some, List, [], ◌∷◌, length,
}
use poll_operator.DeepCopy.Layout.{Ptr, Slice, Cell, Object, object, part}
use poll_operator.DeepCopy.Kinds.{Kind}
use poll_operator.DeepCopy.Heap.{
  Heap, Reader, plain, load_array, load_slice, load, read_all, read_slice, read_ptr, take_exact,
}
use poll_operator.DeepCopy.Copying.{Copier, copy_all, copy_slice, copy_new, copy_ptr, assign}
use poll_operator.DeepCopy.Growth.{
  Region, everything, Held, Held-everything, Keeps, Persists, Persists-same, Persists-bind,
  Persists-found,
}
use poll_operator.DeepCopy.Rules.{
  Copies, Copies-pure, Copies-bind, Copies-reads, Copies-map, Copies-fill,
}

-- What is read stays as it is while the cells of the region are kept.
abbrev pub Stays : {A V : Type 0} → Region → Reader A V → A → Type 0
Stays r read x = (h g : Heap) → Keeps r 0 h g → Persists (read x h) (read x g)

-- What `into` makes reads as what it was given, for as long as the new cells are kept.
pub record IsDeepCopy {A V : Type 0} (r : Region) (read : Reader A V) (into : Copier A)
    : Type 0 where
  pub stays : (x : A) → Stays r read x
  pub copies : (h : Heap) (x : A) → Copies h (read x h) (into x) (λ v y g. read y g ≡ some v)

-- Arrays of this type lie in the region.
abbrev pub Within : {A : Type 0} → Kind A → Region → Type 0
Within {A} k r = (c : Cell) (xs : List A) → k.unwrap c ≡ some xs → Held c r

pub Within-everything : {A : Type 0} (k : Kind A) → Within k everything
Within-everything k c xs e = Held-everything c

pub Within-parts :
    {A : Type 0} (k : Kind A) (r : Region)
    → ((o : Object) → k.unwrap (object o) ≡ none)
    → Within k r
Within-parts k r other (part c) xs e = tt
Within-parts k r other (object o) xs e = absurd (none-ne-some xs (rw (other o) at e))

module _ {A : Type 0} (k : Kind A) {r : Region} (within : Within k r) where
  load_array-Stays : (a : ℕ) → Stays r (λ (b : ℕ). load_array k b) a
  unfolding load_array
  load_array-Stays a h g keep =
      Persists-found λ c found xs same. keep a c (within c xs same) (omega arith) found

  load_slice-Stays : (s : Slice) → Stays r (load_slice k) s
  unfolding load_slice
  load_slice-Stays s h g keep =
      Persists-bind (load_array-Stays s.array h g keep) λ xs. Persists-same

  pub load-Stays : (p : Ptr) → Stays r (load k) p
  unfolding load
  load-Stays p h g keep = Persists-bind (load_array-Stays p.array h g keep) λ xs. Persists-same

pub assign-IsDeepCopy : (A : Type 0) (r : Region) → IsDeepCopy r (plain {A = A}) assign
assign-IsDeepCopy A r = record {
  stays = λ x h g keep. Persists-same;
  copies = λ h x. Copies-pure x λ g. refl;
}

take_exact_all : {A : Type 0} (xs : List A) → take_exact (length xs) xs ≡ some xs
unfolding bind
take_exact_all [] = refl
take_exact_all (x ∷ xs) = rw (take_exact_all xs) refl

module _ {A V : Type 0} {read : Reader A V} {into : Copier A} {r : Region}
    (d : IsDeepCopy r read into) where
  read_all-Stays : (xs : List A) → Stays r (read_all read) xs
  unfolding read_all
  read_all-Stays [] h g keep = Persists-same
  read_all-Stays (x ∷ xs) h g keep =
      Persists-bind (d.stays x h g keep)
        λ v. Persists-bind (read_all-Stays xs h g keep) λ vs. Persists-same

  copy_all-Copies :
      (h : Heap) (xs : List A)
      → Copies h
          (read_all read xs h)
          (copy_all into xs)
          (λ vs ys g. (read_all read ys g ≡ some vs) × (length ys ≡ length xs))
  unfolding read_all copy_all bind
  copy_all-Copies h [] = Copies-pure [] λ g. (refl, refl)
  copy_all-Copies h (x ∷ xs) = Copies-bind (read x h) (d.copies h x) λ v y.
      Copies-bind (read_all read xs h) (copy_all-Copies h xs)
        λ vs ys. Copies-pure (y ∷ ys) λ g (rest, same) first. (rw (first, rest) refl, ap suc same)

  module _ (k : Kind A) (within : Within k r) where
    read_slice-Stays : (x : Option Slice) → Stays r (read_slice k read) x
    unfolding read_slice
    read_slice-Stays none h g keep = Persists-same
    read_slice-Stays (some s) h g keep =
        Persists-bind (load_slice-Stays k within s h g keep) λ xs. read_all-Stays xs h g keep

    copy_slice-Copies :
        (h : Heap) (x : Option Slice)
        → Copies h
            (read_slice k read x h)
            (copy_slice k into x)
            (λ vs y g. read_slice k read y g ≡ some vs)
    unfolding read_slice copy_slice load_slice bind
    copy_slice-Copies h none = Copies-pure none λ g. refl
    copy_slice-Copies h (some s) =
        Copies-reads (load_slice k s) (load_slice-Stays k (Within-everything k) s h) λ xs.
          Copies-map (λ a. some record { array = a; start = 0; size = length xs })
            (Copies-fill k (copy_all-Copies h xs))
            λ vs a g (ys, (seen, same), there). rw (there, sym same, take_exact_all ys) seen

    pub copy_slice-IsDeepCopy : IsDeepCopy r (read_slice k read) (copy_slice k into)
    copy_slice-IsDeepCopy = record { stays = read_slice-Stays; copies = copy_slice-Copies }

    -- The pointer that a copy gives is a new one.
    pub copy_new-Copies :
        (h : Heap) (x : A)
        → Copies h
            (read x h)
            (copy_new k into x)
            (λ v q g. read_ptr k read (some q) g ≡ some (some v))
    unfolding read_ptr copy_new load bind
    copy_new-Copies h x =
        Copies-map (λ a. record { array = a; index = 0 })
          (Copies-fill k (
            Copies-map (λ y. y ∷ []) {Q = λ v ys g. (y : A) × (ys ≡ y ∷ []) × (read y g ≡ some v)}
              (d.copies h x) λ v y g seen. (y, refl, seen)))
          λ v a g (ys, (y, one, seen), there). rw (there, one, seen) refl

    read_ptr-Stays : (x : Option Ptr) → Stays r (read_ptr k read) x
    unfolding read_ptr
    read_ptr-Stays none h g keep = Persists-same
    read_ptr-Stays (some p) h g keep =
        Persists-bind (load-Stays k within p h g keep)
          λ x. Persists-bind (d.stays x h g keep) λ v. Persists-same

    copy_ptr-Copies :
        (h : Heap) (x : Option Ptr)
        → Copies h (read_ptr k read x h) (copy_ptr k into x) (λ v y g. read_ptr k read y g ≡ some v)
    unfolding read_ptr copy_ptr
    copy_ptr-Copies h none = Copies-pure none λ g. refl
    copy_ptr-Copies h (some p) =
        Copies-reads (load k p) (load-Stays k (Within-everything k) p h) λ x.
          Copies-bind (read x h) (copy_new-Copies h x) λ v q. Copies-pure (some q) λ g seen. seen

    pub copy_ptr-IsDeepCopy : IsDeepCopy r (read_ptr k read) (copy_ptr k into)
    copy_ptr-IsDeepCopy = record { stays = read_ptr-Stays; copies = copy_ptr-Copies }
