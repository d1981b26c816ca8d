-- ===== src/Base/Maps.antt =====
-- Go maps with string keys, as functions, and the loop that builds one from a slice.
use Prim.Native.String.{String}
use mathlib.Core.Path.{◌≡◌, refl, ap, sym, ◌∙◌}
use mathlib.Core.Bool.{Bool, true, false}
use mathlib.Core.Option.{Option, none, some}
use mathlib.Core.List.{List, [], ◌∷◌, map, Memᴰ}
use mathlib.Core.Logic.{◌↔◌, ◌⊎◌, inl, inr}
use native.Mathlib.Omega.{arith}
use poll_operator.Base.Equality.{◌==◌, string_eq, Bool-cases, eq_of_==, if◌then◌else◌}
use poll_operator.Base.Lists.{All, contains, IsUnique}

abbrev pub GoMap {ℓ} : Type ℓ → Type ℓ
GoMap V = String → Option V

module _ {ℓ} {V : Type ℓ} where
  abbrev pub empty : GoMap V
  empty k = none

  -- `m[k] = v`
  abbrev pub put : String → V → GoMap V → GoMap V
  put k v m j = if k == j then some v else m j

  -- `_, ok := m[k]`
  abbrev pub is_found : Option V → Bool
  is_found none = false
  is_found (some v) = true

-- `for _, x := range xs { m[key(x)] = val(x) }`
module _ {ℓ κ} {A : Type ℓ} {V : Type κ} (key : A → String) (val : A → V) where
  unfoldable pub index_by : List A → GoMap V → GoMap V
  index_by [] m = m
  index_by (x ∷ xs) m = index_by xs (put (key x) (val x) m)

  pub index_by_absent :
      (k : String) (xs : List A) (m : GoMap V)
      → contains (map key xs) k ≡ false
      → index_by xs m k ≡ m k
  unfolding index_by
  index_by_absent k [] m h = refl
  index_by_absent k (x ∷ xs) m h = ground (arith, index_by_absent k xs (put (key x) (val x) m))

  -- A key is in the map exactly if it was there or an element has it.
  pub is_found-index_by :
      (k : String) (xs : List A) (m : GoMap V)
      → is_found (index_by xs m k) ≡ (if contains (map key xs) k then true else is_found (m k))
  unfolding index_by
  is_found-index_by k [] m = refl
  is_found-index_by k (x ∷ xs) m = ground (arith, is_found-index_by k xs (put (key x) (val x) m))

  -- Where keys are unique, the map leads from the key of each element to its value.
  pub index_by-All :
      (xs : List A) (m : GoMap V)
      → IsUnique (map key xs)
      → All (λ x. index_by xs m (key x) ≡ some (val x)) xs
  unfolding index_by
  index_by-All [] m u = tt
  index_by-All (x ∷ xs) m (fresh, u) = (
    ground (arith, index_by_absent (key x) xs (put (key x) (val x) m)),
    index_by-All xs (put (key x) (val x) m) u,
  )

  -- What the map leads to was there, or is the value of an element with that key.
  pub index_by-some :
      (k : String) (xs : List A) (m : GoMap V) (v : V)
      → index_by xs m k ≡ some v
      → ((x : A) × Memᴰ x xs × (key x ≡ k) × (val x ≡ v)) ⊎ (m k ≡ some v)
  unfolding index_by
  index_by-some k [] m v e = inr e
  index_by-some k (x ∷ xs) m v e = elim (index_by-some k xs (put (key x) (val x) m) v e) [
    | inl (y, listed, named, same) ↦ inl (y, Memᴰ.tail listed, named, same)
    | inr e' ↦ elim (Bool-cases (key x == k)) [
      | inl named ↦ inl (x, Memᴰ.head refl, eq_of_== (key x) k named, ground arith)
      | inr other ↦ inr (rw other at e')
    ]
  ]

module _ {ℓ κ} {A : Type ℓ} (P : A → Type κ) where
  pub All-mem : {x : A} (xs : List A) → All P xs → Memᴰ x xs → P x
  All-mem [] ps m = elim m [ ]
  All-mem (y ∷ ys) (p, ps) (Memᴰ.head e) = rw e p
  All-mem (y ∷ ys) (p, ps) (Memᴰ.tail m) = All-mem ys ps m

-- No element is marked as seen.
abbrev pub IsFresh : GoMap (Unit {0}) → List String → Type 0
IsFresh seen = All (λ s. is_found (seen s) ≡ false)

-- Marking an option as seen asks of the rest that it does not hold it.
pub IsFresh-put :
    (sel : String) (seen : GoMap (Unit {0})) (sels : List String)
    → IsFresh (put sel tt seen) sels ↔ (IsFresh seen sels × (contains sels sel ≡ false))
IsFresh-put sel seen [] = (λ _. (tt, refl), λ _. tt)
IsFresh-put sel seen (s ∷ sels) = ground (arith, IsFresh-put sel seen sels)

pub IsFresh-empty : (sels : List String) → IsFresh empty sels
IsFresh-empty [] = tt
IsFresh-empty (s ∷ sels) = (refl, IsFresh-empty sels)

-- Where keys are unique, there is one element with a key.
pub same_of_key {ℓ} :
    {A : Type ℓ} (key : A → String) (xs : List A) (x y : A)
    → IsUnique (map key xs)
    → Memᴰ x xs
    → Memᴰ y xs
    → key y ≡ key x
    → y ≡ x
same_of_key key xs x y u mx my same =
    let at = λ (k : String). index_by key (λ z. z) xs empty k in
    let found = index_by-All key (λ z. z) xs empty u in
    let both : some y ≡ some x =
      sym (All-mem (λ z. at (key z) ≡ some z) xs found my)
      ∙ ap at same
      ∙ All-mem (λ z. at (key z) ≡ some z) xs found mx in
    cc
