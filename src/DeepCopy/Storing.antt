-- ===== src/DeepCopy/Storing.antt =====
-- Assignments through pointers, as the controllers make them between a deep copy and a patch.
use mathlib.Core.Option.{bind, bind-eq-some_iff, some-injective}
use poll_operator.Base.{
  ℕ, zero, suc, ◌≡◌, ◌≢◌, ◌∙◌, refl, arith, some, List, [], ◌∷◌, nat_eq, ℕ_discrete,
}
use poll_operator.DeepCopy.Layout.{Ptr, Cell}
use poll_operator.DeepCopy.Kinds.{Kind}
use poll_operator.DeepCopy.Heap.{Heap, Reader, load_array, load, element, read_ptr}
use poll_operator.DeepCopy.Copying.{M, reads, put, update, ◌>>=◌}

module _ {A : Type 0} where
  abbrev pub set_element : ℕ → A → List A → List A
  set_element i y [] = []
  set_element zero y (x ∷ xs) = y ∷ xs
  set_element (suc i) y (x ∷ xs) = x ∷ set_element i y xs

  element-set_element :
      (i : ℕ) (x y : A) (xs : List A)
      → element i xs ≡ some x
      → element i (set_element i y xs) ≡ some y
  element-set_element i x y [] e = cc
  element-set_element zero x y (z ∷ xs) e = refl
  element-set_element (suc i) x y (z ∷ xs) e = element-set_element i x y xs e

  -- `*p = x`
  unfoldable pub store : Kind A → Ptr → A → M (Unit {0})
  store k p x = do
    xs ← reads (load_array k p.array)
    put p.array (k.wrap (set_element p.index x xs))

-- What an assignment leaves behind
pub record Stores {A : Type 0} (k : Kind A) (p : Ptr) (x : A) (h : Heap) : Type 0 where
  pub after : Heap
  pub runs : store k p x h ≡ some (tt, after)
  pub loads : load k p after ≡ some x
  pub used : Cell
  pub at : h.cell p.array ≡ some used
  pub typed : (xs : List A) × (k.unwrap used ≡ some xs)
  pub others : (a : ℕ) (c : Cell) → a ≢ p.array → h.cell a ≡ some c → after.cell a ≡ some c

pub store_lem :
    {A : Type 0} (k : Kind A) (p : Ptr) (x y : A) (h : Heap) → load k p h ≡ some x → Stores k p y h
unfolding store load load_array reads put ◌>>=◌ bind ℕ_discrete
store_lem k p x y h e =
    let (xs, e1, e2) = (bind-eq-some_iff (load_array k p.array h) (element p.index)).0 e in
    let (c, e3, e4) = (bind-eq-some_iff (h.cell p.array) k.unwrap).0 e1 in
    let new = k.wrap (set_element p.index y xs) in
    let law = k.unwrap-wrap (set_element p.index y xs) in
    let placed = element-set_element p.index x y xs e2 in
    record {
      after = record h { cell = update h.cell p.array new };
      runs = ground arith;
      loads = ground arith;
      used = c;
      at = e3;
      typed = (xs, e4);
      others = λ a c n f. ground arith;
    }

pub read_ptr-some :
    {A V : Type 0} (k : Kind A) (read : Reader A V) (p : Ptr) (h : Heap) (v : V)
    → read_ptr k read (some p) h ≡ some (some v)
    → (x : A) × (load k p h ≡ some x) × (read x h ≡ some v)
unfolding read_ptr
read_ptr-some k read p h v e =
    let (x, e1, e2) = (bind-eq-some_iff (load k p h) _).0 e in
    let (w, e3, e4) = (bind-eq-some_iff (read x h) _).0 e2 in (x, e1, e3 ∙ some-injective _ _ e4)
