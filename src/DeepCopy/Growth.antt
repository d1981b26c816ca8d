-- ===== src/DeepCopy/Growth.antt =====
-- Heaps that keep cells of others, and what is found in both.
use native.Mathlib.Decide.{dec_lt}
use mathlib.Core.Option.{bind, none-ne-some}
use poll_operator.Base.{ℕ, suc, ◌≤◌, ◌<◌, ◌≡◌, refl, arith, Option, none, some, nat_eq}
use poll_operator.DeepCopy.Layout.{Cell, object, part}
use poll_operator.DeepCopy.Heap.{Heap, ◌>>=◌ as ◌then_read◌}

-- The cells that may not change: all of them, or those that hold no whole objects
pub data Region : Type 0 where
  everything : Region
  parts : Region

abbrev pub Held : Cell → Region → Type 0
Held (part c) r = Unit
Held (object c) everything = Unit
Held (object c) parts = ⊥

-- `g` has the cells that `h` has, in a region, from an address on.
abbrev pub Keeps : Region → ℕ → Heap → Heap → Type 0
Keeps r n h g = (a : ℕ) (c : Cell) → Held c r → n ≤ a → h.cell a ≡ some c → g.cell a ≡ some c

abbrev pub IsFresh : Heap → Type 0
IsFresh h = (a : ℕ) → h.next ≤ a → h.cell a ≡ none

pub record Grows (h g : Heap) : Type 0 where
  pub next_le : h.next ≤ g.next
  pub keeps : Keeps everything 0 h g
  pub fresh : IsFresh g

pub Held-everything : (c : Cell) → Held c everything
Held-everything (part c) = tt
Held-everything (object c) = tt

pub Grows-refl : (h : Heap) → IsFresh h → Grows h h
Grows-refl h f = record { next_le = omega arith; keeps = λ a c held le e. e; fresh = f }

pub Grows-trans : {h g k : Heap} → Grows h g → Grows g k → Grows h k
Grows-trans a b = record {
  next_le = let l = a.next_le in let m = b.next_le in omega arith;
  keeps = λ x c held le e. b.keeps x c held le (a.keeps x c held le e);
  fresh = b.fresh;
}

-- What `o` finds, `p` finds.
pub record Persists {A : Type 0} (o p : Option A) : Type 0 where
  pub at : (v : A) → o ≡ some v → p ≡ some v

pub Persists-same : {A : Type 0} {o : Option A} → Persists o o
Persists-same = record { at = λ v e. e }

module _ {V W : Type 0} where
  pub Persists-bind :
      {o p : Option V} {f g : V → Option W}
      → Persists o p
      → ((v : V) → Persists (f v) (g v))
      → Persists (o then_read f) (p then_read g)
  unfolding bind
  Persists-bind {o = none} first rest = record { at = λ w e. absurd (none-ne-some w e) }
  Persists-bind {o = some v} first rest = record {
    at = λ w e. rw (first.at v refl) ((rest v).at w e);
  }

  -- The same, where what is found after decides whether the first is kept
  pub Persists-found :
      {o p : Option V} {f : V → Option W}
      → ((v : V) → o ≡ some v → (w : W) → f v ≡ some w → p ≡ some v)
      → Persists (o then_read f) (p then_read f)
  unfolding bind
  Persists-found {o = none} first = record { at = λ w e. absurd (none-ne-some w e) }
  Persists-found {o = some v} first = record { at = λ w e. rw (first v refl w e) e }

pub in_use : (h : Heap) (a : ℕ) (c : Cell) → IsFresh h → h.cell a ≡ some c → a < h.next
in_use h a c fresh at = elim (dec_lt a h.next) [
  | yes lt ↦ lt
  | no n ↦ absurd (none-ne-some c (rw (fresh a (omega arith)) at at))
]

pub Grows-reserve : {h : Heap} (g : Heap) → Grows h g → Grows h (record g { next = suc g.next })
Grows-reserve g grown = record {
  next_le = let l = grown.next_le in omega arith;
  keeps = grown.keeps;
  fresh = λ a le. grown.fresh a (omega arith);
}
