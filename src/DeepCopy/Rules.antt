-- ===== src/DeepCopy/Rules.antt =====
-- What copying does to the heap: it fills free addresses only, and what it made can be read for as
-- long as those are kept.
use mathlib.Core.Path.{subst}
use mathlib.Core.Option.{bind, some-injective, none-ne-some, bind-eq-some_iff}
use poll_operator.Base.{suc, ◌≡◌, refl, arith, Option, none, some, List, ℕ_discrete, nat_eq}
use poll_operator.DeepCopy.Kinds.{Kind}
use poll_operator.DeepCopy.Heap.{Heap, load_array, ◌>>=◌ as ◌then_read◌}
use poll_operator.DeepCopy.Copying.{M, pure, reads, ◌>>=◌, reserve, put, fill, update}
use poll_operator.DeepCopy.Growth.{
  everything, Keeps, IsFresh, Grows, Held-everything, Grows-refl, Grows-trans, Grows-reserve,
  Persists,
}

-- From `h`, `m` returns a value and a grown heap. `P` holds of the value in every heap that keeps
-- what was added.
pub record Makes {A : Type 0} (h : Heap) (m : M A) (P : A → Heap → Type 0) : Type 0 where
  pub value : A
  pub after : Heap
  pub runs : m h ≡ some (value, after)
  pub grows : Grows h after
  pub holds : (g : Heap) → Keeps everything h.next after g → P value g

-- Where what was read in `h` is `some v`, `m` makes what `P v` says, in every heap grown from `h`.
pub record Copies {A V : Type 0} (h : Heap) (o : Option V) (m : M A) (P : V → A → Heap → Type 0)
    : Type 0 where
  pub makes : (g : Heap) → Grows h g → (v : V) → o ≡ some v → Makes g m (P v)

module _ {A : Type 0} where
  pub Makes-pure :
      {P : A → Heap → Type 0} (h : Heap) (a : A)
      → IsFresh h
      → ((g : Heap) → P a g)
      → Makes h (pure a) P
  unfolding pure
  Makes-pure h a fresh p = record {
    value = a;
    after = h;
    runs = refl;
    grows = Grows-refl h fresh;
    holds = λ g keep. p g;
  }

  pub Makes-bind :
      {B : Type 0} {h : Heap} {m : M A} {k : A → M B} {P : A → Heap → Type 0}
      {Q : B → Heap → Type 0}
      → Makes h m P
      → ((a : A) (g : Heap) → Grows h g → Makes g (k a) (λ b f. P a f → Q b f))
      → Makes h (m >>= k) Q
  unfolding ◌>>=◌
  Makes-bind {k} w n =
      let rest = n w.value w.after w.grows in
      let e = rest.runs in
      let le = w.grows.next_le in
      record {
        value = rest.value;
        after = rest.after;
        runs = rw (w.runs, ◌>>=◌) e;
        grows = Grows-trans w.grows rest.grows;
        holds = λ g keep.
            rest.holds g (λ a c held from at. keep a c held (omega arith) at)
              (w.holds g (λ a c held from at.
                keep a c held from (rest.grows.keeps a c held (omega arith) at)));
      }

module _ {V W : Type 0} where
  pub Copies-reads :
      {B : Type 0} {h : Heap} (r : Heap → Option V) {f : V → Option W} {n : V → M B}
      {Q : W → B → Heap → Type 0}
      → ((g : Heap) → Keeps everything 0 h g → Persists (r h) (r g))
      → ((v : V) → Copies h (f v) (n v) Q)
      → Copies h (r h then_read f) (reads r >>= n) Q
  unfolding reads ◌>>=◌
  Copies-reads {h} r {f = f} stays d = record {
    makes = λ g grown w e.
        let (v, found, e') = (bind-eq-some_iff (r h) f).0 e in
        let made = (d v).makes g grown w e' in
        let runs = made.runs in
        record {
          value = made.value;
          after = made.after;
          runs = rw ((stays g grown.keeps).at v found, ◌>>=◌, reads) runs;
          grows = made.grows;
          holds = made.holds;
        };
  }

module _ {V A : Type 0} where
  pub Copies-pure :
      {h : Heap} {v : V} (z : A) {P : V → A → Heap → Type 0}
      → ((g : Heap) → P v z g)
      → Copies h (some v) (pure z) P
  Copies-pure z {P} p = record {
    makes = λ g grown w e.
        Makes-pure g z grown.fresh λ k. subst (λ u. P u z k) (some-injective _ _ e) (p k);
  }

  pub Copies-bind :
      {W B : Type 0} {h : Heap} (o : Option V) {f : V → Option W} {m : M A} {n : A → M B}
      {P : V → A → Heap → Type 0} {Q : W → B → Heap → Type 0}
      → Copies h o m P
      → ((v : V) (a : A) → Copies h (f v) (n a) (λ w b g. P v a g → Q w b g))
      → Copies h (o then_read f) (m >>= n) Q
  unfolding bind
  Copies-bind none c d = record { makes = λ g grown w e. absurd (none-ne-some w e) }
  Copies-bind (some v) c d = record {
    makes = λ g grown w e.
        Makes-bind (c.makes g grown v refl)
          λ a k grew. (d v a).makes k (Grows-trans grown grew) w e;
  }

  pub Copies-map :
      {B : Type 0} {h : Heap} {o : Option V} (f : A → B) {m : M A} {P : V → A → Heap → Type 0}
      {Q : V → B → Heap → Type 0}
      → Copies h o m P
      → ((v : V) (a : A) (g : Heap) → P v a g → Q v (f a) g)
      → Copies h o (m >>= λ a. pure (f a)) Q
  Copies-map f c q = record {
    makes = λ g grown v e.
        Makes-bind (c.makes g grown v e) λ a k grew. Makes-pure k (f a) grew.fresh λ l p. q v a l p;
  }

  -- A filled array holds what `m` gave.
  pub Copies-fill :
      {h : Heap} {o : Option V} (k : Kind A) {m : M (List A)} {P : V → List A → Heap → Type 0}
      → Copies h o m P
      → Copies h o (fill k m) (λ v a g. (ys : List A) × P v ys g × (load_array k a g ≡ some ys))
  unfolding fill reserve put pure ◌>>=◌ load_array ℕ_discrete bind
  Copies-fill k d = record {
    makes = λ g grown v e.
        let made = d.makes (record g { next = suc g.next }) (Grows-reserve g grown) v e in
        let free = grown.fresh g.next (omega arith) in
        let le = made.grows.next_le in
        let runs = made.runs in
        let filled = k.wrap made.value in
        record {
          value = g.next;
          after = record made.after { cell = update made.after.cell g.next filled };
          runs = rw (runs, ◌>>=◌) refl;
          grows = record {
            next_le = omega arith;
            keeps = λ a c held le e.
                let kept = made.grows.keeps a c held le e in ground (arith, none-ne-some c);
            fresh = λ a le. let f = made.grows.fresh a le in ground arith;
          };
          holds = λ f keep. (
            made.value,
            made.holds f (λ a c held le at. keep a c held (omega arith) (ground arith)),
            let put = keep g.next filled (Held-everything filled) (omega arith) (ground arith) in
                let law = k.unwrap-wrap made.value in ground arith,
          );
        };
  }
