-- ===== src/Ui/Listing/Texts.antt =====
-- `compare_texts` is a total order.
use Prim.Native.Nat.{Ordering}
use text.Mathlib.TextEquality.{Char-path}
use poll_operator.Base.{String, ◌≡◌, ◌≢◌, refl, arith}
use poll_operator.Ui.Listing.{compare_texts}

abbrev pub Le : String → String → Type 0
Le s t = compare_texts s t ≢ Ordering.gt

pub Le-total : (s t : String) → (compare_texts s t ≡ Ordering.gt) → Le t s
unfolding compare_texts
Le-total String.[] String.[] h = λ e. cc
Le-total String.[] (String.◌∷◌ d t) h = λ e. cc
Le-total (String.◌∷◌ c s) String.[] h = λ e. cc
Le-total (String.◌∷◌ c s) (String.◌∷◌ d t) h = ground (arith, Le-total s t)

pub Le-trans : (s t u : String) → Le s t → Le t u → Le s u
unfolding compare_texts
Le-trans String.[] t String.[] h k = λ e. cc
Le-trans String.[] t (String.◌∷◌ e u) h k = λ e. cc
Le-trans (String.◌∷◌ c s) String.[] u h k = absurd (h refl)
Le-trans (String.◌∷◌ c s) (String.◌∷◌ d t) String.[] h k = absurd (k refl)
Le-trans (String.◌∷◌ c s) (String.◌∷◌ d t) (String.◌∷◌ e u) h k = ground (arith, Le-trans s t u)

pub Le-antisymm : (s t : String) → Le s t → Le t s → s ≡ t
unfolding compare_texts
Le-antisymm String.[] String.[] h k = refl
Le-antisymm String.[] (String.◌∷◌ d t) h k = absurd (k refl)
Le-antisymm (String.◌∷◌ c s) String.[] h k = absurd (h refl)
Le-antisymm (String.◌∷◌ c s) (String.◌∷◌ d t) h k = ground (arith, Char-path c d, Le-antisymm s t)
