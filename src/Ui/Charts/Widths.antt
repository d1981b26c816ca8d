-- ===== src/Ui/Charts/Widths.antt =====
-- The widths of the bars on the page of a poll.
use poll_operator.Base.{
  String, ◌-◌, ℕ, zero, suc, ◌*◌, ◌/◌, ◌≤◌, ◌<◌, pos, negsuc, List, [], ◌∷◌, Memᴰ, max, ◌≡◌, refl,
  ap, ◌∙◌, arith, if◌then◌else◌, int32, is_positive, not,
}
use poll_operator.Ui.Charts.{OptionView, max_from, max_votes, hundredfold, bar_width, quotient_by}

-- Options with the votes for each.
abbrev pub counted : List (String × ℕ) → List OptionView
counted [] = []
counted ((option, n) ∷ xs) = record { option = option; votes = pos n } ∷ counted xs

abbrev pub most : List (String × ℕ) → ℕ
most [] = 0
most ((option, n) ∷ xs) = max n (most xs)

max_from-counted :
    (m : ℕ) (xs : List (String × ℕ)) → max_from (pos m) (counted xs) ≡ pos (max m (most xs))
unfolding max_from
max_from-counted m [] = ap pos (omega arith)
max_from-counted m ((option, n) ∷ xs) = ground (arith, max_from-counted m xs, max_from-counted n xs)

max_votes-counted : (xs : List (String × ℕ)) → max_votes (counted xs) ≡ pos (most xs)
unfolding max_votes
max_votes-counted xs = max_from-counted 0 xs ∙ ap pos (omega arith)

le-most : (x : String × ℕ) (xs : List (String × ℕ)) → Memᴰ x xs → x.1 ≤ most xs
le-most x [] m = elim m [ ]
le-most x ((option, n) ∷ xs) (Memᴰ.head e) = omega (arith, ap (λ y. y.1) e)
le-most x ((option, n) ∷ xs) (Memᴰ.tail m) = omega (arith, le-most x xs m)

width_in_range :
    (n m : ℕ)
    → n ≤ m
    → m ≤ 21474836
    → (w : ℕ) × (bar_width (pos n) (pos m) ≡ pos w) × (w ≤ 100) × (0 < n → n ≡ m → w ≡ 100)
unfolding bar_width int32
width_in_range n zero le small = (0, refl, omega arith, λ some_vote. omega arith)
width_in_range n (suc m) le small =
    (n * 100 / suc m, ground arith, grind arith, λ some_vote top. grind arith)

-- Up to 21474836 votes for an option, every bar is from 0 to 100 percent wide.
pub bar_width_bounds :
    (xs : List (String × ℕ)) (x : String × ℕ)
    → Memᴰ x xs
    → most xs ≤ 21474836
    → (w : ℕ) × (bar_width (pos x.1) (max_votes (counted xs)) ≡ pos w) × (w ≤ 100)
bar_width_bounds xs x m small =
    let (w, e, le, full) = width_in_range x.1 (most xs) (le-most x xs m) small in
    (w, ap (bar_width (pos x.1)) (max_votes-counted xs) ∙ e, le)

positive_quotient : (a n : ℕ) → 0 < n → n ≤ a → a / n ≡ suc (a / n - 1)
positive_quotient a n h le = grind arith

hundredfold_wraps :
    (n : ℕ)
    → 21474837 ≤ n
    → n ≤ 42524428
    → int32 (hundredfold (pos n)) ≡ negsuc (4294967295 - n * 100)
unfolding int32
hundredfold_wraps n lo hi = ground arith

-- From 21474837 votes on the product wraps: up to 42524428 votes, the bar of the option with the
-- most votes has a negative width.
pub bar_width_wraps :
    (n : ℕ) → 21474837 ≤ n → n ≤ 42524428 → (k : ℕ) × (bar_width (pos n) (pos n) ≡ negsuc k)
unfolding bar_width
bar_width_wraps n lo hi =
    let a = suc (4294967295 - n * 100) in
    (
      a / n - 1,
      ap (λ x. if not (is_positive (pos n)) then pos 0 else quotient_by x (pos n))
            (hundredfold_wraps n lo hi)
          ∙ ground (arith, positive_quotient a n),
    )
