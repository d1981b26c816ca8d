-- ===== src/Ui/Charts.antt =====
-- The template functions `maxVotes` and `barWidth` of internal/ui/templates.go.
pub mod Widths
use poll_operator.Base.{
  ℕ, zero, suc, ◌+◌, ◌*◌, ◌/◌, ℤ, pos, negsuc, List, [], ◌∷◌, String, if◌then◌else◌, int32, gtb,
  is_positive, not,
}

-- `optionView` of internal/ui/handlers.go
pub record OptionView : Type 0 where
  pub option : String
  pub votes : ℤ

-- The loop of `maxVotes`.
unfoldable pub max_from : ℤ → List OptionView → ℤ
max_from m [] = m
max_from m (o ∷ os) = max_from (if gtb o.votes m then o.votes else m) os

unfoldable pub max_votes : List OptionView → ℤ
unfolding max_from
max_votes opts = max_from (pos 0) opts

-- `votes * 100` before it wraps.
abbrev pub hundredfold : ℤ → ℤ
hundredfold (pos n) = pos (n * 100)
hundredfold (negsuc n) = negsuc (n * 100 + 99)

abbrev negated : ℕ → ℤ
negated zero = pos 0
negated (suc n) = negsuc n

-- Go's `/`, which truncates towards zero, by a positive number. A quotient of two `int32` by a
-- positive one is an `int32`.
abbrev pub quotient : ℤ → ℕ → ℤ
quotient (pos n) m = pos (n / m)
quotient (negsuc n) m = negated (suc n / m)

abbrev pub quotient_by : ℤ → ℤ → ℤ
quotient_by a (pos m) = quotient a m
quotient_by a (negsuc m) = pos 0

-- `max <= 0` is the negation of `max > 0`.
unfoldable pub bar_width : ℤ → ℤ → ℤ
bar_width votes max =
    if not (is_positive max) then pos 0 else quotient_by (int32 (hundredfold votes)) max
