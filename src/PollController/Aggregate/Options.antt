-- ===== src/PollController/Aggregate/Options.antt =====
-- The vote counters of one row, when no option stands twice.
use mathlib.Core.Path.{fun_ext}
use poll_operator.Base.{ℕ, suc, ◌+◌, String, false, Option, none, some, List, [], ◌∷◌}
use poll_operator.Base.{map, ◌≡◌, refl, ap, ◌∙◌, arith, ◌==◌, string_eq, if◌then◌else◌, pos, int32}
use poll_operator.Base.{inc32-int32, GoMap, empty, put, contains, IsUnique, count_if}
use poll_operator.Api.{OptionResult}
use poll_operator.PollController.Aggregate.{zero_option, option_index}
use poll_operator.PollController.Aggregate.Rows.{bump_found, bump_selections}

-- The row's counters, from the number of votes for each option.
abbrev pub votes_row : (String → ℕ) → String → OptionResult
votes_row f opt = record { option = opt; votes = int32 (pos (f opt)) }

find_option : String → List String → Option ℕ
find_option sel [] = none
find_option sel (o ∷ os) =
    if o == sel then some 0 else elim (find_option sel os) [ none ↦ none | some j ↦ some (suc j) ]

abbrev shifted : ℕ → Option ℕ → Option ℕ → Option ℕ
shifted i none d = d
shifted i (some j) d = some (i + j)

shifted-zero : (o : Option ℕ) → shifted 0 o none ≡ o
shifted-zero none = refl
shifted-zero (some j) = ground arith

option_index_absent :
    (sel : String) (i : ℕ) (os : List String) (m : GoMap ℕ)
    → contains os sel ≡ false
    → option_index i (map zero_option os) m sel ≡ m sel
unfolding option_index
option_index_absent sel i [] m h = refl
option_index_absent sel i (o ∷ os) m h =
    ground (arith, option_index_absent sel (suc i) os (put o i m))

option_index-find_option :
    (sel : String) (i : ℕ) (os : List String) (m : GoMap ℕ)
    → IsUnique os
    → option_index i (map zero_option os) m sel ≡ shifted i (find_option sel os) (m sel)
unfolding option_index find_option
option_index-find_option sel i [] m u = refl
option_index-find_option sel i (o ∷ os) m u = ground (
  arith,
  option_index_absent sel (suc i) os (put o i m),
  option_index-find_option sel (suc i) os (put o i m),
)

module _ (f : String → ℕ) (sel : String) where
  abbrev one_more : String → ℕ
  one_more o = (if o == sel then 1 else 0) + f o

  votes_row_absent :
      (os : List String)
      → contains os sel ≡ false
      → map (votes_row f) os ≡ map (votes_row one_more) os
  votes_row_absent [] h = refl
  votes_row_absent (o ∷ os) h = ground (arith, votes_row_absent os)

  bump_found-find_option :
      (os : List String)
      → IsUnique os
      → bump_found (find_option sel os) (map (votes_row f) os) ≡ map (votes_row one_more) os
  unfolding find_option
  bump_found-find_option [] u = refl
  bump_found-find_option (o ∷ os) u =
      ground (arith, inc32-int32 (f o), votes_row_absent os, bump_found-find_option os)

  bump_option_votes :
      (os : List String)
      → IsUnique os
      → bump_found (option_index 0 (map zero_option os) empty sel) (map (votes_row f) os)
        ≡ map (votes_row one_more) os
  bump_option_votes os u =
      ap (λ o. bump_found o (map (votes_row f) os))
        (option_index-find_option sel 0 os empty u ∙ shifted-zero (find_option sel os))
      ∙ bump_found-find_option os u

-- A list of selections adds to each option's counter the times that it was selected.
pub bump_selections-votes_row :
    (os sels : List String) (f : String → ℕ)
    → IsUnique os
    → bump_selections (map zero_option os) sels (map (votes_row f) os)
      ≡ map (votes_row (λ o. count_if (λ sel. o == sel) sels + f o)) os
bump_selections-votes_row os [] f u = ap (λ g. map (votes_row g) os) (fun_ext (λ o. omega arith))
bump_selections-votes_row os (sel ∷ sels) f u =
    ap (bump_selections (map zero_option os) sels) (bump_option_votes f sel os u)
    ∙ bump_selections-votes_row os sels (one_more f sel) u
    ∙ ap (λ g. map (votes_row g) os) (fun_ext (λ o. omega arith))
