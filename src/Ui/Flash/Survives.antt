-- ===== src/Ui/Flash/Survives.antt =====
-- Which messages come through the cookie.
use poll_operator.Base.{
  ℕ_discrete, String, true, some, nat_eq, ◌≡◌, ◌↔◌, refl, sym, ap, ◌∙◌, arith, Bool-cases, inl, inr,
}
use poll_operator.Ui.Text.{is_empty}
use poll_operator.Ui.Flash.{
  is_valid, keep_valid, all_valid, has_space_or_comma, quote, with_quote, cookie_text,
  without_quote, or_whole, unquoted, read_flash,
}

keep_valid-all : (s : String) → all_valid (keep_valid s) ≡ true
unfolding keep_valid all_valid
keep_valid-all String.[] = refl
keep_valid-all (String.◌∷◌ c s) = elim (Bool-cases (is_valid c)) [
  | inl ok ↦ rw ok (rw ok (keep_valid-all s))
  | inr bad ↦ rw bad (keep_valid-all s)
]

keep_valid_of_all : (s : String) → all_valid s ≡ true → keep_valid s ≡ s
unfolding keep_valid all_valid
keep_valid_of_all String.[] h = refl
keep_valid_of_all (String.◌∷◌ c s) h = ground (arith, keep_valid_of_all s)

without_quote-with_quote : (s : String) → without_quote (with_quote s) ≡ some s
unfolding without_quote ℕ_discrete
without_quote-with_quote String.[] = refl
without_quote-with_quote (String.◌∷◌ c String.[]) = refl
without_quote-with_quote (String.◌∷◌ c (String.◌∷◌ d s)) =
    rw (without_quote-with_quote (String.◌∷◌ d s))

-- A valid text does not start with a quote.
unquoted_of_valid : (s : String) → all_valid s ≡ true → unquoted s ≡ s
unfolding unquoted all_valid is_valid
unquoted_of_valid String.[] h = refl
unquoted_of_valid (String.◌∷◌ c s) h = ground arith

unquoted-quoted : (s : String) → unquoted (String.◌∷◌ quote (with_quote s)) ≡ s
unfolding unquoted ℕ_discrete
unquoted-quoted s = ap (or_whole _) (without_quote-with_quote s)

unquoted-cookie_text : (msg : String) → unquoted (cookie_text msg) ≡ keep_valid msg
unfolding cookie_text
unquoted-cookie_text msg =
    let plain = unquoted_of_valid (keep_valid msg) (keep_valid-all msg) in
    elim (Bool-cases (is_empty (keep_valid msg))) [
      | inl empty ↦ rw empty plain
      | inr some_char ↦ elim (Bool-cases (has_space_or_comma (keep_valid msg))) [
        | inl spaced ↦ rw (some_char, spaced) (unquoted-quoted (keep_valid msg))
        | inr tight ↦ rw (some_char, tight) plain
      ]
    ]

-- What is read back is the message without the characters that a cookie's value cannot hold; it is
-- the message itself exactly if it has none of those.
pub read_flash-cookie_text :
    (msg : String)
    → (read_flash (some (cookie_text msg)) ≡ keep_valid msg)
      × ((read_flash (some (cookie_text msg)) ≡ msg) ↔ (all_valid msg ≡ true))
unfolding read_flash
read_flash-cookie_text msg =
    let back : read_flash (some (cookie_text msg)) ≡ keep_valid msg =
      rw (unquoted-cookie_text msg, keep_valid-all msg) in
    (
      back,
      (λ h. ap all_valid (sym h ∙ back) ∙ keep_valid-all msg, λ h. back ∙ keep_valid_of_all msg h),
    )
