-- ===== src/ResponseController/Validate/Fits.antt =====
-- The answers that a question takes, described without the order of the checks.
use poll_operator.Base.{
  pos, String, len, ◌≤◌, true, false, Option, none, some, [], length, contains, All, IsUnique,
  string_eq, ◌≡◌, ◌≢◌, int32, gtb, is_positive,
}
use poll_operator.Api.{
  PollQuestion, ChoiceQuestion, FreeTextQuestion, PollAnswer, question_type_choice,
  question_type_free_text,
}

pub record FitsChoice (c : ChoiceQuestion) (ans : PollAnswer) : Type 0 where
  pub no_text : ans.text ≡ ""
  pub some_option : ans.selected_options ≢ []
  pub one_option : c.allow_multiple_choices ≡ false → length ans.selected_options ≤ 1
  pub known_options : All (λ sel. contains c.options sel ≡ true) ans.selected_options
  pub different_options : IsUnique ans.selected_options

-- The limit is on the length in bytes, as an `int32`; a limit of 0 or less is none.
abbrev pub IsWithin : Option FreeTextQuestion → String → Type 0
IsWithin none text = Unit
IsWithin (some f) text =
    is_positive f.max_response_length ≡ true
    → gtb (int32 (pos (len text))) f.max_response_length ≡ false

pub record FitsText (limit : Option FreeTextQuestion) (ans : PollAnswer) : Type 0 where
  pub no_options : ans.selected_options ≡ []
  pub some_text : ans.text ≢ ""
  pub within : IsWithin limit ans.text

-- The answer has the form that the question's type asks for.
pub data Fits (q : PollQuestion) (ans : PollAnswer) : Type 0 where
  choice :
      (c : ChoiceQuestion)
      → q.type ≡ question_type_choice
      → q.choice ≡ some c
      → FitsChoice c ans
      → Fits q ans
  free_text : q.type ≡ question_type_free_text → FitsText q.free_text ans → Fits q ans
