-- ===== src/Ui/Views/Tallies.antt =====
-- What the page of a poll shows, where its status is up to date.
use poll_operator.Base.{
  ℕ, ℤ, pos, String, Option, none, some, List, [], ◌∷◌, map, ◌≡◌, refl, sym, ap, ◌∙◌, arith,
  string_eq, int32, All, All-map, IsUnique, GoMap, empty, put, index_by, index_by-All,
}
use poll_operator.Api.{
  Poll, PollQuestion, PollAnswer, PollResponse, QuestionResult, FreeTextQuestion,
}
use poll_operator.PollController.Aggregate.{aggregate_results, tallied_options}
use poll_operator.PollController.Aggregate.Options.{votes_row}
use poll_operator.PollController.Aggregate.Refines.{
  HasUniqueKeys, counted_answers, answers_to, times_selected, tally, aggregate_results-tally,
}
use poll_operator.PollController.StatusEqual.{votes_or_zero}
use poll_operator.Ui.Charts.{OptionView}
use poll_operator.Ui.Views.{
  QuestionView, result_or_zero, multiple_of, votes_by_option, option_view, option_views,
  max_length_of, text_responses_of, question_view, question_views,
}
use poll_operator.Webhook.PollWebhook.WellFormed.{IsWellFormed, choice, free_text}

-- A count shown where the question is of free text.
abbrev shown_if_set : Option FreeTextQuestion → ℕ → ℤ
shown_if_set none n = pos 0
shown_if_set (some f) n = int32 (pos n)

abbrev selected_view : String → List PollAnswer → String → OptionView
selected_view id answers opt = record {
  option = opt;
  votes = int32 (pos (times_selected id opt answers));
}

-- A question with the number of times that each of its options was selected, or the number of
-- answers to it.
abbrev pub tally_view : List PollAnswer → PollQuestion → QuestionView
tally_view answers q = record {
  id = q.id;
  prompt = q.prompt;
  type = q.type;
  allow_multiple = multiple_of q.choice;
  options = map (selected_view q.id answers) (tallied_options q);
  text_responses = shown_if_set q.free_text (answers_to q.id answers);
  max_length = max_length_of q.free_text;
}

map-congr {ℓ κ} :
    {A : Type ℓ} {B : Type κ} (f g : A → B) (xs : List A)
    → All (λ x. f x ≡ g x) xs
    → map f xs ≡ map g xs
map-congr f g [] same = refl
map-congr f g (x ∷ xs) (e, same) = cc (map-congr f g xs same)

map_self : (os : List String) → map (λ o. o) os ≡ os
map_self [] = refl
map_self (o ∷ os) = ap (◌∷◌ o) (map_self os)

index_by-map {ℓ κ ν} :
    {A : Type ℓ} {B : Type κ} {V : Type ν} (f : A → B) (key : B → String) (val : B → V)
    (xs : List A) (m : GoMap V)
    → index_by key val (map f xs) m ≡ index_by (λ x. key (f x)) (λ x. val (f x)) xs m
unfolding index_by
index_by-map f key val [] m = refl
index_by-map f key val (x ∷ xs) m = index_by-map f key val xs (put (key (f x)) (val (f x)) m)

option_views-tally :
    (answers : List PollAnswer) (q : PollQuestion) (opts : List String)
    → IsUnique opts
    → map
        (option_view
          (votes_by_option (map (votes_row (λ opt. times_selected q.id opt answers)) opts)))
        opts
      ≡ map (selected_view q.id answers) opts
option_views-tally answers q opts u =
    let votes = λ (opt : String). times_selected q.id opt answers in
    map-congr _ _ opts (
      All-map
        (λ opt found.
          ap (λ v. record { option = opt; votes = votes_or_zero v })
            (ap (λ m. m opt)
                (index_by-map (votes_row votes) (λ o. o.option) (λ o. o.votes) opts empty)
              ∙ found))
        opts (index_by-All (λ o. o) (λ o. int32 (pos (votes o))) opts empty (rw (map_self opts) u)))

text_responses-tally :
    (answers : List PollAnswer) (q : PollQuestion) (f : Option FreeTextQuestion)
    → text_responses_of (tally answers q) f ≡ shown_if_set f (answers_to q.id answers)
unfolding tally
text_responses-tally answers q none = refl
text_responses-tally answers q (some f) = refl

options-tally :
    (answers : List PollAnswer) (q : PollQuestion)
    → IsWellFormed q
    → IsUnique (tallied_options q)
    → option_views (tally answers q) q.choice ≡ map (selected_view q.id answers) (tallied_options q)
unfolding tally
options-tally answers q (choice c is_choice set good unset) u =
    let offered : tallied_options q ≡ c.options = unfold tallied_options in ground arith in
    ap (option_views (tally answers q)) set
    ∙ ap (map (option_view (votes_by_option (tally answers q).options))) (sym offered)
    ∙ option_views-tally answers q (tallied_options q) u
options-tally answers q (free_text f is_text set unset) u =
    let none_offered : tallied_options q ≡ [] = unfold tallied_options in ground arith in
    ap (option_views (tally answers q)) unset
    ∙ sym (ap (map (selected_view q.id answers)) none_offered)

question_view-tally :
    (answers : List PollAnswer) (q : PollQuestion) (m : GoMap QuestionResult)
    → IsWellFormed q
    → IsUnique (tallied_options q)
    → m q.id ≡ some (tally answers q)
    → question_view m q ≡ tally_view answers q
unfolding question_view
question_view-tally answers q m w u found =
    let r : result_or_zero (m q.id) ≡ tally answers q = ap result_or_zero found in
    cc (
      ap (λ x. option_views x q.choice) r ∙ options-tally answers q w u,
      ap (λ x. text_responses_of x q.free_text) r ∙ text_responses-tally answers q q.free_text,
    )

questions-tally :
    (answers : List PollAnswer) (m : GoMap QuestionResult) (qs : List PollQuestion)
    → All IsWellFormed qs
    → All (λ q. IsUnique (tallied_options q)) qs
    → All (λ q. m q.id ≡ some (tally answers q)) qs
    → map (question_view m) qs ≡ map (tally_view answers) qs
questions-tally answers m [] ws us found = refl
questions-tally answers m (q ∷ qs) (w, ws) (u, us) (f, found) =
    cc (question_view-tally answers q m w u f, questions-tally answers m qs ws us found)

results-found :
    (answers : List PollAnswer) (qs : List PollQuestion)
    → IsUnique (map (λ q. q.id) qs)
    → All
        (λ q.
          index_by (λ r. r.question_id) (λ r. r) (map (tally answers) qs) empty q.id
          ≡ some (tally answers q))
        qs
unfolding tally
results-found answers qs u =
    All-map
      (λ q found.
        ap (λ m. m q.id) (index_by-map (tally answers) (λ r. r.question_id) (λ r. r) qs empty)
        ∙ found)
      qs (index_by-All (λ q. q.id) (tally answers) qs empty u)

-- Where the results in the status are those of the responses, the page shows for each question of a
-- well-formed Poll exactly how often each option was selected, or how many answers it has, by the
-- responses that count, as `int32` numbers.
pub question_views-tally :
    (poll : Poll) (responses : List PollResponse)
    → HasUniqueKeys poll.spec.questions
    → All IsWellFormed poll.spec.questions
    → poll.status.results ≡ (aggregate_results poll responses).0
    → question_views poll ≡ map (tally_view (counted_answers poll responses)) poll.spec.questions
unfolding question_views
question_views-tally poll responses keys ws current =
    let answers = counted_answers poll responses in
    let results : poll.status.results ≡ map (tally answers) poll.spec.questions =
      current ∙ ap (λ x. x.0) (aggregate_results-tally poll responses keys) in
    ap
      (λ rs.
        map (question_view (index_by (λ r. r.question_id) (λ r. r) rs empty)) poll.spec.questions)
      results
    ∙ questions-tally answers _ poll.spec.questions ws keys.1
        (results-found answers poll.spec.questions keys.0)
