-- ===== src/Tests/Pages.antt =====
-- Pages and requests of the web interface.
use text.Mathlib.TextEquality.{eq_iff}
use poll_operator.Base.{
  ℕ, String, true, false, none, some, List, [], ◌∷◌, map, ◌≡◌, ◌↔◌, ◌⊎◌, refl, arith, pos, negsuc,
  string_eq, ℕ_discrete,
}
use poll_operator.Api.{Poll}
use poll_operator.PollController.Aggregate.{aggregate_results}
use poll_operator.PollController.Aggregate.Refines.{counted_answers}
use poll_operator.Ui.Charts.{bar_width}
use poll_operator.Ui.Charts.Widths.{bar_width_wraps}
use poll_operator.Ui.Flash.{all_valid, is_valid, keep_valid, cookie_text, read_flash}
use poll_operator.Ui.Flash.Survives.{read_flash-cookie_text}
use poll_operator.Ui.Listing.{PollListItem, item_of, list_items}
use poll_operator.Ui.Listing.Order.{IsOrdered}
use poll_operator.Ui.Listing.Rows.{HasSameRows, list_items-IsOrdered}
use poll_operator.Ui.Pages.{handle_vote}
use poll_operator.Ui.Pages.Votes.{Voted, handle_vote-Voted}
use poll_operator.Ui.Routes.{Request, serve}
use poll_operator.Ui.Routes.Safe.{IsRecorded, serve_writes}
use poll_operator.Ui.Views.{question_views}
use poll_operator.Ui.Views.Tallies.{tally_view, question_views-tally}
use poll_operator.Webhook.PollWebhook.WellFormed.{validate_create-eq-admitted_iff}
use poll_operator.Tests.Admission.{paint-admitted}
use poll_operator.Tests.Data.{paint, named, votes}
use poll_operator.Tests.Forms.{filled}
use poll_operator.Tests.Memory.{memory}
use poll_operator.Tests.Runs.{fresh}
use poll_operator.Tests.Verdicts.{plain}
use poll_operator.Tests.Votes.{paint-HasUniqueKeys}

abbrev counted_paint : Poll
counted_paint = record paint {
  status = record paint.status { results = (aggregate_results paint votes).0 };
}

question_views-tally_example :
    question_views counted_paint
    ≡ map (tally_view (counted_answers counted_paint votes)) counted_paint.spec.questions
unfolding aggregate_results
question_views-tally_example =
    question_views-tally counted_paint votes paint-HasUniqueKeys
      ((validate_create-eq-admitted_iff plain paint).0 paint-admitted) refl

abbrev scores : List (String × ℕ)
scores = ("red", 3) ∷ ("blue", 8) ∷ []

bar_width_wraps_example : (k : ℕ) × (bar_width (pos 30000000) (pos 30000000) ≡ negsuc k)
bar_width_wraps_example = bar_width_wraps 30000000 (omega arith) (omega arith)

-- A dash outside ASCII is lost.
read_flash-cookie_text_example :
    (read_flash (some (cookie_text "Thanks — a.")) ≡ "Thanks  a.")
    × ((read_flash (some (cookie_text "Thanks — a.")) ≡ "Thanks — a.") ↔ (false ≡ true))
unfolding keep_valid all_valid is_valid ℕ_discrete
read_flash-cookie_text_example = read_flash-cookie_text "Thanks — a."

abbrev two_polls : List Poll
two_polls = record paint { meta = named "wall" } ∷ paint ∷ []

list_items-IsOrdered_example :
    IsOrdered (list_items two_polls)
    × HasSameRows (list_items two_polls) (map item_of two_polls)
    × ((rows : List PollListItem)
        → IsOrdered rows
        → HasSameRows rows (map item_of two_polls)
        → rows ≡ list_items two_polls)
list_items-IsOrdered_example =
    list_items-IsOrdered two_polls
      (((λ (e, e'). ground (arith, eq_iff "wall" "paint")), tt), (tt, tt))

handle_vote-Voted_example :
    Voted memory "team" "paint" fresh
      (some filled)
      (handle_vote memory "team" "paint" (some filled) fresh)
handle_vote-Voted_example = handle_vote-Voted memory "team" "paint" fresh (some filled)

abbrev ballot : Request
ballot = record {
  method = "POST";
  segments = "polls" ∷ "team" ∷ "paint" ∷ "vote" ∷ [];
  posted = some filled;
  cookie = none;
}

serve_writes_example :
    ((serve memory ballot fresh).1 ≡ fresh)
    ⊎ IsRecorded memory ballot fresh (serve memory ballot fresh).1
serve_writes_example = serve_writes memory ballot fresh
