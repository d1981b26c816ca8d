-- ===== src/Ui/Routes.antt =====
-- `routes` of internal/ui/handlers.go, with what `http.ServeMux` does for its patterns: the most
-- specific pattern wins, a `GET` pattern takes `HEAD` too, and `GET /` takes every path. The
-- segments are those of a clean path, decoded; the path `/` has none, and a slash at the end gives
-- an empty last one, which no wildcard takes.
pub mod Safe
use poll_operator.Base.{
  String, Bool, true, false, ◌||◌, ◌&&◌, not, Option, List, [], ◌∷◌, ◌==◌, string_eq, if◌then◌else◌,
}
use poll_operator.Kube.{Kube}
use poll_operator.Ui.Answers.{Form}
use poll_operator.Ui.Pages.{
  Reply, http_error, healthy, handle_root, handle_list_polls, handle_poll_detail, handle_vote,
}

pub data Route : Type 0 where
  root : Route
  list : Route
  detail : String → String → Route
  vote : String → String → Route
  health : Route
  not_allowed : Route

pub record Request : Type 0 where
  pub method : String
  pub segments : List String
  pub posted : Option Form
  pub cookie : Option String

abbrev pub is_get : String → Bool
is_get method = method == "GET" || method == "HEAD"

unfoldable pub get_route : List String → Route
get_route (a ∷ []) = if a == "polls" then list else if a == "healthz" then health else root
get_route (a ∷ ns ∷ name ∷ []) =
    if a == "polls" && not (ns == "") && not (name == "") then detail ns name else root
get_route _ = root

unfoldable pub post_route : List String → Route
post_route (a ∷ ns ∷ name ∷ b ∷ []) =
    if a == "polls" && b == "vote" && not (ns == "") && not (name == "")
    then vote ns name
    else not_allowed
post_route _ = not_allowed

unfoldable pub route : String → List String → Route
route method segments =
    if is_get method
    then get_route segments
    else if method == "POST"
    then post_route segments
    else not_allowed

module _ (kube : Kube) where
  abbrev pub serve_route : Route → Request → kube.Store → Reply × kube.Store
  serve_route root r s = (handle_root r.segments, s)
  serve_route list r s = (handle_list_polls kube s, s)
  serve_route (detail ns name) r s = (handle_poll_detail kube ns name r.cookie s, s)
  serve_route (vote ns name) r s = handle_vote kube ns name r.posted s
  serve_route health r s = (healthy, s)
  serve_route not_allowed r s = (http_error "Method Not Allowed" 405, s)

  unfoldable pub serve : Request → kube.Store → Reply × kube.Store
  serve r s = serve_route (route r.method r.segments) r s
