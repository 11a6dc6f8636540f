-- ===== src/Http/Routes.antt =====
-- The choice of a handler: the branches of `handle_request` in src/http/HttpServer.cpp.
pub mod Reach
use code_tribunal.Prelude.{
  ℕ, ◌+◌, ◌-◌, ltb, Bool, true, false, ◌&&◌, ◌||◌, Option, none, some, List, [], Text, text,
  text_eq, find, take, drop, if◌then◌else◌,
}
use code_tribunal.Prelude.Int.{ℤ}
use code_tribunal.Prelude.Stoi.{stoi}

-- The handler with its arguments, or the answer that needs none.
pub data Route : Type 0 where
  root : Route
  tasks : Route
  query : Text → Route
  query_status : ℤ → Route
  -- An exception of `std::stoi` that nothing catches.
  uncaught : Route
  missing_job_id : Route
  metrics : Route
  stats : Route
  history : Route
  history_search : Text → Route
  missing_q : Route
  debate_progress : ℤ → Route
  debate_visualization : ℤ → Route
  invalid_job_id : Route
  metrics_trends : Text → Route
  metrics_percentiles : Text → Route
  metrics_tokens : Text → Route
  metrics_models : Text → Route
  metrics_timeseries : Text → Route
  not_found : Route

abbrev pub status_of : Option ℤ → Route
status_of none = uncaught
status_of (some id) = query_status id

unfoldable pub status_route : Text → Route
unfolding stoi
status_route path = elim (find (text "job_id=") path) [
  | none ↦ missing_job_id
  | some p ↦ status_of (stoi 10 (drop (p + 7) path))
]

unfoldable pub search_route : Text → Route
search_route path = elim (find (text "q=") path) [
  | none ↦ missing_q
  | some p ↦ history_search (drop (p + 2) path)
]

-- `path.substr(11, end - 11)`, where the length wraps around to a large one if `end` is below 11.
abbrev id_text : ℕ → Text → Text
id_text end path = if ltb end 11 then drop 11 path else take (end - 11) (drop 11 path)

abbrev with_id : (ℤ → Route) → Option ℤ → Route
with_id page none = invalid_job_id
with_id page (some id) = page id

unfoldable pub debate_route : Text → Route
unfolding stoi
debate_route path = elim (find (text "/progress") path) [
  | some p ↦ with_id debate_progress (stoi 10 (id_text p path))
  | none ↦ elim (find (text "/visualization") path) [
    | some p ↦ with_id debate_visualization (stoi 10 (id_text p path))
    | none ↦ not_found
  ]
]

abbrev contains : Text → Text → Bool
contains pat path = elim (find pat path) [ none ↦ false | some p ↦ true ]

-- The part of the path from the question mark on.
abbrev params_of : Text → Text
params_of path = elim (find (text "?") path) [ none ↦ [] | some p ↦ drop p path ]

unfoldable pub metrics_route : Text → Route
unfolding find
metrics_route path =
    if contains (text "/trends") path
    then metrics_trends (params_of path)
    else if contains (text "/percentiles") path
    then metrics_percentiles (params_of path)
    else if contains (text "/tokens") path
    then metrics_tokens (params_of path)
    else if contains (text "/models") path
    then metrics_models (params_of path)
    else if contains (text "/timeseries") path
    then metrics_timeseries (params_of path)
    else not_found

-- Does the path begin so, as `substr` of that length compares it?
abbrev pub begins : ℕ → Text → Text → Bool
begins n pat path = text_eq (take n path) pat

unfoldable pub route : Text → Text → Text → Route
unfolding text_eq status_route search_route debate_route metrics_route
route method path body =
    let is_get = text_eq method (text "GET") in
    if text_eq path (text "/") || text_eq path (text "/index.html")
    then root
    else if text_eq path (text "/api/tasks") && is_get
    then tasks
    else if text_eq path (text "/api/query") && text_eq method (text "POST")
    then query body
    else if begins 11 (text "/api/query?") path && is_get
    then status_route path
    else if text_eq path (text "/metrics") && is_get
    then metrics
    else if text_eq path (text "/api/stats") && is_get
    then stats
    else if text_eq path (text "/api/history") && is_get
    then history
    else if begins 18 (text "/api/history/search") path && is_get
    then search_route path
    else if begins 15 (text "/api/debate/") path && is_get
    then debate_route path
    else if begins 14 (text "/api/metrics/") path && is_get
    then metrics_route path
    else not_found
