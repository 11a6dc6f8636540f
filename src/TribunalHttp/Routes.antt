-- ===== src/TribunalHttp/Routes.antt =====
-- `handle_http_request` of src/tribunal_http.c: the request is read from one block of bytes, and its method
-- and path choose a handler.
pub mod Reach
use code_tribunal.Prelude.{
  ℕ, suc, ◌+◌, Bool, true, false, ◌||◌, Option, none, some, [], ◌∷◌, Text, text, text_eq, find,
  find_char, take, drop, if◌then◌else◌,
}
use code_tribunal.Prelude.Int.{ℤ}
use code_tribunal.TribunalHttp.Scan.{c_string, scan_request, scan_task_id}
use code_tribunal.TribunalHttp.Surroundings.{Surroundings}
use code_tribunal.TribunalHttp.Reply.{Reply, concat, plain, http_response}
use code_tribunal.TribunalHttp.Handlers.{
  Server, handle_get_tasks, handle_get_task_output, handle_create_task, handle_run_task,
  handle_set_progress, handle_query,
}
use code_tribunal.TribunalHttp.Code.{handle_code_suggest, handle_code_apply}

pub data Route : Type 0 where
  list_tasks : Route
  task_output : ℤ → Route
  root : Route
  app_js : Route
  create_task : Route
  query : Route
  code_suggest : Route
  code_apply : Route
  run_task : ℤ → Route
  set_progress : ℤ → Route
  options : Route
  not_found : Route
  bad_request : Route
  not_allowed : Route

unfoldable pub get_route : (Text → ℤ) → Text → Route
unfolding scan_task_id text_eq
get_route overflow path =
    if text_eq path (text "/api/tasks") then list_tasks else elim (scan_task_id overflow path) [
      | some task_id ↦ task_output task_id
      | none ↦
          if text_eq path (text "/") || text_eq path (text "/index.html")
          then root
          else if text_eq path (text "/app.js")
          then app_js
          else not_found
    ]

-- The two tests at the end differ in what their formats have behind the number.
unfoldable pub post_route : (Text → ℤ) → Text → Route
unfolding scan_task_id text_eq
post_route overflow path =
    if text_eq path (text "/api/tasks")
    then create_task
    else if text_eq path (text "/api/query")
    then query
    else if text_eq path (text "/api/code/suggest")
    then code_suggest
    else if text_eq path (text "/api/code/apply")
    then code_apply
    else elim (scan_task_id overflow path) [
      | some task_id ↦ run_task task_id
      | none ↦ elim (scan_task_id overflow path) [
        | some task_id ↦ set_progress task_id
        | none ↦ bad_request
      ]
    ]

unfoldable pub route : (Text → ℤ) → Text → Text → Route
unfolding get_route post_route text_eq
route overflow method path =
    if text_eq method (text "GET")
    then get_route overflow path
    else if text_eq method (text "POST")
    then post_route overflow path
    else if text_eq method (text "OPTIONS")
    then options
    else not_allowed

-- What is read of a request: its method and path, its body and the text behind the first question mark.
pub record Request : Type 0 where
  pub method : Text
  pub path : Text
  pub body : Text
  pub query_string : Option Text

-- `buffer` is what `recv` gives, at most 8191 bytes. `method` and `path` are what the variables hold before
-- they are read, which is left open by the C standard.
unfoldable pub read_request : Text → Text → Text → Request
unfolding c_string scan_request find find_char
read_request method path buffer =
    let s = c_string buffer in
    let (found_method, found_path) = scan_request method path s in
    record {
      method = found_method;
      path = found_path;
      body = elim (find (text "\r\n\r\n") s) [ none ↦ [] | some p ↦ take 2047 (drop (p + 4) s) ];
      query_string = elim (find_char b'?' s) [ none ↦ none | some p ↦ some (drop (suc p) s) ];
    }

abbrev pub options_text : Text
options_text = concat (
    text "HTTP/1.1 200 OK\r\nAccess-Control-Allow-Origin: *\r\n"
    ∷ text "Access-Control-Allow-Methods: GET, POST, OPTIONS\r\n"
    ∷ text "Access-Control-Allow-Headers: Content-Type\r\n"
    ∷ text "Connection: close\r\n\r\n"
    ∷ [])

-- The two pages that are compiled into the program.
pub record Pages : Type 0 where
  pub html : Text
  pub js : Text

abbrev pub page : Text → Text → Reply
page content_type body = record { status = 200; content_type = content_type; body = body }

-- What `send` is given. `none`: nothing, or an access outside a buffer comes first.
abbrev pub sent_of : Option Reply → Option Text
unfolding http_response
sent_of none = none
sent_of (some reply) = some (http_response reply)

module _ {F : Type 0} (outside : Surroundings F) (pages : Pages) (now : ℕ) (created : Bool) where
  abbrev with_reply : Reply × Server F → Option Text × Server F
  unfolding http_response
  with_reply (reply, s) = (some (http_response reply), s)

  abbrev with_files : Server F → Option Reply × F → Option Text × Server F
  unfolding http_response
  with_files s (reply, files) = (sent_of reply, record s { files = files })

  unfoldable pub handle_route : Route → Request → Server F → Option Text × Server F
  unfolding http_response handle_get_tasks handle_get_task_output handle_create_task handle_query
      handle_code_suggest handle_code_apply handle_run_task handle_set_progress
  handle_route list_tasks r s = (sent_of (handle_get_tasks s.tasks), s)
  handle_route (task_output task_id) r s = (
    some (http_response (handle_get_task_output outside.scan_overflow r.query_string s.table)),
    s,
  )
  handle_route root r s =
      (some (http_response (page (text "text/html; charset=utf-8") pages.html)), s)
  handle_route app_js r s =
      (some (http_response (page (text "application/javascript") pages.js)), s)
  handle_route create_task r s = with_reply (handle_create_task outside r.body s)
  handle_route query r s = (sent_of (handle_query outside r.body), s)
  handle_route code_suggest r s = with_files s (handle_code_suggest outside r.body s.files)
  handle_route code_apply r s = with_files s (handle_code_apply outside r.body s.files)
  handle_route (run_task task_id) r s =
      with_reply (handle_run_task outside now created task_id r.body s)
  handle_route (set_progress task_id) r s =
      with_reply (handle_set_progress outside task_id r.body s)
  handle_route options r s = (some options_text, s)
  handle_route not_found r s = (some (http_response (plain 404 (text "Not Found"))), s)
  handle_route bad_request r s = (some (http_response (plain 400 (text "Bad Request"))), s)
  handle_route not_allowed r s = (some (http_response (plain 405 (text "Method Not Allowed"))), s)

  -- `none` for a block that is empty or an error of `recv`: nothing is sent.
  unfoldable pub handle_http_request : Text → Text → Option Text → Server F → Option Text × Server F
  unfolding read_request route handle_route
  handle_http_request method path none s = (none, s)
  handle_http_request method path (some buffer) s =
      let r = read_request method path buffer in
      handle_route (route outside.scan_overflow r.method r.path) r s
