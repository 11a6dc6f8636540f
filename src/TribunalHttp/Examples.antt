-- ===== src/TribunalHttp/Examples.antt =====
-- Runs of the definitions for src/tribunal_http.c, and the theorems about it at concrete inputs.
use code_tribunal.Prelude.{
  ℕ, ◌<◌, ◌≡◌, refl, ◌⊎◌, true, false, ltb, leb, none, some, List, [], ◌∷◌, ◌++◌, Text, text,
  length, take, drop, to_string, find, starts_with, if◌then◌else◌, arith,
}
use code_tribunal.Prelude.Int.{ℤ, pos, negsuc, show_ℤ}
use code_tribunal.Prelude.Stoi.{digit_value}
use code_tribunal.TribunalHttp.Jobs.{
  init_jobs, find_job, SandboxResult, allocate_job, change_slot, execute_command_thread,
}
use code_tribunal.TribunalHttp.Jobs.Table.{
  IsSound, init_jobs-IsSound, request, output, do_events, allocate_job-do_events,
  find_job-do_events,
}
use code_tribunal.TribunalHttp.Escape.{output_code, escape_output, json_code, escape_json_string}
use code_tribunal.TribunalHttp.Escape.RoundTrip.{
  unescape, is_legible, IsSubsequence, unescape-escape_output,
}
use code_tribunal.TribunalHttp.Escape.Terminated.{is_closed, escape_json_string_unclosed}
use code_tribunal.TribunalHttp.Scan.{quoted_value}
use code_tribunal.TribunalHttp.Surroundings.{task_pending, Task, Query, Surroundings}
use code_tribunal.TribunalHttp.Reply.{concat, snprintf, json}
use code_tribunal.TribunalHttp.Handlers.{
  Server, handle_get_tasks, handle_get_task_output, handle_run_task,
}
use code_tribunal.TribunalHttp.Handlers.Listing.{list_text, handle_get_tasks-list_text}
use code_tribunal.TribunalHttp.Handlers.Polling.{IsReported, handle_run_task-IsReported}
use code_tribunal.TribunalHttp.Routes.{run_task, task_output, route}
use code_tribunal.TribunalHttp.Routes.Reach.{route-task, is_live, route_live}
use code_tribunal.TribunalHttp.Service.{
  ServiceEvent, connection, job_output, job_end, start, http_server_thread,
  http_server_thread-IsSound,
}

abbrev overflow : Text → ℤ
overflow s = pos 0

abbrev build_task : Task
build_task = record {
  id = pos 1;
  name = text "build";
  status = task_pending;
  progress_percent = pos 0;
  priority = pos 5;
}

abbrev memory : Text → Text
memory s = s ++ 0 ∷ []

abbrev parsed : Text → Query
parsed s = record {
  intent = 0;
  query = s;
  context = [];
  metric = [];
  subject = [];
  week = negsuc 0;
  round = negsuc 0;
  confidence = pos 50;
  debug_info = [];
}

-- The files are the patches that are applied, the last one first.
abbrev outside : Surroundings (List Text)
outside = record {
  task_create = λ tasks name priority. (pos 2, tasks);
  task_get = λ tasks task_id. elim tasks [ [] ↦ none | t ∷ ts ↦ some t ];
  task_start = λ tasks task_id. tasks;
  task_set_progress = λ tasks task_id percent. tasks;
  parse_query = parsed;
  generate_response = λ q. none;
  patch_generate = λ path change files.
      (record { diff = memory change; success = true; error_message = [] }, files);
  patch_apply =
      λ path patch files. (record { test_passed = true; test_output = memory [] }, patch ∷ files);
  patch_rollback = λ path files. drop 1 files;
  patch_run_tests = λ files. (true, memory (text "ok"), files);
  patch_commit_to_git = λ path message files. (pos 0, files);
  scan_overflow = overflow;
}

-- Every command prints two chunks.
abbrev sandbox : Text → List Text × SandboxResult
sandbox command = (
  text "one\n" ∷ command ∷ [],
  record { duration_ms = pos 12; success = pos 1; peak_memory_kb = pos 900 },
)

abbrev idle_server : Server (List Text)
idle_server = record { tasks = build_task ∷ []; table = init_jobs; files = [] }

abbrev run_body : Text
run_body = text "{\"command\":\"make\"}"

two_requests :
    (allocate_job 0 (pos 1) (text "make") (do_events (request 0 (pos 1) [] ∷ []) init_jobs)).0
    ≡ some 1
two_requests = allocate_job-do_events (request 0 (pos 1) [] ∷ []) 0 (pos 1) (text "make")

escaped_quote : escape_output 16384 (text "a\"b\n") ≡ text "a\\\"b\\n"
unfolding escape_output
escaped_quote = refl

colour : escape_json_string (27 ∷ (text "[31mred" ++ 0 ∷ [])) 64 ≡ some (text "red")
unfolding escape_json_string json_code
colour = refl

allocate_job-do_events_example :
    (allocate_job 7
      (pos 1)
      (text "make")
      (do_events (request 3 (pos 1) (text "ls") ∷ output 0 (text "a") ∷ []) init_jobs)).0
    ≡ some 1
allocate_job-do_events_example =
    allocate_job-do_events (request 3 (pos 1) (text "ls") ∷ output 0 (text "a") ∷ []) 7 (pos 1)
      (text "make")

find_job-do_events_example :
    find_job
      (pos 2)
      (do_events (request 3 (pos 1) (text "ls") ∷ request 4 (pos 1) (text "make") ∷ []) init_jobs)
    ≡ some 1
find_job-do_events_example =
    find_job-do_events (request 3 (pos 1) (text "ls") ∷ request 4 (pos 1) (text "make") ∷ []) 1

route-task_example :
    (route overflow (text "POST") (text "/api/tasks/7/progress") ≡ run_task (pos 7))
    × (route overflow (text "GET") (text "/api/tasks/7/progress") ≡ task_output (pos 7))
unfolding digit_value to_string
route-task_example = route-task overflow 7 (text "/progress") (omega arith) refl

unescape-escape_output_example :
    (length (escape_output 16384 (text "a\"b")) < 16384)
    × ((is_legible output_code (text "a\"b") ≡ false)
        ⊎ ((t : Text) × (unescape (escape_output 16384 (text "a\"b")) ≡ some t)
            × IsSubsequence t (text "a\"b")))
    × ((ltb 8191 3 ≡ true)
        ⊎ (unescape (escape_output 16384 (text "a\"b"))
            ≡ (if is_legible output_code (text "a\"b") then some (text "a\"b") else none)))
unescape-escape_output_example = unescape-escape_output (text "a\"b")

escape_json_string_unclosed_example :
    escape_json_string (text "hi" ++ 27 ∷ b'[' ∷ (text "31" ++ 0 ∷ text "secret")) 64
    ≡ escape_json_string (text "hisecret") 64
unfolding is_closed
escape_json_string_unclosed_example =
    escape_json_string_unclosed (text "hi") (text "31") (text "ecret") b's' 64 refl refl refl

handle_get_tasks-list_text_example : handle_get_tasks (build_task ∷ []) ≡ (
    if leb (length (list_text (build_task ∷ []))) 16381
    then some (json 200 ((text "[" ++ list_text (build_task ∷ [])) ++ text "]"))
    else none)
handle_get_tasks-list_text_example = handle_get_tasks-list_text (build_task ∷ [])

handle_run_task-IsReported_example :
    let command = quoted_value (text "\"command\":") 511 [] run_body in
    let (reply, s) = handle_run_task outside 5 true (pos 1) run_body idle_server in
    let (chunks, result) = sandbox (take 511 command) in
    let query_string = some (text "job_id=" ++ (to_string 1 ++ text " HTTP/1.1")) in
    let later = change_slot 0 (execute_command_thread sandbox) s.table in
    (reply
      ≡ json 202 (
          snprintf 256 (
            concat (
              text "{\"job_id\":"
              ∷ show_ℤ (pos 1)
              ∷ text ",\"status\":\"running\",\"message\":\"Command started\"}"
              ∷ []))))
    × (s.tasks ≡ idle_server.tasks)
    × IsReported 1 chunks result (handle_get_task_output overflow query_string later)
unfolding quoted_value find starts_with digit_value
handle_run_task-IsReported_example =
    handle_run_task-IsReported outside sandbox 5 (pos 1) run_body (text " HTTP/1.1") build_task 0
      idle_server init_jobs-IsSound (omega arith) refl refl refl (omega arith)

route_live_example : is_live (route overflow (text "POST") (text "/api/tasks/1/progress")) ≡ true
route_live_example = route_live overflow (text "POST") (text "/api/tasks/1/progress")

abbrev events : List ServiceEvent
events =
    connection 1 true [] []
      (some (text "POST /api/tasks/1/run HTTP/1.1\r\n\r\n{\"command\":\"ls\"}"))
    ∷ job_output 0 (text "a.c")
    ∷ job_end 0 ((sandbox []).1)
    ∷ []

http_server_thread-IsSound_example :
    (used : ℕ) × IsSound used
      (http_server_thread outside
        (record { html = []; js = [] })
        events
        (start (build_task ∷ []) [])).table
http_server_thread-IsSound_example =
    http_server_thread-IsSound outside (record { html = []; js = [] }) events (build_task ∷ []) []
