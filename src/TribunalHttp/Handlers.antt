-- ===== src/TribunalHttp/Handlers.antt =====
-- The handlers of src/tribunal_http.c for tasks and queries. A handler gives its reply and the server after
-- it; a reply of `none` is an access outside a buffer.
pub mod Listing
pub mod Polling
use mathlib.Core.Option
use code_tribunal.Prelude.{
  ℕ, zero, suc, ◌+◌, ◌-◌, Bool, true, false, ◌||◌, leb, Option, none, some, List, [], ◌∷◌, ◌++◌,
  Text, text, length, is_empty, drop, starts_with, get_elem?, if◌then◌else◌,
}
use code_tribunal.Prelude.Int.{ℤ, pos, negsuc, ltb_ℤ, eqb_ℤ, show_ℤ}
use code_tribunal.TribunalHttp.Jobs.{ExecutionJob, JobTable, allocate_job, find_job}
use code_tribunal.TribunalHttp.Escape.{escape_output, escape_json_string}
use code_tribunal.TribunalHttp.Scan.{c_string, quoted_value, int_value, scan_int}
use code_tribunal.TribunalHttp.Surroundings.{
  TaskStatus, task_pending, task_running, task_done, task_failed, task_paused, Task, Query,
  Response, Surroundings,
}
use code_tribunal.TribunalHttp.Reply.{Reply, concat, snprintf, json}

-- The tasks, the static job table and the files that patches change.
pub record Server (F : Type 0) : Type 0 where
  pub tasks : List Task
  pub table : JobTable
  pub files : F

unfoldable pub status_str : TaskStatus → Text
status_str task_pending = text "pending"
status_str task_running = text "running"
status_str task_done = text "done"
status_str task_failed = text "failed"
status_str task_paused = text "paused"

-- The object of a task, with a comma unless it is the last.
unfoldable pub task_text : Task → Bool → Text
unfolding show_ℤ status_str
task_text t last = concat (
    text "{\"id\":"
    ∷ show_ℤ t.id
    ∷ text ",\"name\":\""
    ∷ t.name
    ∷ text "\",\"status\":\""
    ∷ status_str t.status
    ∷ text "\",\"progress\":"
    ∷ show_ℤ t.progress_percent
    ∷ text ",\"priority\":"
    ∷ show_ℤ t.priority
    ∷ text "}"
    ∷ (if last then [] else text ",")
    ∷ [])

-- The loop, with `size - room` bytes written into a buffer of `size`. `snprintf` returns the length of the
-- whole text, so that the position can pass the end of the buffer; then the next write is outside of it.
unfoldable pub write_tasks : ℕ → List Task → Text → Option Text
unfolding task_text
write_tasks size [] written = some written
write_tasks size (t ∷ ts) written =
    let rest = write_tasks size ts (written ++ task_text t (is_empty ts)) in
    if leb (length written) size then rest else none

-- The brackets are written without a test: the last one and the terminator need two bytes.
unfoldable pub handle_get_tasks : List Task → Option Reply
unfolding write_tasks
handle_get_tasks tasks = elim (write_tasks 16384 tasks (text "[")) [
  | none ↦ none
  | some written ↦
      if leb (length written + 2) 16384 then some (json 200 (written ++ text "]")) else none
]

abbrev pub priority_of : ℤ → ℤ
priority_of p = if ltb_ℤ p (pos 1) || ltb_ℤ (pos 10) p then pos 5 else p

-- The reply for a job, under its mutex. `%s` shows the escaped output up to its first NUL.
unfoldable pub job_text : ExecutionJob → Text
unfolding show_ℤ escape_output c_string
job_text job = concat (
    text "{\"job_id\":"
    ∷ show_ℤ job.job_id
    ∷ text ",\"status\":\""
    ∷ (if eqb_ℤ job.status (pos 0)
        then text "running"
        else if eqb_ℤ job.status (pos 1)
        then text "complete"
        else text "failed")
    ∷ text "\",\"output\":\""
    ∷ c_string (escape_output 16384 job.output)
    ∷ text "\",\"success\":"
    ∷ show_ℤ job.success
    ∷ text ",\"duration\":"
    ∷ show_ℤ job.duration_ms
    ∷ text ",\"memory\":"
    ∷ show_ℤ job.memory_kb
    ∷ text "}"
    ∷ [])

abbrev pub no_job_id : Reply
no_job_id = json 400 (text "{\"error\":\"No job_id provided\"}")

abbrev pub job_not_found : Reply
job_not_found = json 404 (text "{\"error\":\"Job not found\"}")

-- The parameter `job_id` of a query string; a missing one is -1.
unfoldable pub job_id_of : (Text → ℤ) → Option Text → ℤ
unfolding scan_int starts_with
job_id_of overflow none = negsuc 0
job_id_of overflow (some query_string) =
    if starts_with (text "job_id=") query_string
    then elim (scan_int overflow (drop 7 query_string)) [ none ↦ negsuc 0 | some n ↦ n ]
    else negsuc 0

unfoldable pub slot_reply : JobTable → Option ℕ → Reply
unfolding job_text snprintf
slot_reply table none = job_not_found
slot_reply table (some slot) = elim (get_elem? table.jobs slot) [
  | none ↦ job_not_found
  | some job ↦ json 200 (snprintf 20480 (job_text job))
]

unfoldable pub handle_get_task_output : (Text → ℤ) → Option Text → JobTable → Reply
handle_get_task_output overflow query_string table =
    let job_id = job_id_of overflow query_string in
    if eqb_ℤ job_id (negsuc 0) then no_job_id else slot_reply table (find_job job_id table)

module _ {F : Type 0} (outside : Surroundings F) where
  unfoldable pub handle_create_task : Text → Server F → Reply × Server F
  unfolding quoted_value int_value snprintf show_ℤ
  handle_create_task body s =
      let name = quoted_value (text "\"name\":") 255 (text "New Task") body in
      let command = quoted_value (text "\"command\":") 511 [] body in
      let priority =
        priority_of (int_value outside.scan_overflow (text "\"priority\":") (pos 5) body) in
      let (task_id, tasks) = outside.task_create s.tasks name priority in
      (
        json 201 (
            snprintf 1024 (
              concat (
                text "{\"id\":"
                ∷ show_ℤ task_id
                ∷ text ",\"name\":\""
                ∷ name
                ∷ text "\",\"command\":\""
                ∷ command
                ∷ text "\",\"priority\":"
                ∷ show_ℤ priority
                ∷ text ",\"status\":\"pending\"}"
                ∷ []))),
        record s { tasks = tasks },
      )

  -- The reply of `handle_run_task` once a slot was asked for. `created` tells whether `pthread_create`
  -- succeeds; a slot that was given out stays so.
  unfoldable pub run_reply : Bool → Option ℕ → JobTable → Reply
  unfolding snprintf show_ℤ
  run_reply created none table = json 500 (text "{\"error\":\"Too many running jobs\"}")
  run_reply false (some slot) table =
      json 500 (text "{\"error\":\"Failed to start execution thread\"}")
  run_reply true (some slot) table = elim (get_elem? table.jobs slot) [
    | none ↦ job_not_found
    | some job ↦ json 202 (
        snprintf 256 (
          concat (
            text "{\"job_id\":"
            ∷ show_ℤ job.job_id
            ∷ text ",\"status\":\"running\",\"message\":\"Command started\"}"
            ∷ [])))
  ]

  -- The task is started before a slot is asked for.
  unfoldable pub handle_run_task : ℕ → Bool → ℤ → Text → Server F → Reply × Server F
  unfolding quoted_value allocate_job run_reply
  handle_run_task now created task_id body s =
      let command = quoted_value (text "\"command\":") 511 [] body in
      if is_empty command
      then (json 400 (text "{\"error\":\"No command provided\"}"), s)
      else elim (outside.task_get s.tasks task_id) [
        | none ↦ (json 404 (text "{\"error\":\"Task not found\"}"), s)
        | some t ↦
            let (slot, table) = allocate_job now task_id command s.table in
            (
              run_reply created slot table,
              record s { tasks = outside.task_start s.tasks task_id; table = table },
            )
      ]

  unfoldable pub handle_set_progress : ℤ → Text → Server F → Reply × Server F
  unfolding int_value snprintf show_ℤ
  handle_set_progress task_id body s =
      let progress = int_value outside.scan_overflow (text "\"progress\":") (pos 0) body in
      (
        json 200 (
            snprintf 256 (
              concat (
                text "{\"id\":"
                ∷ show_ℤ task_id
                ∷ text ",\"progress\":"
                ∷ show_ℤ progress
                ∷ text "}"
                ∷ []))),
        record s { tasks = outside.task_set_progress s.tasks task_id progress },
      )

  unfoldable pub query_reply : ℕ → Response → Text → Reply
  unfolding snprintf show_ℤ
  query_reply intent resp content = json 200 (
      snprintf 8192 (
        concat (
          text "{\"response\":\""
          ∷ content
          ∷ text "\",\"source\":\""
          ∷ resp.source
          ∷ text "\",\"confidence\":"
          ∷ resp.confidence
          ∷ text ",\"intent\":"
          ∷ show_ℤ (pos intent)
          ∷ text ",\"execution_time_ms\":"
          ∷ show_ℤ resp.execution_time_ms
          ∷ text "}"
          ∷ [])))

  unfoldable pub handle_query : Text → Option Reply
  unfolding quoted_value query_reply escape_json_string
  handle_query body =
      let query = quoted_value (text "\"query\":") 511 [] body in
      let parsed_query = outside.parse_query query in
      if is_empty query
      then some (json 400 (text "{\"error\":\"No query provided\"}"))
      else elim (outside.generate_response parsed_query) [
        | none ↦ some (json 500 (text "{\"error\":\"Failed to generate response\"}"))
        | some resp ↦
            Option.map (query_reply parsed_query.intent resp) (escape_json_string resp.content 4096)
      ]
