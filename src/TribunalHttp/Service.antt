-- ===== src/TribunalHttp/Service.antt =====
-- `http_server_thread` of src/tribunal_http.c: the loop that answers one connection after the other, while the
-- detached threads of the jobs run. The calls that open the socket are not part of it.
use code_tribunal.Prelude.{
  ℕ, refl, inl, inr, Bool-cases, Option-cases, Bool, ltb, suc, Option, none, some, List, [], ◌∷◌,
  Text, text, is_empty, if◌then◌else◌,
}
use code_tribunal.Prelude.Int.{ℤ}
use code_tribunal.TribunalHttp.Jobs.{
  init_jobs, SandboxResult, change_slot, task_output_callback, finish_job,
}
use code_tribunal.TribunalHttp.Jobs.Table.{
  IsSound, init_jobs-IsSound, allocate_job-IsSound, change_slot-IsSound, task_output_callback-Fits,
  task_output_callback_job_id,
}
use code_tribunal.TribunalHttp.Scan.{quoted_value}
use code_tribunal.TribunalHttp.Surroundings.{Task, Surroundings}
use code_tribunal.TribunalHttp.Handlers.{Server, handle_run_task}
use code_tribunal.TribunalHttp.Routes.{
  Route, list_tasks, task_output, root, app_js, create_task, query, code_suggest, code_apply,
  run_task, set_progress, options, not_found, bad_request, not_allowed, Request, Pages,
  read_request, route, handle_route, handle_http_request,
}

-- A connection, with the time, whether a thread can be made, what the uninitialised variables hold and the
-- bytes that `recv` gives; and the steps of the thread of a job.
pub data ServiceEvent : Type 0 where
  connection : ℕ → Bool → Text → Text → Option Text → ServiceEvent
  job_output : ℕ → Text → ServiceEvent
  job_end : ℕ → SandboxResult → ServiceEvent

-- `init_jobs` comes first.
unfoldable pub start : {F : Type 0} → List Task → F → Server F
start tasks files = record { tasks = tasks; table = init_jobs; files = files }

module _ {F : Type 0} (outside : Surroundings F) (pages : Pages) where
  unfoldable pub serve_event : ServiceEvent → Server F → Option Text × Server F
  unfolding handle_http_request change_slot
  serve_event (connection now created method path received) s =
      handle_http_request outside pages now created method path received s
  serve_event (job_output slot bytes) s =
      (none, record s { table = change_slot slot (task_output_callback bytes) s.table })
  serve_event (job_end slot result) s =
      (none, record s { table = change_slot slot (finish_job result) s.table })

  unfoldable pub http_server_thread : List ServiceEvent → Server F → Server F
  unfolding serve_event
  http_server_thread [] s = s
  http_server_thread (e ∷ es) s = http_server_thread es (serve_event e s).1

  -- The table is sound with some number of slots in use.
  abbrev pub HasSoundTable : Server F → Type 0
  HasSoundTable s = (used : ℕ) × IsSound used s.table

  handle_run_task-HasSoundTable :
      (now : ℕ) (created : Bool) (task_id : ℤ) (body : Text) (s : Server F)
      → HasSoundTable s
      → HasSoundTable (handle_run_task outside now created task_id body s).1
  unfolding handle_run_task
  handle_run_task-HasSoundTable now created task_id body s (used, sound) =
      let command = quoted_value (text "\"command\":") 511 [] body in
      elim (Bool-cases (is_empty command)) [
        | inl missing ↦ rw (handle_run_task, missing) (used, sound)
        | inr given ↦ elim (Option-cases (outside.task_get s.tasks task_id)) [
          | inl unknown ↦ rw (handle_run_task, given, unknown) (used, sound)
          | inr (task, known) ↦
              rw (handle_run_task, given, known)
                (
                  (if ltb used 32 then suc used else used),
                  allocate_job-IsSound now task_id command used s.table sound,
                )
        ]
      ]

  handle_route-HasSoundTable :
      (now : ℕ) (created : Bool) (target : Route) (r : Request) (s : Server F)
      → HasSoundTable s
      → HasSoundTable (handle_route outside pages now created target r s).1
  unfolding handle_route
  handle_route-HasSoundTable now created (run_task task_id) r s sound =
      handle_run_task-HasSoundTable now created task_id r.body s sound
  handle_route-HasSoundTable now created list_tasks r s sound = sound
  handle_route-HasSoundTable now created (task_output task_id) r s sound = sound
  handle_route-HasSoundTable now created root r s sound = sound
  handle_route-HasSoundTable now created app_js r s sound = sound
  handle_route-HasSoundTable now created create_task r s sound = sound
  handle_route-HasSoundTable now created query r s sound = sound
  handle_route-HasSoundTable now created code_suggest r s sound = sound
  handle_route-HasSoundTable now created code_apply r s sound = sound
  handle_route-HasSoundTable now created (set_progress task_id) r s sound = sound
  handle_route-HasSoundTable now created options r s sound = sound
  handle_route-HasSoundTable now created not_found r s sound = sound
  handle_route-HasSoundTable now created bad_request r s sound = sound
  handle_route-HasSoundTable now created not_allowed r s sound = sound

  serve_event-HasSoundTable :
      (e : ServiceEvent) (s : Server F) → HasSoundTable s → HasSoundTable (serve_event e s).1
  unfolding serve_event finish_job
  serve_event-HasSoundTable (connection now created method path none) s sound = sound
  serve_event-HasSoundTable (connection now created method path (some buffer)) s sound =
      let r = read_request method path buffer in
      handle_route-HasSoundTable now created (route outside.scan_overflow r.method r.path) r s sound
  serve_event-HasSoundTable (job_output slot bytes) s (used, sound) = (
    used,
    change_slot-IsSound slot (task_output_callback bytes) used s.table
        (task_output_callback_job_id bytes) (task_output_callback-Fits bytes) sound,
  )
  serve_event-HasSoundTable (job_end slot result) s (used, sound) =
      (used, change_slot-IsSound slot (finish_job result) used s.table (λ j. refl) (λ j h. h) sound)

  served-HasSoundTable :
      (es : List ServiceEvent) (s : Server F)
      → HasSoundTable s
      → HasSoundTable (http_server_thread es s)
  unfolding http_server_thread
  served-HasSoundTable [] s sound = sound
  served-HasSoundTable (e ∷ es) s sound =
      served-HasSoundTable es (serve_event e s).1 (serve_event-HasSoundTable e s sound)

  -- Whatever bytes the connections bring and however the threads of the jobs run in between, the table
  -- of a server has 32 slots; those in use come first and have the ids from 1 on, and every output leaves
  -- room for its terminator in the buffer.
  pub http_server_thread-IsSound :
      (es : List ServiceEvent) (tasks : List Task) (files : F)
      → (used : ℕ) × IsSound used (http_server_thread es (start tasks files)).table
  unfolding start
  http_server_thread-IsSound es tasks files =
      served-HasSoundTable es (start tasks files) (0, init_jobs-IsSound)
