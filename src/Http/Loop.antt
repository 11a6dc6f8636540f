-- ===== src/Http/Loop.antt =====
-- The loop of `HttpServer::start` in src/http/HttpServer.cpp: connections are answered one after the other, and
-- the threads of the queries run in between. The calls that open the socket are not part of it.
use code_tribunal.Prelude.{
  ℕ, get_elem?, inl, inr, Bool-cases, Option-cases, true, Option, none, some, List, [], ◌∷◌, Text,
  is_empty,
}
use code_tribunal.Prelude.Int.{pos}
use code_tribunal.Core.Types.{Configuration}
use code_tribunal.Core.Council.{DebateResult, initialize_analysts, run_debate}
use code_tribunal.Util.Metrics.{Reals, Metrics}
use code_tribunal.Llm.Factory.{provider_config, create_from_config}
use code_tribunal.Http.Request.{
  Parsed, no_fuel, throws, malformed, request, parse_request, Response,
}
use code_tribunal.Http.Jobs.{ExecutionJob, update_job_output}
use code_tribunal.Http.Jobs.Store.{
  IsConsistent, no_jobs-IsConsistent, allocate_job-IsConsistent, update_job_output-IsConsistent,
}
use code_tribunal.Http.Routes.{Route, route}
use code_tribunal.Http.Server.{
  HttpServer, new_server, Handled, replied, ignored, crashed, blocked, unfinished, query_of,
  handle_query, answer, serve, dispatch, handle_request,
}
use code_tribunal.Http.Execution.{
  Surroundings, made_client, output_text, with_metrics, fail_job, complete_job, execute_query,
  erase_at, run_thread,
}

-- A connection with the clock in seconds and in milliseconds and the bytes that are received, or the run of
-- one of the threads that wait, by its place.
pub data LoopEvent : Type 0 where
  connection : ℕ → ℕ → Text → LoopEvent
  thread : ℕ → Surroundings → LoopEvent

module _ (R : Reals) where
  -- `none`: the server has ended by an exception, or waits for ever.
  abbrev pub server_after : Handled R → Option (HttpServer R)
  server_after (replied r s) = some s
  server_after (ignored s) = some s
  server_after crashed = none
  server_after blocked = none
  server_after unfinished = none

  unfoldable pub loop_event : Text → LoopEvent → HttpServer R → Option (HttpServer R)
  unfolding handle_request run_thread
  loop_event dashboard (connection now now_ms bytes) s =
      server_after (handle_request R dashboard now now_ms bytes s)
  loop_event dashboard (thread i w) s = run_thread R i w s

  unfoldable pub serve_connections : Text → List LoopEvent → HttpServer R → Option (HttpServer R)
  unfolding loop_event
  serve_connections dashboard [] s = some s
  serve_connections dashboard (e ∷ es) s = elim (loop_event dashboard e s) [
    | none ↦ none
    | some s' ↦ serve_connections dashboard es s'
  ]

  -- The store is consistent in what is left of the server, if anything is.
  abbrev pub StoreKept : Option (HttpServer R) → Type 0
  StoreKept none = Unit
  StoreKept (some s) = IsConsistent s.store

  answer-StoreKept :
      (s : HttpServer R) (r : Option Response)
      → IsConsistent s.store
      → StoreKept (server_after (answer R s r))
  answer-StoreKept s none c = tt
  answer-StoreKept s (some r) c = c

  handle_query-StoreKept :
      (now : ℕ) (body : Text) (s : HttpServer R)
      → IsConsistent s.store
      → StoreKept (server_after (handle_query R now body s))
  unfolding handle_query
  handle_query-StoreKept now body s c = elim (Bool-cases (is_empty (query_of body))) [
    | inl missing ↦ rw (handle_query, missing) c
    | inr given ↦
        rw (handle_query, given) (allocate_job-IsConsistent s.config now (query_of body) s.store c)
  ]

  serve-StoreKept :
      (dashboard : Text) (now now_ms : ℕ) (target : Route) (s : HttpServer R)
      → IsConsistent s.store
      → StoreKept (server_after (serve R dashboard now now_ms target s))
  unfolding serve
  serve-StoreKept dashboard now now_ms (Route.query body) s c = handle_query-StoreKept now body s c
  serve-StoreKept dashboard now now_ms Route.root s c = c
  serve-StoreKept dashboard now now_ms Route.tasks s c = c
  serve-StoreKept dashboard now now_ms (Route.query_status id) s c = c
  serve-StoreKept dashboard now now_ms Route.uncaught s c = tt
  serve-StoreKept dashboard now now_ms Route.missing_job_id s c = c
  serve-StoreKept dashboard now now_ms Route.metrics s c = answer-StoreKept s _ c
  serve-StoreKept dashboard now now_ms Route.stats s c = answer-StoreKept s _ c
  serve-StoreKept dashboard now now_ms Route.history s c = c
  serve-StoreKept dashboard now now_ms (Route.history_search q) s c = c
  serve-StoreKept dashboard now now_ms Route.missing_q s c = c
  serve-StoreKept dashboard now now_ms (Route.debate_progress id) s c = c
  serve-StoreKept dashboard now now_ms (Route.debate_visualization id) s c = c
  serve-StoreKept dashboard now now_ms Route.invalid_job_id s c = c
  serve-StoreKept dashboard now now_ms (Route.metrics_trends p) s c = answer-StoreKept s _ c
  serve-StoreKept dashboard now now_ms (Route.metrics_percentiles p) s c = answer-StoreKept s _ c
  serve-StoreKept dashboard now now_ms (Route.metrics_tokens p) s c = answer-StoreKept s _ c
  serve-StoreKept dashboard now now_ms (Route.metrics_models p) s c = answer-StoreKept s _ c
  serve-StoreKept dashboard now now_ms (Route.metrics_timeseries p) s c = answer-StoreKept s _ c
  serve-StoreKept dashboard now now_ms Route.not_found s c = c

  dispatch-StoreKept :
      (dashboard : Text) (now now_ms : ℕ) (parsed : Parsed) (s : HttpServer R)
      → IsConsistent s.store
      → StoreKept (server_after (dispatch R dashboard now now_ms parsed s))
  dispatch-StoreKept dashboard now now_ms no_fuel s c = tt
  dispatch-StoreKept dashboard now now_ms throws s c = tt
  dispatch-StoreKept dashboard now now_ms malformed s c = c
  dispatch-StoreKept dashboard now now_ms (request method path body) s c =
      serve-StoreKept dashboard now now_ms (route method path body) s c

  with_metrics-StoreKept :
      (s : HttpServer R) (m : Option (Metrics R.Real))
      → IsConsistent s.store
      → StoreKept (with_metrics R s m)
  with_metrics-StoreKept s none c = tt
  with_metrics-StoreKept s (some m) c = c

  fail_job-StoreKept :
      (w : Surroundings) (job : ExecutionJob) (output message : Text) (s : HttpServer R)
      → IsConsistent s.store
      → StoreKept (fail_job R w job output message s)
  unfolding fail_job
  fail_job-StoreKept w job output message s c =
      with_metrics-StoreKept
        (record s { store = update_job_output w.end_time job.job_id output (pos 2) s.store }) _
        (update_job_output-IsConsistent w.end_time job.job_id output (pos 2) s.store c)

  complete_job-StoreKept :
      (w : Surroundings) (job : ExecutionJob) (result : DebateResult) (s : HttpServer R)
      → IsConsistent s.store
      → StoreKept (complete_job R w job result s)
  unfolding complete_job
  complete_job-StoreKept w job result s c =
      let output = output_text w.elapsed_ms result in
      with_metrics-StoreKept
        (record s { store = update_job_output w.end_time job.job_id output (pos 1) s.store }) _
        (update_job_output-IsConsistent w.end_time job.job_id output (pos 1) s.store c)

  execute_query-StoreKept :
      (w : Surroundings) (job : ExecutionJob) (s : HttpServer R)
      → IsConsistent s.store
      → StoreKept (execute_query R w job s)
  unfolding execute_query
  execute_query-StoreKept w job s c =
      let made =
        made_client (create_from_config w.curl_init w.getenv (provider_config s.config) 120) in
      let (council', ready) = initialize_analysts true s.config.models s.council in
      let (council'', result) = run_debate w.world job.query job.rounds council' in
      elim (Option-cases made) [
        | inr (what, e) ↦ rw (execute_query, e) (fail_job-StoreKept w job _ what s c)
        | inl e ↦ elim (Bool-cases ready) [
          | inl yes_ready ↦
              rw (execute_query, e, yes_ready)
                (complete_job-StoreKept w job result (record s { council = council'' }) c)
          | inr not_ready ↦
              rw (execute_query, e, not_ready)
                (fail_job-StoreKept w job _ _ (record s { council = council' }) c)
        ]
      ]

  run_thread-StoreKept :
      (i : ℕ) (w : Surroundings) (s : HttpServer R)
      → IsConsistent s.store
      → StoreKept (run_thread R i w s)
  unfolding run_thread
  run_thread-StoreKept i w s c = elim (Option-cases (get_elem? s.threads i)) [
    | inl e ↦ rw (run_thread, e) c
    | inr (job, e) ↦
        rw (run_thread, e)
          (execute_query-StoreKept w job (record s { threads = erase_at i s.threads }) c)
  ]

  loop_event-StoreKept :
      (dashboard : Text) (e : LoopEvent) (s : HttpServer R)
      → IsConsistent s.store
      → StoreKept (loop_event dashboard e s)
  unfolding loop_event handle_request
  loop_event-StoreKept dashboard (connection now now_ms []) s c = c
  loop_event-StoreKept dashboard (connection now now_ms (b ∷ bytes)) s c =
      dispatch-StoreKept dashboard now now_ms (parse_request (b ∷ bytes)) s c
  loop_event-StoreKept dashboard (thread i w) s c = run_thread-StoreKept i w s c

  connections-StoreKept :
      (dashboard : Text) (es : List LoopEvent) (s : HttpServer R)
      → IsConsistent s.store
      → StoreKept (serve_connections dashboard es s)
  unfolding serve_connections
  connections-StoreKept dashboard [] s c = c
  connections-StoreKept dashboard (e ∷ es) s c = elim (Option-cases (loop_event dashboard e s)) [
    | inl ended ↦ rw (serve_connections, ended) tt
    | inr (s', goes) ↦
        rw (serve_connections, goes)
          (connections-StoreKept dashboard es s'
            (rw goes at (loop_event-StoreKept dashboard e s c)))
  ]

  -- Whatever bytes the connections bring and in whatever order the threads of the queries run, a web server that
  -- still runs has a consistent job store: the jobs are numbered from 1 on without gaps, and the map and
  -- the history hold the same queries.
  pub serve_connections-IsConsistent :
      (dashboard : Text) (es : List LoopEvent) (config : Configuration) (m : Metrics R.Real)
      → StoreKept (serve_connections dashboard es (new_server R config m))
  unfolding new_server
  serve_connections-IsConsistent dashboard es config m =
      connections-StoreKept dashboard es (new_server R config m) no_jobs-IsConsistent
