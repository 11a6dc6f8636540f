-- ===== src/Http/Server.antt =====
-- The web server: `handle_request`, `handle_query` and `execute_query_async` of
-- src/http/HttpServer.cpp. A request runs to its end before the next one is accepted. The threads of
-- the queries wait in `threads` until they run, each to its end; those of two queries do not
-- interleave here.
pub mod Failures
use code_tribunal.Prelude.{
  ℕ, ◌+◌, ◌-◌, ◌*◌, Bool, true, false, Option, none, some, List, [], ◌∷◌, ◌++◌, Text, text, find,
  find_char, take, drop, length, is_empty, to_string, if◌then◌else◌,
}
use code_tribunal.Prelude.Int.{ℤ, pos, negsuc, show_ℤ, sub_ℕ}
use code_tribunal.Core.Types.{Configuration}
use code_tribunal.Core.Council.{
  DebateResult, Council, World, new_council, initialize_analysts, run_debate,
}
use code_tribunal.Util.Metrics.{Reals, DebateMetrics, Metrics, record_debate}
use code_tribunal.Llm.Factory.{
  Client, ollama, Created, created, invalid_argument, Getenv, ProviderConfig, create_from_config,
}
use code_tribunal.Http.Request.{
  Parsed, no_fuel, throws, malformed, request, parse_request, Response,
}
use code_tribunal.Http.Jobs.{ExecutionJob, JobStore, no_jobs, allocate_job, update_job_output}
use code_tribunal.Http.Pages.{
  json, plain, handle_tasks, handle_query_status, handle_history, handle_history_search,
  handle_debate_progress, handle_debate_visualization,
}
use code_tribunal.Http.Statistics.{
  handle_metrics, handle_stats, handle_metrics_trends, handle_metrics_percentiles,
  handle_metrics_tokens, handle_metrics_models, handle_metrics_timeseries,
}
use code_tribunal.Http.Routes
use code_tribunal.Http.Routes.{Route, route}

-- The text of a query in the JSON of a request, to the next quotation mark if there is one.
unfoldable pub query_of : Text → Text
query_of body = elim (find (text "\"query\":\"") body) [
  | none ↦ []
  | some p ↦
      (let start = drop (p + 9) body in
        elim (find_char b'"' start) [ none ↦ start | some e ↦ take e start ])
]

module _ (R : Reals) where
  pub record HttpServer : Type 0 where
    pub config : Configuration
    pub council : Council
    pub store : JobStore
    pub debates : Metrics R.Real
    pub threads : List ExecutionJob

  -- The metrics belong to the process.
  unfoldable pub new_server : Configuration → Metrics R.Real → HttpServer
  unfolding new_council
  new_server config debates = record {
    config = config;
    council = new_council config;
    store = no_jobs;
    debates = debates;
    threads = [];
  }

  pub data Handled : Type 0 where
    replied : Response → HttpServer → Handled
    -- Nothing was received: the connection is closed.
    ignored : HttpServer → Handled
    -- An exception leaves `handle_request`, and with it the loop of the server.
    crashed : Handled
    -- The thread of the server waits for a lock that it holds itself.
    blocked : Handled
    -- The fuel of a loop ran out.
    unfinished : Handled

  unfoldable pub handle_query : ℕ → Text → HttpServer → Handled
  unfolding query_of allocate_job show_ℤ
  handle_query now body s =
      let query = query_of body in
      let (job, store') = allocate_job s.config now query s.store in
      let job' = record job { rounds = s.config.rounds } in
      if is_empty query
      then replied (json 400 (text "{\"error\":\"missing query\"}")) s
      else replied (json 200 (text "{\"job_id\":" ++ (show_ℤ job'.job_id ++ text "}")))
          (record s { store = store'; threads = s.threads ++ job' ∷ [] })

  abbrev pub answer : HttpServer → Option Response → Handled
  answer s none = blocked
  answer s (some r) = replied r s

  -- `dashboard` is the page of `get_dashboard_html`, `now` the clock in seconds and `now_ms` the one
  -- in milliseconds.
  unfoldable pub serve : Text → ℕ → ℕ → Route → HttpServer → Handled
  unfolding handle_query handle_tasks handle_query_status handle_history handle_history_search
      handle_debate_progress handle_debate_visualization handle_metrics handle_stats
      handle_metrics_trends handle_metrics_percentiles handle_metrics_tokens handle_metrics_models
      handle_metrics_timeseries
  serve dashboard now now_ms Route.root s =
      replied (record { status_code = 200; content_type = text "text/html"; body = dashboard }) s
  serve dashboard now now_ms Route.tasks s = replied (handle_tasks s.store) s
  serve dashboard now now_ms (Route.query body) s = handle_query now body s
  serve dashboard now now_ms (Route.query_status id) s = replied (handle_query_status id s.store) s
  serve dashboard now now_ms Route.uncaught s = crashed
  serve dashboard now now_ms Route.missing_job_id s =
      replied (json 400 (text "{\"error\":\"missing job_id\"}")) s
  serve dashboard now now_ms Route.metrics s = answer s (handle_metrics R s.debates)
  serve dashboard now now_ms Route.stats s = answer s (handle_stats R s.debates)
  serve dashboard now now_ms Route.history s = replied (handle_history s.store) s
  serve dashboard now now_ms (Route.history_search q) s =
      replied (handle_history_search q s.store) s
  serve dashboard now now_ms Route.missing_q s =
      replied (json 400 (text "{\"error\":\"missing q parameter\"}")) s
  serve dashboard now now_ms (Route.debate_progress id) s =
      replied (handle_debate_progress id s.store) s
  serve dashboard now now_ms (Route.debate_visualization id) s =
      replied (handle_debate_visualization id s.store) s
  serve dashboard now now_ms Route.invalid_job_id s =
      replied (json 400 (text "{\"error\":\"invalid job_id\"}")) s
  serve dashboard now now_ms (Route.metrics_trends p) s =
      answer s (handle_metrics_trends R p s.debates)
  serve dashboard now now_ms (Route.metrics_percentiles p) s =
      answer s (handle_metrics_percentiles R p s.debates)
  serve dashboard now now_ms (Route.metrics_tokens p) s =
      answer s (handle_metrics_tokens R p s.debates)
  serve dashboard now now_ms (Route.metrics_models p) s =
      answer s (handle_metrics_models R p s.debates)
  serve dashboard now now_ms (Route.metrics_timeseries p) s =
      answer s (handle_metrics_timeseries R now_ms p s.debates)
  serve dashboard now now_ms Route.not_found s = replied (plain 404 (text "Not Found")) s

  abbrev pub dispatch : Text → ℕ → ℕ → Parsed → HttpServer → Handled
  dispatch dashboard now now_ms no_fuel s = unfinished
  dispatch dashboard now now_ms throws s = crashed
  dispatch dashboard now now_ms malformed s = replied (plain 400 (text "Bad Request")) s
  dispatch dashboard now now_ms (request method path body) s =
      serve dashboard now now_ms (route method path body) s

  -- The bytes are those of one `recv`, at most 4095.
  unfoldable pub handle_request : Text → ℕ → ℕ → Text → HttpServer → Handled
  unfolding parse_request route serve
  handle_request dashboard now now_ms [] s = ignored s
  handle_request dashboard now now_ms (b ∷ buffer) s =
      dispatch dashboard now now_ms (parse_request (b ∷ buffer)) s
