-- ===== src/Http/Execution.antt =====
-- The thread of a query: `execute_query_async` of src/http/HttpServer.cpp.
pub mod Outcome
use code_tribunal.Prelude.{
  ℕ, zero, suc, get_elem?, ◌+◌, ◌-◌, ◌*◌, Bool, true, false, Option, none, some, List, [], ◌∷◌,
  ◌++◌, Text, text, find, find_char, take, drop, length, is_empty, to_string, if◌then◌else◌,
}
use code_tribunal.Prelude.Int.{ℤ, pos, negsuc, show_ℤ, sub_ℕ}
use code_tribunal.Core.Types.{Configuration}
use code_tribunal.Core.Council.{
  DebateResult, Council, World, new_council, initialize_analysts, run_debate,
}
use code_tribunal.Util.Metrics.{Reals, DebateMetrics, Metrics, record_debate}
use code_tribunal.Llm.Factory.{
  Created, created, invalid_argument, runtime_error, Getenv, provider_config, create_from_config,
}
use code_tribunal.Http.Request.{
  Parsed, no_fuel, throws, malformed, request, parse_request, Response,
}
use code_tribunal.Http.Jobs.{ExecutionJob, JobStore, no_jobs, allocate_job, update_job_output}
use code_tribunal.Http.Pages.{
  json, plain, handle_tasks, handle_query_status, handle_history, handle_history_search,
  handle_debate_progress, handle_debate_visualization,
}
use code_tribunal.Http.Statistics.{
  handle_metrics, handle_stats, handle_metrics_trends, handle_metrics_percentiles,
  handle_metrics_tokens, handle_metrics_models, handle_metrics_timeseries,
}
use code_tribunal.Http.Routes
use code_tribunal.Http.Routes.{Route, route}
use code_tribunal.Http.Server.{HttpServer}

-- What a query meets outside the program: the environment, whether libcurl gives a handle, the
-- clients and threads of its debate, `std::hash`, its time in milliseconds and the clock at its end
-- in seconds.
pub record Surroundings : Type 0 where
  pub getenv : Getenv
  pub curl_init : Bool
  pub world : World
  pub hash : Text → ℕ
  pub elapsed_ms : ℕ
  pub end_time : ℕ

-- The message of an exception, or `none` for a client.
abbrev pub made_client : Created → Option Text
made_client (invalid_argument message) = some message
made_client (runtime_error message) = some message
made_client (created c) = none

unfoldable pub output_text : ℕ → DebateResult → Text
unfolding show_ℤ
output_text elapsed r =
    text "Debate completed.\nWinner: Analyst "
    ++ (elim r.final_winner [ none ↦ text "-1" | some i ↦ to_string i ]
        ++ (text "\nRounds: "
            ++ (to_string r.rounds_completed
                ++ (text "\nPruned: "
                    ++ (to_string r.analysts_pruned
                        ++ (text " analysts\nDuration: " ++ (to_string elapsed ++ text "ms")))))))

-- The list without the element at a place.
abbrev pub erase_at : ℕ → List ExecutionJob → List ExecutionJob
erase_at i [] = []
erase_at zero (job ∷ jobs) = jobs
erase_at (suc i) (job ∷ jobs) = job ∷ erase_at i jobs

module _ (R : Reals) where
  abbrev pub failure : Text → Text → DebateMetrics R.Real
  failure provider message = record {
    query_hash = [];
    rounds_completed = 0;
    total_tokens_used = 0;
    duration_ms = R.of_int (pos 0);
    first_response_ms = R.of_int (pos 0);
    success = false;
    error = message;
    llm_provider = provider;
  }

  abbrev pub with_metrics : HttpServer R → Option (Metrics R.Real) → Option (HttpServer R)
  with_metrics s none = none
  with_metrics s (some m) = some (record s { debates = m })

  unfoldable pub fail_job :
      Surroundings → ExecutionJob → Text → Text → HttpServer R → Option (HttpServer R)
  unfolding update_job_output
  fail_job w job output message s =
      with_metrics
        (record s { store = update_job_output w.end_time job.job_id output (pos 2) s.store })
        (record_debate (failure s.config.api_type message) s.debates)

  -- After the debate: the metric is recorded before the job is updated.
  unfoldable pub complete_job :
      Surroundings → ExecutionJob → DebateResult → HttpServer R → Option (HttpServer R)
  unfolding update_job_output output_text
  complete_job w job result s =
      let metric = record (failure s.config.api_type []) {
        query_hash = to_string (w.hash job.query);
        rounds_completed = result.rounds_completed;
        duration_ms = R.of_int (pos w.elapsed_ms);
        success = true;
      } in
      with_metrics
        (record s {
          store =
              update_job_output w.end_time job.job_id (output_text w.elapsed_ms result) (pos 1)
                s.store;
        })
        (record_debate metric s.debates)

  -- The thread of a query. `none`: it waits for the lock of the metrics for ever.
  unfoldable pub execute_query : Surroundings → ExecutionJob → HttpServer R → Option (HttpServer R)
  unfolding fail_job complete_job
  execute_query w job s =
      let made =
        made_client (create_from_config w.curl_init w.getenv (provider_config s.config) 120) in
      let (council', ready) = initialize_analysts true s.config.models s.council in
      let (council'', result) = run_debate w.world job.query job.rounds council' in
      let message = text "Failed to initialize analysts" in
      elim made [
        | some what ↦ fail_job w job (text "Error: " ++ what) what s
        | none ↦
            if ready
            then complete_job w job result (record s { council = council'' })
            else fail_job w job message message (record s { council = council' })
      ]

  -- The thread at a place of the waiting ones runs; the threads are detached, so that any may be next.
  unfoldable pub run_thread : ℕ → Surroundings → HttpServer R → Option (HttpServer R)
  unfolding execute_query
  run_thread i w s = elim (get_elem? s.threads i) [
    | none ↦ some s
    | some job ↦ execute_query w job (record s { threads = erase_at i s.threads })
  ]
