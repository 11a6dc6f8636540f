-- ===== src/Http/Execution/Outcome.antt =====
-- What a query of a validated configuration comes to (`execute_query_async` and `handle_query` of
-- src/http/HttpServer.cpp).
use code_tribunal.Prelude.{
  ℕ, ◌≤◌, ◌≡◌, refl, ap, ◌∙◌, Bool, true, false, none, some, List, [], ◌∷◌, ◌++◌, Text, text,
  length, is_empty, to_string, arith, if◌then◌else◌,
}
use code_tribunal.Prelude.Int.{ℤ, pos, eqb_ℤ}
use code_tribunal.Core.ConfigValidator.Errors.{IsRunnable}
use code_tribunal.Core.Council.{
  DebateResult, Council, World, session, finalize_results, initialize_analysts, run_debate,
}
use code_tribunal.Core.Council.Debate.{run_debate-first_wins}
use code_tribunal.Util.Metrics.{Reals, DebateMetrics, Metrics, upsert, record_debate}
use code_tribunal.Llm.Factory.{Client, Created, provider_config, create_from_config}
use code_tribunal.Llm.Factory.Choice.{constructed, create_from_config-IsRunnable}
use code_tribunal.Http.Jobs.{ExecutionJob, lookup_job, find_job, finish_job, update_job_output}
use code_tribunal.Http.Jobs.Lookup.{find_job-update_job_output}
use code_tribunal.Http.Server.{HttpServer}
use code_tribunal.Http.Execution.{
  Surroundings, made_client, output_text, failure, with_metrics, complete_job, execute_query,
}

no_rounds :
    (w : World) (prompt : Text) (n : ℤ) (c : Council) (m : Text) (models : List Text)
    → (run_debate w prompt n (initialize_analysts true (m ∷ models) c).0).1.rounds_completed ≡ 0
unfolding run_debate initialize_analysts session finalize_results
no_rounds w prompt n c m models = refl

-- What a council that is initialised for this debate reports.
pub debate_reports :
    (w : World) (prompt : Text) (n : ℤ) (c : Council) (models : List Text)
    → 1 ≤ length models
    → let (c', ready) = initialize_analysts true models c in
      let result = (run_debate w prompt n c').1 in
      (ready ≡ true)
      × (result.final_winner ≡ some 0)
      × (result.rounds_completed ≡ 0)
      × (result.analysts_pruned ≡ 0)
unfolding initialize_analysts
debate_reports w prompt n c [] h = absurd (omega arith)
debate_reports w prompt n c (m ∷ models) h =
    let wins = run_debate-first_wins w prompt n c m models in
    (refl, wins.0, no_rounds w prompt n c m models, wins.1)

eqb_ℤ_refl : (n : ℕ) → eqb_ℤ (pos n) (pos n) ≡ true
eqb_ℤ_refl n = ground arith

module _ (R : Reals) where
  record_debate-free :
      (d : DebateMetrics R.Real) (m : Metrics R.Real)
      → m.locked ≡ false
      → (m' : Metrics R.Real) × (record_debate d m ≡ some m') × (m'.locked ≡ false)
  unfolding record_debate
  record_debate-free d m h = (
    record {
      locked = false;
      debates = m.debates ++ d ∷ [];
      provider_latencies =
          if is_empty d.llm_provider
          then m.provider_latencies
          else upsert d.llm_provider [] (λ l. l ++ d.duration_ms ∷ []) m.provider_latencies;
    },
    rw h refl,
    refl,
  )

  made_client-created :
      (curl : Bool) (o : Created) (c : Client)
      → curl ≡ true
      → o ≡ constructed curl c
      → made_client o ≡ none
  made_client-created curl o c h e = rw e (rw h refl)

  execute_query-complete_job :
      (w : Surroundings) (job : ExecutionJob) (s : HttpServer R)
      → made_client (create_from_config w.curl_init w.getenv (provider_config s.config) 120) ≡ none
      → (initialize_analysts true s.config.models s.council).1 ≡ true
      → let (council', result) =
          run_debate w.world job.query job.rounds
            (initialize_analysts true s.config.models s.council).0 in
        execute_query R w job s ≡ complete_job R w job result (record s { council = council' })
  unfolding execute_query
  execute_query-complete_job w job s e f = rw (e, execute_query) (rw (f, execute_query) refl)

  -- The output of a job whose debate ran.
  abbrev pub first_analyst_text : ℕ → Text
  first_analyst_text elapsed =
      text "Debate completed.\nWinner: Analyst 0\nRounds: 0\nPruned: 0 analysts\nDuration: "
      ++ (to_string elapsed ++ text "ms")

  output_text-first :
      (elapsed : ℕ) (r : DebateResult)
      → r.final_winner ≡ some 0
      → r.rounds_completed ≡ 0
      → r.analysts_pruned ≡ 0
      → output_text elapsed r ≡ first_analyst_text elapsed
  unfolding output_text to_string
  output_text-first elapsed r a b c = rw (a, b, c) refl

  complete_job-stores :
      (w : Surroundings) (job : ExecutionJob) (result : DebateResult) (s : HttpServer R)
      → s.debates.locked ≡ false
      → (s' : HttpServer R) × (complete_job R w job result s ≡ some s')
        × (s'.store
            ≡ update_job_output w.end_time job.job_id
                (output_text w.elapsed_ms result)
                (pos 1)
                s.store)
        × (s'.debates.locked ≡ false)
  unfolding complete_job
  complete_job-stores w job result s h =
      let metric = record (failure R s.config.api_type []) {
        query_hash = to_string (w.hash job.query);
        rounds_completed = result.rounds_completed;
        duration_ms = R.of_int (pos w.elapsed_ms);
        success = true;
      } in
      let (m', e, free) = record_debate-free metric s.debates h in
      let stored = record s {
        store =
            update_job_output w.end_time job.job_id (output_text w.elapsed_ms result) (pos 1)
              s.store;
      } in
      (record stored { debates = m' }, ap (with_metrics R stored) e, refl, free)

  -- The thread of a stored job, under a validated configuration and with a handle of libcurl, ends:
  -- the job is then complete, and its output names analyst 0 as the winner after 0 rounds with nobody
  -- pruned, whatever the clients answered and however many rounds ran.
  pub execute_query-find_job :
      (w : Surroundings) (id : ℕ) (job stored : ExecutionJob) (s : HttpServer R)
      → IsRunnable s.config
      → w.curl_init ≡ true
      → s.debates.locked ≡ false
      → job.job_id ≡ pos id
      → lookup_job id s.store.jobs ≡ some stored
      → (s' : HttpServer R) × (execute_query R w job s ≡ some s')
        × (find_job (pos id) s'.store
            ≡ finish_job w.end_time (first_analyst_text w.elapsed_ms) (pos 1) stored)
        × (s'.debates.locked ≡ false)
  execute_query-find_job w id job stored s runnable curl free own found =
      let (client, is_made, _) =
        create_from_config-IsRunnable w.curl_init w.getenv s.config 120 runnable in
      let reports =
        debate_reports w.world job.query job.rounds s.council s.config.models
          (omega (arith, runnable.two_models)) in
      let council = (initialize_analysts true s.config.models s.council).0 in
      let (council', result) = run_debate w.world job.query job.rounds council in
      let (s', done, stores, free') =
        complete_job-stores w job result (record s { council = council' }) free in
      let text_out = first_analyst_text w.elapsed_ms in
      let finished = finish_job w.end_time text_out (pos 1) stored in
      let output = output_text-first w.elapsed_ms result reports.1 reports.2 reports.3 in
      (
        s',
        execute_query-complete_job w job s (made_client-created w.curl_init _ client curl is_made)
              reports.0
            ∙ done,
        ap (find_job (pos id)) stores
            ∙ ap
                (λ o. find_job (pos id) (update_job_output w.end_time job.job_id o (pos 1) s.store))
                output
            ∙ ap (λ i. find_job (pos id) (update_job_output w.end_time i text_out (pos 1) s.store))
                own
            ∙ (find_job-update_job_output w.end_time id text_out (pos 1) s.store stored (pos id)
                found).0
            ∙ ap (λ b. if b then finished else find_job (pos id) s.store) (eqb_ℤ_refl id),
        free',
      )
