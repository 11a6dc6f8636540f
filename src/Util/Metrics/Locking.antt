-- ===== src/Util/Metrics/Locking.antt =====
-- What the lock of src/util/Metrics.cpp does to its reports, and the statistics of a provider.
use code_tribunal.Prelude.{
  ◌+◌, ◌≡◌, ◌≢◌, ◌∙◌, refl, inl, inr, false, none, some, List, [], ◌∷◌, ◌++◌, Text, length,
  Bool-cases, arith,
}
use code_tribunal.Util.Metrics.{
  Reals, DebateMetrics, ProviderMetrics, Metrics, record_debate, of_provider, add_debate,
  add_debates, no_stats, with_average, get_provider_stats, get_all_stats,
}
use code_tribunal.Util.Metrics.Reports.{
  count_success, count_failed, sum_tokens, get_prometheus_text, get_json_summary,
}

module _ (R : Reals) where
  -- The reports in text and in JSON never return: they take the lock that they hold.
  pub reports_blocked :
      (m : Metrics R.Real) → (get_prometheus_text R m ≡ none) × (get_json_summary R m ≡ none)
  unfolding get_prometheus_text get_json_summary
  reports_blocked m = elim (Bool-cases m.locked) [
    | inl t ↦ (rw t refl, rw t refl)
    | inr f ↦ (rw f refl, rw f refl)
  ]

  get_all_stats-cons :
      (m : Metrics R.Real) (d : DebateMetrics R.Real) (ds : List (DebateMetrics R.Real))
      → m.debates ≡ d ∷ ds
      → get_all_stats R m ≡ none
  unfolding get_all_stats
  get_all_stats-cons m d ds e = elim (Bool-cases m.locked) [
    | inl t ↦ rw t refl
    | inr f ↦ rw f (rw e refl)
  ]

  append-cons :
      (ds : List (DebateMetrics R.Real)) (d : DebateMetrics R.Real)
      → (d' : DebateMetrics R.Real) × (ds' : List (DebateMetrics R.Real)) × (ds ++ d ∷ []
          ≡ d' ∷ ds')
  append-cons [] d = (d, [], refl)
  append-cons (x ∷ ds) d = (x, ds ++ d ∷ [], refl)

  -- Once a debate is recorded, the statistics of all providers never come back either, though those
  -- of one provider do.
  pub record_debate-blocks :
      (provider : Text) (d : DebateMetrics R.Real) (m m' : Metrics R.Real)
      → record_debate d m ≡ some m'
      → (get_all_stats R m' ≡ none)
        × (get_prometheus_text R m' ≡ none)
        × (get_json_summary R m' ≡ none)
        × (get_provider_stats R provider m' ≢ none)
  unfolding record_debate get_provider_stats
  record_debate-blocks provider d m m' e =
      let same : (m'.debates ≡ m.debates ++ d ∷ []) × (m'.locked ≡ false) = ground arith in
      let (d', ds', split) = append-cons m.debates d in
      (
        get_all_stats-cons m' d' ds' (same.0 ∙ split),
        (reports_blocked m').0,
        (reports_blocked m').1,
        rw same.1 (ground arith),
      )

  -- The counters that the loop of `get_provider_stats` leaves.
  add_debates-counts :
      (ds : List (DebateMetrics R.Real)) (s : ProviderMetrics R.Real)
      → let s' = add_debates R ds s in
        (s'.queries_total ≡ s.queries_total + length ds)
        × (s'.queries_success ≡ s.queries_success + count_success ds)
        × (s'.queries_failed ≡ s.queries_failed + count_failed ds)
        × (s'.tokens_total ≡ s.tokens_total + sum_tokens ds)
  unfolding add_debates add_debate count_success count_failed sum_tokens
  add_debates-counts [] s = omega arith
  add_debates-counts (d ∷ ds) s = ground (arith, add_debates-counts ds (add_debate R d s))

  count_outcomes :
      (ds : List (DebateMetrics R.Real)) → count_success ds + count_failed ds ≡ length ds
  unfolding count_success count_failed
  count_outcomes [] = omega arith
  count_outcomes (d ∷ ds) = ground (arith, count_outcomes ds)

  -- The statistics of a provider count its recorded debates, the successful and the failed ones and
  -- the tokens of all of them; every debate is a success or a failure.
  pub get_provider_stats-counts :
      (provider : Text) (m : Metrics R.Real) (s : ProviderMetrics R.Real)
      → get_provider_stats R provider m ≡ some s
      → let own = of_provider provider m.debates in
        (s.queries_total ≡ length own)
        × (s.queries_success ≡ count_success own)
        × (s.queries_total ≡ s.queries_success + s.queries_failed)
        × (s.tokens_total ≡ sum_tokens own)
  unfolding get_provider_stats with_average
  get_provider_stats-counts provider m s e =
      let own = of_provider provider m.debates in
      ground (arith, add_debates-counts own (no_stats R provider), count_outcomes own)
