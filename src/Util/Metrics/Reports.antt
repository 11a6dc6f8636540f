-- ===== src/Util/Metrics/Reports.antt =====
-- The reports of src/util/Metrics.cpp: `get_prometheus_text` and `get_json_summary`, texts that are
-- built up in a stream, both under the lock that `get_all_stats` takes again.
use code_tribunal.Prelude.{
  ℕ, zero, suc, ◌+◌, ◌-◌, Option, none, some, List, [], ◌∷◌, ◌++◌, Text, text, length,
  if◌then◌else◌, to_string,
}
use code_tribunal.Prelude.Int.{pos}
use code_tribunal.Util.Metrics.{
  Reals, DebateMetrics, ProviderMetrics, Metrics, guarded, get_all_stats, total_from, zero_real,
}

unfoldable pub count_success : {D : Type 0} → List (DebateMetrics D) → ℕ
count_success [] = 0
count_success (d ∷ ds) = if d.success then suc (count_success ds) else count_success ds

unfoldable pub count_failed : {D : Type 0} → List (DebateMetrics D) → ℕ
count_failed [] = 0
count_failed (d ∷ ds) = if d.success then count_failed ds else suc (count_failed ds)

unfoldable pub sum_tokens : {D : Type 0} → List (DebateMetrics D) → ℕ
sum_tokens [] = 0
sum_tokens (d ∷ ds) = d.total_tokens_used + sum_tokens ds

abbrev pub counter_text : Text → Text → ℕ → Text
counter_text name help value =
    text "# HELP "
    ++ (name
        ++ (text " "
            ++ (help
                ++ (text "\n# TYPE "
                    ++ (name
                        ++ (text " counter\n"
                            ++ (name ++ (text " " ++ (to_string value ++ text "\n")))))))))

module _ (R : Reals) where
  abbrev gauge_text : Text → Text → Text → Text
  gauge_text name provider value =
      text "tribunal_provider_"
      ++ (name ++ (text "{provider=\"" ++ (provider ++ (text "\"} " ++ (value ++ text "\n")))))

  unfoldable pub provider_text : ProviderMetrics R.Real → Text
  provider_text s =
      text "# Provider: "
      ++ (s.provider
          ++ (text "\n"
              ++ (gauge_text (text "queries") s.provider (to_string s.queries_total)
                  ++ (gauge_text (text "success") s.provider (to_string s.queries_success)
                      ++ (gauge_text (text "failed") s.provider (to_string s.queries_failed)
                          ++ (gauge_text (text "tokens") s.provider (to_string s.tokens_total)
                              ++ (gauge_text (text "latency_avg") s.provider
                                    (R.print_fixed s.latency_ms_avg)
                                  ++ (gauge_text (text "latency_max") s.provider
                                        (R.print_fixed s.latency_ms_max)
                                      ++ text "\n"))))))))

  unfoldable pub provider_texts : List (ProviderMetrics R.Real) → Text
  unfolding provider_text
  provider_texts [] = []
  provider_texts (s ∷ ss) = provider_text s ++ provider_texts ss

  unfoldable pub get_prometheus_text : Metrics R.Real → Option Text
  unfolding get_all_stats count_success sum_tokens provider_texts
  get_prometheus_text m = guarded m (λ m'. elim (get_all_stats R m') [
    | none ↦ none
    | some all ↦ some (
        counter_text (text "tribunal_debates_total") (text "Total number of debates")
          (length m'.debates)
        ++ (text "\n"
            ++ (counter_text (text "tribunal_debates_success") (text "Total successful debates")
                  (count_success m'.debates)
                ++ (text "\n"
                    ++ (counter_text (text "tribunal_debates_failed") (text "Total failed debates")
                          (length m'.debates - count_success m'.debates)
                        ++ (text "\n"
                            ++ (provider_texts all
                                ++ counter_text (text "tribunal_tokens_total")
                                    (text "Total tokens used across all providers")
                                    (sum_tokens m'.debates))))))))
  ])

  abbrev field_text : Text → Text → Text
  field_text name value = text "      \"" ++ (name ++ (text "\": " ++ (value ++ text ",\n")))

  unfoldable pub provider_json : ProviderMetrics R.Real → Text
  provider_json s =
      text "    {\n"
      ++ (field_text (text "provider") (text "\"" ++ (s.provider ++ text "\""))
          ++ (field_text (text "queries_total") (to_string s.queries_total)
              ++ (field_text (text "queries_success") (to_string s.queries_success)
                  ++ (field_text (text "queries_failed") (to_string s.queries_failed)
                      ++ (field_text (text "tokens_total") (to_string s.tokens_total)
                          ++ (field_text (text "latency_avg_ms") (R.print_fixed s.latency_ms_avg)
                              ++ (text "      \"latency_max_ms\": "
                                  ++ (R.print_fixed s.latency_ms_max ++ text "\n    }"))))))))

  unfoldable pub providers_json : List (ProviderMetrics R.Real) → Text
  unfolding provider_json
  providers_json [] = []
  providers_json (s ∷ []) = provider_json s ++ text "\n"
  providers_json (s ∷ s' ∷ ss) = provider_json s ++ (text ",\n" ++ providers_json (s' ∷ ss))

  abbrev summary_field : Text → Text → Text
  summary_field name value = text "  \"" ++ (name ++ (text "\": " ++ (value ++ text ",\n")))

  -- A quotient by the number of debates, 0.0 if there is none.
  abbrev per_debate : R.Real → ℕ → R.Real
  per_debate x zero = zero_real R
  per_debate x (suc n) = R.div x (R.of_int (pos (suc n)))

  unfoldable pub get_json_summary : Metrics R.Real → Option Text
  unfolding get_all_stats count_success count_failed sum_tokens providers_json total_from
  get_json_summary m = guarded m (λ m'. elim (get_all_stats R m') [
    | none ↦ none
    | some all ↦
        (let total = length m'.debates in
          let successful = count_success m'.debates in
          let duration = total_from R (zero_real R) m'.debates in
          let percent = R.mul (R.of_int (pos 100)) (R.of_int (pos successful)) in
          some (
            text "{\n"
            ++ (summary_field (text "debates_total") (to_string total)
                ++ (summary_field (text "debates_successful") (to_string successful)
                    ++ (summary_field (text "debates_failed") (to_string (count_failed m'.debates))
                        ++ (summary_field (text "success_rate")
                              (R.print_fixed (per_debate percent total))
                            ++ (summary_field (text "tokens_total")
                                  (to_string (sum_tokens m'.debates))
                                ++ (summary_field (text "duration_total_ms")
                                      (R.print_fixed duration)
                                    ++ (summary_field (text "duration_avg_ms")
                                          (R.print_fixed (per_debate duration total))
                                        ++ (text "  \"providers\": [\n"
                                            ++ (providers_json all ++ text "  ]\n}\n")))))))))))
  ])
