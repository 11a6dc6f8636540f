-- ===== src/Http/Statistics.antt =====
-- The answers about metrics: the handlers `handle_metrics_…` and `handle_stats` of
-- src/http/HttpServer.cpp. `none`: the handler waits for a lock that its thread holds.
pub mod Parameters
use code_tribunal.Prelude.{
  ℕ, zero, suc, ◌+◌, ◌-◌, ◌*◌, ◌/◌, ltb, Bool, Option, none, some, List, [], ◌∷◌, ◌++◌, Text, text,
  find, find_char, take, drop, map, to_string, if◌then◌else◌,
}
use code_tribunal.Prelude.Int.{ℤ, pos, negsuc, show_ℤ}
use code_tribunal.Prelude.Stoi.{stoi}
use code_tribunal.Util.Metrics.{
  Reals, ProviderMetrics, TimeSeriesPoint, PercentileStats, Metrics, get_all_stats, get_percentiles,
  get_token_distribution,
}
use code_tribunal.Util.Metrics.Series.{get_timeseries}
use code_tribunal.Util.Metrics.Reports.{get_prometheus_text, get_json_summary}
use code_tribunal.Http.Request.{Response}
use code_tribunal.Http.Pages.{json, line_of, separated}

abbrev pub or_hours : ℤ → Option ℤ → ℤ
or_hours default none = default
or_hours default (some h) = h

-- The parameter `hours=`; an exception of `std::stoi` is caught and ignored.
unfoldable pub hours_of : ℤ → Text → ℤ
unfolding stoi
hours_of default params = elim (find (text "hours=") params) [
  | none ↦ default
  | some p ↦ or_hours default (stoi 10 (drop (p + 6) params))
]

-- A value up to the next `&`, if there is one.
unfoldable pub up_to_ampersand : Text → Text
up_to_ampersand s = elim (find_char b'&' s) [ none ↦ s | some e ↦ take e s ]

unfoldable pub provider_of : Text → Text
unfolding up_to_ampersand
provider_of params = elim (find (text "provider=") params) [
  | none ↦ text "ollama"
  | some p ↦ up_to_ampersand (drop (p + 9) params)
]

module _ (R : Reals) where
  abbrev success_rate : ProviderMetrics R.Real → R.Real
  success_rate s =
      if ltb 0 s.queries_total
      then R.div (R.mul (R.of_int (pos 100)) (R.of_int (pos s.queries_success)))
          (R.of_int (pos s.queries_total))
      else R.of_int (pos 0)

  -- The entry of a provider, or `none` if the percentiles are blocked.
  unfoldable pub trend_text : ℤ → Metrics R.Real → ProviderMetrics R.Real → Option Text
  unfolding get_percentiles
  trend_text hours m s = elim (get_percentiles R s.provider hours m) [
    | none ↦ none
    | some p ↦ some (
        text "    \""
        ++ (s.provider
            ++ (text "\": {\n      \"latencies\": ["
                ++ (R.print p.p50
                    ++ (text ", "
                        ++ (R.print p.p95
                            ++ (text ", "
                                ++ (R.print p.p99
                                    ++ (text "],\n      \"success_rate\": "
                                        ++ (R.print (success_rate s) ++ text "\n    }\n"))))))))))
  ]

  unfoldable pub trend_texts :
      ℤ → Metrics R.Real → List (ProviderMetrics R.Real) → Option (List Text)
  unfolding trend_text
  trend_texts hours m [] = some []
  trend_texts hours m (s ∷ ss) =
      let rest = trend_texts hours m ss in
      elim (trend_text hours m s) [
        | none ↦ none
        | some t ↦ elim rest [ none ↦ none | some ts ↦ some (t ∷ ts) ]
      ]

  abbrev pub hours_line : ℤ → Text
  hours_line hours = line_of (text "hours") (show_ℤ hours)

  unfoldable pub handle_metrics_trends : Text → Metrics R.Real → Option Response
  unfolding hours_of get_all_stats trend_texts separated show_ℤ
  handle_metrics_trends params m =
      let hours = hours_of (pos 24) params in
      elim (get_all_stats R m) [
        | none ↦ none
        | some all ↦ elim (trend_texts hours m all) [
          | none ↦ none
          | some ts ↦ some (
              json 200 (
                text "{\n  "
                ++ (hours_line hours
                    ++ (text ",\n  \"providers\": {\n"
                        ++ (separated (text ",\n") ts ++ text "  }\n}\n")))))
        ]
      ]

  unfoldable pub handle_metrics_percentiles : Text → Metrics R.Real → Option Response
  unfolding hours_of provider_of get_percentiles show_ℤ
  handle_metrics_percentiles params m =
      let provider = provider_of params in
      let hours = hours_of (pos 24) params in
      elim (get_percentiles R provider hours m) [
        | none ↦ none
        | some p ↦ some (
            json 200 (
              text "{\n  \"provider\": \""
              ++ (provider
                  ++ (text "\",\n  "
                      ++ (hours_line hours
                          ++ (text ",\n  "
                              ++ (line_of (text "p50") (R.print p.p50)
                                  ++ (text ",\n  "
                                      ++ (line_of (text "p95") (R.print p.p95)
                                          ++ (text ",\n  "
                                              ++ (line_of (text "p99") (R.print p.p99)
                                                  ++ text "\n}\n")))))))))))
      ]

  -- The labels of the bins from bin `i` on.
  unfoldable pub bin_labels : ℕ → List ℕ → List Text
  bin_labels i [] = []
  bin_labels i (n ∷ ns) =
      (text "\"" ++ (to_string (i * 500) ++ (text "-" ++ (to_string ((i + 1) * 500) ++ text "\""))))
      ∷ bin_labels (i + 1) ns

  unfoldable pub handle_metrics_tokens : Text → Metrics R.Real → Option Response
  unfolding hours_of get_token_distribution bin_labels separated show_ℤ
  handle_metrics_tokens params m =
      let hours = hours_of (pos 0) params in
      elim (get_token_distribution hours m) [
        | none ↦ none
        | some histogram ↦ some (
            json 200 (
              text "{\n  "
              ++ (hours_line hours
                  ++ (text ",\n  \"bins\": ["
                      ++ (separated (text ", ") (map to_string histogram)
                          ++ (text "],\n  \"labels\": ["
                              ++ (separated (text ", ") (bin_labels 0 histogram)
                                  ++ text "]\n}\n")))))))
      ]

  unfoldable pub model_text : ProviderMetrics R.Real → Text
  model_text s =
      text "    {\n      \"name\": \""
      ++ (s.provider
          ++ (text "\",\n      \"provider\": \""
              ++ (s.provider
                  ++ (text "\",\n      \"avg_latency\": "
                      ++ (R.print s.latency_ms_avg
                          ++ (text ",\n      \"success_rate\": "
                              ++ (R.print (success_rate s)
                                  ++ (text ",\n      \"count\": "
                                      ++ (to_string s.queries_total ++ text "\n    }\n")))))))))

  unfoldable pub handle_metrics_models : Text → Metrics R.Real → Option Response
  unfolding hours_of get_all_stats model_text separated show_ℤ
  handle_metrics_models params m =
      let hours = hours_of (pos 24) params in
      elim (get_all_stats R m) [
        | none ↦ none
        | some all ↦ some (
            json 200 (
              text "{\n  "
              ++ (hours_line hours
                  ++ (text ",\n  \"models\": [\n"
                      ++ (separated (text ",\n") (map model_text all) ++ text "  ]\n}\n")))))
      ]

  unfoldable pub sum_totals : List (ProviderMetrics R.Real) → ℕ
  sum_totals [] = 0
  sum_totals (s ∷ ss) = s.queries_total + sum_totals ss

  unfoldable pub sum_failed : List (ProviderMetrics R.Real) → ℕ
  sum_failed [] = 0
  sum_failed (s ∷ ss) = s.queries_failed + sum_failed ss

  -- `std::max(1, hours / 60)`, a natural number.
  abbrev pub divisor_of : ℤ → ℕ
  divisor_of (pos hours) = if ltb (hours / 60) 1 then 1 else hours / 60
  divisor_of (negsuc hours) = 1

  abbrev pub error_rate : ℕ → ℕ → R.Real
  error_rate failed total =
      if ltb 0 total
      then R.div (R.mul (R.of_int (pos 100)) (R.of_int (pos failed))) (R.of_int (pos total))
      else R.of_int (pos 0)

  abbrev pub throughput : ℕ → ℤ → Text
  throughput total hours = elim (divisor_of hours) [ zero ↦ [] | suc k ↦ to_string (total / suc k) ]

  unfoldable pub handle_metrics_timeseries : ℕ → Text → Metrics R.Real → Option Response
  unfolding hours_of provider_of get_timeseries get_all_stats sum_totals sum_failed separated show_ℤ
  handle_metrics_timeseries now params m =
      let hours = hours_of (pos 24) params in
      let provider = provider_of params in
      elim (get_timeseries R now provider hours m) [
        | none ↦ none
        | some points ↦ elim (get_all_stats R m) [
          | none ↦ none
          | some all ↦ some (
              json 200 (
                text "{\n  \"provider\": \""
                ++ (provider
                    ++ (text "\",\n  "
                        ++ (hours_line hours
                            ++ (text ",\n  \"timestamps\": ["
                                ++ (separated (text ", ") (map (λ p. show_ℤ p.timestamp_ms) points)
                                    ++ (text "],\n  \"latencies\": ["
                                        ++ (separated (text ", ")
                                              (map (λ p. R.print p.value) points)
                                            ++ (text "],\n  \"throughput_qpm\": "
                                                ++ (throughput (sum_totals all) hours
                                                    ++ (text ",\n  \"error_rate\": "
                                                        ++ (R.print (
                                                            error_rate (sum_failed all)
                                                            (sum_totals all))
                                                            ++ text "\n}\n")))))))))))))
        ]
      ]

  abbrev answered : Text → Option Text → Option Response
  answered content_type none = none
  answered content_type (some body) =
      some (record { status_code = 200; content_type = content_type; body = body })

  unfoldable pub handle_metrics : Metrics R.Real → Option Response
  unfolding get_prometheus_text
  handle_metrics m = answered (text "text/plain; version=0.0.4") (get_prometheus_text R m)

  unfoldable pub handle_stats : Metrics R.Real → Option Response
  unfolding get_json_summary
  handle_stats m = answered (text "application/json") (get_json_summary R m)
