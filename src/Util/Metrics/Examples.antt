-- ===== src/Util/Metrics/Examples.antt =====
-- The theorems on the metrics at concrete inputs.
use code_tribunal.Prelude.{ℕ, ◌≤◌, ◌≡◌, refl, false, [], ◌∷◌, text, text_eq, arith}
use code_tribunal.Prelude.Int.{pos}
use code_tribunal.Util.Metrics.{
  ProviderMetrics, PercentileStats, Metrics, of_provider, get_percentiles,
}
use code_tribunal.Util.Metrics.Percentiles.{get_percentiles-ordered}
use code_tribunal.Util.Metrics.Sample.{whole, whole-IsOrder, debate_of, three_debates}

abbrev one_debate : Metrics ℕ
one_debate = record {
  locked = false;
  debates = debate_of (text "ollama") 70 600 ∷ [];
  provider_latencies = (text "ollama", 70 ∷ []) ∷ [];
}

abbrev ollama_stats : ProviderMetrics ℕ
ollama_stats = record {
  provider = text "ollama";
  queries_total = 2;
  queries_success = 2;
  queries_failed = 0;
  tokens_total = 700;
  latency_ms_avg = 50;
  latency_ms_max = 70;
}

abbrev ollama_percentiles : PercentileStats ℕ
ollama_percentiles = record { p50 = 70; p95 = 70; p99 = 70 }

get_percentiles-ordered_example :
    (whole.less 70 70 ≡ false) × (whole.less 70 70 ≡ false) × (30 ≤ 70) × (30 ≤ 70) × (30 ≤ 70)
unfolding get_percentiles of_provider text_eq
get_percentiles-ordered_example =
    get_percentiles-ordered whole whole-IsOrder (λ x. 30 ≤ x) (text "ollama") (pos 24) three_debates
      ollama_percentiles refl (omega arith, (omega arith, tt)) (omega arith)
