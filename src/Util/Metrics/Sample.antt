-- ===== src/Util/Metrics/Sample.antt =====
-- Sample data for examples: latencies in whole milliseconds, and recorded debates.
use Prim.Native.Nat.{◌+◌, ◌*◌, ◌/◌}
use code_tribunal.Prelude.{ℕ, true, false, [], ◌∷◌, ◌++◌, Text, text, ltb, to_string, arith}
use code_tribunal.Prelude.Int.{pos, pos_part}
use code_tribunal.Util.Metrics.{Reals, DebateMetrics, Metrics}
use code_tribunal.Util.Metrics.Percentiles.{IsOrder}

abbrev pub whole : Reals
whole = record {
  Real = ℕ;
  less = ltb;
  add = λ a b. a + b;
  mul = λ a b. a * b;
  div = λ a b. a / b;
  of_int = pos_part;
  truncate = pos;
  print = to_string;
  print_fixed = λ n. to_string n ++ text ".00";
}

pub whole-IsOrder : IsOrder whole
whole-IsOrder = record {
  asym = λ (a b : ℕ) h. ground arith;
  trans = λ (a b c : ℕ) h k. ground arith;
}

abbrev pub debate_of : Text → ℕ → ℕ → DebateMetrics ℕ
debate_of provider duration tokens = record {
  query_hash = [];
  rounds_completed = 0;
  total_tokens_used = tokens;
  duration_ms = duration;
  first_response_ms = 0;
  success = true;
  error = [];
  llm_provider = provider;
}

abbrev pub no_metrics : Metrics ℕ
no_metrics = record { locked = false; debates = []; provider_latencies = [] }

abbrev pub three_debates : Metrics ℕ
three_debates = record no_metrics {
  debates =
      debate_of (text "ollama") 70 600
      ∷ debate_of (text "claude") 5 0
      ∷ debate_of (text "ollama") 30 100
      ∷ [];
}
