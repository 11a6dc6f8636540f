-- ===== src/Util/Metrics.antt =====
-- The metrics of debates: src/util/Metrics.h and Metrics.cpp. The `double` values are a parameter.
-- `std::mutex` is not recursive: a second lock by the thread that holds it never returns, which is
-- `none` here.
pub mod Reports
pub mod Series
pub mod Locking
pub mod Percentiles
pub mod Tokens
pub mod Sample
mod Examples
use Prim.Native.Nat.{suc, ◌-◌, ◌*◌, ◌/◌}
use code_tribunal.Prelude.{
  ℕ, zero, ◌+◌, Bool, true, false, ◌&&◌, ◌||◌, ◌==◌, ltb, Option, none, some, List, [], ◌∷◌, ◌++◌,
  Text, text_eq, length, is_empty, get_or, set, replicate, if◌then◌else◌, map,
}
use code_tribunal.Prelude.Int.{ℤ, pos, negsuc, pos_part, neg_part, eqb_ℤ, ltb_ℤ}

-- The arithmetic of `double`, its conversions, and how streams print it: by default, and with two
-- fixed digits.
pub record Reals : Type 1 where
  pub Real : Type 0
  pub less : Real → Real → Bool
  pub add : Real → Real → Real
  pub mul : Real → Real → Real
  pub div : Real → Real → Real
  pub of_int : ℤ → Real
  pub truncate : Real → ℤ
  pub print : Real → Text
  pub print_fixed : Real → Text

pub record DebateMetrics (D : Type 0) : Type 0 where
  pub query_hash : Text
  pub rounds_completed : ℕ
  pub total_tokens_used : ℕ
  pub duration_ms : D
  pub first_response_ms : D
  pub success : Bool
  pub error : Text
  pub llm_provider : Text

pub record ProviderMetrics (D : Type 0) : Type 0 where
  pub provider : Text
  pub queries_total : ℕ
  pub queries_success : ℕ
  pub queries_failed : ℕ
  pub tokens_total : ℕ
  pub latency_ms_avg : D
  pub latency_ms_max : D

pub record TimeSeriesPoint (D : Type 0) : Type 0 where
  pub timestamp_ms : ℤ
  pub value : D

pub record PercentileStats (D : Type 0) : Type 0 where
  pub p50 : D
  pub p95 : D
  pub p99 : D

-- `locked`: the mutex is held. The members `timeseries_data_` and `token_usage_` are never filled.
pub record Metrics (D : Type 0) : Type 0 where
  pub locked : Bool
  pub debates : List (DebateMetrics D)
  pub provider_latencies : List (Text × List D)

-- The body of a function that first takes the lock.
abbrev pub guarded {ℓ} : {D : Type 0} {A : Type ℓ} → Metrics D → (Metrics D → Option A) → Option A
guarded m body = if m.locked then none else body (record m { locked = true })

abbrev pub text_ltb : Text → Text → Bool
text_ltb [] [] = false
text_ltb [] (y ∷ ys) = true
text_ltb (x ∷ xs) [] = false
text_ltb (x ∷ xs) (y ∷ ys) = ltb x y || ((x == y) && text_ltb xs ys)

-- A `std::map` with text keys, in their order: the entry of `key` is changed by `f`, from `d` if
-- there was none.
module _ {V : Type 0} where
  unfoldable pub upsert : Text → V → (V → V) → List (Text × V) → List (Text × V)
  unfolding text_eq
  upsert key d f [] = (key, f d) ∷ []
  upsert key d f ((k, v) ∷ m) =
      if text_eq k key
      then (k, f v) ∷ m
      else if text_ltb key k
      then (key, f d) ∷ (k, v) ∷ m
      else (k, v) ∷ upsert key d f m

  unfoldable pub has_key : Text → List (Text × V) → Bool
  unfolding text_eq
  has_key key [] = false
  has_key key ((k, v) ∷ m) = text_eq k key || has_key key m

unfoldable pub record_debate : {D : Type 0} → DebateMetrics D → Metrics D → Option (Metrics D)
unfolding upsert
record_debate d m = guarded m (λ m'. some (record m' {
  locked = false;
  debates = m'.debates ++ d ∷ [];
  provider_latencies =
      if is_empty d.llm_provider
      then m'.provider_latencies
      else upsert d.llm_provider [] (λ l. l ++ d.duration_ms ∷ []) m'.provider_latencies;
}))

unfoldable pub reset : {D : Type 0} → Metrics D → Option (Metrics D)
reset m = guarded m (λ m'. some (record { locked = false; debates = []; provider_latencies = [] }))

-- The debates of a provider.
unfoldable pub of_provider : {D : Type 0} → Text → List (DebateMetrics D) → List (DebateMetrics D)
unfolding text_eq
of_provider provider [] = []
of_provider provider (d ∷ ds) =
    if text_eq d.llm_provider provider then d ∷ of_provider provider ds else of_provider provider ds

unfoldable pub new_histogram : List ℕ
new_histogram = replicate 100 0

-- One debate in the histogram of bins of 500 tokens.
unfoldable pub count_bin : ℕ → List ℕ → List ℕ
count_bin bin histogram =
    if ltb bin 100 then set histogram bin (get_or histogram bin 0 + 1) else histogram

unfoldable pub count_tokens : {D : Type 0} → List (DebateMetrics D) → List ℕ → List ℕ
unfolding count_bin
count_tokens [] histogram = histogram
count_tokens (d ∷ ds) histogram = count_tokens ds (count_bin (d.total_tokens_used / 500) histogram)

-- The hours only set a local variable that nothing reads.
unfoldable pub get_token_distribution : {D : Type 0} → ℤ → Metrics D → Option (List ℕ)
unfolding count_tokens new_histogram
get_token_distribution hours m = guarded m (λ m'. some (count_tokens m'.debates new_histogram))

module _ (R : Reals) where
  abbrev pub zero_real : R.Real
  zero_real = R.of_int (pos 0)

  -- `std::max`.
  unfoldable pub max_real : R.Real → R.Real → R.Real
  max_real a b = if R.less a b then b else a

  unfoldable pub add_debate : DebateMetrics R.Real → ProviderMetrics R.Real → ProviderMetrics R.Real
  unfolding max_real
  add_debate d stats = record stats {
    queries_total = stats.queries_total + 1;
    queries_success = if d.success then stats.queries_success + 1 else stats.queries_success;
    queries_failed = if d.success then stats.queries_failed else stats.queries_failed + 1;
    tokens_total = stats.tokens_total + d.total_tokens_used;
    latency_ms_max = max_real stats.latency_ms_max d.duration_ms;
  }

  abbrev pub no_stats : Text → ProviderMetrics R.Real
  no_stats provider = record {
    provider = provider;
    queries_total = 0;
    queries_success = 0;
    queries_failed = 0;
    tokens_total = 0;
    latency_ms_avg = zero_real;
    latency_ms_max = zero_real;
  }

  unfoldable pub add_debates :
      List (DebateMetrics R.Real) → ProviderMetrics R.Real → ProviderMetrics R.Real
  unfolding add_debate
  add_debates [] stats = stats
  add_debates (d ∷ ds) stats = add_debates ds (add_debate d stats)

  unfoldable pub total_from : R.Real → List (DebateMetrics R.Real) → R.Real
  total_from total [] = total
  total_from total (d ∷ ds) = total_from (R.add total d.duration_ms) ds

  unfoldable pub with_average :
      List (DebateMetrics R.Real) → ProviderMetrics R.Real → ProviderMetrics R.Real
  unfolding total_from
  with_average ds stats =
      if ltb 0 stats.queries_total
      then record stats {
        latency_ms_avg = R.div (total_from zero_real ds) (R.of_int (pos stats.queries_total));
      }
      else stats

  unfoldable pub get_provider_stats : Text → Metrics R.Real → Option (ProviderMetrics R.Real)
  unfolding add_debates with_average of_provider
  get_provider_stats provider m = guarded m (λ m'.
      let own = of_provider provider m'.debates in
      some (with_average own (add_debates own (no_stats provider))))

  -- The loop of `get_all_stats`, which holds the lock when it calls `get_provider_stats`.
  unfoldable pub collect_stats :
      Metrics R.Real
      → List (DebateMetrics R.Real)
      → List (Text × ProviderMetrics R.Real)
      → Option (List (Text × ProviderMetrics R.Real))
  unfolding get_provider_stats has_key upsert
  collect_stats m [] stats_map = some stats_map
  collect_stats m (d ∷ ds) stats_map = elim (has_key d.llm_provider stats_map) [
    | true ↦ collect_stats m ds stats_map
    | false ↦ elim (get_provider_stats d.llm_provider m) [
      | none ↦ none
      | some stats ↦ collect_stats m ds (upsert d.llm_provider stats (λ _. stats) stats_map)
    ]
  ]

  unfoldable pub get_all_stats : Metrics R.Real → Option (List (ProviderMetrics R.Real))
  unfolding collect_stats
  get_all_stats m = guarded m (λ m'. elim (collect_stats m' m'.debates []) [
    | none ↦ none
    | some stats_map ↦ some (map (λ p. p.1) stats_map)
  ])

  -- `std::sort` on latencies.
  unfoldable pub insert_sorted : R.Real → List R.Real → List R.Real
  insert_sorted x [] = x ∷ []
  insert_sorted x (y ∷ ys) = if R.less y x then y ∷ insert_sorted x ys else x ∷ y ∷ ys

  unfoldable pub sort : List R.Real → List R.Real
  unfolding insert_sorted
  sort [] = []
  sort (x ∷ xs) = insert_sorted x (sort xs)

  -- The entry at `percent` of the length, as the indices are computed.
  abbrev pub percentile : ℕ → List R.Real → R.Real
  percentile percent xs = get_or xs ((percent * length xs) / 100) zero_real

  unfoldable pub percentiles_of : List R.Real → PercentileStats R.Real
  unfolding sort
  percentiles_of latencies =
      let sorted = sort latencies in
      record {
        p50 = get_or sorted (length sorted / 2) zero_real;
        p95 = percentile 95 sorted;
        p99 = percentile 99 sorted;
      }

  -- With no latency all three are 0.0. The hours only set a local variable that nothing reads.
  unfoldable pub get_percentiles : Text → ℤ → Metrics R.Real → Option (PercentileStats R.Real)
  unfolding percentiles_of of_provider
  get_percentiles provider hours m =
      guarded m
        (λ m'. some (percentiles_of (map (λ d. d.duration_ms) (of_provider provider m'.debates))))
