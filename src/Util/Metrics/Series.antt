-- ===== src/Util/Metrics/Series.antt =====
-- `get_timeseries` of src/util/Metrics.cpp: latencies of a provider by bucket. `std::map` keeps the
-- buckets in the order of their keys.
use code_tribunal.Prelude.{
  ℕ, ◌*◌, Bool, not, ◌||◌, Option, some, List, [], ◌∷◌, ◌++◌, Text, length, if◌then◌else◌, map,
}
use code_tribunal.Prelude.Int.{ℤ, pos, negsuc, eqb_ℤ, ltb_ℤ, sub_ℤ, wrap_int}
use code_tribunal.Util.Metrics.{
  Reals, DebateMetrics, TimeSeriesPoint, Metrics, guarded, of_provider,
}

-- The time from which on debates count, by the clock in milliseconds.
abbrev pub cutoff_ms : ℕ → ℤ → ℤ
cutoff_ms now (pos hours) =
    if ltb_ℤ (pos 0) (pos hours)
    then sub_ℤ (pos now) (wrap_int (pos (hours * 3600 * 1000)))
    else pos 0
cutoff_ms now (negsuc hours) = pos 0

module _ (R : Reals) where
  unfoldable pub add_to_bucket : ℤ → R.Real → List (ℤ × List R.Real) → List (ℤ × List R.Real)
  add_to_bucket key x [] = (key, x ∷ []) ∷ []
  add_to_bucket key x ((k, xs) ∷ m) =
      if eqb_ℤ k key
      then (k, xs ++ x ∷ []) ∷ m
      else if ltb_ℤ key k
      then (key, x ∷ []) ∷ (k, xs) ∷ m
      else (k, xs) ∷ add_to_bucket key x m

  -- Does a debate count? The code compares its duration with the point in time.
  abbrev pub is_recent : ℤ → ℤ → DebateMetrics R.Real → Bool
  is_recent hours cutoff d = eqb_ℤ hours (pos 0) || not (R.less d.duration_ms (R.of_int cutoff))

  -- The quotient is a `double`, which is not rounded before the product.
  abbrev pub bucket_key : R.Real → ℤ
  bucket_key x = R.truncate (R.mul (R.div x (R.of_int (pos 60000))) (R.of_int (pos 60000)))

  unfoldable pub fill_buckets :
      ℤ → ℤ → List (DebateMetrics R.Real) → List (ℤ × List R.Real) → List (ℤ × List R.Real)
  unfolding add_to_bucket
  fill_buckets hours cutoff [] buckets = buckets
  fill_buckets hours cutoff (d ∷ ds) buckets = fill_buckets hours cutoff ds (
      if is_recent hours cutoff d
      then add_to_bucket (bucket_key d.duration_ms) d.duration_ms buckets
      else buckets)

  unfoldable pub sum_from : R.Real → List R.Real → R.Real
  sum_from total [] = total
  sum_from total (x ∷ xs) = sum_from (R.add total x) xs

  unfoldable pub average_bucket : ℤ × List R.Real → TimeSeriesPoint R.Real
  unfolding sum_from
  average_bucket (key, xs) = record {
    timestamp_ms = key;
    value = R.div (sum_from (R.of_int (pos 0)) xs) (R.of_int (pos (length xs)));
  }

  unfoldable pub get_timeseries :
      ℕ → Text → ℤ → Metrics R.Real → Option (List (TimeSeriesPoint R.Real))
  unfolding fill_buckets average_bucket of_provider
  get_timeseries now provider hours m = guarded m (λ m'.
      let own = of_provider provider m'.debates in
      some (map average_bucket (fill_buckets hours (cutoff_ms now hours) own [])))
