-- ===== src/Util/Metrics/Tokens.antt =====
-- The histogram of tokens and the time series of src/util/Metrics.cpp.
use code_tribunal.Prelude.{
  length-set, ℕ, zero, suc, ◌+◌, ◌/◌, ◌<◌, ◌≡◌, ◌∙◌, refl, ap, sym, true, false, ◌==◌, some, List,
  [], ◌∷◌, Text, length, All, get_or, set, replicate, arith, if◌then◌else◌,
}
use code_tribunal.Prelude.Int.{ℤ, pos}
use code_tribunal.Util.Metrics.{
  Reals, DebateMetrics, Metrics, of_provider, new_histogram, count_bin, count_tokens,
  get_token_distribution,
}
use code_tribunal.Util.Metrics.Series.{cutoff_ms, is_recent, fill_buckets, get_timeseries}

-- The debates with so many times 500 tokens.
unfoldable pub in_bin : {D : Type 0} → ℕ → List (DebateMetrics D) → ℕ
in_bin bin [] = 0
in_bin bin (d ∷ ds) =
    if d.total_tokens_used / 500 == bin then suc (in_bin bin ds) else in_bin bin ds

get_or-set :
    (xs : List ℕ) (i j v : ℕ)
    → i < length xs
    → get_or (set xs i v) j 0 ≡ (if i == j then v else get_or xs j 0)
get_or-set [] i j v h = absurd (omega arith)
get_or-set (x ∷ xs) zero zero v h = refl
get_or-set (x ∷ xs) zero (suc j) v h = ground arith
get_or-set (x ∷ xs) (suc i) zero v h = ground arith
get_or-set (x ∷ xs) (suc i) (suc j) v h = ground (arith, get_or-set xs i j v)

count_bin-length :
    (bin : ℕ) (histogram : List ℕ) → length (count_bin bin histogram) ≡ length histogram
unfolding count_bin
count_bin-length bin histogram =
    ground (arith, length-set histogram bin (get_or histogram bin 0 + 1))

count_bin-get_or :
    (bin i : ℕ) (histogram : List ℕ)
    → length histogram ≡ 100
    → i < 100
    → get_or (count_bin bin histogram) i 0
      ≡ (if bin == i then suc (get_or histogram i 0) else get_or histogram i 0)
unfolding count_bin
count_bin-get_or bin i histogram h lt =
    ground (arith, get_or-set histogram bin i (get_or histogram bin 0 + 1))

count_tokens-get_or :
    {D : Type 0} (ds : List (DebateMetrics D)) (i : ℕ) (histogram : List ℕ)
    → length histogram ≡ 100
    → i < 100
    → get_or (count_tokens ds histogram) i 0 ≡ get_or histogram i 0 + in_bin i ds
unfolding count_tokens in_bin
count_tokens-get_or [] i histogram h lt = omega arith
count_tokens-get_or (d ∷ ds) i histogram h lt =
    let bin = d.total_tokens_used / 500 in
    ground (
      arith,
      count_tokens-get_or ds i (count_bin bin histogram),
      count_bin-length bin histogram,
      count_bin-get_or bin i histogram,
    )

get_or-replicate : (n i : ℕ) → get_or {A = ℕ} (replicate n 0) i 0 ≡ 0
get_or-replicate zero i = refl
get_or-replicate (suc n) zero = refl
get_or-replicate (suc n) (suc i) = get_or-replicate n i

-- Each of the hundred bins counts exactly the debates whose tokens fall into it, whatever the hours;
-- debates of fifty thousand tokens and more are in none.
pub get_token_distribution-counts :
    {D : Type 0} (hours : ℤ) (m : Metrics D) (histogram : List ℕ) (i : ℕ)
    → get_token_distribution hours m ≡ some histogram
    → i < 100
    → get_or histogram i 0 ≡ in_bin i m.debates
unfolding get_token_distribution new_histogram
get_token_distribution-counts hours m histogram i e lt =
    let same : count_tokens m.debates new_histogram ≡ histogram = ground arith in
    let counted : get_or (count_tokens m.debates new_histogram) i 0 ≡ in_bin i m.debates =
      omega
        (arith, count_tokens-get_or m.debates i new_histogram refl lt, get_or-replicate 100 i) in
    ap (λ h. get_or h i 0) (sym same) ∙ counted

module _ (R : Reals) where
  fill_buckets-late :
      (hours cutoff : ℤ) (ds : List (DebateMetrics R.Real)) (buckets : List (ℤ × List R.Real))
      → All (λ d. is_recent R hours cutoff d ≡ false) ds
      → fill_buckets R hours cutoff ds buckets ≡ buckets
  unfolding fill_buckets
  fill_buckets-late hours cutoff [] buckets h = refl
  fill_buckets-late hours cutoff (d ∷ ds) buckets h =
      rw h.0 (fill_buckets-late hours cutoff ds buckets h.1)

  below-late :
      (hours : ℕ) (cutoff : ℤ) (ds : List (DebateMetrics R.Real))
      → All (λ d. R.less d.duration_ms (R.of_int cutoff) ≡ true) ds
      → All (λ d. is_recent R (pos (suc hours)) cutoff d ≡ false) ds
  below-late hours cutoff [] h = tt
  below-late hours cutoff (d ∷ ds) h = (rw h.0 (ground arith), below-late hours cutoff ds h.1)

  -- With a window of hours, debates that took less time than has passed between the epoch and the
  -- window are all left out: the series is empty.
  pub get_timeseries-late :
      (now hours : ℕ) (provider : Text) (m : Metrics R.Real)
      → m.locked ≡ false
      → All
          (λ d. R.less d.duration_ms (R.of_int (cutoff_ms now (pos (suc hours)))) ≡ true)
          (of_provider provider m.debates)
      → get_timeseries R now provider (pos (suc hours)) m ≡ some []
  unfolding get_timeseries
  get_timeseries-late now hours provider m free late =
      let cutoff = cutoff_ms now (pos (suc hours)) in
      let own = of_provider provider m.debates in
      let empty =
        fill_buckets-late (pos (suc hours)) cutoff own [] (below-late hours cutoff own late) in
      rw free (rw empty refl)
