-- ===== src/Util/Metrics/Percentiles.antt =====
-- The percentiles of latencies, the histogram of tokens and the time series of src/util/Metrics.cpp.
use code_tribunal.Prelude.{
  ℕ, zero, suc, ◌*◌, ◌/◌, ◌≤◌, ◌<◌, ◌≡◌, ◌∙◌, refl, ap, subst, inl, inr, true, false, some, List,
  [], ◌∷◌, Text, length, length-map, get_or, All, map, Bool-cases, arith,
}
use code_tribunal.Prelude.Int.{ℤ}
use code_tribunal.Util.Metrics.{
  Reals, DebateMetrics, Metrics, PercentileStats, zero_real, of_provider, insert_sorted, sort,
  percentiles_of, get_percentiles,
}

-- What the code relies on of the order of the latencies: no two are below each other, and not being
-- below is transitive. It holds where no latency is NaN.
pub record IsOrder (R : Reals) : Type 0 where
  pub asym : (a b : R.Real) → R.less a b ≡ true → R.less b a ≡ false
  pub trans : (a b c : R.Real) → R.less b a ≡ false → R.less c b ≡ false → R.less c a ≡ false

module _ (R : Reals) (o : IsOrder R) where
  -- No latency that follows is smaller.
  abbrev IsSorted : List R.Real → Type 0
  IsSorted [] = Unit
  IsSorted (x ∷ xs) = All (λ y. R.less y x ≡ false) xs × IsSorted xs

  irreflexive : (a : R.Real) → R.less a a ≡ false
  irreflexive a = elim (Bool-cases (R.less a a)) [ inl t ↦ o.asym a a t | inr f ↦ f ]

  All-insert :
      (low x : R.Real) (xs : List R.Real)
      → R.less x low ≡ false
      → All (λ y. R.less y low ≡ false) xs
      → All (λ y. R.less y low ≡ false) (insert_sorted R x xs)
  unfolding insert_sorted
  All-insert low x [] h hs = (h, tt)
  All-insert low x (y ∷ ys) h hs = elim (Bool-cases (R.less y x)) [
    | inl t ↦ rw t (hs.0, All-insert low x ys h hs.1)
    | inr f ↦ rw f (h, hs)
  ]

  All-above :
      (low x : R.Real) (xs : List R.Real)
      → R.less x low ≡ false
      → All (λ y. R.less y x ≡ false) xs
      → All (λ y. R.less y low ≡ false) xs
  All-above low x [] h hs = tt
  All-above low x (y ∷ ys) h hs = (o.trans low x y h hs.0, All-above low x ys h hs.1)

  insert_sorted-IsSorted :
      (x : R.Real) (xs : List R.Real) → IsSorted xs → IsSorted (insert_sorted R x xs)
  unfolding insert_sorted
  insert_sorted-IsSorted x [] h = (tt, tt)
  insert_sorted-IsSorted x (y ∷ ys) h = elim (Bool-cases (R.less y x)) [
    | inl t ↦ rw t (All-insert y x ys (o.asym y x t) h.0, insert_sorted-IsSorted x ys h.1)
    | inr f ↦ rw f ((f, All-above x y ys f h.0), h)
  ]

  sort-IsSorted : (xs : List R.Real) → IsSorted (sort R xs)
  unfolding sort
  sort-IsSorted [] = tt
  sort-IsSorted (x ∷ xs) = insert_sorted-IsSorted x (sort R xs) (sort-IsSorted xs)

  get_or-All :
      (P : R.Real → Type 0) (xs : List R.Real) (i : ℕ) (d : R.Real)
      → i < length xs
      → All P xs
      → P (get_or xs i d)
  get_or-All P [] i d h ps = absurd (omega arith)
  get_or-All P (x ∷ xs) zero d h ps = ps.0
  get_or-All P (x ∷ xs) (suc i) d h ps = get_or-All P xs i d (omega arith) ps.1

  get_or-sorted :
      (xs : List R.Real) (i j : ℕ) (d : R.Real)
      → IsSorted xs
      → i ≤ j
      → j < length xs
      → R.less (get_or xs j d) (get_or xs i d) ≡ false
  get_or-sorted [] i j d h le lt = absurd (omega arith)
  get_or-sorted (x ∷ xs) zero zero d h le lt = irreflexive x
  get_or-sorted (x ∷ xs) zero (suc j) d h le lt =
      get_or-All (λ y. R.less y x ≡ false) xs j d (omega arith) h.0
  get_or-sorted (x ∷ xs) (suc i) zero d h le lt = absurd (omega arith)
  get_or-sorted (x ∷ xs) (suc i) (suc j) d h le lt =
      get_or-sorted xs i j d h.1 (omega arith) (omega arith)

  insert_sorted-All :
      (P : R.Real → Type 0) (x : R.Real) (xs : List R.Real)
      → P x
      → All P xs
      → All P (insert_sorted R x xs)
  unfolding insert_sorted
  insert_sorted-All P x [] h hs = (h, tt)
  insert_sorted-All P x (y ∷ ys) h hs = elim (Bool-cases (R.less y x)) [
    | inl t ↦ rw t (hs.0, insert_sorted-All P x ys h hs.1)
    | inr f ↦ rw f (h, hs)
  ]

  sort-All : (P : R.Real → Type 0) (xs : List R.Real) → All P xs → All P (sort R xs)
  unfolding sort
  sort-All P [] h = tt
  sort-All P (x ∷ xs) h = insert_sorted-All P x (sort R xs) h.0 (sort-All P xs h.1)

  length-insert_sorted :
      (x : R.Real) (xs : List R.Real) → length (insert_sorted R x xs) ≡ suc (length xs)
  unfolding insert_sorted
  length-insert_sorted x [] = refl
  length-insert_sorted x (y ∷ ys) = ground (arith, length-insert_sorted x ys)

  length-sort : (xs : List R.Real) → length (sort R xs) ≡ length xs
  unfolding sort
  length-sort [] = refl
  length-sort (x ∷ xs) = length-insert_sorted x (sort R xs) ∙ ap suc (length-sort xs)

  percentiles_of-lem :
      (P : R.Real → Type 0) (xs : List R.Real)
      → All P xs
      → 0 < length xs
      → let s = percentiles_of R xs in
        (R.less s.p95 s.p50 ≡ false) × (R.less s.p99 s.p95 ≡ false) × P s.p50 × P s.p95 × P s.p99
  unfolding percentiles_of
  percentiles_of-lem P xs ps full =
      let sorted = sort R xs in
      let all = sort-All P xs ps in
      let len = length-sort xs in
      let ordered = sort-IsSorted xs in
      (
        get_or-sorted sorted (length sorted / 2) _ (zero_real R) ordered (omega arith)
            (omega (arith, len)),
        get_or-sorted sorted ((95 * length sorted) / 100) _ (zero_real R) ordered (omega arith)
            (omega (arith, len)),
        get_or-All P sorted (length sorted / 2) _ (omega (arith, len)) all,
        get_or-All P sorted ((95 * length sorted) / 100) _ (omega (arith, len)) all,
        get_or-All P sorted ((99 * length sorted) / 100) _ (omega (arith, len)) all,
      )

  -- If a provider has a recorded debate, the indices of the percentiles lie in the list: what all its
  -- latencies satisfy, the three satisfy, and the higher percentile is never the smaller latency.
  pub get_percentiles-ordered :
      (P : R.Real → Type 0) (provider : Text) (hours : ℤ) (m : Metrics R.Real)
      (s : PercentileStats R.Real)
      → get_percentiles R provider hours m ≡ some s
      → All P (map (λ d. d.duration_ms) (of_provider provider m.debates))
      → 0 < length (of_provider provider m.debates)
      → (R.less s.p95 s.p50 ≡ false) × (R.less s.p99 s.p95 ≡ false) × P s.p50 × P s.p95 × P s.p99
  unfolding get_percentiles
  get_percentiles-ordered P provider hours m s e ps full =
      let own : List R.Real = map (λ d. d.duration_ms) (of_provider provider m.debates) in
      let same : percentiles_of R own ≡ s = ground arith in
      let count =
        length-map (λ (d : DebateMetrics R.Real). d.duration_ms) (of_provider provider m.debates) in
      subst
        (λ t.
          (R.less t.p95 t.p50 ≡ false) × (R.less t.p99 t.p95 ≡ false) × P t.p50 × P t.p95 × P t.p99)
        same (percentiles_of-lem P own ps (omega (arith, count)))
