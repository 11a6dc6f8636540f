-- ===== src/Core/Council/Outcome.antt =====
-- The final winner (`finalize_results` in src/core/Council.cpp).
use native.Mathlib.Nat.{add-zero, zero-add, add-suc, suc-add}
use code_tribunal.Prelude.{
  ℕ, suc, ◌+◌, ◌≤◌, ◌<◌, ◌≡◌, refl, ◌⊎◌, inl, inr, Option, none, some, List, [], ◌∷◌, length,
  get_elem?, take, All, arith, Bool-cases, map,
}
use code_tribunal.Prelude.Int.{ℤ, pos, negsuc, ◌≤ℤ◌, ◌<ℤ◌, ltb_ℤ}
use code_tribunal.Core.Types.{AnalystStats, Configuration}
use code_tribunal.Core.Analyst.{Analyst}
use code_tribunal.Core.Pool.{AnalystPool, get_stats}
use code_tribunal.Core.Council.{finalize_results, final_winner_from}

-- The entry at `k` is above the ones before it, and no entry is above it.
pub record IsFirstBest (ss : List AnalystStats) (k : ℕ) : Type 0 where
  pub best : AnalystStats
  pub at_k : get_elem? ss k ≡ some best
  pub above_earlier : All (λ t. t.total_score < best.total_score) (take k ss)
  pub at_least_all : All (λ t. t.total_score ≤ best.total_score) ss

All-le :
    (max : ℤ) (b : ℕ) (ss : List AnalystStats)
    → max ≤ℤ pos b
    → All (λ t. pos t.total_score ≤ℤ max) ss
    → All (λ t. t.total_score ≤ b) ss
All-le max b [] h a = tt
All-le max b (s ∷ ss) h a = (omega (arith, a.0), All-le max b ss h a.1)

winner_cases :
    (i : ℕ) (ss : List AnalystStats) (winner : Option ℕ) (max : ℤ)
    → ((final_winner_from i ss winner max ≡ winner) × All (λ t. pos t.total_score ≤ℤ max) ss)
      ⊎ ((k : ℕ) × (c : IsFirstBest ss k) × (final_winner_from i ss winner max ≡ some (i + k))
          × (max <ℤ pos c.best.total_score))
unfolding final_winner_from
winner_cases i [] winner max = inl (refl, tt)
winner_cases i (s ∷ ss) winner max = elim (Bool-cases (ltb_ℤ max (pos s.total_score))) [
  | inl up ↦
      rw (up, final_winner_from)
        (elim (winner_cases (suc i) ss (some i) (pos s.total_score)) [
          | inl (e, le) ↦ inr (
            0,
            record {
              best = s;
              at_k = refl;
              above_earlier = tt;
              at_least_all =
                  (omega arith, All-le (pos s.total_score) s.total_score ss (omega arith) le);
            },
            rw (add-zero i) e,
            ground arith,
          )
          | inr (k, c, e, lt) ↦ inr (
            suc k,
            record {
              best = c.best;
              at_k = c.at_k;
              above_earlier = (omega (arith, lt), c.above_earlier);
              at_least_all = (omega (arith, lt), c.at_least_all);
            },
            rw (add-suc i k, ← suc-add i k) e,
            ground arith,
          )
        ])
  | inr no_up ↦
      rw (no_up, final_winner_from)
        (elim (winner_cases (suc i) ss winner max) [
          | inl (e, le) ↦ inl (e, (ground arith, le))
          | inr (k, c, e, lt) ↦ inr (
            suc k,
            record {
              best = c.best;
              at_k = c.at_k;
              above_earlier = (ground arith, c.above_earlier);
              at_least_all = (ground arith, c.at_least_all);
            },
            rw (add-suc i k, ← suc-add i k) e,
            lt,
          )
        ])
]

-- For a pool with an analyst, the final winner is the first of the analysts with the highest total
-- score.
pub finalize_results-IsFirstBest :
    (config : Configuration) (pool : AnalystPool)
    → 1 ≤ length pool.analysts
    → (id : ℕ) × (IsFirstBest (get_stats pool) id)
      × ((finalize_results config pool).final_winner ≡ some id)
unfolding finalize_results
finalize_results-IsFirstBest config pool h =
    elim (winner_cases 0 (get_stats pool) none (negsuc 0)) [
      | inl (e, le) ↦ absurd (nobody pool.analysts h (unfold get_stats in le))
      | inr (k, c, e, lt) ↦ (k, c, rw (zero-add k) at e)
    ]
  where
    nobody :
        (xs : List Analyst)
        → 1 ≤ length xs
        → All (λ t. pos t.total_score ≤ℤ negsuc 0) (map (λ a. a.stats) xs)
        → ⊥
    nobody [] h le = omega arith
    nobody (a ∷ xs) h le = omega (arith, le.0)
