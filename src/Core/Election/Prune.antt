-- ===== src/Core/Election/Prune.antt =====
-- Pruning (`prune_inactive_analysts` in src/core/Election.cpp), analyst by analyst.
use mathlib.Core.Option
use code_tribunal.Prelude.{
  ℕ, zero, suc, ◌+◌, ◌≤◌, ◌<◌, ◌≡◌, refl, inl, inr, Bool, true, false, ◌&&◌, leb, some, List, [],
  ◌∷◌, length, get_elem?, arith, if◌then◌else◌, Bool-cases,
}
use code_tribunal.Core.Types.{base_analyst_count}
use code_tribunal.Core.Analyst.{Analyst, mark_pruned, is_active}
use code_tribunal.Core.Pool.{AnalystPool, get_analyst, active_count, count_active}
use code_tribunal.Core.Election.{should_prune, prune_from, prune_inactive_analysts}

-- What pruning does to one analyst, which may be exempt.
abbrev pub prune_if : Bool → Analyst → Analyst
prune_if eligible a = if eligible && (is_active a && should_prune a) then mark_pruned a else a

leb-suc : (a b : ℕ) → leb (suc a) (suc b) ≡ leb a b
leb-suc a b = ground arith

leb-zero : (a : ℕ) → leb 0 a ≡ true
leb-zero a = ground arith

prune_from-get_elem? :
    (skip i : ℕ) (xs : List Analyst)
    → get_elem? (prune_from skip xs).0 i ≡ Option.map (prune_if (leb skip i)) (get_elem? xs i)
unfolding prune_from
prune_from-get_elem? zero i [] = refl
prune_from-get_elem? (suc skip) i [] = refl
prune_from-get_elem? (suc skip) zero (a ∷ xs) = ground arith
prune_from-get_elem? (suc skip) (suc i) (a ∷ xs) =
    rw (leb-suc skip i) (prune_from-get_elem? skip i xs)
prune_from-get_elem? zero zero (a ∷ xs) = elim (Bool-cases (is_active a && should_prune a)) [
  | inl t ↦ rw t refl
  | inr f ↦ rw f refl
]
prune_from-get_elem? zero (suc i) (a ∷ xs) =
    let ih = rw (leb-zero i, ← leb-zero (suc i)) at (prune_from-get_elem? zero i xs) in
    elim (Bool-cases (is_active a && should_prune a)) [ inl t ↦ rw t ih | inr f ↦ rw f ih ]

mark_pruned-inactive : (a : Analyst) → is_active (mark_pruned a) ≡ false
unfolding is_active mark_pruned
mark_pruned-inactive a = refl

prune_from-count :
    (skip : ℕ) (xs : List Analyst)
    → count_active (prune_from skip xs).0 + (prune_from skip xs).1 ≡ count_active xs
unfolding prune_from count_active
prune_from-count zero [] = omega arith
prune_from-count (suc skip) [] = omega arith
prune_from-count (suc skip) (a ∷ xs) = ground (arith, prune_from-count skip xs)
prune_from-count zero (a ∷ xs) = ground (arith, prune_from-count zero xs, mark_pruned-inactive a)

pub prune_from-length : (skip : ℕ) (xs : List Analyst) → length (prune_from skip xs).0 ≡ length xs
unfolding prune_from
prune_from-length zero [] = refl
prune_from-length (suc skip) [] = refl
prune_from-length (suc skip) (a ∷ xs) = ground (arith, prune_from-length skip xs)
prune_from-length zero (a ∷ xs) = ground (arith, prune_from-length zero xs)

-- Pruning leaves the first four analysts as they are, and marks each active analyst behind them that
-- was idle for three rounds or scores below two, changing nothing else; the number that it reports
-- is the number of analysts that ceased to be active.
pub prune_inactive_analysts-get_analyst :
    (pool : AnalystPool) (i : ℕ)
    → let (after, pruned_count) = prune_inactive_analysts pool in
      (get_analyst i after ≡ Option.map (prune_if (leb base_analyst_count i)) (get_analyst i pool))
      × (active_count after + pruned_count ≡ active_count pool)
unfolding prune_inactive_analysts get_analyst active_count
prune_inactive_analysts-get_analyst pool i =
    (prune_from-get_elem? 4 i pool.analysts, prune_from-count 4 pool.analysts)

-- An analyst behind the first four that has not scored is pruned at the first election after it
-- joined, however active it was: there is no round of grace.
pub new_dynamic_pruned :
    (pool : AnalystPool) (i : ℕ) (a : Analyst)
    → base_analyst_count ≤ i
    → get_analyst i pool ≡ some a
    → is_active a ≡ true
    → a.stats.total_score < 2
    → get_analyst i (prune_inactive_analysts pool).0 ≡ some (mark_pruned a)
unfolding should_prune
new_dynamic_pruned pool i a b e t s = ground (arith, (prune_inactive_analysts-get_analyst pool i).0)
