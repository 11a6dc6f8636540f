-- ===== src/Core/Pool/Round.antt =====
-- One round of the pool (`AnalystPool::execute_round` in src/core/Pool.cpp), analyst by analyst.
use mathlib.Core.Option
use native.Mathlib.Nat.{add-zero, zero-add}
use code_tribunal.Prelude.{
  ℕ, zero, suc, ◌+◌, ◌≤◌, ◌≡◌, refl, inl, inr, true, some, List, [], ◌∷◌, Text, length, get_elem?,
  arith, if◌then◌else◌, Bool-cases,
}
use code_tribunal.Core.Analyst.{Analyst, LlmClient, execute_round, is_active}
use code_tribunal.Core.Pool.{
  AnalystPool, count_true, run_threads, execute_pool, get_analyst, count_active, active_count,
}
use code_tribunal.Core.Pool.Counter.{success_count_bounds}

-- What a round does to one analyst.
abbrev pub take_part : LlmClient → Text → Analyst → Analyst
take_part client prompt a = if is_active a then (execute_round client prompt a).0 else a

run_threads-get_elem? :
    (clients : ℕ → LlmClient) (prompt : Text) (k : ℕ) (xs : List Analyst) (i : ℕ)
    → get_elem? (run_threads clients prompt k xs).0 i
      ≡ Option.map (take_part (clients (k + i)) prompt) (get_elem? xs i)
unfolding run_threads
run_threads-get_elem? clients prompt k [] i = refl
run_threads-get_elem? clients prompt k (a ∷ xs) zero = rw (add-zero k) (ground arith)
run_threads-get_elem? clients prompt k (a ∷ xs) (suc i) =
    let ih = run_threads-get_elem? clients prompt (suc k) xs i in
    let e : suc k + i ≡ k + suc i = omega arith in
    let ih' = rw e at ih in elim (Bool-cases (is_active a)) [ inl t ↦ rw t ih' | inr t ↦ rw t ih' ]

run_threads-count :
    (clients : ℕ → LlmClient) (prompt : Text) (k : ℕ) (xs : List Analyst)
    → count_true (run_threads clients prompt k xs).1 ≤ count_active xs
unfolding run_threads count_active
run_threads-count clients prompt k [] = omega arith
run_threads-count clients prompt k (a ∷ xs) =
    ground (arith, run_threads-count clients prompt (suc k) xs)

pub run_threads-length :
    (clients : ℕ → LlmClient) (prompt : Text) (k : ℕ) (xs : List Analyst)
    → length (run_threads clients prompt k xs).0 ≡ length xs
unfolding run_threads
run_threads-length clients prompt k [] = refl
run_threads-length clients prompt k (a ∷ xs) =
    ground (arith, run_threads-length clients prompt (suc k) xs)

-- Whatever the schedule of the threads, a round leaves at each position the analyst of that
-- position, after its own call if it is active and as it was if it is not, and it reports at most
-- as many successes as there are active analysts.
pub execute_pool-get_analyst :
    (schedule : List ℕ) (clients : ℕ → LlmClient) (prompt : Text) (pool : AnalystPool)
    → ((i : ℕ)
        → get_analyst i (execute_pool schedule clients prompt pool).0
          ≡ Option.map (take_part (clients i) prompt) (get_analyst i pool))
      × ((execute_pool schedule clients prompt pool).1 ≤ active_count pool)
unfolding execute_pool get_analyst active_count
execute_pool-get_analyst schedule clients prompt pool = (
  λ i. rw (run_threads-get_elem? clients prompt 0 pool.analysts i, zero-add i) refl,
  omega (
    arith,
    (success_count_bounds schedule (count_true (run_threads clients prompt 0 pool.analysts).1)).0,
    run_threads-count clients prompt 0 pool.analysts,
  ),
)

-- The analyst at position `i` is active and its call succeeds.
pub record SucceedsAt (clients : ℕ → LlmClient) (prompt : Text) (pool : AnalystPool) (i : ℕ)
    : Type 0 where
  pub analyst : Analyst
  pub at_i : get_analyst i pool ≡ some analyst
  pub active : is_active analyst ≡ true
  pub called : (execute_round (clients i) prompt analyst).1 ≡ true

some_success :
    (clients : ℕ → LlmClient) (prompt : Text) (k : ℕ) (xs : List Analyst)
    → 1 ≤ count_true (run_threads clients prompt k xs).1
    → (i : ℕ) × (a : Analyst) × (get_elem? xs i ≡ some a)
      × (is_active a ≡ true)
      × ((execute_round (clients (k + i)) prompt a).1 ≡ true)
unfolding run_threads
some_success clients prompt k [] h = absurd (omega arith)
some_success clients prompt k (a ∷ xs) h = elim (Bool-cases (is_active a)) [
  | inl t ↦ elim (Bool-cases (execute_round (clients k) prompt a).1) [
    | inl e ↦ (0, a, refl, t, rw (add-zero k) e)
    | inr e ↦ later (some_success clients prompt (suc k) xs (ground arith))
  ]
  | inr t ↦ later (some_success clients prompt (suc k) xs (ground arith))
]
  where
    later :
        (i : ℕ) × (b : Analyst) × (get_elem? xs i ≡ some b)
          × (is_active b ≡ true)
          × ((execute_round (clients (suc k + i)) prompt b).1 ≡ true)
        → (i : ℕ) × (b : Analyst) × (get_elem? (a ∷ xs) i ≡ some b)
          × (is_active b ≡ true)
          × ((execute_round (clients (k + i)) prompt b).1 ≡ true)
    later (i, b, e, t, c) =
        let s : suc k + i ≡ k + suc i = omega arith in (suc i, b, e, t, rw s at c)

-- If a round reports a success, then some active analyst's call succeeded.
pub execute_pool-SucceedsAt :
    (schedule : List ℕ) (clients : ℕ → LlmClient) (prompt : Text) (pool : AnalystPool)
    → 1 ≤ (execute_pool schedule clients prompt pool).1
    → (i : ℕ) × SucceedsAt clients prompt pool i
unfolding execute_pool get_analyst
execute_pool-SucceedsAt schedule clients prompt pool h =
    let k = count_true (run_threads clients prompt 0 pool.analysts).1 in
    let (i, a, e, t, c) =
      some_success clients prompt 0 pool.analysts
        (omega (arith, (success_count_bounds schedule k).0)) in
    (i, record { analyst = a; at_i = e; active = t; called = rw (zero-add i) at c })

succeeds_counted :
    (clients : ℕ → LlmClient) (prompt : Text) (k : ℕ) (xs : List Analyst) (i : ℕ) (a : Analyst)
    → get_elem? xs i ≡ some a
    → is_active a ≡ true
    → (execute_round (clients (k + i)) prompt a).1 ≡ true
    → 1 ≤ count_true (run_threads clients prompt k xs).1
unfolding run_threads
succeeds_counted clients prompt k [] i a e t c = cc
succeeds_counted clients prompt k (x ∷ xs) zero a e t c =
    let c' = rw (add-zero k) at c in ground arith
succeeds_counted clients prompt k (x ∷ xs) (suc i) a e t c =
    let s : k + suc i ≡ suc k + i = omega arith in
    ground (arith, succeeds_counted clients prompt (suc k) xs i a e t (rw s at c))

-- If some active analyst's call succeeds, the round reports a success under every schedule.
pub SucceedsAt-execute_pool :
    (schedule : List ℕ) (clients : ℕ → LlmClient) (prompt : Text) (pool : AnalystPool) (i : ℕ)
    → SucceedsAt clients prompt pool i
    → 1 ≤ (execute_pool schedule clients prompt pool).1
unfolding execute_pool get_analyst
SucceedsAt-execute_pool schedule clients prompt pool i s =
    let k = count_true (run_threads clients prompt 0 pool.analysts).1 in
    omega (
      arith,
      (success_count_bounds schedule k).1,
      succeeds_counted clients prompt 0 pool.analysts i s.analyst s.at_i s.active
          (rw (← zero-add i) at s.called),
    )
