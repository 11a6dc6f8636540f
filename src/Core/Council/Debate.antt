-- ===== src/Core/Council/Debate.antt =====
-- The debate loop (`run_debate` and `run_round` in src/core/Council.cpp).
use code_tribunal.Prelude.{
  ℕ, zero, suc, ◌+◌, ◌≤◌, ◌≡◌, refl, ap, inl, inr, true, leb, none, some, List, [], ◌∷◌, Text,
  length, length-append, map, All, arith, if◌then◌else◌, Bool-cases,
}
use code_tribunal.Prelude.Int.{ℤ, pos, negsuc}
use code_tribunal.Core.Types.{AnalystRole}
use code_tribunal.Core.Analyst.{
  Analyst, Reply, returns, throws, LlmClient, accept_reply, execute_round, new_analyst, is_active,
}
use code_tribunal.Core.Pool.{
  AnalystPool, base_analysts, base_posts, new_pool, run_threads, execute_pool, get_stats,
}
use code_tribunal.Core.Pool.Capacity.{length-base_analysts}
use code_tribunal.Core.Pool.Round.{run_threads-length}
use code_tribunal.Core.Election.{
  ElectionRound, run_election_round, prune_from, prune_inactive_analysts,
}
use code_tribunal.Core.Council.{
  Council, Session, World, initialize_analysts, session, run_round, run_rounds, loop_count,
  run_debate, finalize_results, final_winner_from, count_pruned, get_election_history,
}

run_election_round-history :
    (number : ℕ) (pool : AnalystPool) (h : List ElectionRound)
    → length (run_election_round number pool h).1 ≡ suc (length h)
unfolding run_election_round
run_election_round-history number pool h = omega (arith, length-append {0} h)

run_round-elections :
    (w : World) (prompt : Text) (number : ℕ) (s : Session)
    → length (run_round w prompt number s).0.elections
      ≡ (if (run_round w prompt number s).1 then suc (length s.elections) else length s.elections)
unfolding run_round
run_round-elections w prompt number s =
    let pool = (execute_pool (w.schedules number) (w.clients number) prompt s.analysts).0 in
    ground (arith, run_election_round-history number pool s.elections)

run_rounds-elections :
    (w : World) (prompt : Text) (left number : ℕ) (s : Session) (completed : ℕ)
    → let (s', completed') = run_rounds w prompt left number s completed in
      (length s'.elections + completed ≡ length s.elections + completed')
      × (completed' ≤ completed + left)
unfolding run_rounds
run_rounds-elections w prompt zero number s completed = omega arith
run_rounds-elections w prompt (suc left) number s completed = ground (
  arith,
  run_round-elections w prompt number s,
  run_rounds-elections w prompt left (suc number) (run_round w prompt number s).0 (suc completed),
)

-- A debate of an initialised council records one election for each round that it completes, and it
-- completes at most as many as it was asked for; yet the result always says that no round was.
pub run_debate-rounds_completed :
    (w : World) (prompt : Text) (n : ℤ) (c : Council) (s : Session)
    → session c ≡ some s
    → let completed = (run_rounds w prompt (loop_count n) 0 s 0).1 in
      (length (get_election_history (run_debate w prompt n c).0) ≡ length s.elections + completed)
      × (completed ≤ loop_count n)
      × ((run_debate w prompt n c).1.rounds_completed ≡ 0)
unfolding run_debate get_election_history finalize_results
run_debate-rounds_completed w prompt n c s e =
    let counted = run_rounds-elections w prompt (loop_count n) 0 s 0 in
    rw (e, run_debate) (omega (arith, counted.0), omega (arith, counted.1), refl)

-- An analyst that has neither scored nor left.
pub record IsFresh (a : Analyst) : Type 0 where
  pub unscored : a.stats.total_score ≡ 0
  pub unpruned : a.stats.pruned ≡ 0
  pub active : is_active a ≡ true

accept_reply-IsFresh : (r : Reply) (a : Analyst) → IsFresh a → IsFresh (accept_reply r a).0
unfolding accept_reply is_active
accept_reply-IsFresh (throws message) a f = ground arith
accept_reply-IsFresh (returns resp) a f = ground arith

run_threads-IsFresh :
    (clients : ℕ → LlmClient) (prompt : Text) (i : ℕ) (xs : List Analyst)
    → All IsFresh xs
    → All IsFresh (run_threads clients prompt i xs).0
unfolding run_threads execute_round
run_threads-IsFresh clients prompt i [] h = tt
run_threads-IsFresh clients prompt i (a ∷ xs) h =
    rw h.0.active (accept_reply-IsFresh _ a h.0, run_threads-IsFresh clients prompt (suc i) xs h.1)

prune_from-exempt : (skip : ℕ) (xs : List Analyst) → length xs ≤ skip → (prune_from skip xs).0 ≡ xs
unfolding prune_from
prune_from-exempt zero [] h = refl
prune_from-exempt (suc skip) [] h = refl
prune_from-exempt (suc skip) (a ∷ xs) h = ap (◌∷◌ a) (prune_from-exempt skip xs (omega arith))
prune_from-exempt zero (a ∷ xs) h = absurd (omega arith)

-- At least one analyst, at most the four base analysts, and all of them fresh.
record IsBase (pool : AnalystPool) : Type 0 where
  some_analyst : 1 ≤ length pool.analysts
  few : length pool.analysts ≤ 4
  fresh : All IsFresh pool.analysts

execute_pool-IsBase :
    (schedule : List ℕ) (clients : ℕ → LlmClient) (prompt : Text) (pool : AnalystPool)
    → IsBase pool
    → IsBase (execute_pool schedule clients prompt pool).0
unfolding execute_pool
execute_pool-IsBase schedule clients prompt pool b =
    let len = run_threads-length clients prompt 0 pool.analysts in
    record {
      some_analyst = omega (arith, len, b.some_analyst);
      few = omega (arith, len, b.few);
      fresh = run_threads-IsFresh clients prompt 0 pool.analysts b.fresh;
    }

run_election_round-IsBase :
    (number : ℕ) (pool : AnalystPool) (h : List ElectionRound)
    → IsBase pool
    → IsBase (run_election_round number pool h).0
unfolding run_election_round prune_inactive_analysts
run_election_round-IsBase number pool h b =
    let same = prune_from-exempt 4 pool.analysts b.few in
    record { some_analyst = rw same b.some_analyst; few = rw same b.few; fresh = rw same b.fresh }

run_round-IsBase :
    (w : World) (prompt : Text) (number : ℕ) (s : Session)
    → IsBase s.analysts
    → IsBase (run_round w prompt number s).0.analysts
unfolding run_round
run_round-IsBase w prompt number s b =
    let called = execute_pool (w.schedules number) (w.clients number) prompt s.analysts in
    let base = execute_pool-IsBase (w.schedules number) (w.clients number) prompt s.analysts b in
    elim (Bool-cases (leb called.1 0)) [
      | inl t ↦ rw (t, run_round) base
      | inr f ↦ rw (f, run_round) (run_election_round-IsBase number called.0 s.elections base)
    ]

run_rounds-IsBase :
    (w : World) (prompt : Text) (left number : ℕ) (s : Session) (completed : ℕ)
    → IsBase s.analysts
    → IsBase (run_rounds w prompt left number s completed).0.analysts
unfolding run_rounds
run_rounds-IsBase w prompt zero number s completed b = b
run_rounds-IsBase w prompt (suc left) number s completed b =
    elim (Bool-cases (run_round w prompt number s).1) [
      | inl t ↦
          rw t (
            run_rounds-IsBase w prompt left (suc number) _ _ (run_round-IsBase w prompt number s b))
      | inr f ↦ rw f (run_round-IsBase w prompt number s b)
    ]

new_analyst-IsFresh :
    (role : AnalystRole) (model prompt : Text) → IsFresh (new_analyst role model prompt)
unfolding new_analyst is_active
new_analyst-IsFresh role model prompt = record { unscored = refl; unpruned = refl; active = refl }

base_analysts-IsFresh :
    (posts : List (AnalystRole × Text)) (models : List Text)
    → All IsFresh (base_analysts posts models)
unfolding base_analysts
base_analysts-IsFresh [] models = tt
base_analysts-IsFresh ((role, prompt) ∷ posts) [] = tt
base_analysts-IsFresh ((role, prompt) ∷ posts) (m ∷ models) =
    (new_analyst-IsFresh role m prompt, base_analysts-IsFresh posts models)

new_pool-IsBase : (m : Text) (models : List Text) → IsBase (new_pool (m ∷ models))
unfolding new_pool
new_pool-IsBase m models =
    let len = length-base_analysts base_posts (m ∷ models) in
    record {
      some_analyst = omega (arith, len);
      few = omega (arith, len);
      fresh = base_analysts-IsFresh base_posts (m ∷ models);
    }

winner_stays :
    (i k : ℕ) (xs : List Analyst)
    → All IsFresh xs
    → final_winner_from i (map (λ a. a.stats) xs) (some k) (pos 0) ≡ some k
unfolding final_winner_from
winner_stays i k [] f = refl
winner_stays i k (a ∷ xs) f = rw f.0.unscored (winner_stays (suc i) k xs f.1)

none_pruned : (xs : List Analyst) → All IsFresh xs → count_pruned (map (λ a. a.stats) xs) ≡ 0
unfolding count_pruned
none_pruned [] f = refl
none_pruned (a ∷ xs) f = ground (arith, none_pruned xs f.1, f.0.unpruned)

first_wins :
    (xs : List Analyst)
    → 1 ≤ length xs
    → All IsFresh xs
    → final_winner_from 0 (map (λ a. a.stats) xs) none (negsuc 0) ≡ some 0
unfolding final_winner_from
first_wins [] h f = absurd (omega arith)
first_wins (a ∷ xs) h f = rw f.0.unscored (winner_stays 1 0 xs f.1)

-- A debate of a council that was just initialised with at least one model names the first analyst
-- as its final winner and prunes nobody, whatever the clients answer, whoever wins the elections and
-- however many rounds run: no step of a debate changes a score.
pub run_debate-first_wins :
    (w : World) (prompt : Text) (n : ℤ) (c : Council) (m : Text) (models : List Text)
    → let result = (run_debate w prompt n (initialize_analysts true (m ∷ models) c).0).1 in
      (result.final_winner ≡ some 0) × (result.analysts_pruned ≡ 0)
unfolding run_debate initialize_analysts session finalize_results get_stats
run_debate-first_wins w prompt n c m models =
    let start : Session = record { analysts = new_pool (m ∷ models); elections = [] } in
    let base = run_rounds-IsBase w prompt (loop_count n) 0 start 0 (new_pool-IsBase m models) in
    (first_wins _ base.some_analyst base.fresh, none_pruned _ base.fresh)
