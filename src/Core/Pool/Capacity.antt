-- ===== src/Core/Pool/Capacity.antt =====
-- The size of the pool over any history of calls (src/core/Pool.cpp).
use Prim.Native.Nat.{min}
use code_tribunal.Prelude.{
  ℕ, zero, suc, ◌≤◌, ◌<◌, ◌≡◌, refl, true, some, List, [], ◌∷◌, ◌++◌, Text, length, length-append,
  get_elem?, erase_at, ◌==◌, ltb, arith, if◌then◌else◌,
}
use code_tribunal.Core.Types.{AnalystRole, max_models}
use code_tribunal.Core.Analyst.{Analyst, LlmClient, new_analyst}
use code_tribunal.Core.Pool.{
  AnalystPool, new_pool, base_analysts, base_posts, add_analyst, remove_analyst, execute_pool,
  get_analyst,
}
use code_tribunal.Core.Pool.Round.{run_threads-length}

pub data PoolCall : Type 0 where
  add : AnalystRole → Text → Text → PoolCall
  remove : ℕ → PoolCall
  round : List ℕ → (ℕ → LlmClient) → Text → PoolCall

pub call : PoolCall → AnalystPool → AnalystPool
call (add role model prompt) pool = (add_analyst role model prompt pool).0
call (remove index) pool = (remove_analyst index pool).0
call (round schedule clients prompt) pool = (execute_pool schedule clients prompt pool).0

pub call_all : List PoolCall → AnalystPool → AnalystPool
call_all [] pool = pool
call_all (c ∷ cs) pool = call_all cs (call c pool)

length-erase_at :
    (xs : List Analyst) (i : ℕ) → i < length xs → suc (length (erase_at xs i)) ≡ length xs
length-erase_at [] i h = elim h [ ]
length-erase_at (x ∷ xs) zero h = refl
length-erase_at (x ∷ xs) (suc i) h = omega (arith, length-erase_at xs i (omega arith))

call-bounded :
    (c : PoolCall) (pool : AnalystPool)
    → length pool.analysts ≤ max_models
    → length (call c pool).analysts ≤ max_models
unfolding call add_analyst remove_analyst execute_pool
call-bounded (add role model prompt) pool h =
    ground (arith, length-append pool.analysts (new_analyst role model prompt ∷ []))
call-bounded (remove index) pool h = ground (arith, length-erase_at pool.analysts index)
call-bounded (round schedule clients prompt) pool h =
    omega (arith, run_threads-length clients prompt 0 pool.analysts)

call_all-bounded :
    (cs : List PoolCall) (pool : AnalystPool)
    → length pool.analysts ≤ max_models
    → length (call_all cs pool).analysts ≤ max_models
unfolding call_all
call_all-bounded [] pool h = h
call_all-bounded (c ∷ cs) pool h = call_all-bounded cs (call c pool) (call-bounded c pool h)

pub length-base_analysts :
    (posts : List (AnalystRole × Text)) (models : List Text)
    → length (base_analysts posts models) ≡ min (length posts) (length models)
unfolding base_analysts
length-base_analysts [] models = omega arith
length-base_analysts ((role, prompt) ∷ posts) [] = omega arith
length-base_analysts ((role, prompt) ∷ posts) (m ∷ models) =
    omega (arith, length-base_analysts posts models)

-- After any history of additions, removals and rounds on a new pool, it holds at most `MAX_MODELS`
-- analysts.
pub history-bounded :
    (models : List Text) (cs : List PoolCall)
    → length (call_all cs (new_pool models)).analysts ≤ max_models
unfolding new_pool
history-bounded models cs =
    call_all-bounded cs _ (omega (arith, length-base_analysts base_posts models))

get_elem?-snoc :
    (xs : List Analyst) (a : Analyst) (i : ℕ)
    → get_elem? (xs ++ a ∷ []) i ≡ (if i == length xs then some a else get_elem? xs i)
get_elem?-snoc [] a zero = ground arith
get_elem?-snoc [] a (suc i) = ground arith
get_elem?-snoc (x ∷ xs) a zero = ground arith
get_elem?-snoc (x ∷ xs) a (suc i) = ground (arith, get_elem?-snoc xs a i)

-- Where the pool is not full, adding an analyst succeeds, the new analyst takes the position behind
-- the last one, and every other position reads as before.
pub add_analyst-get_analyst :
    (role : AnalystRole) (model prompt : Text) (pool : AnalystPool) (i : ℕ)
    → length pool.analysts < max_models
    → let (after, done) = add_analyst role model prompt pool in
      (done ≡ true)
      × (get_analyst i after ≡ (
          if i == length pool.analysts
          then some (new_analyst role model prompt)
          else get_analyst i pool))
unfolding add_analyst get_analyst
add_analyst-get_analyst role model prompt pool i h =
    ground (arith, get_elem?-snoc pool.analysts (new_analyst role model prompt) i)

erase_at-get_elem? :
    (xs : List Analyst) (k i : ℕ)
    → get_elem? (erase_at xs k) i ≡ (if ltb i k then get_elem? xs i else get_elem? xs (suc i))
erase_at-get_elem? [] k i = ground arith
erase_at-get_elem? (x ∷ xs) zero i = ground arith
erase_at-get_elem? (x ∷ xs) (suc k) zero = ground arith
erase_at-get_elem? (x ∷ xs) (suc k) (suc i) = ground (arith, erase_at-get_elem? xs k i)

-- Removing an analyst that the pool has succeeds, shortens the pool by one, keeps the positions
-- below it and moves those above it down by one.
pub remove_analyst-get_analyst :
    (index i : ℕ) (pool : AnalystPool)
    → index < length pool.analysts
    → let (after, done) = remove_analyst index pool in
      (done ≡ true)
      × (suc (length after.analysts) ≡ length pool.analysts)
      × (get_analyst i after
          ≡ (if ltb i index then get_analyst i pool else get_analyst (suc i) pool))
unfolding remove_analyst get_analyst
remove_analyst-get_analyst index i pool h =
    ground (arith, length-erase_at pool.analysts index h, erase_at-get_elem? pool.analysts index i)
