-- ===== src/Core/Pool.antt =====
-- The pool of analysts: src/core/Pool.h and Pool.cpp. A round runs one thread for each active
-- analyst. A thread writes its own analyst only; what the threads share is the counter
-- `success_count`, an unprotected `int` whose `++` is a load and a store. The order of the loads and
-- stores is a schedule, a list of thread numbers; the threads that it leaves unfinished run to
-- their end one after the other when they are joined.
pub mod Counter
pub mod Capacity
pub mod Round
use code_tribunal.Prelude.{
  ℕ, zero, suc, ◌+◌, Bool, true, false, ◌==◌, leb, Option, none, some, List, [], ◌∷◌, ◌++◌, map,
  Text, text, length, get_elem?, erase_at, replicate, if◌then◌else◌,
}
use code_tribunal.Core.Types.{AnalystRole, AnalystStats, max_models}
use code_tribunal.Core.Analyst.{Analyst, LlmClient, new_analyst, execute_round, is_active}

pub record AnalystPool : Type 0 where
  pub analysts : List Analyst
  pub base_analyst_count : ℕ

abbrev pub base_posts : List (AnalystRole × Text)
base_posts =
    (
      AnalystRole.security,
      text "You are a security expert. Look for vulnerabilities, exploits, and unsafe patterns.",
    )
    ∷ (
      AnalystRole.performance,
      text
          "You are a performance expert. Look for inefficiencies, resource usage, and optimization opportunities.",
    )
    ∷ (
      AnalystRole.correctness,
      text
          "You are a correctness expert. Look for logic errors, edge cases, and specification violations.",
    )
    ∷ (
      AnalystRole.style,
      text
          "You are a style expert. Look for code quality, readability, maintainability, and best practices.",
    )
    ∷ []

-- The loop over the posts and the models, which ends at the shorter of the two.
unfoldable pub base_analysts : List (AnalystRole × Text) → List Text → List Analyst
base_analysts [] models = []
base_analysts ((role, prompt) ∷ posts) [] = []
base_analysts ((role, prompt) ∷ posts) (model ∷ models) =
    new_analyst role model prompt ∷ base_analysts posts models

unfoldable pub new_pool : List Text → AnalystPool
new_pool models = record { analysts = base_analysts base_posts models; base_analyst_count = 4 }

unfoldable pub add_analyst : AnalystRole → Text → Text → AnalystPool → AnalystPool × Bool
add_analyst role model system_prompt pool =
    if leb max_models (length pool.analysts) then (pool, false) else (
      record pool { analysts = pool.analysts ++ new_analyst role model system_prompt ∷ [] },
      true,
    )

unfoldable pub remove_analyst : ℕ → AnalystPool → AnalystPool × Bool
remove_analyst index pool =
    if leb (length pool.analysts) index
    then (pool, false)
    else (record pool { analysts = erase_at pool.analysts index }, true)

-- How far a thread is with its `success_count++`.
pub data Phase : Type 0 where
  start : Phase
  loaded : ℕ → Phase
  stored : Phase

unfoldable pub step_thread : Phase → ℕ → Phase × ℕ
step_thread start c = (loaded c, c)
step_thread (loaded v) c = (stored, suc v)
step_thread stored c = (stored, c)

-- One step of the thread with that number; a number of no thread does nothing.
unfoldable pub race_step : ℕ → List Phase → ℕ → List Phase × ℕ
unfolding step_thread
race_step t [] c = ([], c)
race_step zero (p ∷ ps) c = ((step_thread p c).0 ∷ ps, (step_thread p c).1)
race_step (suc t) (p ∷ ps) c = (p ∷ (race_step t ps c).0, (race_step t ps c).1)

unfoldable pub race : List ℕ → List Phase → ℕ → List Phase × ℕ
race [] ps c = (ps, c)
race (t ∷ schedule) ps c = race schedule (race_step t ps c).0 (race_step t ps c).1

-- The threads that are joined finish in order.
unfoldable pub join : List Phase → ℕ → ℕ
join [] c = c
join (start ∷ ps) c = join ps (suc c)
join (loaded v ∷ ps) c = join ps (suc v)
join (stored ∷ ps) c = join ps c

-- The counter after `k` threads have incremented it.
unfoldable pub success_count : List ℕ → ℕ → ℕ
unfolding race race_step join
success_count schedule k =
    join (race schedule (replicate k start) 0).0 (race schedule (replicate k start) 0).1

abbrev pub count_true : List Bool → ℕ
count_true [] = 0
count_true (true ∷ bs) = suc (count_true bs)
count_true (false ∷ bs) = count_true bs

-- The analysts from position `i` on after their threads have ended, and what the calls returned.
unfoldable pub run_threads : (ℕ → LlmClient) → Text → ℕ → List Analyst → List Analyst × List Bool
run_threads clients prompt i [] = ([], [])
run_threads clients prompt i (a ∷ others) =
    let rest = run_threads clients prompt (suc i) others in
    if is_active a
    then (
      (execute_round (clients i) prompt a).0 ∷ rest.0,
      (execute_round (clients i) prompt a).1 ∷ rest.1,
    )
    else (a ∷ rest.0, rest.1)

-- `clients i` is the client as the thread of the analyst at position `i` meets it.
unfoldable pub execute_pool : List ℕ → (ℕ → LlmClient) → Text → AnalystPool → AnalystPool × ℕ
execute_pool schedule clients prompt pool =
    let done = run_threads clients prompt 0 pool.analysts in
    (record pool { analysts = done.0 }, success_count schedule (count_true done.1))

-- A null pointer is `none`.
unfoldable pub get_analyst : ℕ → AnalystPool → Option Analyst
get_analyst index pool = get_elem? pool.analysts index

-- The underlying value of an `AnalystRole`.
abbrev pub role_index : AnalystRole → ℕ
role_index AnalystRole.security = 0
role_index AnalystRole.performance = 1
role_index AnalystRole.correctness = 2
role_index AnalystRole.style = 3
role_index AnalystRole.dynamic = 4
role_index AnalystRole.judge = 5
role_index AnalystRole.count = 6

unfoldable pub analyst_by_role : AnalystRole → List Analyst → Option Analyst
analyst_by_role role [] = none
analyst_by_role role (a ∷ others) =
    if role_index a.role == role_index role then some a else analyst_by_role role others

unfoldable pub get_analyst_by_role : AnalystRole → AnalystPool → Option Analyst
unfolding analyst_by_role
get_analyst_by_role role pool = analyst_by_role role pool.analysts

unfoldable pub count_active : List Analyst → ℕ
count_active [] = 0
count_active (a ∷ others) = if is_active a then suc (count_active others) else count_active others

unfoldable pub active_count : AnalystPool → ℕ
unfolding count_active
active_count pool = count_active pool.analysts

unfoldable pub get_stats : AnalystPool → List AnalystStats
get_stats pool = map (λ a. a.stats) pool.analysts
