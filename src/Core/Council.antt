-- ===== src/Core/Council.antt =====
-- The orchestrator: src/core/Council.h and Council.cpp. A null `unique_ptr` is `none`; the LLM client
-- is a parameter of the debate, by round and by analyst, as is the schedule of a round's threads. The
-- winner -1 is `none`.
pub mod Debate
pub mod Outcome
use code_tribunal.Prelude.{
  ℕ, zero, suc, ◌+◌, Bool, true, false, not, ◌&&◌, ◌||◌, ◌==◌, leb, Option, none, some, List, [],
  ◌∷◌, ◌++◌, Text, text, length, is_empty, get_or, if◌then◌else◌, to_string,
}
use code_tribunal.Prelude.Int.{ℤ, pos, negsuc, ltb_ℤ}
use code_tribunal.Core.Types.{AnalystStats, new_stats, Configuration}
use code_tribunal.Core.Analyst.{Analyst, LlmClient, get_response}
use code_tribunal.Core.Pool.{AnalystPool, new_pool, execute_pool, get_analyst, get_stats}
use code_tribunal.Core.Election.{ElectionRound, run_election_round}

pub record DebateResult : Type 0 where
  pub final_winner : Option ℕ
  pub winner_responses : List Text
  pub rounds_completed : ℕ
  pub analysts_pruned : ℕ
  pub final_stats : List AnalystStats
  pub summary : Text

abbrev pub new_result : DebateResult
new_result = record {
  final_winner = none;
  winner_responses = [];
  rounds_completed = 0;
  analysts_pruned = 0;
  final_stats = [];
  summary = [];
}

pub record Council : Type 0 where
  pub config : Configuration
  pub pool : Option AnalystPool
  pub has_client : Bool
  pub voting_system : Option (List ElectionRound)

-- What a debate meets outside the program: the clients by round and position, and the order of the
-- threads' steps by round.
pub record World : Type 0 where
  pub clients : ℕ → ℕ → LlmClient
  pub schedules : ℕ → List ℕ

unfoldable pub new_council : Configuration → Council
new_council config = record {
  config = config;
  pool = none;
  has_client = false;
  voting_system = none;
}

unfoldable pub initialize_analysts : Bool → List Text → Council → Council × Bool
initialize_analysts client models c = if not client || is_empty models then (c, false) else (
  record c { pool = some (new_pool models); has_client = true; voting_system = some [] },
  true,
)

-- The analysts and the elections of an initialised council.
pub record Session : Type 0 where
  pub analysts : AnalystPool
  pub elections : List ElectionRound

-- `none` if a pointer is null.
unfoldable pub session : Council → Option Session
session c = elim c.pool [
  | none ↦ none
  | some p ↦ elim c.voting_system [
    | none ↦ none
    | some es ↦ if c.has_client then some (record { analysts = p; elections = es }) else none
  ]
]

unfoldable pub is_initialized : Council → Bool
unfolding session
is_initialized c = elim (session c) [ none ↦ false | some s ↦ true ]

-- `run_round` of an initialised council.
unfoldable pub run_round : World → Text → ℕ → Session → Session × Bool
run_round w prompt number s =
    let (pool', success_count) =
      execute_pool (w.schedules number) (w.clients number) prompt s.analysts in
    let (pool'', history, election) = run_election_round number pool' s.elections in
    if leb success_count 0
    then (record s { analysts = pool' }, false)
    else (record { analysts = pool''; elections = history }, true)

-- The loop of `run_debate` with so many rounds left, and the local count of the rounds completed.
unfoldable pub run_rounds : World → Text → ℕ → ℕ → Session → ℕ → Session × ℕ
run_rounds w prompt zero number s completed = (s, completed)
run_rounds w prompt (suc left) number s completed =
    let rest =
      run_rounds w prompt left (suc number) (run_round w prompt number s).0 (suc completed) in
    if (run_round w prompt number s).1 then rest else ((run_round w prompt number s).0, completed)

-- How often a loop from 0 to below `n` runs.
abbrev pub loop_count : ℤ → ℕ
loop_count (pos n) = n
loop_count (negsuc n) = 0

-- The winner loop over the statistics, at index `i`.
unfoldable pub final_winner_from : ℕ → List AnalystStats → Option ℕ → ℤ → Option ℕ
final_winner_from i [] winner max_score = winner
final_winner_from i (s ∷ ss) winner max_score =
    final_winner_from (suc i) ss (if ltb_ℤ max_score (pos s.total_score) then some i else winner)
      (if ltb_ℤ max_score (pos s.total_score) then pos s.total_score else max_score)

-- The responses of the winner that are not empty, from round `r` on.
unfoldable pub responses_from : Analyst → ℕ → ℕ → List Text
responses_from a r zero = []
responses_from a r (suc left) =
    let rest = responses_from a (suc r) left in
    if is_empty (get_response a (pos r)) then rest else get_response a (pos r) ∷ rest

unfoldable pub winner_responses_of : Option Analyst → ℤ → List Text
unfolding responses_from
winner_responses_of none rounds = []
winner_responses_of (some a) rounds = responses_from a 0 (loop_count rounds)

unfoldable pub count_pruned : List AnalystStats → ℕ
count_pruned [] = 0
count_pruned (s ∷ ss) = if s.pruned == 0 then count_pruned ss else suc (count_pruned ss)

unfoldable pub summarize : Option ℕ → AnalystPool → List AnalystStats → ℕ → Text
summarize none pool stats pruned = text "No clear winner"
summarize (some id) pool stats pruned = elim (get_analyst id pool) [
  | none ↦ []
  | some winner ↦
      text "Debate complete. Winner: "
      ++ (winner.role_name
          ++ (text " (score: "
              ++ (to_string ((get_or stats id new_stats).total_score)
                  ++ (text ", pruned: " ++ (to_string pruned ++ text ")")))))
]

abbrev pub find_winner : Option ℕ → AnalystPool → Option Analyst
find_winner none pool = none
find_winner (some id) pool = get_analyst id pool

unfoldable pub finalize_results : Configuration → AnalystPool → DebateResult
unfolding final_winner_from winner_responses_of count_pruned summarize
finalize_results config pool =
    let stats = get_stats pool in
    let winner = final_winner_from 0 stats none (negsuc 0) in
    let pruned = count_pruned stats in
    record new_result {
      final_winner = winner;
      winner_responses = winner_responses_of (find_winner winner pool) config.rounds;
      final_stats = stats;
      analysts_pruned = pruned;
      summary = summarize winner pool stats pruned;
    }

-- The session as it is after the debate goes back into the council. The result with the count of the
-- completed rounds is a local variable that is dropped: the function returns a new one.
unfoldable pub run_debate : World → Text → ℤ → Council → Council × DebateResult
run_debate w prompt num_rounds c = elim (session c) [
  | none ↦ (c, record new_result { summary = text "Error: Council not initialized" })
  | some s ↦
      let done = (run_rounds w prompt (loop_count num_rounds) 0 s 0).0 in
      (
        record c { pool = some (done.analysts); voting_system = some (done.elections) },
        finalize_results c.config done.analysts,
      )
]

unfoldable pub get_election_history : Council → List ElectionRound
get_election_history c = elim c.voting_system [ none ↦ [] | some es ↦ es ]
