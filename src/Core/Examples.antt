-- ===== src/Core/Examples.antt =====
-- The theorems on the debate engine at concrete inputs: a pool of two analysts, one of whose clients
-- answers at length.
use code_tribunal.Core.Analyst.{is_active}
use code_tribunal.Core.Pool.{run_threads}
use code_tribunal.Prelude.{
  ℕ, zero, suc, ◌≤◌, ◌<◌, ◌≡◌, ◌⊎◌, refl, true, false, some, List, [], ◌∷◌, Text, text, All,
}
use code_tribunal.Prelude.Int.{pos}
use code_tribunal.Core.Types.{AnalystRole, default_configuration}
use code_tribunal.Core.Analyst.{
  PromptResponse, returns, throws, LlmClient, Analyst, new_analyst, execute_round, get_response,
  mark_pruned,
}
use code_tribunal.Core.Analyst.Stats.{
  execute, activity, adopt, win, noted, apply_all, IsAccounted, history-IsAccounted,
}
use code_tribunal.Core.Pool.{AnalystPool, new_pool, execute_pool, get_analyst}
use code_tribunal.Core.Pool.Round.{SucceedsAt, SucceedsAt-execute_pool}
use code_tribunal.Core.Election.{
  add_score, Vote, tally_votes, select_winner, generate_votes_for_round, run_election_round,
}
use code_tribunal.Core.Election.Tally.{lookup, IsOrdered, has_vote, received, lookup-tally_votes}
use code_tribunal.Core.Election.Winner.{select_winner-received}
use code_tribunal.Core.Election.Votes.{IsFairVote, generate_votes-IsFairVote}
use code_tribunal.Core.Election.Session.{HasAnswered, run_election_round-HasAnswered}
use code_tribunal.Core.Council.{
  Council, World, Session, new_council, initialize_analysts, run_debate,
}
use code_tribunal.Core.Council.Debate.{run_debate-first_wins}

abbrev response : Text → PromptResponse
response t = record { response_text = t; tokens_used = pos 3; truncated = false; error = [] }

abbrev short : LlmClient
short q = returns (response (text "ok"))

abbrev long : LlmClient
long q = returns (response (text "off by one in line 7"))

abbrev broken : LlmClient
broken q = throws (text "timeout")

abbrev clients : ℕ → LlmClient
clients zero = short
clients (suc n) = long

abbrev world : World
world = record { clients = λ r. clients; schedules = λ r. [] }

abbrev models : List Text
models = text "mistral" ∷ text "llama3.2" ∷ []

abbrev analyst : Analyst
analyst = new_analyst AnalystRole.security (text "mistral") (text "be strict")

abbrev pool : AnalystPool
pool = record { analysts = analyst ∷ analyst ∷ []; base_analyst_count = 2 }

-- The pool after a round.
abbrev answered : AnalystPool
answered = (execute_pool [] clients (text "review") pool).0

abbrev votes : List Vote
votes =
    record { voter_id = 0; votee_id = 2; score = 5 }
    ∷ record { voter_id = 1; votee_id = 2; score = 5 }
    ∷ record { voter_id = 2; votee_id = 0; score = 5 }
    ∷ []

-- A pool of five, the last of which has left.
abbrev five : AnalystPool
five = record {
  analysts = analyst ∷ analyst ∷ analyst ∷ analyst ∷ mark_pruned analyst ∷ [];
  base_analyst_count = 4;
}

abbrev six : AnalystPool
six = record {
  analysts = analyst ∷ analyst ∷ analyst ∷ analyst ∷ analyst ∷ analyst ∷ [];
  base_analyst_count = 4;
}

run_debate-first_wins_example :
    let result =
      (run_debate world
        (text "review")
        (pos 2)
        (initialize_analysts true models (new_council default_configuration)).0).1 in
    (result.final_winner ≡ some 0) × (result.analysts_pruned ≡ 0)
run_debate-first_wins_example =
    run_debate-first_wins world (text "review") (pos 2) (new_council default_configuration)
      (text "mistral") (text "llama3.2" ∷ [])

abbrev council : Council
council = (initialize_analysts true models (new_council default_configuration)).0

abbrev first_session : Session
first_session = record { analysts = new_pool models; elections = [] }

select_winner-received_example :
    (has_vote 2 votes ≡ true)
    × (0 < received 2 votes)
    × ((received 0 votes < received 2 votes) ⊎ ((received 0 votes ≡ received 2 votes) × (2 ≤ 0)))
unfolding select_winner tally_votes add_score
select_winner-received_example = select_winner-received votes 2 0 refl

generate_votes-IsFairVote_example :
    All (IsFairVote answered (pos 0)) (generate_votes_for_round answered (pos 0))
generate_votes-IsFairVote_example = generate_votes-IsFairVote answered (pos 0)

run_election_round-HasAnswered_example : HasAnswered answered (pos 0) 0
unfolding run_election_round execute_pool generate_votes_for_round run_threads is_active new_analyst
    execute_round get_response add_score
run_election_round-HasAnswered_example = run_election_round-HasAnswered 0 answered [] 0 refl

succeeds : SucceedsAt clients (text "review") pool 1
unfolding execute_round get_analyst is_active new_analyst
succeeds = record { analyst = analyst; at_i = refl; active = refl; called = refl }

SucceedsAt-execute_pool_example : 1 ≤ (execute_pool (1 ∷ 0 ∷ []) clients (text "review") pool).1
SucceedsAt-execute_pool_example =
    SucceedsAt-execute_pool (1 ∷ 0 ∷ []) clients (text "review") pool 1 succeeds

lookup-tally_votes_example :
    (lookup 2 (tally_votes votes) ≡ some 10) × IsOrdered (tally_votes votes)
unfolding has_vote received
lookup-tally_votes_example = lookup-tally_votes votes 2

history-IsAccounted_example : IsAccounted 1 (
    apply_all
      (execute long (text "review") ∷ activity true ∷ adopt ∷ win ∷ [])
      (new_analyst AnalystRole.security (text "m") (text "p")))
unfolding noted
history-IsAccounted_example =
    history-IsAccounted AnalystRole.security (text "m") (text "p")
      (execute long (text "review") ∷ activity true ∷ adopt ∷ win ∷ [])
