-- ===== src/Core/Election.antt =====
-- Elections: src/core/Election.h and Election.cpp. The id -1 is `none`; the scores are the weights
-- from 1 to 10 that the struct names. `std::map<int, int>` is the list of its entries, which
-- iteration visits in the order of the keys.
pub mod Tally
pub mod Winner
pub mod Votes
pub mod Prune
pub mod Session
use code_tribunal.Prelude.{
  ℕ, zero, suc, ◌+◌, Bool, true, false, not, ◌&&◌, ◌||◌, ◌==◌, ltb, leb, Option, none, some, List,
  [], ◌∷◌, ◌++◌, Text, text, length, if◌then◌else◌, to_string,
}
use code_tribunal.Prelude.Int.{ℤ, pos}
use code_tribunal.Core.Types.{base_analyst_count, max_idle_rounds, min_contribution_score}
use code_tribunal.Core.Analyst.{Analyst, get_response, mark_pruned, is_active, is_pruned}
use code_tribunal.Core.Pool.{AnalystPool, get_analyst}

pub record Vote : Type 0 where
  pub voter_id : ℕ
  pub votee_id : ℕ
  pub score : ℕ

pub record ElectionRound : Type 0 where
  pub round_number : ℕ
  pub votes : List Vote
  pub pruned : List ℕ
  pub winner_id : Option ℕ
  pub outcome : Text

abbrev pub ScoreMap : Type 0
ScoreMap = List (ℕ × ℕ)

-- `scores[id] += score`.
unfoldable pub add_score : ℕ → ℕ → ScoreMap → ScoreMap
add_score id score [] = (id, score) ∷ []
add_score id score ((j, s) ∷ m) =
    let rest = add_score id score m in
    if j == id
    then (j, s + score) ∷ m
    else if ltb id j
    then (id, score) ∷ (j, s) ∷ m
    else (j, s) ∷ rest

unfoldable pub tally_from : List Vote → ScoreMap → ScoreMap
tally_from [] scores = scores
tally_from (v ∷ vs) scores = tally_from vs (add_score v.votee_id v.score scores)

unfoldable pub tally_votes : List Vote → ScoreMap
unfolding tally_from
tally_votes votes = tally_from votes []

unfoldable pub winner_from : ScoreMap → Option ℕ → ℕ → Option ℕ
winner_from [] winner_id max_score = winner_id
winner_from ((id, score) ∷ m) winner_id max_score =
    winner_from m (if ltb max_score score then some id else winner_id)
      (if ltb max_score score then score else max_score)

unfoldable pub select_winner : ScoreMap → Option ℕ
unfolding winner_from
select_winner [] = none
select_winner (e ∷ m) = winner_from (e ∷ m) none 0

-- The inner loop of `generate_votes_for_round`, at votee `j`.
unfoldable pub best_votee_from : ℕ → ℤ → ℕ → List Analyst → Option ℕ → ℕ → Option ℕ
best_votee_from i round j [] best_votee best_len = best_votee
best_votee_from i round j (votee ∷ others) best_votee best_len =
    let longer =
      not (i == j) && (is_active votee && ltb best_len (length (get_response votee round))) in
    best_votee_from i round (suc j) others (if longer then some j else best_votee)
      (if longer then length (get_response votee round) else best_len)

-- The vote of voter `i`, if it finds a votee.
unfoldable pub vote_for : ℕ → Option ℕ → List Vote → List Vote
vote_for i none votes = votes
vote_for i (some j) votes = record { voter_id = i; votee_id = j; score = 5 } ∷ votes

-- The outer loop, at voter `i`; `analysts` is the whole pool.
unfoldable pub votes_from : List Analyst → ℤ → ℕ → List Analyst → List Vote
unfolding best_votee_from vote_for
votes_from analysts round i [] = []
votes_from analysts round i (voter ∷ others) =
    let rest = votes_from analysts round (suc i) others in
    if is_active voter then vote_for i (best_votee_from i round 0 analysts none 0) rest else rest

unfoldable pub generate_votes_for_round : AnalystPool → ℤ → List Vote
unfolding votes_from
generate_votes_for_round pool round = votes_from pool.analysts round 0 pool.analysts

unfoldable pub should_prune : Analyst → Bool
should_prune a =
    leb max_idle_rounds a.stats.rounds_since_contrib
    || ltb a.stats.total_score min_contribution_score

-- The pruning loop over the analysts behind the first `skip`.
unfoldable pub prune_from : ℕ → List Analyst → List Analyst × ℕ
unfolding should_prune
prune_from skip [] = ([], 0)
prune_from (suc skip) (a ∷ others) = (a ∷ (prune_from skip others).0, (prune_from skip others).1)
prune_from zero (a ∷ others) =
    let rest = prune_from zero others in
    if is_active a && should_prune a
    then (mark_pruned a ∷ rest.0, suc rest.1)
    else (a ∷ rest.0, rest.1)

unfoldable pub prune_inactive_analysts : AnalystPool → AnalystPool × ℕ
unfolding prune_from
prune_inactive_analysts pool =
    let done = prune_from base_analyst_count pool.analysts in
    (record pool { analysts = done.0 }, done.1)

unfoldable pub pruned_from : ℕ → List Analyst → List ℕ
pruned_from i [] = []
pruned_from i (a ∷ others) =
    if is_pruned a then i ∷ pruned_from (suc i) others else pruned_from (suc i) others

unfoldable pub describe_winner : ℕ → ℕ → Option Analyst → Text
describe_winner round pruned_count none = []
describe_winner round pruned_count (some winner) =
    text "Round "
    ++ (to_string round
        ++ (text ": "
            ++ (winner.role_name
                ++ (text " wins (" ++ (to_string pruned_count ++ text " pruned)")))))

unfoldable pub describe_outcome : ℕ → ℕ → Option ℕ → AnalystPool → Text
unfolding describe_winner
describe_outcome round pruned_count none pool = []
describe_outcome round pruned_count (some id) pool =
    describe_winner round pruned_count (get_analyst id pool)

-- The voting system shares the pool and owns its history.
unfoldable pub run_election_round :
    ℕ → AnalystPool → List ElectionRound → AnalystPool × List ElectionRound × ElectionRound
unfolding generate_votes_for_round tally_votes select_winner prune_inactive_analysts pruned_from
run_election_round number pool history =
    let votes = generate_votes_for_round pool (pos number) in
    let winner = select_winner (tally_votes votes) in
    let (pool', pruned_count) = prune_inactive_analysts pool in
    let round : ElectionRound = record {
      round_number = number;
      votes = votes;
      pruned = pruned_from 0 pool'.analysts;
      winner_id = winner;
      outcome = describe_outcome number pruned_count winner pool';
    } in
    (pool', history ++ round ∷ [], round)

unfoldable pub get_current_round : List ElectionRound → ElectionRound
get_current_round [] = record {
  round_number = 0;
  votes = [];
  pruned = [];
  winner_id = none;
  outcome = [];
}
get_current_round (r ∷ []) = r
get_current_round (r ∷ s ∷ rs) = get_current_round (s ∷ rs)
