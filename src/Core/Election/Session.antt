-- ===== src/Core/Election/Session.antt =====
-- One election as a whole (`run_election_round` in src/core/Election.cpp).
use native.Mathlib.Nat.{add-zero, zero-add}
use code_tribunal.Prelude.{
  ℕ, zero, suc, ◌+◌, ◌<◌, ◌≡◌, refl, ◌∙◌, inl, inr, Bool, true, false, ◌||◌, ◌==◌, leb, Option,
  none, some, List, [], ◌∷◌, length, get_elem?, All, arith, Bool-cases, ==_iff,
}
use code_tribunal.Prelude.Int.{ℤ, pos}
use code_tribunal.Core.Types.{base_analyst_count}
use code_tribunal.Core.Analyst.{Analyst, get_response, is_active, is_pruned, mark_pruned}
use code_tribunal.Core.Pool.{AnalystPool, get_analyst}
use code_tribunal.Core.Election.{
  Vote, ElectionRound, generate_votes_for_round, run_election_round, prune_inactive_analysts,
  pruned_from,
}
use code_tribunal.Core.Election.Tally.{has_vote}
use code_tribunal.Core.Election.Winner.{select_winner-received}
use code_tribunal.Core.Election.Votes.{IsFairVote, generate_votes-IsFairVote}
use code_tribunal.Core.Election.Prune.{prune_if, prune_inactive_analysts-get_analyst}

-- An active analyst of the pool that answered in the round.
pub record HasAnswered (pool : AnalystPool) (round : ℤ) (id : ℕ) : Type 0 where
  pub analyst : Analyst
  pub at_id : get_analyst id pool ≡ some analyst
  pub active : is_active analyst ≡ true
  pub not_empty : 0 < length (get_response analyst round)

voted-HasAnswered :
    (pool : AnalystPool) (round : ℤ) (id : ℕ) (vs : List Vote)
    → All (IsFairVote pool round) vs
    → has_vote id vs ≡ true
    → HasAnswered pool round id
unfolding has_vote
voted-HasAnswered pool round id [] h e = cc
voted-HasAnswered pool round id (v ∷ vs) h e = elim (Bool-cases (v.votee_id == id)) [
  | inl t ↦ record {
    analyst = h.0.votee;
    at_id = rw ((==_iff v.votee_id id).0 t) at (h.0.votee_at);
    active = h.0.votee_active;
    not_empty = h.0.not_empty;
  }
  | inr f ↦ voted-HasAnswered pool round id vs h.1 (rw f at e)
]

-- The winner of an election is an active analyst that answered in that round.
pub run_election_round-HasAnswered :
    (number : ℕ) (pool : AnalystPool) (history : List ElectionRound) (id : ℕ)
    → (run_election_round number pool history).2.winner_id ≡ some id
    → HasAnswered pool (pos number) id
unfolding run_election_round
run_election_round-HasAnswered number pool history id e =
    let votes = generate_votes_for_round pool (pos number) in
    voted-HasAnswered pool (pos number) id votes (generate_votes-IsFairVote pool (pos number))
      (select_winner-received votes id id e).0

-- Is the number in the list?
unfoldable pub is_listed : ℕ → List ℕ → Bool
is_listed n [] = false
is_listed n (k ∷ ks) = k == n || is_listed n ks

listed_below : (i n : ℕ) (xs : List Analyst) → n < i → is_listed n (pruned_from i xs) ≡ false
unfolding is_listed pruned_from
listed_below i n [] h = refl
listed_below i n (a ∷ xs) h = ground (arith, listed_below (suc i) n xs)

abbrev pruned_flag : Option Analyst → Bool
pruned_flag none = false
pruned_flag (some a) = is_pruned a

is_listed-pruned_from :
    (i k : ℕ) (xs : List Analyst)
    → is_listed (i + k) (pruned_from i xs) ≡ pruned_flag (get_elem? xs k)
unfolding is_listed pruned_from
is_listed-pruned_from i k [] = refl
is_listed-pruned_from i zero (a ∷ xs) = rw (add-zero i) (ground (arith, listed_below (suc i) i xs))
is_listed-pruned_from i (suc k) (a ∷ xs) =
    let ih = is_listed-pruned_from (suc i) k xs in
    let e : suc i + k ≡ i + suc k = omega arith in ground (arith, rw e at ih)

mark_pruned-is_pruned : (a : Analyst) → is_pruned (mark_pruned a) ≡ true
unfolding is_pruned mark_pruned
mark_pruned-is_pruned a = refl

prune_if-is_pruned : (b : Bool) (a : Analyst) → is_pruned a ≡ true → is_pruned (prune_if b a) ≡ true
prune_if-is_pruned b a p = ground (arith, mark_pruned-is_pruned a)

-- An analyst that was pruned before an election is in the list of the pruned of that election too:
-- the list is not of those removed in this round only.
pub run_election_round-relists :
    (number : ℕ) (pool : AnalystPool) (history : List ElectionRound) (id : ℕ) (a : Analyst)
    → get_analyst id pool ≡ some a
    → is_pruned a ≡ true
    → is_listed id (run_election_round number pool history).2.pruned ≡ true
unfolding run_election_round get_analyst
run_election_round-relists number pool history id a e p =
    let after = (prune_inactive_analysts pool).0 in
    let listed = rw (zero-add id) at (is_listed-pruned_from 0 id after.analysts) in
    let same = (prune_inactive_analysts-get_analyst pool id).0 in
    listed ∙ rw (same, e) (prune_if-is_pruned (leb base_analyst_count id) a p)
