-- ===== src/Http/Interleaving.antt =====
-- The threads of two queries that run at once: `execute_query_async` of src/http/HttpServer.cpp with
-- `initialize_analysts` and `run_debate` of src/core/Council.cpp on the one council of the server, which no
-- lock protects. A turn is the initialisation, one round, or the end of a debate: this is the coarsest
-- interleaving that the code can show.
mod Examples
use code_tribunal.Prelude.{
  ℕ, zero, suc, ◌+◌, ◌≡◌, refl, sym, ap, ◌∙◌, inl, inr, Bool-cases, Option-cases, Bool, true, false,
  not, ◌||◌, Option, none, some, List, [], ◌∷◌, Text, is_empty, get_or, get_elem?, All,
  if◌then◌else◌, arith,
}
use code_tribunal.Prelude.Int.{ℤ, pos, negsuc}
use code_tribunal.Core.Types.{AnalystRole, Configuration}
use code_tribunal.Core.Analyst.{Analyst, new_analyst, get_response}
use code_tribunal.Core.Pool.{AnalystPool, base_analysts, base_posts, new_pool, get_analyst}
use code_tribunal.Core.Council.{
  DebateResult, Council, World, Session, session, initialize_analysts, run_round, run_rounds,
  loop_count, responses_from, winner_responses_of, find_winner, finalize_results, run_debate,
}

-- Where the thread of a query stands in its debate.
pub data Phase : Type 0 where
  waiting : Phase
  debating : (left number : ℕ) → Phase
  finished : DebateResult → Phase
  -- The analysts could not be initialised.
  refused : Phase

-- One query: its text, its number of rounds and what its debate meets.
pub record Query : Type 0 where
  pub prompt : Text
  pub rounds : ℤ
  pub world : World

unfoldable pub initialized : Query → Council × Bool → Phase × Council
initialized q (c, false) = (refused, c)
initialized q (c, true) = (debating (loop_count q.rounds) 0, c)

-- A round on the analysts that the council holds now; a null pointer ends the debate.
unfoldable pub round_turn : Query → ℕ → ℕ → Council → Phase × Council
round_turn q left number c = elim (session c) [
  | none ↦ (debating 0 number, c)
  | some s ↦
      let (s', goes) = run_round q.world q.prompt number s in
      (
        debating (if goes then left else 0) (suc number),
        record c { pool = some s'.analysts; voting_system = some s'.elections },
      )
]

unfoldable pub finish_turn : ℕ → Council → Phase × Council
finish_turn number c = elim c.pool [
  | none ↦ (debating 0 number, c)
  | some p ↦ (finished (finalize_results c.config p), c)
]

unfoldable pub turn : List Text → Query → Phase → Council → Phase × Council
unfolding initialized round_turn finish_turn
turn models q waiting c = initialized q (initialize_analysts true models c)
turn models q (debating zero number) c = finish_turn number c
turn models q (debating (suc left) number) c = round_turn q left number c
turn models q (finished r) c = (finished r, c)
turn models q refused c = (refused, c)

-- So many turns of one thread, with no turn of another in between.
unfoldable pub turns : ℕ → List Text → Query → Phase → Council → Phase × Council
unfolding turn
turns zero models q phase c = (phase, c)
turns (suc n) models q phase c =
    let (phase', c') = turn models q phase c in turns n models q phase' c'

turns_finished :
    (n : ℕ) (models : List Text) (q : Query) (r : DebateResult) (c : Council)
    → turns n models q (finished r) c ≡ (finished r, c)
unfolding turns
turns_finished zero models q r c = refl
turns_finished (suc n) models q r c = turns_finished n models q r c

-- The council that holds a session.
abbrev holding : Council → Session → Council
holding c s = record c {
  pool = some s.analysts;
  has_client = true;
  voting_system = some s.elections;
}

session-holding : (c : Council) (s : Session) → session (holding c s) ≡ some s
unfolding session
session-holding c s = refl

turns-run_rounds :
    (models : List Text) (q : Query) (left number completed : ℕ) (c : Council) (s : Session)
    → let done = (run_rounds q.world q.prompt left number s completed).0 in
      turns (suc left) models q (debating left number) (holding c s)
      ≡ (finished (finalize_results c.config done.analysts), holding c done)
unfolding turns run_rounds finish_turn round_turn
turns-run_rounds models q zero number completed c s = refl
turns-run_rounds models q (suc left) number completed c s =
    let next = run_round q.world q.prompt number s in
    elim (Bool-cases next.1) [
      | inl goes ↦
          rw (turns, round_turn, session-holding c s, run_rounds, goes)
            (turns-run_rounds models q left (suc number) (suc completed) c next.0)
      | inr stops ↦
          rw (turns, round_turn, session-holding c s, run_rounds, stops)
            (turns_finished left models q _ _)
    ]

-- If there are models, a thread whose turns no other interrupts ends its debate with the result and the
-- council of `run_debate`, after one turn more than there are rounds and the initialisation.
pub turns-run_debate :
    (models : List Text) (q : Query) (c : Council)
    → is_empty models ≡ false
    → let (c', ready) = initialize_analysts true models c in
      let (after, result) = run_debate q.world q.prompt q.rounds c' in
      turns (suc (suc (loop_count q.rounds))) models q waiting c ≡ (finished result, after)
unfolding turns initialized initialize_analysts run_debate session
turns-run_debate models q c given =
    rw (turns, initialize_analysts, given)
      (turns-run_rounds models q (loop_count q.rounds) 0 0 c
        (record { analysts = new_pool models; elections = [] }))

-- No response has been given yet.
abbrev IsSilent : Analyst → Type 0
IsSilent a = a.responses ≡ []

base_analysts-IsSilent :
    (posts : List (AnalystRole × Text)) (models : List Text)
    → All IsSilent (base_analysts posts models)
unfolding base_analysts new_analyst
base_analysts-IsSilent [] models = tt
base_analysts-IsSilent ((role, prompt) ∷ posts) [] = tt
base_analysts-IsSilent ((role, prompt) ∷ posts) (model ∷ models) =
    (refl, base_analysts-IsSilent posts models)

get_elem?-IsSilent :
    (others : List Analyst) (i : ℕ) (a : Analyst)
    → All IsSilent others
    → get_elem? others i ≡ some a
    → IsSilent a
get_elem?-IsSilent [] i a h e = absurd (ground (arith, e))
get_elem?-IsSilent (b ∷ others) zero a h e = ground (arith, h.0, e)
get_elem?-IsSilent (b ∷ others) (suc i) a h e = get_elem?-IsSilent others i a h.1 e

responses_from-silent : (a : Analyst) (r left : ℕ) → IsSilent a → responses_from a r left ≡ []
unfolding responses_from get_response
responses_from-silent a r zero h = refl
responses_from-silent a r (suc left) h =
    rw (responses_from, get_response, h) (responses_from-silent a (suc r) left h)

find_winner-IsSilent :
    (winner : Option ℕ) (pool : AnalystPool) (a : Analyst)
    → All IsSilent pool.analysts
    → find_winner winner pool ≡ some a
    → IsSilent a
unfolding get_analyst
find_winner-IsSilent none pool a h e = absurd (ground (arith, e))
find_winner-IsSilent (some i) pool a h e = get_elem?-IsSilent pool.analysts i a h e

winner_responses_of-silent :
    (found : Option Analyst) (rounds : ℤ)
    → ((a : Analyst) → found ≡ some a → IsSilent a)
    → winner_responses_of found rounds ≡ []
unfolding winner_responses_of
winner_responses_of-silent none rounds h = refl
winner_responses_of-silent (some a) rounds h =
    responses_from-silent a 0 (loop_count rounds) (h a refl)

-- If a query is initialised while another one has run all its rounds but not yet collected its result, then
-- the result of that other query has no responses, whatever was answered to it: its analysts are gone,
-- and the winner is looked for among those of the new query.
pub turn-overtaken :
    (models : List Text) (first second : Query) (number : ℕ) (c : Council)
    → is_empty models ≡ false
    → let c' = (turn models second waiting c).1 in
      (r : DebateResult) × ((turn models first (debating 0 number) c').0 ≡ finished r)
      × (r.winner_responses ≡ [])
unfolding turn initialized initialize_analysts finish_turn finalize_results new_pool
turn-overtaken models first second number c given = (
  finalize_results c.config (new_pool models),
  rw (turn, initialize_analysts, given) refl,
  winner_responses_of-silent _ c.config.rounds (λ a e.
      find_winner-IsSilent _ (new_pool models) a (base_analysts-IsSilent base_posts models) e),
)
