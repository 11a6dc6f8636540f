-- ===== src/Core/Election/Votes.antt =====
-- Who votes for whom (`generate_votes_for_round` in src/core/Election.cpp).
use native.Mathlib.Nat.{add-zero, zero-add, add-suc, suc-add}
use code_tribunal.Prelude.{
  ℕ, suc, ◌+◌, ◌≤◌, ◌<◌, ◌≡◌, refl, ◌∙◌, sym, ◌⊎◌, inl, inr, true, false, not, ◌&&◌, ◌==◌, ltb,
  Option, none, some, List, [], ◌∷◌, length, get_elem?, All, arith, if◌then◌else◌, Bool-cases,
}
use code_tribunal.Prelude.Int.{ℤ}
use code_tribunal.Core.Analyst.{Analyst, get_response, is_active}
use code_tribunal.Core.Pool.{AnalystPool, get_analyst}
use code_tribunal.Core.Election.{
  Vote, best_votee_from, vote_for, votes_from, generate_votes_for_round,
}

-- What an analyst at `j` can offer voter `i`: the length of its response, 0 if it may not be chosen.
unfoldable pub offer : ℕ → ℤ → ℕ → Analyst → ℕ
offer i round j a = if not (i == j) && is_active a then length (get_response a round) else 0

-- The longest offer, the analysts being at `j` and behind.
unfoldable pub longest_offer : ℕ → ℤ → ℕ → List Analyst → ℕ
unfolding offer
longest_offer i round j [] = 0
longest_offer i round j (a ∷ others) =
    let rest = longest_offer i round (suc j) others in
    if ltb rest (offer i round j a) then offer i round j a else rest

-- The choice of the inner loop: an analyst with the longest offer.
record IsChoice (i : ℕ) (round : ℤ) (j k : ℕ) (others : List Analyst) : Type 0 where
  chosen : Analyst
  at_k : get_elem? others k ≡ some chosen
  offered : offer i round (j + k) chosen ≡ longest_offer i round j others

-- The loop takes an analyst whose offer is above the best so far.
best_votee_step :
    (i : ℕ) (round : ℤ) (j : ℕ) (a : Analyst) (others : List Analyst) (best : Option ℕ) (len : ℕ)
    → best_votee_from i round j (a ∷ others) best len ≡ (
        if ltb len (offer i round j a)
        then best_votee_from i round (suc j) others (some j) (offer i round j a)
        else best_votee_from i round (suc j) others best len)
unfolding best_votee_from offer
best_votee_step i round j a others best len = ground arith

abbrev Outcome : ℕ → ℤ → ℕ → List Analyst → Option ℕ → ℕ → Option ℕ → Type 0
Outcome i round j others best len result =
    ((result ≡ best) × (longest_offer i round j others ≤ len))
    ⊎ ((k : ℕ) × (result ≡ some (j + k))
        × (len < longest_offer i round j others)
        × IsChoice i round j k others)

later-IsChoice :
    (i : ℕ) (round : ℤ) (j k : ℕ) (a : Analyst) (others : List Analyst)
    → offer i round j a ≤ longest_offer i round (suc j) others
    → IsChoice i round (suc j) k others
    → IsChoice i round j (suc k) (a ∷ others)
unfolding longest_offer
later-IsChoice i round j k a others h c = record {
  chosen = c.chosen;
  at_k = c.at_k;
  offered = rw (add-suc j k, ← suc-add j k) (ground (arith, c.offered));
}

best_votee_outcome :
    (i : ℕ) (round : ℤ) (j : ℕ) (others : List Analyst) (best : Option ℕ) (len : ℕ)
    → Outcome i round j others best len (best_votee_from i round j others best len)
unfolding longest_offer
best_votee_outcome i round j [] best len = inl (unfold best_votee_from in refl, omega arith)
best_votee_outcome i round j (a ∷ others) best len =
    rw (best_votee_step i round j a others best len)
      (elim (Bool-cases (ltb len (offer i round j a))) [
        | inl up ↦
            rw up (elim (best_votee_outcome i round (suc j) others (some j) (offer i round j a)) [
              | inl (e, l) ↦ inr (
                0,
                rw (add-zero j) e,
                ground arith,
                record { chosen = a; at_k = refl; offered = rw (add-zero j) (ground arith) },
              )
              | inr (k, e, l, c) ↦ inr (
                suc k,
                rw (add-suc j k, ← suc-add j k) e,
                ground arith,
                later-IsChoice i round j k a others (omega arith) c,
              )
            ])
        | inr no_up ↦ rw no_up (elim (best_votee_outcome i round (suc j) others best len) [
          | inl (e, l) ↦ inl (e, ground arith)
          | inr (k, e, l, c) ↦ inr (
            suc k,
            rw (add-suc j k, ← suc-add j k) e,
            ground arith,
            later-IsChoice i round j k a others (ground arith) c,
          )
        ])
      ])

-- A vote of an active analyst for another active one, whose response in the round is not empty and
-- is the longest that any active analyst other than the voter gave.
pub record IsFairVote (pool : AnalystPool) (round : ℤ) (v : Vote) : Type 0 where
  pub voter : Analyst
  pub votee : Analyst
  pub voter_at : get_analyst v.voter_id pool ≡ some voter
  pub votee_at : get_analyst v.votee_id pool ≡ some votee
  pub voter_active : is_active voter ≡ true
  pub votee_active : is_active votee ≡ true
  pub other : (v.voter_id == v.votee_id) ≡ false
  pub weight : v.score ≡ 5
  pub not_empty : 0 < length (get_response votee round)
  pub longest : length (get_response votee round) ≡ longest_offer v.voter_id round 0 pool.analysts

offer_facts :
    (i : ℕ) (round : ℤ) (j : ℕ) (a : Analyst)
    → 0 < offer i round j a
    → ((i == j) ≡ false)
      × (is_active a ≡ true)
      × (offer i round j a ≡ length (get_response a round))
unfolding offer
offer_facts i round j a h = ground arith

choice-IsFairVote :
    (pool : AnalystPool) (round : ℤ) (i k : ℕ) (voter : Analyst)
    → get_analyst i pool ≡ some voter
    → is_active voter ≡ true
    → 0 < longest_offer i round 0 pool.analysts
    → IsChoice i round 0 k pool.analysts
    → IsFairVote pool round (record { voter_id = i; votee_id = k; score = 5 })
unfolding get_analyst
choice-IsFairVote pool round i k voter e t l c =
    let same : 0 + k ≡ k = omega arith in
    let offered = rw same at c.offered in
    let (o, act, len) = offer_facts i round k c.chosen (omega (arith, offered)) in
    record {
      voter = voter;
      votee = c.chosen;
      voter_at = e;
      votee_at = c.at_k;
      voter_active = t;
      votee_active = act;
      other = o;
      weight = refl;
      not_empty = omega (arith, len, offered);
      longest = sym len ∙ offered;
    }

vote_for-All :
    (pool : AnalystPool) (round : ℤ) (i : ℕ) (voter : Analyst) (votes : List Vote)
    → get_analyst i pool ≡ some voter
    → is_active voter ≡ true
    → All (IsFairVote pool round) votes
    → All
        (IsFairVote pool round)
        (vote_for i (best_votee_from i round 0 pool.analysts none 0) votes)
unfolding vote_for
vote_for-All pool round i voter votes e t h =
    elim (best_votee_outcome i round 0 pool.analysts none 0) [
      | inl (n, l) ↦ rw n h
      | inr (k, n, l, c) ↦ rw (n, zero-add k) (choice-IsFairVote pool round i k voter e t l c, h)
    ]

votes_from-All :
    (pool : AnalystPool) (round : ℤ) (i : ℕ) (others : List Analyst)
    → ((k : ℕ) → get_elem? others k ≡ get_analyst (i + k) pool)
    → All (IsFairVote pool round) (votes_from pool.analysts round i others)
unfolding votes_from
votes_from-All pool round i [] h = tt
votes_from-All pool round i (a ∷ others) h =
    let rest =
      votes_from-All pool round (suc i) others
        (λ k. h (suc k) ∙ rw (add-suc i k, ← suc-add i k) refl) in
    elim (Bool-cases (is_active a)) [
      | inl t ↦ rw t (vote_for-All pool round i a _ (rw (add-zero i) at (sym (h 0))) t rest)
      | inr f ↦ rw f rest
    ]

-- Every vote of a round is fair.
pub generate_votes-IsFairVote :
    (pool : AnalystPool) (round : ℤ)
    → All (IsFairVote pool round) (generate_votes_for_round pool round)
unfolding generate_votes_for_round get_analyst
generate_votes-IsFairVote pool round =
    votes_from-All pool round 0 pool.analysts (λ k. rw (zero-add k) refl)
