-- ===== src/Core/Election/Winner.antt =====
-- The winner of a tally (`select_winner` in src/core/Election.cpp).
use code_tribunal.Prelude.{
  ℕ, ◌≤◌, ◌<◌, ◌≡◌, refl, ◌⊎◌, inl, inr, true, ltb, Option, none, some, List, [], ◌∷◌, arith,
  if◌then◌else◌, Bool-cases,
}
use code_tribunal.Core.Election.{Vote, ScoreMap, winner_from, select_winner, tally_votes}
use code_tribunal.Core.Election.Tally.{
  lookup, IsOrdered, KeysAbove-IsOrdered, lookup-KeysAbove, has_vote, received, received_none,
  lookup-tally_votes,
}

-- No entry has more than `max`; those before the winner have less.
abbrev AtMost : ℕ → ScoreMap → Type 0
AtMost max [] = Unit {0}
AtMost max ((id, s) ∷ m) = (s ≤ max) × AtMost max m

-- The final maximum of the loop.
max_from : ScoreMap → ℕ → ℕ
max_from [] max = max
max_from ((id, s) ∷ m) max = max_from m (if ltb max s then s else max)

max_from-le : (m : ScoreMap) (max : ℕ) → max ≤ max_from m max
unfolding max_from
max_from-le [] max = omega arith
max_from-le ((id, s) ∷ m) max = ground (arith, max_from-le m s, max_from-le m max)

lookup-le-max_from : (m : ScoreMap) (max id s : ℕ) → lookup id m ≡ some s → s ≤ max_from m max
unfolding lookup max_from
lookup-le-max_from [] max id s e = cc
lookup-le-max_from ((j, t) ∷ m) max id s e = ground (
  arith,
  max_from-le m t,
  max_from-le m max,
  lookup-le-max_from m t id s,
  lookup-le-max_from m max id s,
)

-- What the loop returns: the value that it was given if no entry is above the maximum so far, else
-- an entry that reaches the final maximum.
winner_from-cases :
    (m : ScoreMap) (w : Option ℕ) (max : ℕ)
    → IsOrdered m
    → ((winner_from m w max ≡ w) × (max_from m max ≡ max))
      ⊎ ((id : ℕ) × (winner_from m w max ≡ some id)
          × (lookup id m ≡ some (max_from m max))
          × (max < max_from m max))
unfolding winner_from max_from lookup
winner_from-cases [] w max o = inl (refl, refl)
winner_from-cases ((j, t) ∷ m) w max o = elim (Bool-cases (ltb max t)) [
  | inl up ↦
      rw (up, winner_from, max_from)
        (elim (winner_from-cases m (some j) t (KeysAbove-IsOrdered j m o)) [
          | inl (e, f) ↦ inr (j, e, ground (arith), ground (arith))
          | inr (id, e, f, g) ↦ inr (id, e, ground (arith, lookup-KeysAbove j id m o), ground arith)
        ])
  | inr no_up ↦
      rw (no_up, winner_from, max_from)
        (elim (winner_from-cases m w max (KeysAbove-IsOrdered j m o)) [
          | inl (e, f) ↦ inl (e, f)
          | inr (id, e, f, g) ↦ inr (id, e, ground (arith, lookup-KeysAbove j id m o), g)
        ])
]

-- Every other entry is below the winner's, or equal to it under a later id.
winner_from-first :
    (m : ScoreMap) (w : Option ℕ) (max id k t : ℕ)
    → IsOrdered m
    → winner_from m w max ≡ some id
    → max < max_from m max
    → lookup k m ≡ some t
    → (t < max_from m max) ⊎ ((t ≡ max_from m max) × (id ≤ k))
unfolding winner_from max_from lookup
winner_from-first [] w max id k t o e f l = cc
winner_from-first ((j, u) ∷ m) w max id k t o e f l =
    let o' = KeysAbove-IsOrdered j m o in
    elim (Bool-cases (ltb max u)) [
      | inl up ↦
          rw (up, max_from)
            (ground (
              arith,
              rw (up, winner_from) at e,
              winner_from-cases m (some j) u o',
              winner_from-first m (some j) u id k t o',
              lookup-le-max_from m u k t,
              lookup-KeysAbove j k m o,
            ))
      | inr no_up ↦
          rw (no_up, max_from)
            (ground (
              arith,
              rw (no_up, winner_from) at e,
              rw (no_up, max_from) at f,
              winner_from-first m w max id k t o',
            ))
    ]

select_winner_cases : (m : ScoreMap) → select_winner m ≡ winner_from m none 0
unfolding select_winner winner_from
select_winner_cases [] = refl
select_winner_cases (e ∷ m) = refl

-- The winner of the votes has a vote, and its total is positive. Any other analyst received less,
-- or as much under a higher id: on a tie the lowest id wins, not the role of correctness or nobody.
pub select_winner-received :
    (vs : List Vote) (id other : ℕ)
    → select_winner (tally_votes vs) ≡ some id
    → (has_vote id vs ≡ true)
      × (0 < received id vs)
      × ((received other vs < received id vs)
          ⊎ ((received other vs ≡ received id vs) × (id ≤ other)))
select_winner-received vs id other e =
    let m = tally_votes vs in
    let o = (lookup-tally_votes vs id).1 in
    ground (
      arith,
      select_winner_cases m,
      (lookup-tally_votes vs id).0,
      (lookup-tally_votes vs other).0,
      winner_from-cases m none 0 o,
      winner_from-first m none 0 id other (received other vs) o,
      received_none other vs,
    )

-- If the votes have no winner, nobody received anything.
pub select_winner-none :
    (vs : List Vote) (id : ℕ) → select_winner (tally_votes vs) ≡ none → received id vs ≡ 0
select_winner-none vs id e =
    let m = tally_votes vs in
    let o = (lookup-tally_votes vs id).1 in
    ground (
      arith,
      select_winner_cases m,
      (lookup-tally_votes vs id).0,
      winner_from-cases m none 0 o,
      lookup-le-max_from m 0 id (received id vs),
      received_none id vs,
    )
