-- ===== src/Core/Election/Tally.antt =====
-- The tally of the votes (`tally_votes` in src/core/Election.cpp) against a sum over the votes.
use code_tribunal.Prelude.{
  ℕ, ◌+◌, ◌≤◌, ◌<◌, ◌≡◌, refl, Bool, false, ◌||◌, ◌==◌, Option, none, some, List, [], ◌∷◌, arith,
  if◌then◌else◌,
}
use code_tribunal.Core.Election.{Vote, ScoreMap, add_score, tally_from, tally_votes}

-- `scores.find(id)`.
unfoldable pub lookup : ℕ → ScoreMap → Option ℕ
lookup id [] = none
lookup id ((j, s) ∷ m) = if j == id then some s else lookup id m

-- Is there a vote for that id, and what do the votes for it sum up to?
unfoldable pub has_vote : ℕ → List Vote → Bool
has_vote id [] = false
has_vote id (v ∷ vs) = v.votee_id == id || has_vote id vs

unfoldable pub received : ℕ → List Vote → ℕ
received id [] = 0
received id (v ∷ vs) = if v.votee_id == id then v.score + received id vs else received id vs

-- The keys ascend from above `b`.
abbrev pub KeysAbove : ℕ → ScoreMap → Type 0
KeysAbove b [] = Unit {0}
KeysAbove b ((j, s) ∷ m) = (b < j) × KeysAbove j m

abbrev pub IsOrdered : ScoreMap → Type 0
IsOrdered [] = Unit {0}
IsOrdered ((j, s) ∷ m) = KeysAbove j m

or_zero : Option ℕ → ℕ
or_zero none = 0
or_zero (some n) = n

add_score-KeysAbove :
    (b id score : ℕ) (m : ScoreMap) → b < id → KeysAbove b m → KeysAbove b (add_score id score m)
unfolding add_score
add_score-KeysAbove b id score [] h k = (h, tt)
add_score-KeysAbove b id score ((j, s) ∷ m) h k = ground (arith, add_score-KeysAbove j id score m)

add_score-IsOrdered : (id score : ℕ) (m : ScoreMap) → IsOrdered m → IsOrdered (add_score id score m)
unfolding add_score
add_score-IsOrdered id score [] k = tt
add_score-IsOrdered id score ((j, s) ∷ m) k = ground (arith, add_score-KeysAbove j id score m)

pub lookup-KeysAbove : (b id : ℕ) (m : ScoreMap) → KeysAbove b m → id ≤ b → lookup id m ≡ none
unfolding lookup
lookup-KeysAbove b id [] k h = refl
lookup-KeysAbove b id ((j, s) ∷ m) k h = ground (arith, lookup-KeysAbove j id m)

pub KeysAbove-IsOrdered : (b : ℕ) (m : ScoreMap) → KeysAbove b m → IsOrdered m
KeysAbove-IsOrdered b [] k = tt
KeysAbove-IsOrdered b ((j, s) ∷ m) k = k.1

lookup-add_score :
    (id score k : ℕ) (m : ScoreMap)
    → IsOrdered m
    → lookup k (add_score id score m)
      ≡ (if id == k then some (or_zero (lookup k m) + score) else lookup k m)
unfolding lookup add_score or_zero
lookup-add_score id score k [] o = ground arith
lookup-add_score id score k ((j, s) ∷ m) o =
    ground
      (arith, lookup-add_score id score k m (KeysAbove-IsOrdered j m o), lookup-KeysAbove j k m)

tally_from-IsOrdered : (vs : List Vote) (m : ScoreMap) → IsOrdered m → IsOrdered (tally_from vs m)
unfolding tally_from
tally_from-IsOrdered [] m o = o
tally_from-IsOrdered (v ∷ vs) m o =
    tally_from-IsOrdered vs _ (add_score-IsOrdered v.votee_id v.score m o)

pub received_none : (id : ℕ) (vs : List Vote) → has_vote id vs ≡ false → received id vs ≡ 0
unfolding has_vote received
received_none id [] h = refl
received_none id (v ∷ vs) h = ground (arith, received_none id vs)

lookup-tally_from :
    (k : ℕ) (vs : List Vote) (m : ScoreMap)
    → IsOrdered m
    → lookup k (tally_from vs m)
      ≡ (if has_vote k vs then some (or_zero (lookup k m) + received k vs) else lookup k m)
unfolding tally_from has_vote received or_zero
lookup-tally_from k [] m o = refl
lookup-tally_from k (v ∷ vs) m o = ground (
  arith,
  lookup-tally_from k vs (add_score v.votee_id v.score m)
      (add_score-IsOrdered v.votee_id v.score m o),
  lookup-add_score v.votee_id v.score k m o,
  received_none k vs,
)

-- The tally of a list of votes maps each id that has a vote to the sum of the scores of the votes for
-- it, maps no other id, and lists the ids in ascending order, each once.
pub lookup-tally_votes :
    (vs : List Vote) (id : ℕ)
    → (lookup id (tally_votes vs) ≡ (if has_vote id vs then some (received id vs) else none))
      × IsOrdered (tally_votes vs)
unfolding tally_votes lookup or_zero
lookup-tally_votes vs id =
    (ground (arith, lookup-tally_from id vs [] tt), tally_from-IsOrdered vs [] tt)
