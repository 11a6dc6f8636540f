-- ===== src/Core/Analyst/Stats.antt =====
-- What the operations of an analyst (src/core/Analyst.cpp) keep: the score, the counters and the
-- transcript, over any history of calls.
use native.Mathlib.Nat.{zero-add}
use code_tribunal.Prelude.{
  ℕ, suc, ◌+◌, ◌*◌, ◌≤◌, ◌≡◌, refl, Bool, true, false, not, List, [], ◌∷◌, ◌++◌, Text, length,
  get_or, is_empty, zero, if◌then◌else◌, ◌==◌, ◌∙◌, length-append, All, arith,
}
use code_tribunal.Prelude.Int.{pos}
use code_tribunal.Core.Types.{AnalystRole}
use code_tribunal.Core.Analyst.{
  accept_reply, request_of, PromptRequest, Analyst, LlmClient, Reply, returns, throws, new_analyst,
  record_round_activity, execute_round, get_response, record_proposal_adopted, record_challenge_won,
  mark_pruned, mark_complete,
}

-- The public mutators of the class.
pub data Operation : Type 0 where
  execute : LlmClient → Text → Operation
  activity : Bool → Operation
  adopt win prune finish : Operation

pub apply : Operation → Analyst → Analyst
apply (execute client prompt) a = (execute_round client prompt a).0
apply (activity had_response) a = record a { stats = record_round_activity had_response a.stats }
apply adopt a = record_proposal_adopted a
apply win a = record_challenge_won a
apply prune a = mark_pruned a
apply finish a = mark_complete a

pub apply_all : List Operation → Analyst → Analyst
apply_all [] a = a
apply_all (o ∷ os) a = apply_all os (apply o a)

-- The rounds that a caller records as active, besides those that the analyst runs.
unfoldable pub noted : List Operation → ℕ
noted [] = 0
noted (activity true ∷ os) = suc (noted os)
noted (o ∷ os) = noted os

-- The analyst after a history in which `n` rounds were recorded as active from outside.
pub record IsAccounted (n : ℕ) (a : Analyst) : Type 0 where
  pub scored : a.stats.total_score ≡ 2 * a.stats.proposals_adopted + a.stats.challenges_won
  pub rounds_bounded : a.stats.rounds_active ≤ length a.responses + n
  pub flag : a.stats.pruned ≤ 1

new_analyst-IsAccounted : (r : AnalystRole) (m p : Text) → IsAccounted 0 (new_analyst r m p)
unfolding new_analyst
new_analyst-IsAccounted r m p = ground arith

accept_reply-IsAccounted :
    (r : Reply) (n : ℕ) (a : Analyst) → IsAccounted n a → IsAccounted n (accept_reply r a).0
unfolding accept_reply
accept_reply-IsAccounted (throws message) n a v =
    ground (arith, length-append a.responses ([] ∷ []))
accept_reply-IsAccounted (returns resp) n a v = ground (
  arith,
  length-append a.responses ([] ∷ []),
  length-append a.responses (resp.response_text ∷ []),
)

apply_all-IsAccounted :
    (os : List Operation) (n : ℕ) (a : Analyst)
    → IsAccounted n a
    → IsAccounted (n + noted os) (apply_all os a)
unfolding apply_all apply noted execute_round record_proposal_adopted record_challenge_won
    mark_pruned mark_complete
apply_all-IsAccounted [] n a v = ground arith
apply_all-IsAccounted (execute client prompt ∷ os) n a v =
    apply_all-IsAccounted os n _ (accept_reply-IsAccounted _ n a v)
apply_all-IsAccounted (activity true ∷ os) n a v =
    let later = apply_all-IsAccounted os (suc n) (apply (activity true) a) (ground arith) in
    ground (arith, later)
apply_all-IsAccounted (activity false ∷ os) n a v =
    apply_all-IsAccounted os n (apply (activity false) a) (ground arith)
apply_all-IsAccounted (adopt ∷ os) n a v = apply_all-IsAccounted os n (apply adopt a) (ground arith)
apply_all-IsAccounted (win ∷ os) n a v = apply_all-IsAccounted os n (apply win a) (ground arith)
apply_all-IsAccounted (prune ∷ os) n a v = apply_all-IsAccounted os n (apply prune a) (ground arith)
apply_all-IsAccounted (finish ∷ os) n a v =
    apply_all-IsAccounted os n (apply finish a) (ground arith)

-- After any history of calls on a new analyst, its score is twice the adopted proposals plus the
-- challenges won, it was active in at most as many rounds as it has responses and as callers recorded
-- as active by `record_round_activity` together, and its pruned flag is 0 or 1.
pub history-IsAccounted :
    (r : AnalystRole) (m p : Text) (os : List Operation)
    → IsAccounted (noted os) (apply_all os (new_analyst r m p))
history-IsAccounted r m p os =
    rw (zero-add (noted os)) at (apply_all-IsAccounted os 0 _ (new_analyst-IsAccounted r m p))

-- The text that a reply leaves in the transcript.
unfoldable pub heard : Reply → Text
heard (throws message) = []
heard (returns resp) = if is_empty resp.error then resp.response_text else []

accept_reply-responses :
    (r : Reply) (a : Analyst) → (accept_reply r a).0.responses ≡ a.responses ++ heard r ∷ []
unfolding accept_reply heard
accept_reply-responses (throws message) a = refl
accept_reply-responses (returns resp) a = ground arith

get_or-snoc :
    (xs : List Text) (t : Text) (i : ℕ)
    → get_or (xs ++ t ∷ []) i [] ≡ (if i == length xs then t else get_or xs i [])
get_or-snoc [] t zero = ground arith
get_or-snoc [] t (suc i) = ground arith
get_or-snoc (x ∷ xs) t zero = ground arith
get_or-snoc (x ∷ xs) t (suc i) = ground (arith, get_or-snoc xs t i)

-- A round adds the text of the reply, empty if the call failed, as the response of the next round
-- number, and leaves the response of every other round number as it was.
pub execute_round-get_response :
    (client : LlmClient) (prompt : Text) (a : Analyst) (i : ℕ)
    → get_response (execute_round client prompt a).0 (pos i) ≡ (
        if i == length a.responses
        then heard (client (request_of a prompt))
        else get_response a (pos i))
unfolding execute_round get_response
execute_round-get_response client prompt a i =
    rw (accept_reply-responses (client (request_of a prompt)) a)
      (get_or-snoc a.responses (heard (client (request_of a prompt))) i)

-- A call that throws, or whose reply carries an error.
unfoldable pub fails : Reply → Bool
fails (throws message) = true
fails (returns resp) = not (is_empty resp.error)

abbrev pub rounds_over : List LlmClient → Text → Analyst → Analyst
rounds_over [] prompt a = a
rounds_over (c ∷ cs) prompt a = rounds_over cs prompt (execute_round c prompt a).0

abbrev pub AlwaysFails : LlmClient → Type 0
AlwaysFails c = (q : PromptRequest) → fails (c q) ≡ true

accept_reply-fails :
    (r : Reply) (a : Analyst)
    → fails r ≡ true
    → ((accept_reply r a).0.stats ≡ a.stats) × ((accept_reply r a).1 ≡ false)
unfolding accept_reply fails
accept_reply-fails (throws message) a h = (refl, refl)
accept_reply-fails (returns resp) a h = ground arith

-- An analyst all of whose calls fail, however many, keeps its idle counter and all its other
-- statistics: only an empty answer counts as an idle round, a failed call does not.
pub rounds_over-stats :
    (cs : List LlmClient) (prompt : Text) (a : Analyst)
    → All AlwaysFails cs
    → (rounds_over cs prompt a).stats ≡ a.stats
unfolding execute_round
rounds_over-stats [] prompt a h = refl
rounds_over-stats (c ∷ cs) prompt a h =
    rounds_over-stats cs prompt (execute_round c prompt a).0 h.1
    ∙ (accept_reply-fails (c (request_of a prompt)) a (h.0 (request_of a prompt))).0
