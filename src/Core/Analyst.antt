-- ===== src/Core/Analyst.antt =====
-- One member of the council: src/core/Analyst.h and Analyst.cpp, with the request and the reply of
-- src/llm/LLMClient.h. The client is a parameter: a function from a request to a reply, or to the
-- message of the exception that the call throws.
pub mod Stats
use code_tribunal.Prelude.{
  ℕ, suc, ◌+◌, Bool, true, false, not, ◌&&◌, ◌==◌, List, [], ◌∷◌, ◌++◌, Text, is_empty, get_or,
  if◌then◌else◌,
}
use code_tribunal.Prelude.Int.{ℤ, pos, negsuc}
use code_tribunal.Core.Types.{
  AnalystRole, AnalystStats, new_stats, role_to_string, score_adopted, score_challenge_won,
}

pub record PromptRequest : Type 0 where
  pub model : Text
  pub system_prompt : Text
  pub user_message : Text
  pub temperature_tenths : ℕ
  pub max_tokens : ℕ
  pub stop_sequences : List Text

pub record PromptResponse : Type 0 where
  pub response_text : Text
  pub tokens_used : ℤ
  pub truncated : Bool
  pub error : Text

pub data Reply : Type 0 where
  returns : PromptResponse → Reply
  throws : Text → Reply

-- The calls of the callback of a stream: a chunk, and whether the stream is complete.
abbrev pub Chunks : Type 0
Chunks = List (Text × Bool)

abbrev pub LlmClient : Type 0
LlmClient = PromptRequest → Reply

pub record Analyst : Type 0 where
  pub role : AnalystRole
  pub role_name : Text
  pub model : Text
  pub system_prompt : Text
  pub responses : List Text
  pub round_count : ℕ
  pub stats : AnalystStats
  pub complete : Bool
  pub last_error : Text

unfoldable pub new_analyst : AnalystRole → Text → Text → Analyst
new_analyst role model system_prompt = record {
  role = role;
  role_name = role_to_string role;
  model = model;
  system_prompt = system_prompt;
  responses = [];
  round_count = 0;
  stats = new_stats;
  complete = false;
  last_error = [];
}

unfoldable pub record_round_activity : Bool → AnalystStats → AnalystStats
record_round_activity had_response stats =
    if had_response
    then record stats { rounds_active = stats.rounds_active + 1; rounds_since_contrib = 0 }
    else record stats { rounds_since_contrib = stats.rounds_since_contrib + 1 }

unfoldable pub request_of : Analyst → Text → PromptRequest
request_of a prompt = record {
  model = a.model;
  system_prompt = a.system_prompt;
  user_message = prompt;
  temperature_tenths = 7;
  max_tokens = 4096;
  stop_sequences = [];
}

-- The failing branches: the error is kept, and an empty response stands for the round.
unfoldable pub fail_round : Text → Analyst → Analyst
fail_round message a = record a { last_error = message; responses = a.responses ++ [] ∷ [] }

unfoldable pub accept_reply : Reply → Analyst → Analyst × Bool
unfolding fail_round record_round_activity
accept_reply (throws message) a = (fail_round message a, false)
accept_reply (returns resp) a =
    if not (is_empty resp.error) then (fail_round resp.error a, false) else (
      record a {
        responses = a.responses ++ resp.response_text ∷ [];
        stats = record_round_activity (not (is_empty resp.response_text)) a.stats;
      },
      true,
    )

unfoldable pub execute_round : LlmClient → Text → Analyst → Analyst × Bool
unfolding accept_reply request_of
execute_round client prompt a = accept_reply (client (request_of a prompt)) a

-- Out of range is the empty text.
unfoldable pub get_response : Analyst → ℤ → Text
get_response a (negsuc n) = []
get_response a (pos round) = get_or a.responses round []

unfoldable pub record_proposal_adopted : Analyst → Analyst
record_proposal_adopted a = record a {
  stats = record (a.stats) {
    proposals_adopted = a.stats.proposals_adopted + 1;
    total_score = a.stats.total_score + score_adopted;
    rounds_since_contrib = 0;
  };
}

unfoldable pub record_challenge_won : Analyst → Analyst
record_challenge_won a = record a {
  stats = record (a.stats) {
    challenges_won = a.stats.challenges_won + 1;
    total_score = a.stats.total_score + score_challenge_won;
    rounds_since_contrib = 0;
  };
}

unfoldable pub mark_pruned : Analyst → Analyst
mark_pruned a = record a { stats = record (a.stats) { pruned = 1 } }

unfoldable pub mark_complete : Analyst → Analyst
mark_complete a = record a { complete = true }

unfoldable pub is_active : Analyst → Bool
is_active a = (a.stats.pruned == 0) && not a.complete

unfoldable pub is_pruned : Analyst → Bool
is_pruned a = not (a.stats.pruned == 0)
