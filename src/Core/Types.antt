-- ===== src/Core/Types.antt =====
-- Constants, enumerations and records of src/core/types.h. An `int` that the program compares with
-- negative numbers or reads from a file is a ℤ; a counter that starts at 0 and only grows is an ℕ.
use code_tribunal.Prelude.{ℕ, Option, none, some, List, [], Text, text, text_eq, if◌then◌else◌}
use code_tribunal.Prelude.Int.{ℤ, pos}

abbrev pub max_models : ℕ
max_models = 16

abbrev pub base_analyst_count : ℕ
base_analyst_count = 4

abbrev pub score_adopted : ℕ
score_adopted = 2

abbrev pub score_challenge_won : ℕ
score_challenge_won = 1

abbrev pub max_idle_rounds : ℕ
max_idle_rounds = 3

abbrev pub min_contribution_score : ℕ
min_contribution_score = 2

pub data AnalystRole : Type 0 where
  security performance correctness style dynamic judge count : AnalystRole

pub data QueryType : Type 0 where
  code_review security_audit performance correctness style refactoring unknown : QueryType

pub record AnalystStats : Type 0 where
  pub proposals_adopted : ℕ
  pub challenges_won : ℕ
  pub rounds_active : ℕ
  pub rounds_since_contrib : ℕ
  pub total_score : ℕ
  pub removal_immune : ℤ
  pub pruned : ℕ

abbrev pub new_stats : AnalystStats
new_stats = record {
  proposals_adopted = 0;
  challenges_won = 0;
  rounds_active = 0;
  rounds_since_contrib = 0;
  total_score = 0;
  removal_immune = pos 0;
  pruned = 0;
}

pub record Configuration : Type 0 where
  pub rounds : ℤ
  pub election_start : ℤ
  pub election_backoff : ℤ
  pub election_max : ℤ
  pub spawn_enabled : ℤ
  pub spawn_check_round : ℤ
  pub prune_enabled : ℤ
  pub prune_interval : ℤ
  pub prune_grace : ℤ
  pub min_analysts : ℤ
  pub prune_respawn : ℤ
  pub models : List Text
  pub judge_model : Text
  pub fast_model : Text
  pub ollama_urls : List Text
  pub ollama_timeout : ℤ
  pub max_file_bytes : ℤ
  pub exclude_dirs : List Text
  pub gitignore_patterns : List Text
  pub api_type : Text
  pub ollama_api_url : Text
  pub claude_api_key : Text
  pub claude_model : Text
  pub google_agy_api_key : Text
  pub google_agy_model : Text
  pub google_agy_endpoint : Text

-- The member initialisers of the struct.
abbrev pub default_configuration : Configuration
default_configuration = record {
  rounds = pos 4;
  election_start = pos 1;
  election_backoff = pos 2;
  election_max = pos 8;
  spawn_enabled = pos 1;
  spawn_check_round = pos 1;
  prune_enabled = pos 1;
  prune_interval = pos 3;
  prune_grace = pos 2;
  min_analysts = pos 2;
  prune_respawn = pos 1;
  models = [];
  judge_model = text "llama3.2";
  fast_model = [];
  ollama_urls = [];
  ollama_timeout = pos 120;
  max_file_bytes = pos 32768;
  exclude_dirs = [];
  gitignore_patterns = [];
  api_type = text "ollama";
  ollama_api_url = text "http://localhost:11434/api/chat";
  claude_api_key = [];
  claude_model = text "claude-3-5-sonnet-20241022";
  google_agy_api_key = [];
  google_agy_model = [];
  google_agy_endpoint = [];
}

unfoldable pub role_to_string : AnalystRole → Text
role_to_string AnalystRole.security = text "security"
role_to_string AnalystRole.performance = text "performance"
role_to_string AnalystRole.correctness = text "correctness"
role_to_string AnalystRole.style = text "style"
role_to_string AnalystRole.dynamic = text "dynamic"
role_to_string AnalystRole.judge = text "judge"
role_to_string _ = text "unknown"

unfoldable pub string_to_role : Text → Option AnalystRole
unfolding text_eq
string_to_role str =
    if text_eq str (text "security")
    then some AnalystRole.security
    else if text_eq str (text "performance")
    then some AnalystRole.performance
    else if text_eq str (text "correctness")
    then some AnalystRole.correctness
    else if text_eq str (text "style")
    then some AnalystRole.style
    else if text_eq str (text "dynamic")
    then some AnalystRole.dynamic
    else if text_eq str (text "judge")
    then some AnalystRole.judge
    else none
