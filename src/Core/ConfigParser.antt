-- ===== src/Core/ConfigParser.antt =====
-- The configuration file: src/core/ConfigParser.h and ConfigParser.cpp. What the parser asks the system
-- for is the record `Environment`; `none` of a configuration is an exception of `std::stoi`, which
-- nothing in the parser catches.
pub mod Trim
pub mod Line
pub mod Load
use mathlib.Core.Option
use code_tribunal.Prelude.{
  ℕ, zero, suc, ◌+◌, Bool, true, false, not, ◌&&◌, ◌==◌, Option, none, some, List, [], ◌∷◌, ◌++◌,
  Text, text, text_eq, find, find_char, take, drop, is_empty, if◌then◌else◌,
}
use code_tribunal.Prelude.Int.{ℤ}
use code_tribunal.Prelude.Stoi.{is_space, skip_spaces, stoi}
use code_tribunal.Core.Types.{Configuration, default_configuration}

-- The second loop of `trim`: the text up to its last character that is no white space.
unfoldable pub trim_end : Text → Text
trim_end [] = []
trim_end (c ∷ s) = let rest = trim_end s in if is_space c && is_empty rest then [] else c ∷ rest

unfoldable pub trim : Text → Text
unfolding trim_end
trim s = trim_end (skip_spaces s)

-- The value without an inline comment.
unfoldable pub remove_comment : Text → Text
remove_comment value = elim (find_char b'#' value) [ none ↦ value | some p ↦ trim (take p value) ]

unfoldable pub accept : Text → Text → Option (Text × Text)
accept key value = if not (is_empty key) && not (is_empty value) then some (key, value) else none

unfoldable pub split_assignment : Text → Option (Text × Text)
split_assignment trimmed = elim (find_char b'=' trimmed) [
  | none ↦ none
  | some p ↦ accept (trim (take p trimmed)) (remove_comment (trim (drop (suc p) trimmed)))
]

unfoldable pub parse_trimmed : Text → Option (Text × Text)
parse_trimmed [] = none
parse_trimmed (c ∷ s) = if c == b'#' then none else split_assignment (c ∷ s)

-- The key and the value where the code returns true; `load` reads them only then.
unfoldable pub parse_line : Text → Option (Text × Text)
parse_line line = parse_trimmed (trim line)

-- An assignment of `std::stoi(value)`.
abbrev pub with_int : Text → (ℤ → Configuration) → Option Configuration
with_int value assign = Option.map assign (stoi 10 value)

unfoldable pub set_text_value : Configuration → Text → Text → Configuration
set_text_value config key value =
    if text_eq key (text "ollama_url")
    then record config { ollama_urls = config.ollama_urls ++ value ∷ [] }
    else if text_eq key (text "api_type")
    then record config { api_type = value }
    else if text_eq key (text "ollama_api_url")
    then record config { ollama_api_url = value }
    else if text_eq key (text "claude_model")
    then record config { claude_model = value }
    else if text_eq key (text "claude_api_key")
    then record config { claude_api_key = value }
    else if text_eq key (text "google_agy_model")
    then record config { google_agy_model = value }
    else if text_eq key (text "google_agy_api_key")
    then record config { google_agy_api_key = value }
    else if text_eq key (text "google_agy_endpoint")
    then record config { google_agy_endpoint = value }
    else config

-- The chain of tests. The keys from `ollama_url` on that hold text stand in `set_text_value`; the keys
-- differ, so that the order of the tests does not matter.
unfoldable pub set_config_value : Configuration → Text → Text → Option Configuration
set_config_value config key value =
    if text_eq key (text "rounds")
    then with_int value (λ v. record config { rounds = v })
    else if text_eq key (text "election_start")
    then with_int value (λ v. record config { election_start = v })
    else if text_eq key (text "election_backoff")
    then with_int value (λ v. record config { election_backoff = v })
    else if text_eq key (text "election_max")
    then with_int value (λ v. record config { election_max = v })
    else if text_eq key (text "judge_model")
    then some (record config { judge_model = value })
    else if text_eq key (text "spawn_enabled")
    then with_int value (λ v. record config { spawn_enabled = v })
    else if text_eq key (text "spawn_check_round")
    then with_int value (λ v. record config { spawn_check_round = v })
    else if text_eq key (text "prune_enabled")
    then with_int value (λ v. record config { prune_enabled = v })
    else if text_eq key (text "prune_interval")
    then with_int value (λ v. record config { prune_interval = v })
    else if text_eq key (text "prune_grace")
    then with_int value (λ v. record config { prune_grace = v })
    else if text_eq key (text "min_analysts")
    then with_int value (λ v. record config { min_analysts = v })
    else if text_eq key (text "prune_respawn")
    then with_int value (λ v. record config { prune_respawn = v })
    else if text_eq key (text "model")
    then some (record config { models = config.models ++ value ∷ [] })
    else if text_eq key (text "ollama_timeout")
    then with_int value (λ v. record config { ollama_timeout = v })
    else some (set_text_value config key value)

-- The loop over the lines.
unfoldable pub apply_line : Configuration → Option (Text × Text) → Option Configuration
apply_line config none = some config
apply_line config (some (key, value)) = set_config_value config key value

unfoldable pub read_lines : Configuration → List Text → Option Configuration
read_lines config [] = some config
read_lines config (line ∷ lines) = elim (apply_line config (parse_line line)) [
  | none ↦ none
  | some config' ↦ read_lines config' lines
]

-- What the parser asks the system for: variables, the lines of a file that opens, and what `fgets`
-- reads from `gcloud config get-value project`.
pub record Environment : Type 0 where
  pub getenv : Text → Option Text
  pub read_file : Text → Option (List Text)
  pub gcloud_output : Option Text

-- The text after `pattern`, which is `len` characters long, up to the next quotation mark.
unfoldable pub quoted_after : Text → ℕ → Text → Option Text
quoted_after pattern len line = elim (find pattern line) [
  | none ↦ none
  | some p ↦ (let rest = drop (p + len) line in Option.map (λ e. take e rest) (find_char b'"' rest))
]

-- The first of the lines that has a quoted text.
unfoldable pub first_quoted : (Text → Option Text) → List Text → Option Text
first_quoted scan [] = none
first_quoted scan (line ∷ lines) =
    let rest = first_quoted scan lines in elim (scan line) [ none ↦ rest | some t ↦ some t ]

abbrev pub access_token : Text → Option Text
access_token line = quoted_after (text "\"access_token\":\"") 16 line

abbrev pub token_or_secret : Text → Option Text
token_or_secret line = elim (access_token line) [
  | none ↦ quoted_after (text "\"client_secret\":\"") 17 line
  | some t ↦ some t
]

abbrev pub or_empty : Option Text → Text
or_empty none = []
or_empty (some t) = t

-- What `scan` finds in a file, if the file opens.
abbrev pub scan_file : (Text → Option Text) → Option (List Text) → Option Text
scan_file scan none = none
scan_file scan (some lines) = first_quoted scan lines

-- A project that `gcloud` names, if it does.
unfoldable pub project_of : Option Text → Text
project_of none = []
project_of (some out) =
    let result = trim out in if text_eq result (text "(unset)") then [] else result

unfoldable pub read_gcloud_project : Environment → Text
read_gcloud_project env =
    let project = or_empty (env.getenv (text "GOOGLE_CLOUD_PROJECT")) in
    if is_empty project then project_of (env.gcloud_output) else project

-- Scans the file that a variable names, after `suffix` is added to it.
unfoldable pub scan_named : Environment → (Text → Option Text) → Text → Option Text → Option Text
unfolding quoted_after first_quoted
scan_named env scan suffix none = none
scan_named env scan suffix (some name) = scan_file scan (env.read_file (name ++ suffix))

unfoldable pub read_claude_cli_credentials : Environment → Text
unfolding scan_named
read_claude_cli_credentials env = or_empty (
    scan_named env (quoted_after (text "\"accessToken\":\"") 15) (text "/.claude/.credentials.json")
      (env.getenv (text "HOME")))

unfoldable pub read_gcloud_credentials : Environment → Text
unfolding scan_named
read_gcloud_credentials env =
    elim (scan_named env access_token [] (env.getenv (text "GOOGLE_APPLICATION_CREDENTIALS"))) [
      | none ↦ or_empty (
          scan_named env token_or_secret
            (text "/.config/gcloud/application_default_credentials.json")
            (env.getenv (text "HOME")))
      | some t ↦ t
    ]

-- The first candidate that is not empty.
unfoldable pub first_filled : List Text → Text
first_filled [] = []
first_filled (t ∷ ts) = let rest = first_filled ts in if is_empty t then rest else t

unfoldable pub endpoint_of : Text → Text
endpoint_of project =
    if is_empty project
    then []
    else text "https://agy.googleapis.com/projects/"
      ++ project
      ++ text "/locations/us-central1/v1beta1"

-- Each setting that is empty gets the first source that has a value.
unfoldable pub apply_env_overrides : Environment → Configuration → Configuration
unfolding first_filled endpoint_of read_claude_cli_credentials read_gcloud_project
    read_gcloud_credentials
apply_env_overrides env config = record config {
  claude_api_key = first_filled (
      config.claude_api_key
      ∷ or_empty (env.getenv (text "CLAUDE_API_KEY"))
      ∷ or_empty (env.getenv (text "ANTHROPIC_API_KEY"))
      ∷ read_claude_cli_credentials env
      ∷ []);
  google_agy_api_key = first_filled (
      config.google_agy_api_key
      ∷ or_empty (env.getenv (text "GOOGLE_AGY_API_KEY"))
      ∷ read_gcloud_credentials env
      ∷ []);
  google_agy_model =
      first_filled (config.google_agy_model ∷ or_empty (env.getenv (text "GOOGLE_AGY_MODEL")) ∷ []);
  google_agy_endpoint =
      first_filled (config.google_agy_endpoint ∷ endpoint_of (read_gcloud_project env) ∷ []);
}

unfoldable pub load : Environment → Text → Option Configuration
unfolding read_lines apply_env_overrides
load env config_path = elim (env.read_file config_path) [
  | none ↦ some (apply_env_overrides env default_configuration)
  | some lines ↦ Option.map (apply_env_overrides env) (read_lines default_configuration lines)
]
