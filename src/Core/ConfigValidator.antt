-- ===== src/Core/ConfigValidator.antt =====
-- The checks of a configuration: src/core/ConfigValidator.h and ConfigValidator.cpp, without the log
-- lines. A check that throws gives the message of its exception, one that passes gives `none`.
pub mod Errors
use code_tribunal.Prelude.{
  ℕ, zero, suc, Bool, true, false, not, ◌&&◌, ◌||◌, ltb, leb, ◌==◌, Option, none, some, List, [],
  ◌∷◌, ◌++◌, Text, text, text_eq, length, is_empty, to_string, if◌then◌else◌,
}
use code_tribunal.Prelude.Int.{ℤ, pos, negsuc, ltb_ℤ, eqb_ℤ}
use code_tribunal.Core.Types.{Configuration}

abbrev pub min_rounds : ℤ
min_rounds = pos 1

abbrev pub max_rounds : ℤ
max_rounds = pos 20

abbrev pub min_models : ℕ
min_models = 2

abbrev pub max_models : ℕ
max_models = 10

abbrev pub int_to_string : ℤ → Text
int_to_string (pos n) = to_string n
int_to_string (negsuc n) = b'-' ∷ to_string (suc n)

unfoldable pub validate_api_type : Text → Option Text
validate_api_type api_type =
    if text_eq api_type (text "ollama")
      || (text_eq api_type (text "claude") || text_eq api_type (text "google-agy"))
    then none
    else some (
        (text "Unsupported api_type: '" ++ api_type)
        ++ text "'. Supported: ollama, claude, google-agy")

unfoldable pub validate_rounds : ℤ → Option Text
validate_rounds rounds =
    if ltb_ℤ rounds min_rounds || ltb_ℤ max_rounds rounds
    then some (text "rounds must be between 1 and 20, got " ++ int_to_string rounds)
    else none

-- Fewer models than recommended only give a line of the log.
unfoldable pub validate_models : List Text → Option Text
validate_models [] = some (text "At least one model must be configured")
validate_models (m ∷ models) =
    let count = length (m ∷ models) in
    if ltb max_models count
    then some (
        (text "Too many models: " ++ to_string count)
        ++ (text " (max: " ++ (to_string max_models ++ text ")")))
    else none

-- The characters of a host: `[a-zA-Z0-9.-]`.
unfoldable pub is_host_char : ℕ → Bool
is_host_char c =
    (leb b'a' c && leb c b'z')
    || ((leb b'A' c && leb c b'Z') || ((leb b'0' c && leb c b'9') || (c == b'.' || c == b'-')))

abbrev is_digit : ℕ → Bool
is_digit c = leb b'0' c && leb c b'9'

-- `\d{1,5}/?$`, with `left` digits still allowed; `seen` tells whether there was a digit.
unfoldable pub match_port : ℕ → Bool → Text → Bool
match_port left seen [] = seen
match_port zero seen (c ∷ s) = seen && (c == b'/' && is_empty s)
match_port (suc left) seen (c ∷ s) =
    let rest = match_port left true s in
    if is_digit c then rest else seen && (c == b'/' && is_empty s)

-- `[a-zA-Z0-9.-]+:` and the port. The host has no colon, so that the first colon ends it.
unfoldable pub match_host : Bool → Text → Bool
unfolding is_host_char match_port
match_host seen [] = false
match_host seen (c ∷ s) =
    let rest = match_host true s in
    let port = match_port 5 false s in if is_host_char c then rest else seen && (c == b':' && port)

-- The text after a prefix.
unfoldable pub after_prefix : Text → Text → Option Text
after_prefix [] s = some s
after_prefix (p ∷ ps) [] = none
after_prefix (p ∷ ps) (c ∷ s) = let rest = after_prefix ps s in if p == c then rest else none

-- `std::regex_match` of a URL with `^https?://[a-zA-Z0-9.-]+:\d{1,5}/?$`.
unfoldable pub is_ollama_url : Text → Bool
unfolding match_host after_prefix
is_ollama_url url = elim (after_prefix (text "http://") url) [
  | none ↦ elim (after_prefix (text "https://") url) [ none ↦ false | some s ↦ match_host false s ]
  | some s ↦ match_host false s
]

unfoldable pub validate_ollama_urls : List Text → Option Text
unfolding is_ollama_url
validate_ollama_urls [] = none
validate_ollama_urls (url ∷ urls) =
    let rest = validate_ollama_urls urls in
    if is_ollama_url url then rest else some (text "Invalid Ollama URL format: " ++ url)

-- The errors after those of a check.
unfoldable pub push_error : Option Text → List Text → List Text
push_error none errors = errors
push_error (some e) errors = e ∷ errors

abbrev pub models_error : List Text → Option Text
models_error models =
    if ltb (length models) min_models
    then some (
        (text "Insufficient models: " ++ to_string (length models)) ++ text " (minimum 2 required)")
    else none

-- The check of one provider's settings: `message` if the provider is selected and its key is empty.
abbrev pub key_error : Text → Text → Text → Text → Option Text
key_error api_type provider key message =
    if text_eq api_type provider && is_empty key then some message else none

abbrev pub urls_error : Text → List Text → Option Text
urls_error api_type urls =
    if text_eq api_type (text "ollama") then validate_ollama_urls urls else none

unfoldable pub get_validation_errors : Configuration → List Text
unfolding validate_api_type validate_rounds validate_ollama_urls push_error
get_validation_errors config = push_error (validate_api_type (config.api_type)) (
    push_error (validate_rounds (config.rounds)) (
      push_error (models_error (config.models)) (
        push_error (urls_error (config.api_type) (config.ollama_urls)) (
          push_error
            (key_error (config.api_type) (text "claude") (config.claude_api_key)
              (text "Claude provider selected but claude_api_key not configured"))
            (push_error
              (key_error (config.api_type) (text "google-agy") (config.google_agy_api_key)
                (text "Google Antigravity provider selected but google_agy_api_key not configured"))
              [])))))

abbrev pub default_models : List Text
default_models = text "llama3.2" ∷ text "mistral" ∷ text "neural-chat" ∷ text "dolphin-mixtral" ∷ []

-- `value`, or `default` if it is empty.
unfoldable pub or_default {ℓ} : {A : Type ℓ} → List A → List A → List A
or_default [] default = default
or_default (x ∷ value) default = x ∷ value

-- The validation at the end only logs its errors.
unfoldable pub apply_defaults : Configuration → Configuration
unfolding or_default
apply_defaults config = record config {
  rounds = if eqb_ℤ (config.rounds) (pos 0) then pos 4 else config.rounds;
  models = or_default (config.models) default_models;
  api_type = or_default (config.api_type) (text "ollama");
  ollama_urls = or_default (config.ollama_urls) (text "http://localhost:11434" ∷ []);
  claude_model = or_default (config.claude_model) (text "claude-3-5-sonnet-20241022");
  google_agy_model = or_default (config.google_agy_model) (text "claude-3-5-sonnet-20241022");
}

-- The lines of the message that `validate` throws.
unfoldable pub error_lines : List Text → Text
error_lines [] = []
error_lines (e ∷ errors) = ((text "  - " ++ e) ++ b'\n' ∷ []) ++ error_lines errors

unfoldable pub validate : Configuration → Option Text
unfolding get_validation_errors error_lines
validate config = elim (get_validation_errors config) [
  | [] ↦ none
  | e ∷ errors ↦ some ((text "Configuration validation failed:\n") ++ error_lines (e ∷ errors))
]
