-- ===== src/Llm/Factory.antt =====
-- The choice of a client: `ClientFactory` in src/llm/LLMClient.cpp, with the constructors of the
-- clients that it makes.
pub mod Choice
use code_tribunal.Prelude.{
  ℕ, Bool, true, false, ◌||◌, Option, none, some, List, [], ◌∷◌, ◌++◌, Text, text, text_eq,
  is_empty, map, if◌then◌else◌,
}
use code_tribunal.Core.Types.{Configuration}
use code_tribunal.Ui.QueryClassifier.{to_lower}

-- The clients by their members.
pub data Client : Type 0 where
  ollama : (base_url : Text) (timeout : ℕ) → Client
  claude : (api_key model : Text) (timeout : ℕ) → Client
  google_agy : (api_key model endpoint : Text) (timeout : ℕ) → Client

-- A client, or the message of the exception that is thrown.
pub data Created : Type 0 where
  created : Client → Created
  invalid_argument runtime_error : Text → Created

-- The answer of `std::getenv`.
abbrev pub Getenv : Type 0
Getenv = Text → Option Text

abbrev pub or_variable : Option Text → Text → Text
or_variable none value = value
or_variable (some v) value = v

-- A value, from the environment if it is empty.
unfoldable pub or_env : Getenv → Text → Text → Text
or_env getenv name value = if is_empty value then or_variable (getenv name) value else value

-- The constructor of `OllamaClient`; `curl` tells whether `curl_easy_init` gives a handle.
unfoldable pub new_ollama : Bool → Text → ℕ → Created
new_ollama true base_url timeout = created (ollama base_url timeout)
new_ollama false base_url timeout = runtime_error (text "Failed to initialize libcurl")

unfoldable pub new_claude : Getenv → Text → Text → ℕ → Client
unfolding or_env
new_claude getenv api_key model timeout =
    claude (or_env getenv (text "CLAUDE_API_KEY") api_key) model timeout

unfoldable pub new_google_agy : Getenv → Text → Text → Text → ℕ → Client
unfolding or_env
new_google_agy getenv api_key model endpoint timeout =
    google_agy (or_env getenv (text "GOOGLE_AGY_API_KEY") api_key)
      (or_env getenv (text "GOOGLE_AGY_MODEL") model)
      (if is_empty endpoint
        then or_variable (getenv (text "GOOGLE_AGY_ENDPOINT"))
            (text "https://agy.googleapis.com/v1beta1")
        else endpoint)
      timeout

abbrev pub default_url : Text
default_url = text "http://localhost:11434"

abbrev pub default_claude_model : Text
default_claude_model = text "claude-3-5-sonnet-20241022"

abbrev unknown_provider : Text → Text
unknown_provider name =
    text "Unknown LLM provider: " ++ (name ++ text " (supported: ollama, claude, google-agy)")

abbrev pub is_google : Text → Bool
is_google lower = text_eq lower (text "google-agy") || text_eq lower (text "google_agy")

-- Without a model, an endpoint or a timeout the constructors take their default arguments.
unfoldable pub create : Bool → Getenv → Text → Text → Created
unfolding to_lower text_eq new_ollama new_claude new_google_agy
create curl getenv provider_type config =
    let lower = map to_lower provider_type in
    if text_eq lower (text "ollama")
    then new_ollama curl (if is_empty config then default_url else config) 120
    else if text_eq lower (text "claude")
    then created (new_claude getenv config default_claude_model 120)
    else if is_google lower
    then created (new_google_agy getenv config [] [] 120)
    else if text_eq lower (text "openai")
    then invalid_argument (text "OpenAI client not yet implemented")
    else if text_eq lower (text "vllm")
    then invalid_argument (text "vLLM client not yet implemented")
    else invalid_argument (unknown_provider provider_type)

-- What `create_from_config` takes from the configuration.
pub record ProviderConfig : Type 0 where
  pub api_type : Text
  pub claude_api_key : Text
  pub claude_model : Text
  pub google_agy_api_key : Text
  pub google_agy_model : Text
  pub google_agy_endpoint : Text
  pub ollama_url : Text

-- The URL of the first endpoint; the other ones are not used.
abbrev pub first_url : List Text → Text
first_url [] = []
first_url (url ∷ urls) = url

abbrev pub provider_config : Configuration → ProviderConfig
provider_config config = record {
  api_type = config.api_type;
  claude_api_key = config.claude_api_key;
  claude_model = config.claude_model;
  google_agy_api_key = config.google_agy_api_key;
  google_agy_model = config.google_agy_model;
  google_agy_endpoint = config.google_agy_endpoint;
  ollama_url = first_url config.ollama_urls;
}

unfoldable pub create_from_config : Bool → Getenv → ProviderConfig → ℕ → Created
unfolding to_lower text_eq new_ollama new_claude new_google_agy
create_from_config curl getenv c timeout =
    let lower = map to_lower c.api_type in
    if text_eq lower (text "ollama")
    then new_ollama curl (if is_empty c.ollama_url then default_url else c.ollama_url) timeout
    else if text_eq lower (text "claude")
    then created (
        new_claude getenv c.claude_api_key
          (if is_empty c.claude_model then default_claude_model else c.claude_model) timeout)
    else if is_google lower
    then created (
        new_google_agy getenv c.google_agy_api_key c.google_agy_model c.google_agy_endpoint timeout)
    else invalid_argument (unknown_provider c.api_type)
