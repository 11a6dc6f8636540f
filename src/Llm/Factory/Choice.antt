-- ===== src/Llm/Factory/Choice.antt =====
-- The validated configurations and the factory (src/llm/LLMClient.cpp).
use code_tribunal.Prelude.{
  ◌≡◌, refl, ℕ, Bool, true, false, ◌⊎◌, inl, inr, List, Text, text, text_eq, is_empty,
  if◌then◌else◌,
}
use code_tribunal.Core.Types.{Configuration}
use code_tribunal.Core.ConfigValidator.Errors.{HasProvider, IsRunnable}
use code_tribunal.Ui.QueryClassifier.{to_lower}
use code_tribunal.Llm.Factory.{
  Client, ollama, claude, google_agy, Created, created, runtime_error, Getenv, or_env, or_variable,
  default_url, default_claude_model, new_ollama, new_claude, new_google_agy, ProviderConfig,
  provider_config, create_from_config,
}

-- The client is of the provider that the configuration names, with the configured key.
abbrev pub Delivers : ProviderConfig → ℕ → Client → Type 0
Delivers c timeout client =
    ((c.api_type ≡ text "ollama")
      × (client ≡ ollama (if is_empty c.ollama_url then default_url else c.ollama_url) timeout))
    ⊎ ((c.api_type ≡ text "claude")
        × (client
            ≡ claude c.claude_api_key
                (if is_empty c.claude_model then default_claude_model else c.claude_model) timeout))
    ⊎ ((c.api_type ≡ text "google-agy")
        × ((model : Text) × (endpoint : Text) × (client
              ≡ google_agy c.google_agy_api_key model endpoint timeout)))

abbrev pub failed_init : Created
failed_init = runtime_error (text "Failed to initialize libcurl")

-- What making the client comes to: only the one of Ollama throws, without a handle of libcurl.
abbrev pub constructed : Bool → Client → Created
constructed true client = created client
constructed false (ollama base_url timeout) = failed_init
constructed false client = created client

pub constructed-cases :
    (curl : Bool) (c : Client)
    → (constructed curl c ≡ created c) ⊎ (constructed curl c ≡ failed_init)
constructed-cases true c = inl refl
constructed-cases false (ollama base_url timeout) = inr refl
constructed-cases false (claude key model timeout) = inl refl
constructed-cases false (google_agy key model endpoint timeout) = inl refl

new_ollama-constructed :
    (curl : Bool) (base_url : Text) (timeout : ℕ)
    → new_ollama curl base_url timeout ≡ constructed curl (ollama base_url timeout)
unfolding new_ollama
new_ollama-constructed true base_url timeout = refl
new_ollama-constructed false base_url timeout = refl

constructed-claude :
    (curl : Bool) (key model : Text) (timeout : ℕ)
    → created (claude key model timeout) ≡ constructed curl (claude key model timeout)
constructed-claude true key model timeout = refl
constructed-claude false key model timeout = refl

constructed-google_agy :
    (curl : Bool) (key model endpoint : Text) (timeout : ℕ)
    → created (google_agy key model endpoint timeout)
      ≡ constructed curl (google_agy key model endpoint timeout)
constructed-google_agy true key model endpoint timeout = refl
constructed-google_agy false key model endpoint timeout = refl

made :
    (curl : Bool) (getenv : Getenv) (c : ProviderConfig) (timeout : ℕ) (urls : List Text)
    → HasProvider c.api_type urls c.claude_api_key c.google_agy_api_key
    → (client : Client) × (create_from_config curl getenv c timeout ≡ constructed curl client)
      × Delivers c timeout client
unfolding create_from_config new_claude new_google_agy or_env to_lower text_eq
made curl getenv c timeout urls (inl (e, h)) =
    let url = if is_empty c.ollama_url then default_url else c.ollama_url in
    (ollama url timeout, rw e (new_ollama-constructed curl url timeout), inl (e, refl))
made curl getenv c timeout urls (inr (inl (e, h))) =
    let model = if is_empty c.claude_model then default_claude_model else c.claude_model in
    (
      claude c.claude_api_key model timeout,
      rw (e, h) (constructed-claude curl c.claude_api_key model timeout),
      inr (inl (e, refl)),
    )
made curl getenv c timeout urls (inr (inr (e, h))) =
    let model = or_env getenv (text "GOOGLE_AGY_MODEL") c.google_agy_model in
    let endpoint =
      if is_empty c.google_agy_endpoint
      then or_variable (getenv (text "GOOGLE_AGY_ENDPOINT"))
          (text "https://agy.googleapis.com/v1beta1")
      else c.google_agy_endpoint in
    (
      google_agy c.google_agy_api_key model endpoint timeout,
      rw (e, h) (constructed-google_agy curl c.google_agy_api_key model endpoint timeout),
      inr (inr (e, (model, endpoint, refl))),
    )

-- For a configuration that passes validation the factory makes a client of the configured provider,
-- with the configured key and, for Ollama, the URL of the first endpoint. It throws only if that client
-- is the one of Ollama and `curl_easy_init` fails.
pub create_from_config-IsRunnable :
    (curl : Bool) (getenv : Getenv) (config : Configuration) (timeout : ℕ)
    → IsRunnable config
    → (client : Client) × (create_from_config curl getenv (provider_config config) timeout
        ≡ constructed curl client)
      × Delivers (provider_config config) timeout client
create_from_config-IsRunnable curl getenv config timeout r =
    made curl getenv (provider_config config) timeout config.ollama_urls r.provider
