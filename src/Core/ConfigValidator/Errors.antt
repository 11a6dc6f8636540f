-- ===== src/Core/ConfigValidator/Errors.antt =====
-- When the checks find no error, and what the defaults repair (src/core/ConfigValidator.cpp).
use code_tribunal.Prelude.{
  ◌≡◌, ◌≤◌, ◌⊎◌, ◌↔◌, refl, sym, true, false, Option, none, List, [], ◌∷◌, Text, text, text_eq,
  eq_of_text_eq, subst, length, is_empty, All, if◌then◌else◌, Bool-cases, inl, inr, arith,
}
use code_tribunal.Prelude.Int.{ℤ, pos, negsuc, eqb_ℤ, ◌≤ℤ◌}
use code_tribunal.Core.Types.{Configuration}
use code_tribunal.Core.ConfigValidator.{
  validate_api_type, validate_rounds, validate_ollama_urls, is_ollama_url, push_error, models_error,
  key_error, urls_error, get_validation_errors, or_default, apply_defaults,
}

abbrev pub IsOllamaUrl : Text → Type 0
IsOllamaUrl url = is_ollama_url url ≡ true

-- The provider is a known one and has what it needs.
abbrev pub HasProvider : Text → List Text → Text → Text → Type 0
HasProvider api_type urls claude_key google_key =
    ((api_type ≡ text "ollama") × All IsOllamaUrl urls)
    ⊎ ((api_type ≡ text "claude") × (is_empty claude_key ≡ false))
    ⊎ ((api_type ≡ text "google-agy") × (is_empty google_key ≡ false))

-- A configuration that the program can run with, in terms of its settings.
pub record IsRunnable (config : Configuration) : Type 0 where
  pub provider :
      HasProvider
        (config.api_type)
        (config.ollama_urls)
        (config.claude_api_key)
        (config.google_agy_api_key)
  pub at_least_one : pos 1 ≤ℤ config.rounds
  pub at_most_twenty : config.rounds ≤ℤ pos 20
  pub two_models : 2 ≤ length (config.models)

no_errors :
    (a b c d e f : Option Text)
    → (push_error a (push_error b (push_error c (push_error d (push_error e (push_error f [])))))
        ≡ [])
      ↔ (((a ≡ none) × (b ≡ none) × (c ≡ none)) × ((d ≡ none) × (e ≡ none) × (f ≡ none)))
unfolding push_error
no_errors a b c d e f = ground arith

validate_rounds-none :
    (rounds : ℤ) → (validate_rounds rounds ≡ none) ↔ ((pos 1 ≤ℤ rounds) × (rounds ≤ℤ pos 20))
unfolding validate_rounds
validate_rounds-none (pos n) = ground arith
validate_rounds-none (negsuc n) = ground arith

models_error-none : (models : List Text) → (models_error models ≡ none) ↔ (2 ≤ length models)
models_error-none models = ground arith

validate_ollama_urls-none :
    (urls : List Text) → (validate_ollama_urls urls ≡ none) ↔ All IsOllamaUrl urls
unfolding validate_ollama_urls
validate_ollama_urls-none [] = ground arith
validate_ollama_urls-none (u ∷ urls) = ground (arith, validate_ollama_urls-none urls)

-- No check of the provider's settings fails.
abbrev ProviderPasses : Text → List Text → Text → Text → Text → Text → Type 0
ProviderPasses api_type urls claude_key google_key m n =
    (validate_api_type api_type ≡ none)
    × (urls_error api_type urls ≡ none)
    × (key_error api_type (text "claude") claude_key m ≡ none)
    × (key_error api_type (text "google-agy") google_key n ≡ none)

provider_runs :
    (api_type : Text) (urls : List Text) (ck gk m n : Text)
    → ProviderPasses api_type urls ck gk m n
    → HasProvider api_type urls ck gk
unfolding validate_api_type
provider_runs api_type urls ck gk m n h =
    let ollama = eq_of_text_eq api_type (text "ollama") in
    let claude = eq_of_text_eq api_type (text "claude") in
    let google = eq_of_text_eq api_type (text "google-agy") in
    ground (arith, ollama, claude, google, validate_ollama_urls-none urls)

provider_passes :
    (api_type : Text) (urls : List Text) (ck gk m n : Text)
    → HasProvider api_type urls ck gk
    → ProviderPasses api_type urls ck gk m n
unfolding validate_api_type text_eq
provider_passes api_type urls ck gk m n (inl (e, h)) =
    subst (λ a. ProviderPasses a urls ck gk m n) (sym e)
      (refl, (validate_ollama_urls-none urls).1 h, refl, refl)
provider_passes api_type urls ck gk m n (inr (inl (e, h))) =
    subst (λ a. ProviderPasses a urls ck gk m n) (sym e) (refl, refl, rw h refl, refl)
provider_passes api_type urls ck gk m n (inr (inr (e, h))) =
    subst (λ a. ProviderPasses a urls ck gk m n) (sym e) (refl, refl, refl, rw h refl)

pub get_validation_errors-IsRunnable :
    (config : Configuration) → (get_validation_errors config ≡ []) ↔ IsRunnable config
unfolding get_validation_errors
get_validation_errors-IsRunnable config =
    let m = text "Claude provider selected but claude_api_key not configured" in
    let n = text "Google Antigravity provider selected but google_agy_api_key not configured" in
    let chain =
      no_errors (validate_api_type (config.api_type)) (validate_rounds (config.rounds))
        (models_error (config.models)) (urls_error (config.api_type) (config.ollama_urls))
        (key_error (config.api_type) (text "claude") (config.claude_api_key) m)
        (key_error (config.api_type) (text "google-agy") (config.google_agy_api_key) n) in
    let rounds = validate_rounds-none (config.rounds) in
    let models = models_error-none (config.models) in
    (
      λ h.
          let ((a, r, k), (u, c, g)) = chain.0 h in
          record {
            provider =
                provider_runs (config.api_type) (config.ollama_urls) (config.claude_api_key)
                  (config.google_agy_api_key) m n (a, u, c, g);
            at_least_one = (rounds.0 r).0;
            at_most_twenty = (rounds.0 r).1;
            two_models = models.0 k;
          },
      λ h.
          let (a, u, c, g) =
            provider_passes (config.api_type) (config.ollama_urls) (config.claude_api_key)
              (config.google_agy_api_key) m n (h.provider) in
          chain.1
            ((a, rounds.1 (h.at_least_one, h.at_most_twenty), models.1 (h.two_models)), (u, c, g)),
    )

or_default_twice {ℓ} : {A : Type ℓ} (t d : List A) → or_default (or_default t d) d ≡ or_default t d
unfolding or_default
or_default_twice [] [] = refl
or_default_twice [] (x ∷ d) = refl
or_default_twice (c ∷ t) d = refl

rounds_or_default_twice :
    (r : ℤ)
    → (if eqb_ℤ (if eqb_ℤ r (pos 0) then pos 4 else r) (pos 0)
        then pos 4
        else if eqb_ℤ r (pos 0)
        then pos 4
        else r)
      ≡ (if eqb_ℤ r (pos 0) then pos 4 else r)
rounds_or_default_twice r = elim (Bool-cases (eqb_ℤ r (pos 0))) [
  | inl e ↦ rw e refl
  | inr e ↦ rw (e, e) refl
]

-- Applying the defaults a second time changes nothing.
pub apply_defaults-apply_defaults :
    (config : Configuration) → apply_defaults (apply_defaults config) ≡ apply_defaults config
unfolding apply_defaults
apply_defaults-apply_defaults config =
    rw
      (
        or_default_twice (config.models),
        or_default_twice (config.api_type),
        or_default_twice (config.ollama_urls),
        or_default_twice (config.claude_model),
        or_default_twice (config.google_agy_model),
      )
      (rw (rounds_or_default_twice (config.rounds)) refl)
