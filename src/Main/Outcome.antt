-- ===== src/Main/Outcome.antt =====
-- How a run of the program ends (`main` of src/main.cpp).
use code_tribunal.Prelude.{
  ◌≡◌, ◌⊎◌, refl, ap, sym, subst, ◌∙◌, inl, inr, true, false, Option, none, some, List, [], ◌∷◌,
  Text, text, text_eq, is_empty, arith, Bool-cases, Option-cases, if◌then◌else◌,
}
use code_tribunal.Core.Types.{Configuration}
use code_tribunal.Core.ConfigParser.{load}
use code_tribunal.Core.ConfigValidator.{or_default, apply_defaults, get_validation_errors, validate}
use code_tribunal.Core.ConfigValidator.Errors.{IsRunnable, get_validation_errors-IsRunnable}
use code_tribunal.Core.Council.{DebateResult, new_council, initialize_analysts, run_debate}
use code_tribunal.Llm.Factory.{Client, provider_config}
use code_tribunal.Llm.Factory.Choice.{
  Delivers, constructed, constructed-cases, create_from_config-IsRunnable,
}
use code_tribunal.Http.Execution.Outcome.{debate_reports}
use code_tribunal.Main.{
  Options, Step, next, stop, raise, no_fuel, parse_arguments, override, Machine, Exit, serves,
  debated, with_client, debate, with_endpoint, start, configure, main,
}

List-cases {ℓ} :
    {A : Type ℓ} (xs : List A) → (xs ≡ []) ⊎ ((x : A) × (xs' : List A) × (xs ≡ x ∷ xs'))
List-cases [] = inl refl
List-cases (x ∷ xs) = inr (x, xs, refl)

validate-IsRunnable : (config : Configuration) → validate config ≡ none → IsRunnable config
unfolding validate
validate-IsRunnable config h = elim (List-cases (get_validation_errors config)) [
  | inl e ↦ (get_validation_errors-IsRunnable config).0 e
  | inr (m, ms, e) ↦ absurd (ground (arith, rw (e, validate) at h))
]

or_default-filled : (a b : List Text) → is_empty b ≡ false → is_empty (or_default a b) ≡ false
unfolding or_default
or_default-filled [] b h = h
or_default-filled (x ∷ a) b h = refl

with_endpoint-filled :
    (config : Configuration) → is_empty config.ollama_urls ≡ false → with_endpoint config ≡ config
with_endpoint-filled config h = elim (Bool-cases (text_eq config.api_type (text "ollama"))) [
  | inl t ↦ rw (t, h) refl
  | inr f ↦ rw f refl
]

-- The defaults leave no list of endpoints empty, so that the later test for it never holds.
with_endpoint-apply_defaults :
    (config : Configuration) → with_endpoint (apply_defaults config) ≡ apply_defaults config
unfolding apply_defaults
with_endpoint-apply_defaults config =
    with_endpoint-filled (apply_defaults config)
      (or_default-filled config.ollama_urls (text "http://localhost:11434" ∷ []) refl)

-- A run that passes the validation, up to its mode.
start-runs :
    (w : Machine) (opts : Options) (config : Configuration)
    → IsRunnable config
    → with_endpoint config ≡ config
    → (client : Client) × Delivers (provider_config config) 120 client
      × (start w opts config
          ≡ with_client w
              (constructed w.curl_init client)
              (λ c. if opts.web_mode then serves config c else debate w opts config c))
unfolding start
start-runs w opts config r e =
    let (client, is_made, delivers) =
      create_from_config-IsRunnable w.curl_init w.getenv config 120 r in
    (client, delivers, rw e (rw is_made refl))

-- The configuration and the client of a run that comes to its server or its debate.
unfoldable pub ran : Exit → Option (Configuration × Client)
ran (serves config client) = some (config, client)
ran (debated config client result) = some (config, client)
ran _ = none

some-eq : {A : Type 0} (a b : A) → some a ≡ some b → a ≡ b
some-eq a b h = cc

ran-with_client :
    (w : Machine) (c : Client) (run : Client → Exit) (p : Configuration × Client)
    → ran (with_client w (constructed w.curl_init c) run) ≡ some p
    → (ran (run c) ≡ some p) × (w.is_available c ≡ true)
unfolding ran
ran-with_client w c run p h = elim (constructed-cases w.curl_init c) [
  | inr e ↦ absurd (ground (arith, rw (e, with_client) at h))
  | inl e ↦ elim (Bool-cases (w.is_available c)) [
    | inl t ↦ (rw (e, t, with_client) at h, t)
    | inr f ↦ absurd (ground (arith, rw (e, f, with_client) at h))
  ]
]

with_client-ready :
    (w : Machine) (c : Client) (run : Client → Exit)
    → w.curl_init ≡ true
    → w.is_available c ≡ true
    → with_client w (constructed w.curl_init c) run ≡ run c
with_client-ready w c run h k = rw (h, k, with_client) refl

debate-ready :
    (w : Machine) (opts : Options) (config : Configuration) (client : Client)
    → IsRunnable config
    → (result : DebateResult) × (debate w opts config client ≡ debated config client result)
      × (result.final_winner ≡ some 0)
      × (result.rounds_completed ≡ 0)
unfolding debate
debate-ready w opts config client r =
    let c = new_council config in
    let reports =
      debate_reports w.world opts.query config.rounds c config.models
        (omega (arith, r.two_models)) in
    let council = (initialize_analysts true config.models c).0 in
    (
      (run_debate w.world opts.query config.rounds council).1,
      rw reports.0 refl,
      reports.1,
      reports.2,
    )

modes-run :
    (w : Machine) (opts : Options) (config : Configuration) (client : Client)
    → IsRunnable config
    → ran (if opts.web_mode then serves config client else debate w opts config client)
      ≡ some (config, client)
unfolding ran debate
modes-run w opts config client r = elim (Bool-cases opts.web_mode) [
  | inl t ↦ rw t refl
  | inr f ↦ let (result, e, _, _) = debate-ready w opts config client r in rw f (rw e refl)
]

-- What is known of a configuration and a client that a run comes to.
abbrev pub HasPassed : Machine → Configuration × Client → Type 0
HasPassed w (config, client) =
    IsRunnable config
    × Delivers (provider_config config) 120 client
    × (w.is_available client ≡ true)

start-HasPassed :
    (w : Machine) (opts : Options) (config : Configuration) (p : Configuration × Client)
    → IsRunnable config
    → with_endpoint config ≡ config
    → ran (start w opts config) ≡ some p
    → HasPassed w p
start-HasPassed w opts config p r e h =
    let (client, delivers, runs) = start-runs w opts config r e in
    let (ends, available) =
      ran-with_client w client
        (λ c. if opts.web_mode then serves config c else debate w opts config c) p
        (ap ran (sym runs) ∙ h) in
    let same = some-eq (config, client) p (sym (modes-run w opts config client r) ∙ ends) in
    subst (HasPassed w) same (r, delivers, available)

configure-HasPassed :
    (w : Machine) (opts : Options) (loaded : Option Configuration) (p : Configuration × Client)
    → ran (configure w opts loaded) ≡ some p
    → HasPassed w p
unfolding configure ran
configure-HasPassed w opts none p h = absurd (ground (arith, h))
configure-HasPassed w opts (some loaded) p h =
    let config = apply_defaults (override opts loaded) in
    elim (Option-cases (validate config)) [
      | inl e ↦
          start-HasPassed w opts config p (validate-IsRunnable config e)
            (with_endpoint-apply_defaults (override opts loaded)) (rw (e, configure) at h)
      | inr (m, e) ↦ absurd (ground (arith, rw (e, configure) at h))
    ]

Step-shapes :
    (s : Step) → ((opts : Options) × (s ≡ next opts)) ⊎ ((s ≡ stop) ⊎ ((s ≡ raise) ⊎ (s ≡ no_fuel)))
Step-shapes (next opts) = inl (opts, refl)
Step-shapes stop = inr (inl refl)
Step-shapes raise = inr (inr (inl refl))
Step-shapes no_fuel = inr (inr (inr refl))

-- Whenever the program comes to its web server or to the end of a debate, the configuration that it
-- uses is a runnable one, and its client is of the configured provider, with the configured key or the
-- first endpoint, and answered when it was asked whether it is available.
pub main-HasPassed :
    (w : Machine) (args : List Text) (p : Configuration × Client)
    → ran (main w args) ≡ some p
    → HasPassed w p
unfolding main ran
main-HasPassed w args p h = elim (Step-shapes (parse_arguments args)) [
  | inl (opts, e) ↦
      configure-HasPassed w opts (load w.environment opts.config_path) p (rw (e, main) at h)
  | inr (inl e) ↦ absurd (ground (arith, rw (e, main) at h))
  | inr (inr (inl e)) ↦ absurd (ground (arith, rw (e, main) at h))
  | inr (inr (inr e)) ↦ absurd (ground (arith, rw (e, main) at h))
]

-- A run whose command line asks for a debate and whose configuration passes the validation after the
-- defaults ends with the debate's result and exit code 0, if libcurl gives a handle and the service
-- answers; the result always names analyst 0 as the winner and 0 rounds.
pub main-debates :
    (w : Machine) (args : List Text) (opts : Options) (loaded : Configuration)
    → parse_arguments args ≡ next opts
    → opts.web_mode ≡ false
    → load w.environment opts.config_path ≡ some loaded
    → validate (apply_defaults (override opts loaded)) ≡ none
    → w.curl_init ≡ true
    → ((c : Client) → w.is_available c ≡ true)
    → (client : Client) × (result : DebateResult) × (main w args
        ≡ debated (apply_defaults (override opts loaded)) client result)
      × (result.final_winner ≡ some 0)
      × (result.rounds_completed ≡ 0)
unfolding main configure
main-debates w args opts loaded parsed no_web read valid curl answers =
    let config = apply_defaults (override opts loaded) in
    let r = validate-IsRunnable config valid in
    let (client, _, runs) =
      start-runs w opts config r (with_endpoint-apply_defaults (override opts loaded)) in
    let (result, ended, wins, none_done) = debate-ready w opts config client r in
    let run : Client → Exit =
      λ c. if opts.web_mode then serves config c else debate w opts config c in
    let mode =
      ap (λ b. if b then serves config client else debate w opts config client) no_web ∙ ended in
    (
      client,
      result,
      rw (parsed, main)
          (rw (read, configure)
            (rw (valid, configure)
              (runs ∙ with_client-ready w client run curl (answers client) ∙ mode))),
      wins,
      none_done,
    )
