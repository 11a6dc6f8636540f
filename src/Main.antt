-- ===== src/Main.antt =====
-- The program: src/main.cpp, with its log lines and the text of its usage left out.
pub mod Commas
pub mod Arguments
pub mod Outcome
mod Examples
use Prim.Native.Nat.{suc}
use code_tribunal.Prelude.{
  ℕ, zero, ◌+◌, Bool, true, false, ◌&&◌, ◌||◌, ◌==◌, not, Option, none, some, List, [], ◌∷◌, ◌++◌,
  Text, text, text_eq, find_char, take, drop, length, is_empty, if◌then◌else◌,
}
use code_tribunal.Prelude.Int.{ℤ, pos, ltb_ℤ}
use code_tribunal.Prelude.Stoi.{stoi}
use code_tribunal.Core.Types.{Configuration}
use code_tribunal.Core.ConfigParser.{Environment, load}
use code_tribunal.Core.ConfigValidator.{apply_defaults, validate}
use code_tribunal.Core.Council.{
  DebateResult, Council, World, new_council, initialize_analysts, run_debate, get_election_history,
}
use code_tribunal.Llm.Factory.{
  Client, Created, created, invalid_argument, runtime_error, Getenv, provider_config,
  create_from_config,
}

pub record Options : Type 0 where
  pub config_path : Text
  pub ollama_urls : List Text
  pub rounds : ℤ
  pub models : List Text
  pub query : Text
  pub web_mode : Bool

abbrev pub no_options : Options
no_options = record {
  config_path = text "config/council.conf";
  ollama_urls = [];
  rounds = pos 0;
  models = [];
  query = [];
  web_mode = false;
}

-- The loop that cuts a text at its commas. `none`: the fuel ran out.
unfoldable pub split_from : ℕ → Text → Option (List Text)
split_from zero s = none
split_from (suc fuel) s = elim (find_char b',' s) [
  | none ↦ some (s ∷ [])
  | some end ↦ elim (split_from fuel (drop (suc end) s)) [
    | none ↦ none
    | some names ↦ some (take end s ∷ names)
  ]
]

-- Every name but the last takes a comma, so the characters bound the rounds.
unfoldable pub split_models : Text → Option (List Text)
unfolding split_from
split_models s = split_from (suc (length s)) s

-- What one argument does.
pub data Step : Type 0 where
  next : Options → Step
  -- The function returns false.
  stop : Step
  -- `std::stoi` throws.
  raise : Step
  no_fuel : Step

abbrev pub takes_value : Text → Bool
takes_value arg =
    text_eq arg (text "--config")
    || (text_eq arg (text "--ollama")
        || (text_eq arg (text "--rounds") || text_eq arg (text "--models")))

abbrev pub set_rounds : Options → Option ℤ → Step
set_rounds opts none = raise
set_rounds opts (some n) = next (record opts { rounds = n })

abbrev pub set_models : Options → Option (List Text) → Step
set_models opts none = no_fuel
set_models opts (some names) = next (record opts { models = names })

-- An option with its value.
unfoldable pub set_value : Text → Text → Options → Step
unfolding text_eq stoi split_models
set_value arg value opts =
    if text_eq arg (text "--config")
    then next (record opts { config_path = value })
    else if text_eq arg (text "--ollama")
    then next (record opts { ollama_urls = opts.ollama_urls ++ value ∷ [] })
    else if text_eq arg (text "--rounds")
    then set_rounds opts (stoi 10 value)
    else set_models opts (split_models value)

abbrev starts_with_dash : Text → Bool
starts_with_dash [] = false
starts_with_dash (c ∷ s) = c == b'-'

-- An argument alone.
unfoldable pub set_alone : Text → Options → Step
unfolding text_eq
set_alone arg opts =
    if text_eq arg (text "--web")
    then next (record opts { web_mode = true })
    else if text_eq arg (text "--help")
    then stop
    else if starts_with_dash arg
    then stop
    else next (record opts { query = arg })

-- The loop over the arguments after the name of the program. A step that does not go on is its end.
unfoldable pub parse_from : List Text → Options → Step
unfolding set_value set_alone text_eq
parse_from [] opts = next opts
parse_from (arg ∷ []) opts = set_alone arg opts
parse_from (arg ∷ value ∷ args) opts = elim (takes_value arg) [
  | true ↦ elim (set_value arg value opts) [
    | next opts' ↦ parse_from args opts'
    | stop ↦ stop
    | raise ↦ raise
    | no_fuel ↦ no_fuel
  ]
  | false ↦ elim (set_alone arg opts) [
    | next opts' ↦ parse_from (value ∷ args) opts'
    | stop ↦ stop
    | raise ↦ raise
    | no_fuel ↦ no_fuel
  ]
]

abbrev pub with_query : Step → Step
with_query (next opts) = if not opts.web_mode && is_empty opts.query then stop else next opts
with_query stop = stop
with_query raise = raise
with_query no_fuel = no_fuel

unfoldable pub parse_arguments : List Text → Step
unfolding parse_from
parse_arguments args = with_query (parse_from args no_options)

-- The settings of the command line over those of the file.
unfoldable pub override : Options → Configuration → Configuration
override opts config = record config {
  rounds = if ltb_ℤ (pos 0) opts.rounds then opts.rounds else config.rounds;
  models = if is_empty opts.models then config.models else opts.models;
  ollama_urls = if is_empty opts.ollama_urls then config.ollama_urls else opts.ollama_urls;
}

-- What the program meets outside: the system that the parser asks, `std::getenv`, whether libcurl
-- gives a handle, whether a service answers, and the clients and threads of a debate.
pub record Machine : Type 0 where
  pub environment : Environment
  pub getenv : Getenv
  pub curl_init : Bool
  pub is_available : Client → Bool
  pub world : World

pub data Exit : Type 0 where
  -- Exit code 1, with the reason.
  usage : Exit
  invalid : Text → Exit
  no_client : Text → Exit
  unavailable : Client → Exit
  no_analysts : Exit
  -- An exception leaves `main`.
  terminated : Exit
  out_of_fuel : Exit
  -- The web server starts.
  serves : Configuration → Client → Exit
  -- Exit code 0 after a debate.
  debated : Configuration → Client → DebateResult → Exit

-- The part of `main` that both modes have: a client that answers.
abbrev pub with_client : Machine → Created → (Client → Exit) → Exit
with_client w (invalid_argument message) run = no_client message
with_client w (runtime_error message) run = no_client message
with_client w (created c) run = if w.is_available c then run c else unavailable c

unfoldable pub debate : Machine → Options → Configuration → Client → Exit
unfolding initialize_analysts run_debate new_council
debate w opts config client =
    let (council, ready) = initialize_analysts true config.models (new_council config) in
    let result = (run_debate w.world opts.query config.rounds council).1 in
    if ready then debated config client result else no_analysts

-- Both modes name the default endpoint for Ollama if there is none.
abbrev pub with_endpoint : Configuration → Configuration
with_endpoint config =
    if text_eq config.api_type (text "ollama") && is_empty config.ollama_urls
    then record config { ollama_urls = text "http://localhost:11434" ∷ [] }
    else config

unfoldable pub start : Machine → Options → Configuration → Exit
unfolding create_from_config debate text_eq
start w opts config =
    let config' = with_endpoint config in
    with_client w (create_from_config w.curl_init w.getenv (provider_config config') 120)
      (λ c. if opts.web_mode then serves config' c else debate w opts config' c)

unfoldable pub configure : Machine → Options → Option Configuration → Exit
unfolding override apply_defaults validate start
configure w opts none = terminated
configure w opts (some loaded) =
    let config = apply_defaults (override opts loaded) in
    elim (validate config) [ some message ↦ invalid message | none ↦ start w opts config ]

unfoldable pub main : Machine → List Text → Exit
unfolding parse_arguments configure load
main w args = elim (parse_arguments args) [
  | next opts ↦ configure w opts (load w.environment opts.config_path)
  | stop ↦ usage
  | raise ↦ terminated
  | no_fuel ↦ out_of_fuel
]
