-- ===== src/Main/Examples.antt =====
-- The theorems on the program and on the choice of its client at concrete inputs.
use code_tribunal.Prelude.{
  ◌≡◌, refl, inl, true, false, none, some, List, [], ◌∷◌, Text, text, find_char, arith,
}
use code_tribunal.Prelude.Int.{pos}
use code_tribunal.Core.Types.{Configuration, default_configuration}
use code_tribunal.Core.Analyst.{returns}
use code_tribunal.Core.ConfigParser.{load, project_of}
use code_tribunal.Core.ConfigValidator.{
  apply_defaults, get_validation_errors, validate, is_ollama_url,
}
use code_tribunal.Core.Council.{DebateResult}
use code_tribunal.Llm.Factory.{Client, ollama, provider_config, create_from_config}
use code_tribunal.Llm.Factory.Choice.{Delivers, constructed, create_from_config-IsRunnable}
use code_tribunal.Main.{Options, no_options, parse_arguments, override, Machine, debated, main}
use code_tribunal.Main.Outcome.{ran, HasPassed, main-HasPassed, main-debates}

abbrev machine : Machine
machine = record {
  environment = record { getenv = λ n. none; read_file = λ p. none; gcloud_output = none };
  getenv = λ n. none;
  curl_init = true;
  is_available = λ c. true;
  world = record {
    clients = λ round i prompt.
        returns (record {
          response_text = text "ok";
          tokens_used = pos 1;
          truncated = false;
          error = [];
        });
    schedules = λ round. [];
  };
}

abbrev arguments : List Text
arguments = text "--models" ∷ text "llama3.2,mistral" ∷ text "Any bug?" ∷ []

abbrev two_models : List Text
two_models = text "llama3.2" ∷ text "mistral" ∷ []

abbrev options : Options
options = record no_options { models = two_models; query = text "Any bug?" }

abbrev config : Configuration
config = record default_configuration {
  models = two_models;
  ollama_urls = text "http://localhost:11434" ∷ [];
  google_agy_model = text "claude-3-5-sonnet-20241022";
}

main-debates_example :
    (client : Client) × (result : DebateResult) × (main machine arguments
      ≡ debated (apply_defaults (override options default_configuration)) client result)
    × (result.final_winner ≡ some 0)
    × (result.rounds_completed ≡ 0)
unfolding parse_arguments load override apply_defaults validate get_validation_errors find_char
    project_of
main-debates_example =
    main-debates machine arguments options default_configuration refl refl refl refl refl
      (λ c. refl)

main-HasPassed_example : HasPassed machine (config, ollama (text "http://localhost:11434") 120)
unfolding main ran find_char project_of
main-HasPassed_example =
    main-HasPassed machine (text "--models" ∷ text "llama3.2,mistral" ∷ text "--web" ∷ [])
      (config, ollama (text "http://localhost:11434") 120) refl

create_from_config-IsRunnable_example :
    (client : Client) × (create_from_config true (λ n. none) (provider_config config) 120
      ≡ constructed true client)
    × Delivers (provider_config config) 120 client
unfolding is_ollama_url
create_from_config-IsRunnable_example =
    create_from_config-IsRunnable true (λ n. none) config 120
      (record {
        provider = inl (refl, (refl, tt));
        at_least_one = omega arith;
        at_most_twenty = omega arith;
        two_models = omega arith;
      })
