-- ===== src/Llm/MultiEndpoint/Primary.antt =====
-- The calls of src/llm/MultiEndpointOllamaClient.cpp that go to the primary endpoint. What that
-- endpoint does in the call is an argument: a value, or the message of an exception.
use code_tribunal.Prelude.{
  Bool, false, ◌||◌, ◌==◌, Option, none, some, List, [], ◌∷◌, Text, text, is_empty, if◌then◌else◌,
}
use code_tribunal.Prelude.Int.{pos}
use code_tribunal.Core.Analyst.{LlmClient}
use code_tribunal.Llm.MultiEndpoint.{MultiEndpointOllamaClient, get_client}

-- The end of a call of a client.
pub data Called {ℓ} (A : Type ℓ) : Type ℓ where
  answers : A → Called A
  fails : Text → Called A

abbrev take_answer {ℓ} :
    {A : Type ℓ} → A → Called A → MultiEndpointOllamaClient → A × MultiEndpointOllamaClient
take_answer default (answers a) c = (a, c)
take_answer default (fails message) c = (default, record c { last_error = message })

-- The guards that the calls share, and the default that they give without an endpoint.
unfoldable pub ask_primary {ℓ} :
    {A : Type ℓ}
    → A
    → (LlmClient → Called A)
    → MultiEndpointOllamaClient
    → A × MultiEndpointOllamaClient
unfolding get_client
ask_primary default ask c =
    if (c.endpoint_count == 0) || is_empty c.clients
    then (default, c)
    else elim (get_client c (pos 0)) [
      | none ↦ (default, c)
      | some primary ↦ take_answer default (ask primary) c
    ]

unfoldable pub available_models :
    (LlmClient → Called (List Text))
    → MultiEndpointOllamaClient
    → List Text × MultiEndpointOllamaClient
unfolding ask_primary
available_models ask c = ask_primary [] ask c

unfoldable pub get_model_info :
    (LlmClient → Called (Option Text))
    → MultiEndpointOllamaClient
    → Option Text × MultiEndpointOllamaClient
unfolding ask_primary
get_model_info ask c = ask_primary none ask c

-- This call keeps no error.
unfoldable pub is_available : (LlmClient → Called Bool) → MultiEndpointOllamaClient → Bool
unfolding ask_primary
is_available ask c = (ask_primary false ask c).0

-- One label for each endpoint; the clients do not tell their URLs.
unfoldable pub label_all : List LlmClient → List Text
label_all [] = []
label_all (client ∷ clients) = text "(endpoint)" ∷ label_all clients

unfoldable pub get_endpoint_urls : MultiEndpointOllamaClient → List Text
unfolding label_all
get_endpoint_urls c = label_all c.clients
