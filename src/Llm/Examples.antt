-- ===== src/Llm/Examples.antt =====
-- The theorems on the calls of the clients at concrete inputs.
use code_tribunal.Prelude.{false, Option, none, some, List, [], Text, text}
use code_tribunal.Core.Analyst.{PromptRequest}
use code_tribunal.Llm.Providers.{Answer, answered, failed, Exchange, status}
use code_tribunal.Llm.Providers.Claude
use code_tribunal.Llm.Providers.Claude.{ClaudeClient}
use code_tribunal.Llm.Providers.GoogleAntigravity
use code_tribunal.Llm.Providers.GoogleAntigravity.{GoogleAntigravityClient}
use code_tribunal.Llm.Providers.Ollama
use code_tribunal.Llm.Providers.Ollama.{OllamaClient}

abbrev question : PromptRequest
question = record {
  model = text "mistral";
  system_prompt = [];
  user_message = text "review";
  temperature_tenths = 7;
  max_tokens = 4096;
  stop_sequences = [];
}

abbrev busy : Text → List Text → Text → Exchange
busy url headers payload = status 429 (text "slow down")

abbrev claude_client : ClaudeClient
claude_client = record { api_key = text "key"; last_error = [] }

abbrev google_client : GoogleAntigravityClient
google_client = record {
  api_key = [];
  endpoint = text "https://agy.googleapis.com/v1beta1";
  last_error = [];
}

abbrev echo : Text → Option Text → Answer
echo url none = failed (text "refused")
echo url (some body) = answered body

abbrev local : OllamaClient
local = record { base_url = text "http://localhost:11434"; last_error = []; posted = false }
