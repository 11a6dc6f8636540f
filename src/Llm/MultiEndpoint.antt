-- ===== src/Llm/MultiEndpoint.antt =====
-- The client over several Ollama endpoints: src/llm/MultiEndpointOllamaClient.h and
-- MultiEndpointOllamaClient.cpp. The client of an endpoint is a parameter, a function from a request to
-- a reply or to the exception that its call throws; so is its streaming call, which
-- also gives what it hands the callback.
pub mod RoundRobin
pub mod Streaming
pub mod Primary
use code_tribunal.Prelude.{
  ℕ, zero, suc, ◌+◌, ◌-◌, ◌%◌, Bool, true, false, ◌||◌, ltb, leb, ◌==◌, Option, none, some, List,
  [], ◌∷◌, Text, text, length, get_elem?, is_empty, if◌then◌else◌,
}
use code_tribunal.Prelude.Int.{ℤ, pos, negsuc}
use code_tribunal.Core.Analyst.{
  Chunks, PromptRequest, PromptResponse, Reply, returns, throws, LlmClient,
}

pub record MultiEndpointOllamaClient : Type 0 where
  pub clients : List LlmClient
  pub endpoint_count : ℕ
  pub query_count : ℤ
  pub last_error : Text

-- `connect` makes the client of a URL.
unfoldable pub connect_all : (Text → LlmClient) → List Text → List LlmClient
connect_all connect [] = []
connect_all connect (url ∷ urls) = connect url ∷ connect_all connect urls

unfoldable pub new_client : (Text → LlmClient) → List Text → MultiEndpointOllamaClient
unfolding connect_all
new_client connect [] = record {
  clients = connect (text "http://localhost:11434") ∷ [];
  endpoint_count = 1;
  query_count = pos 0;
  last_error = [];
}
new_client connect (url ∷ urls) = record {
  clients = connect_all connect (url ∷ urls);
  endpoint_count = length (url ∷ urls);
  query_count = pos 0;
  last_error = [];
}

-- `++` of an atomic 32-bit `int`: it wraps around.
unfoldable pub increment : ℤ → ℤ
increment (pos n) = if n == 2147483647 then negsuc 2147483647 else pos (suc n)
increment (negsuc zero) = pos 0
increment (negsuc (suc n)) = negsuc n

-- `-n` for a natural number.
abbrev pub minus : ℕ → ℤ
minus zero = pos 0
minus (suc n) = negsuc n

-- `%` of C++, whose result has the sign of the dividend.
unfoldable pub remainder : ℤ → ℕ → ℤ
remainder (pos n) k = pos (n % k)
remainder (negsuc n) k = minus (suc n % k)

-- The index and the client with its counter increased.
unfoldable pub select_endpoint : MultiEndpointOllamaClient → ℤ × MultiEndpointOllamaClient
unfolding increment remainder
select_endpoint c = (
  remainder (c.query_count) (c.endpoint_count),
  record c { query_count = increment (c.query_count) },
)

-- A null pointer is `none`.
unfoldable pub get_client : MultiEndpointOllamaClient → ℤ → Option LlmClient
get_client c (pos i) = get_elem? (c.clients) i
get_client c (negsuc i) = none

abbrev pub error_response : Text → PromptResponse
error_response message = record {
  response_text = [];
  tokens_used = pos 0;
  truncated = false;
  error = message;
}

unfoldable pub deliver :
    MultiEndpointOllamaClient → Reply → PromptResponse × MultiEndpointOllamaClient
deliver c (returns r) = (r, c)
deliver c (throws message) = (error_response message, record c { last_error = message })

unfoldable pub ask :
    Option LlmClient
    → MultiEndpointOllamaClient
    → PromptRequest
    → PromptResponse × MultiEndpointOllamaClient
unfolding deliver
ask none c request = (error_response (text "Invalid endpoint selection"), c)
ask (some client) c request = deliver c (client request)

unfoldable pub query :
    MultiEndpointOllamaClient → PromptRequest → PromptResponse × MultiEndpointOllamaClient
unfolding select_endpoint get_client ask
query c request =
    let (index, c') = select_endpoint c in
    let answer = ask (get_client c' index) c' request in
    if (c.endpoint_count == 0) || is_empty (c.clients)
    then (error_response (text "No Ollama endpoints configured"), c)
    else answer

unfoldable pub ask_streaming :
    (LlmClient → PromptRequest → Reply × Chunks)
    → Option LlmClient
    → MultiEndpointOllamaClient
    → PromptRequest
    → PromptResponse × Chunks × MultiEndpointOllamaClient
unfolding deliver
ask_streaming stream none c request = (error_response (text "Invalid endpoint selection"), [], c)
ask_streaming stream (some client) c request =
    let (reply, chunks) = stream client request in
    let (response, c') = deliver c reply in (response, chunks, c')

unfoldable pub query_streaming :
    (LlmClient → PromptRequest → Reply × Chunks)
    → MultiEndpointOllamaClient
    → PromptRequest
    → PromptResponse × Chunks × MultiEndpointOllamaClient
query_streaming stream c request =
    let (index, c') = select_endpoint c in
    let answer = ask_streaming stream (get_client c' index) c' request in
    if (c.endpoint_count == 0) || is_empty (c.clients)
    then (error_response (text "No Ollama endpoints configured"), [], c)
    else answer
