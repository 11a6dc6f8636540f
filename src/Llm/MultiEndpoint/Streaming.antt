-- ===== src/Llm/MultiEndpoint/Streaming.antt =====
-- The streaming query over several endpoints (src/llm/MultiEndpointOllamaClient.cpp) beside the plain one.
use code_tribunal.Prelude.{
  ◌≡◌, refl, ap, inl, inr, Bool-cases, ◌||◌, ◌==◌, Option, none, some, is_empty,
}
use code_tribunal.Core.Analyst.{Chunks, PromptRequest, Reply, LlmClient}
use code_tribunal.Llm.MultiEndpoint.{
  MultiEndpointOllamaClient, select_endpoint, get_client, deliver, ask, query, ask_streaming,
  query_streaming,
}

module _ (stream : LlmClient → PromptRequest → Reply × Chunks)
    (same_reply : (client : LlmClient) (request : PromptRequest)
      → (stream client request).0 ≡ client request) where
  ask_streaming-ask :
      (found : Option LlmClient) (c : MultiEndpointOllamaClient) (request : PromptRequest)
      → let (response, chunks, after) = ask_streaming stream found c request in
        (response ≡ (ask found c request).0) × (after ≡ (ask found c request).1)
  unfolding ask_streaming ask
  ask_streaming-ask none c request = (refl, refl)
  ask_streaming-ask (some client) c request =
      let same = same_reply client request in
      (ap (λ r. (deliver c r).0) same, ap (λ r. (deliver c r).1) same)

  -- If the streaming call of every endpoint replies as its plain call does, then a streaming query replies
  -- as a query, from the same endpoint, and leaves the same client.
  pub query_streaming-query :
      (c : MultiEndpointOllamaClient) (request : PromptRequest)
      → let (response, chunks, after) = query_streaming stream c request in
        (response ≡ (query c request).0) × (after ≡ (query c request).1)
  unfolding query_streaming query
  query_streaming-query c request =
      elim (Bool-cases ((c.endpoint_count == 0) || is_empty c.clients)) [
        | inl none_there ↦ rw (query_streaming, query, none_there) (refl, refl)
        | inr some_there ↦
            let (index, c') = select_endpoint c in
            rw (query_streaming, query, some_there)
              (ask_streaming-ask (get_client c' index) c' request)
      ]
