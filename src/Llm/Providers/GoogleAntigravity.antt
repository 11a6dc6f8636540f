-- ===== src/Llm/Providers/GoogleAntigravity.antt =====
-- src/llm/GoogleAntigravityClient.cpp: requests, answers, calls and the list of models.
use code_tribunal.Prelude.{
  Bool, false, not, Option, List, [], ◌∷◌, ◌++◌, Text, text, is_empty, to_string, if◌then◌else◌,
}
use code_tribunal.Core.Analyst.{Chunks, PromptRequest, PromptResponse}
use code_tribunal.Llm.Providers.{
  info_of, quoted_field, or_empty, no_response, error_response, Answer, answered, failed, Exchange,
  answer_of, chunks_of,
}

unfoldable pub available_models : Text → List Text
available_models model =
    if is_empty model
    then text "claude-3-5-sonnet-20241022"
      ∷ text "claude-3-opus-20240229"
      ∷ text "gpt-4-turbo"
      ∷ text "llama-3-70b"
      ∷ []
    else model ∷ []

unfoldable pub get_model_info : Text → Text → Option Text
unfolding info_of available_models
get_model_info own model = info_of (text "Google Antigravity model: ") (available_models own) model

unfoldable pub is_available : Text → Text → Bool
is_available api_key model = if is_empty api_key then false else not (is_empty model)

unfoldable pub build_request_payload : PromptRequest → Text
unfolding to_string
build_request_payload req =
    text "{\"model\":\""
    ++ (req.model
        ++ (text "\",\"max_tokens\":"
            ++ (to_string req.max_tokens
                ++ (text ",\"messages\":[{\"role\":\"user\",\"content\":\""
                    ++ (req.user_message ++ text "\"}]}")))))

unfoldable pub parse_response : Text → PromptResponse
unfolding quoted_field
parse_response s = record no_response {
  response_text = or_empty (quoted_field (text "\"content\":\"") s);
}

pub record GoogleAntigravityClient : Type 0 where
  pub api_key : Text
  pub endpoint : Text
  pub last_error : Text

-- libcurl, given the URL, the headers and the body of a POST.
module _ (perform : Text → List Text → Text → Exchange) where
  unfoldable pub make_request : GoogleAntigravityClient → Text → Text → Answer
  unfolding answer_of
  make_request c path payload =
      if is_empty c.api_key
      then failed (text "Google Antigravity API key not configured")
      else answer_of (text "Google Antigravity") (
          perform (c.endpoint ++ (path ++ (text "?key=" ++ c.api_key)))
            (text "Content-Type: application/json" ∷ []) payload)

  unfoldable pub query :
      GoogleAntigravityClient → PromptRequest → PromptResponse × GoogleAntigravityClient
  query c request =
      elim (make_request c (text "/chat/completions") (build_request_payload request)) [
        | answered response ↦ (parse_response response, c)
        | failed message ↦ (error_response message, record c { last_error = message })
      ]

  unfoldable pub query_streaming :
      GoogleAntigravityClient → PromptRequest → PromptResponse × Chunks × GoogleAntigravityClient
  query_streaming c request =
      let (response, c') = query c request in (response, chunks_of response, c')
