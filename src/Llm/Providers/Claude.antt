-- ===== src/Llm/Providers/Claude.antt =====
-- src/llm/ClaudeClient.cpp: requests, answers, calls and the constant list of models.
use code_tribunal.Prelude.{
  ℕ, ◌+◌, Bool, not, Option, none, some, List, [], ◌∷◌, ◌++◌, Text, text, find, drop, is_empty,
  to_string, if◌then◌else◌,
}
use code_tribunal.Prelude.Int.{ℤ, pos, wrap_int, add_ℤ}
use code_tribunal.Prelude.Stoi.{stoi}
use code_tribunal.Core.Analyst.{Chunks, PromptRequest, PromptResponse}
use code_tribunal.Llm.Providers.{
  info_of, quoted_field, or_empty, no_response, error_response, Answer, answered, failed, Exchange,
  answer_of, chunks_of,
}

abbrev pub available_models : List Text
available_models =
    text "claude-3-opus-20240229"
    ∷ text "claude-3-sonnet-20240229"
    ∷ text "claude-3-haiku-20240307"
    ∷ text "claude-3-5-sonnet-20241022"
    ∷ []

unfoldable pub get_model_info : Text → Option Text
unfolding info_of
get_model_info model = info_of (text "Claude model: ") available_models model

-- Only the key is looked at, for the list of models is constant.
unfoldable pub is_available : Text → Bool
is_available api_key = not (is_empty api_key)

unfoldable pub build_messages_request : PromptRequest → Text
unfolding to_string
build_messages_request req =
    text "{\"model\":\""
    ++ (req.model
        ++ (text "\",\"max_tokens\":"
            ++ (to_string req.max_tokens
                ++ (text ",\"system\":\""
                    ++ (req.system_prompt
                        ++ (text "\",\"messages\":[{\"role\":\"user\",\"content\":\""
                            ++ (req.user_message ++ text "\"}]}")))))))

unfoldable pub int_at : ℕ → Text → Option ℤ
unfolding stoi
int_at n s = stoi 10 (drop n s)

-- The two numbers behind `"usage":`; `none` where one is missing or `std::stoi` throws.
unfoldable pub tokens_of : Text → Option ℤ
unfolding int_at
tokens_of usage = elim (find (text "\"input_tokens\":") usage) [
  | none ↦ none
  | some input_pos ↦ elim (find (text "\"output_tokens\":") usage) [
    | none ↦ none
    | some output_pos ↦ elim (int_at (input_pos + 15) usage) [
      | none ↦ none
      | some input_tokens ↦ elim (int_at (output_pos + 16) usage) [
        | none ↦ none
        | some output_tokens ↦ some (wrap_int (add_ℤ input_tokens output_tokens))
      ]
    ]
  ]
]

unfoldable pub parse_messages_response : Text → PromptResponse
unfolding quoted_field tokens_of
parse_messages_response response =
    let answer = or_empty (quoted_field (text "\"text\":\"") response) in
    let tokens = elim (find (text "\"usage\":") response) as (λ o. Option ℤ) [
      | none ↦ none
      | some usage_pos ↦ tokens_of (drop usage_pos response)
    ] in
    record no_response {
      response_text = answer;
      tokens_used = elim tokens [ none ↦ pos 0 | some n ↦ n ];
    }

pub record ClaudeClient : Type 0 where
  pub api_key : Text
  pub last_error : Text

-- libcurl, given the URL, the headers and the body of a POST.
module _ (perform : Text → List Text → Text → Exchange) where
  unfoldable pub make_request : ClaudeClient → Text → Text → Answer
  unfolding answer_of
  make_request c endpoint payload =
      if is_empty c.api_key
      then failed (text "Claude API key not configured")
      else answer_of (text "Claude") (
          perform (text "https://api.anthropic.com/v1" ++ endpoint)
            (text "Content-Type: application/json"
              ∷ (text "x-api-key: " ++ c.api_key)
              ∷ text "anthropic-version: 2023-06-01"
              ∷ [])
            payload)

  unfoldable pub query : ClaudeClient → PromptRequest → PromptResponse × ClaudeClient
  query c request = elim (make_request c (text "/messages") (build_messages_request request)) [
    | answered response ↦ (parse_messages_response response, c)
    | failed message ↦ (error_response message, record c { last_error = message })
  ]

  unfoldable pub query_streaming :
      ClaudeClient → PromptRequest → PromptResponse × Chunks × ClaudeClient
  query_streaming c request =
      let (response, c') = query c request in (response, chunks_of response, c')
