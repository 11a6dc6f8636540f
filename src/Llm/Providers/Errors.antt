-- ===== src/Llm/Providers/Errors.antt =====
-- When a call of the clients in src/llm for Claude and Google is an error.
use code_tribunal.Prelude.{
  ◌≡◌, Bool, true, false, not, ◌&&◌, ◌==◌, List, [], ◌∷◌, ◌++◌, Text, text, is_empty, if◌then◌else◌,
}
use code_tribunal.Core.Analyst.{Chunks, PromptRequest, PromptResponse}
use code_tribunal.Llm.Providers.{Answer, answered, failed, Exchange, no_handle, curl_error, status}
use code_tribunal.Llm.Providers.Claude
use code_tribunal.Llm.Providers.Claude.{ClaudeClient}
use code_tribunal.Llm.Providers.GoogleAntigravity
use code_tribunal.Llm.Providers.GoogleAntigravity.{GoogleAntigravityClient}

-- Did the service answer with the status 200?
abbrev pub is_ok : Exchange → Bool
is_ok no_handle = false
is_ok (curl_error message) = false
is_ok (status code response) = code == 200

-- Is an answer a response, and is a failure told by a message?
abbrev pub IsTold : Bool → Answer → Type 0
IsTold ok (answered response) = ok ≡ true
IsTold ok (failed message) = (ok ≡ false) × (is_empty message ≡ false)

-- The reply to a call has no error exactly if the call succeeded, and a callback gets the text then.
abbrev pub ReportsError : Bool → PromptResponse → Chunks → Type 0
ReportsError ok r chunks =
    (is_empty r.error ≡ ok) × (chunks ≡ (if ok then (r.response_text, true) ∷ [] else []))

abbrev claude_headers : ClaudeClient → List Text
claude_headers c =
    text "Content-Type: application/json"
    ∷ (text "x-api-key: " ++ c.api_key)
    ∷ text "anthropic-version: 2023-06-01"
    ∷ []

module _ (perform : Text → List Text → Text → Exchange) (request : PromptRequest) where
  -- Does the call of the Claude client find a key and an answer of status 200?
  abbrev pub claude_succeeds : ClaudeClient → Bool
  claude_succeeds c =
      not (is_empty c.api_key)
      && is_ok (
          perform (text "https://api.anthropic.com/v1/messages") (claude_headers c)
            (Claude.build_messages_request request))

  -- The same for the client for Google.
  abbrev pub google_succeeds : GoogleAntigravityClient → Bool
  google_succeeds c =
      not (is_empty c.api_key)
      && is_ok (
          perform (c.endpoint ++ (text "/chat/completions" ++ (text "?key=" ++ c.api_key)))
            (text "Content-Type: application/json" ∷ [])
            (GoogleAntigravity.build_request_payload request))
