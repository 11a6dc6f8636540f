-- ===== src/Llm/Providers/Ollama.antt =====
-- src/llm/OllamaClient.cpp: requests, answers, the list of models and the calls over one handle of libcurl.
pub mod Names
pub mod Handle
use mathlib.Core.Option
use code_tribunal.Prelude.{
  ℕ, zero, suc, ◌+◌, ◌/◌, ◌%◌, Bool, true, false, ◌==◌, not, ltb, Option, none, some, List, [], ◌∷◌,
  ◌++◌, Text, text, text_eq, find, find_char, take, drop, length, is_empty, to_string,
  if◌then◌else◌,
}
use code_tribunal.Prelude.Int.{ℤ, pos, negsuc}
use code_tribunal.Prelude.Stoi.{stoi}
use code_tribunal.Core.Analyst.{Chunks, PromptRequest, PromptResponse}
use code_tribunal.Llm.Providers.{
  quoted_field, or_empty, info_of, no_response, error_response, Answer, answered, failed,
}

-- A temperature in tenths, as a stream prints it.
abbrev tenths : ℕ → Text
tenths t =
    if t % 10 == 0 then to_string (t / 10) else to_string (t / 10) ++ (b'.' ∷ to_string (t % 10))

unfoldable pub build_request_json : PromptRequest → Text
unfolding to_string
build_request_json req =
    text "{\"model\":\""
    ++ (req.model
        ++ (text "\",\"stream\":false,\"messages\":[{\"role\":\"system\",\"content\":\""
            ++ (req.system_prompt
                ++ (text "\"},{\"role\":\"user\",\"content\":\""
                    ++ (req.user_message
                        ++ (text "\"}],\"options\":{\"temperature\":"
                            ++ (tenths req.temperature_tenths
                                ++ (text ",\"num_predict\":"
                                    ++ (to_string req.max_tokens ++ text "}}")))))))))

unfoldable pub parse_response_json : Text → Text
unfolding quoted_field
parse_response_json s = or_empty (quoted_field (text "\"content\":\"") s)

-- The loop over the names, on the text from `pos` on. `none`: the fuel ran out. Without a closing
-- mark the search goes on behind the pattern.
unfoldable pub names_from : ℕ → Text → Option (List Text)
names_from zero s = none
names_from (suc fuel) s = elim (find (text "\"name\":\"") s) [
  | none ↦ some []
  | some p ↦ elim (find_char b'"' (drop (p + 8) s)) [
    | none ↦ names_from fuel (drop (p + 8) s)
    | some e ↦ elim (names_from fuel (drop (suc e) (drop (p + 8) s))) [
      | none ↦ none
      | some names ↦ some (take e (drop (p + 8) s) ∷ names)
    ]
  ]
]

-- The models in the answer of the service.
unfoldable pub available_models : Text → Option (List Text)
unfolding names_from
available_models response = names_from (suc (length response)) response

-- `posted` tells whether the handle has been given the body of a POST. The option keeps the address of
-- that body, which libcurl does not copy: the text is freed at the end of the call that made it, and
-- nothing resets the option.
pub record OllamaClient : Type 0 where
  pub base_url : Text
  pub last_error : Text
  pub posted : Bool

-- libcurl, given the URL and the body of a POST (`none`: a GET): the response, or the text of its error.
module _ (perform : Text → Option Text → Answer) where
  -- The request with the body that is set, if any; the body is not empty.
  unfoldable pub request_with : OllamaClient → Text → Option Text → Bool → Answer × OllamaClient
  request_with c endpoint body posted = elim (perform (c.base_url ++ endpoint) body) [
    | answered response ↦ (answered response, record c { posted = posted })
    | failed error ↦
        let message = text "curl error: " ++ error in
        (failed message, record c { posted = posted; last_error = message })
  ]

  -- `none`: without a body of its own, the request posts the freed memory of an earlier one, whose
  -- content nothing determines.
  unfoldable pub make_request : OllamaClient → Text → Text → Option (Answer × OllamaClient)
  unfolding request_with
  make_request c endpoint payload =
      if is_empty payload
      then if c.posted then none else some (request_with c endpoint none false)
      else some (request_with c endpoint (some payload) true)

  unfoldable pub response_of : Answer × OllamaClient → PromptResponse × OllamaClient
  unfolding parse_response_json
  response_of (answered response, c) =
      (record no_response { response_text = parse_response_json response }, c)
  response_of (failed message, c) = (error_response message, c)

  unfoldable pub query : OllamaClient → PromptRequest → Option (PromptResponse × OllamaClient)
  unfolding make_request response_of
  query c request =
      Option.map response_of (make_request c (text "/api/chat") (build_request_json request))

  -- `make_request` does nothing with the callback that it is handed.
  unfoldable pub query_streaming :
      OllamaClient → PromptRequest → Option (PromptResponse × Chunks × OllamaClient)
  unfolding query
  query_streaming c request = Option.map (λ r. (r.0, [], r.1)) (query c request)

  -- The names in a response that came, or an empty list. The inner `none`: the fuel ran out.
  unfoldable pub models_of : Answer × OllamaClient → Option (List Text) × OllamaClient
  models_of (answered response, c) = (available_models response, c)
  models_of (failed message, c) = (some [], record c { last_error = message })

  unfoldable pub ask_models : OllamaClient → Option (Option (List Text) × OllamaClient)
  unfolding make_request models_of
  ask_models c = Option.map models_of (make_request c (text "/api/tags") [])

  unfoldable pub info_from : Answer × OllamaClient → Option Text × OllamaClient
  info_from (answered response, c) = (if is_empty response then none else some response, c)
  info_from (failed message, c) = (none, record c { last_error = message })

  unfoldable pub get_model_info : OllamaClient → Text → Option (Option Text × OllamaClient)
  unfolding make_request info_from
  get_model_info c model =
      Option.map info_from
        (make_request c (text "/api/show") (text "{\"model\":\"" ++ (model ++ text "\"}")))

  -- Is there a response that is not empty?
  abbrev pub has_response : Answer → Bool
  has_response (answered response) = not (is_empty response)
  has_response (failed message) = false

  unfoldable pub is_available : OllamaClient → Option (Bool × OllamaClient)
  unfolding make_request
  is_available c = Option.map (λ r. (has_response r.0, r.1)) (make_request c (text "/api/tags") [])
