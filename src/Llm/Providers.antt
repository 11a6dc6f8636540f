-- ===== src/Llm/Providers.antt =====
-- The clients of src/llm for one service each: the texts that they send and read, and their calls over
-- libcurl, which is a parameter. Here is what the clients share.
pub mod Ollama
pub mod Claude
pub mod GoogleAntigravity
pub mod Errors
use mathlib.Core.Option
use code_tribunal.Prelude.{
  ℕ, zero, suc, ◌+◌, ◌/◌, ◌%◌, Bool, true, false, ◌==◌, not, ltb, Option, none, some, List, [], ◌∷◌,
  ◌++◌, Text, text, text_eq, find, find_char, take, drop, length, is_empty, to_string,
  if◌then◌else◌,
}
use code_tribunal.Prelude.Int.{ℤ, pos, negsuc}
use code_tribunal.Prelude.Stoi.{stoi}
use code_tribunal.Core.Analyst.{Chunks, PromptRequest, PromptResponse}

-- The text after a pattern up to the next quotation mark. `none`: the pattern or the mark is missing.
unfoldable pub quoted_field : Text → Text → Option Text
quoted_field pattern s = elim (find pattern s) [
  | none ↦ none
  | some p ↦
      (let rest = drop (p + length pattern) s in
        Option.map (λ e. take e rest) (find_char b'"' rest))
]

abbrev pub or_empty : Option Text → Text
or_empty none = []
or_empty (some t) = t

-- The answer for a model that is in the list.
unfoldable pub info_of : Text → List Text → Text → Option Text
unfolding text_eq
info_of label [] model = none
info_of label (m ∷ models) model =
    let rest = info_of label models model in if text_eq m model then some (label ++ model) else rest

abbrev pub no_response : PromptResponse
no_response = record { response_text = []; tokens_used = pos 0; truncated = false; error = [] }

-- What `make_request` gives: the response, or the message of its exception.
pub data Answer : Type 0 where
  answered : Text → Answer
  failed : Text → Answer

-- What libcurl gives: no handle, the text of an error, or a status and a body.
pub data Exchange : Type 0 where
  no_handle : Exchange
  curl_error : Text → Exchange
  status : ℕ → Text → Exchange

-- The end of `make_request` of the clients for Claude and Google, for a service of the given name.
unfoldable pub answer_of : Text → Exchange → Answer
unfolding to_string
answer_of service no_handle = failed (text "Failed to initialize CURL")
answer_of service (curl_error message) = failed (text "CURL error: " ++ message)
answer_of service (status code response) =
    if code == 200
    then answered response
    else failed
        (service ++ (text " API returned HTTP " ++ (to_string code ++ (text ": " ++ response))))

abbrev pub error_response : Text → PromptResponse
error_response message = record no_response { error = message }

-- Streaming of a client that asks as a whole: the callback gets the text if there is no error.
unfoldable pub chunks_of : PromptResponse → Chunks
chunks_of r = if is_empty r.error then (r.response_text, true) ∷ [] else []
