-- ===== src/Llm/Providers/Ollama/Handle.antt =====
-- What the handle of libcurl keeps between the calls of src/llm/OllamaClient.cpp.
use mathlib.Core.Option
use code_tribunal.Prelude.{Bool, true, false, Option}
use code_tribunal.Llm.Providers.{Answer, answered, failed}

-- Is it an error that the reply tells?
abbrev pub is_answered : Answer → Bool
is_answered (answered response) = true
is_answered (failed error) = false
