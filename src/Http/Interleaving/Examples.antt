-- ===== src/Http/Interleaving/Examples.antt =====
-- The theorems on the loop of the web server and on the threads of its queries at concrete inputs.
use code_tribunal.Prelude.{◌≡◌, refl, true, false, none, [], ◌∷◌, Text, text, List}
use code_tribunal.Prelude.Int.{pos}
use code_tribunal.Core.Types.{Configuration, default_configuration}
use code_tribunal.Core.Analyst.{returns}
use code_tribunal.Core.Council.{DebateResult, Council, World}
use code_tribunal.Util.Metrics.Sample.{whole, no_metrics}
use code_tribunal.Http.Server.{new_server}
use code_tribunal.Http.Execution.{Surroundings}
use code_tribunal.Http.Loop.{
  LoopEvent, connection, thread, serve_connections, StoreKept, serve_connections-IsConsistent,
}
use code_tribunal.Http.Interleaving.{Query, waiting, debating, finished, turn, turn-overtaken}

abbrev models : List Text
models = text "llama3.2" ∷ text "mistral" ∷ []

abbrev config : Configuration
config = record default_configuration { models = models }

abbrev world : World
world = record {
  clients = λ round i prompt.
      returns
        (record { response_text = text "ok"; tokens_used = pos 1; truncated = false; error = [] });
  schedules = λ round. [];
}

abbrev review : Query
review = record { prompt = text "Any bug?"; rounds = pos 2; world = world }

abbrev council : Council
council = record { config = config; pool = none; has_client = false; voting_system = none }

turn-overtaken_example :
    (r : DebateResult) × ((turn models review
        (debating 0 2)
        (turn models review waiting council).1).0
      ≡ finished r)
    × (r.winner_responses ≡ [])
turn-overtaken_example = turn-overtaken models review review 2 council refl

abbrev around : Surroundings
around = record {
  getenv = λ name. none;
  curl_init = true;
  world = world;
  hash = λ t. 7;
  elapsed_ms = 25;
  end_time = 12;
}

abbrev events : List LoopEvent
events =
    connection 1 1000
      (text "POST /api/query HTTP/1.1\r\nContent-Length: 20\r\n\r\n{\"query\":\"Any bug?\"}")
    ∷ thread 0 around
    ∷ connection 9 9000 (text "GET /api/history HTTP/1.1\r\n\r\n")
    ∷ []

serve_connections-IsConsistent_example :
    StoreKept whole
      (serve_connections whole (text "<html>") events (new_server whole config no_metrics))
serve_connections-IsConsistent_example =
    serve_connections-IsConsistent whole (text "<html>") events config no_metrics
