-- ===== src/Http/Examples.antt =====
-- The theorems on the web server at concrete inputs.
use code_tribunal.Prelude.{
  ◌==◌, ◌≡◌, refl, true, false, none, List, [], ◌∷◌, ◌++◌, Text, text, text_eq, arith,
}
use code_tribunal.Prelude.Int.{pos}
use code_tribunal.Prelude.Stoi.{is_space, stoi}
use code_tribunal.Prelude.Search.{none_of-All}
use code_tribunal.Core.Types.{Configuration, default_configuration}
use code_tribunal.Core.Analyst.{returns}
use code_tribunal.Core.Council.{World}
use code_tribunal.Util.Metrics.Sample.{whole, no_metrics}
use code_tribunal.Http.Request.{length_header, request, parse_request}
use code_tribunal.Http.Request.Lines.{IsHeader, rendered}
use code_tribunal.Http.Request.Message.{message}
use code_tribunal.Http.Request.RoundTrip.{post_line, parse_request-message}
use code_tribunal.Http.Jobs.{new_job, JobStore, no_jobs}
use code_tribunal.Http.Jobs.Store.{StoreCall, allocate, update}
use code_tribunal.Http.Routes.{Route, route}
use code_tribunal.Http.Routes.Reach.{IsLive, route-IsLive}
use code_tribunal.Http.Server.{HttpServer, crashed, blocked, serve, handle_request}
use code_tribunal.Http.Server.Failures.{handle_request-crashed, serve-blocked}
use code_tribunal.Http.Execution.{Surroundings}

abbrev config : Configuration
config = record default_configuration { models = text "llama3.2" ∷ text "mistral" ∷ [] }

abbrev server : HttpServer whole
server = record {
  config = config;
  council = record { config = config; pool = none; has_client = false; voting_system = none };
  store = no_jobs;
  debates = no_metrics;
  threads = [];
}

abbrev world : World
world = record {
  clients = λ round i prompt.
      returns
        (record { response_text = text "ok"; tokens_used = pos 1; truncated = false; error = [] });
  schedules = λ round. [];
}

abbrev around : Surroundings
around = record {
  getenv = λ name. none;
  curl_init = true;
  world = world;
  hash = λ t. 7;
  elapsed_ms = 25;
  end_time = 12;
}

abbrev body_text : Text
body_text = text "{\"query\":\"Any bug?\"}"

host-IsHeader : IsHeader (text "Host: localhost")
unfolding text_eq
host-IsHeader = record {
  one_line = none_of-All (λ c. c == 10) (text "Host: localhost") refl;
  filled = refl;
  other = refl;
}

parse_request-message_example :
    parse_request (
      post_line (text "/api/query") (text "HTTP/1.1")
      ++ 13 ∷ 10 ∷ message (text "Host: localhost" ∷ []) 20 [] body_text)
    ≡ request (text "POST") (text "/api/query") body_text
unfolding is_space
parse_request-message_example =
    parse_request-message (text "/api/query") (text "HTTP/1.1") (text "Host: localhost" ∷ []) []
      body_text (refl, none_of-All is_space (text "/api/query") refl)
      (none_of-All (λ c. c == 10) (text "HTTP/1.1") refl) (host-IsHeader, tt) tt (omega arith)

route-IsLive_example : IsLive (route (text "GET") (text "/api/history/search?q=bug") [])
route-IsLive_example = route-IsLive (text "GET") (text "/api/history/search?q=bug") []

abbrev calls : List StoreCall
calls = allocate config 3 (text "a") ∷ update 5 (pos 1) (text "done") (pos 1) ∷ []

abbrev one_job : JobStore
one_job = record {
  jobs = (1, record new_job { job_id = pos 1; query = text "a" }) ∷ [];
  next_job_id = 2;
  query_history = record new_job { job_id = pos 1; query = text "a" } ∷ [];
}

handle_request-crashed_example :
    handle_request whole [] 0 0
      (post_line (text "/") (text "HTTP/1.1")
        ++ 13 ∷ 10 ∷ rendered [] ((length_header ++ text "many") ++ 13 ∷ 10 ∷ []))
      server
    ≡ crashed
unfolding is_space stoi
handle_request-crashed_example =
    handle_request-crashed whole [] 0 0 server (text "/") (text "HTTP/1.1") [] (text "many") []
      (refl, none_of-All is_space (text "/") refl)
      (none_of-All (λ c. c == 10) (text "HTTP/1.1") refl) tt
      (none_of-All (λ c. c == 10) (text "many") refl) refl

serve-blocked_example :
    (serve whole [] 0 0 Route.metrics server ≡ blocked)
    × (serve whole [] 0 0 Route.stats server ≡ blocked)
serve-blocked_example = serve-blocked whole [] 0 0 server
