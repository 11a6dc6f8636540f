-- ===== src/Http/Server/Failures.antt =====
-- The requests that src/http/HttpServer.cpp does not survive.
use code_tribunal.Prelude.{
  ℕ, ◌≡◌, refl, none, List, [], ◌∷◌, ◌++◌, Text, text, find, starts_with, All, arith,
}
use code_tribunal.Prelude.Stoi.{stoi}
use code_tribunal.Prelude.Search.{IsFree}
use code_tribunal.Util.Metrics.{Reals}
use code_tribunal.Util.Metrics.Locking.{reports_blocked}
use code_tribunal.Http.Request.{throws, parse_request, getline, length_header}
use code_tribunal.Http.Request.Lines.{IsWord, IsHeader, rendered}
use code_tribunal.Http.Request.RoundTrip.{post_line, parse_request-throws}
use code_tribunal.Http.Routes.{Route, status_of, route}
use code_tribunal.Http.Statistics.{handle_metrics, handle_stats}
use code_tribunal.Http.Server.{HttpServer, crashed, blocked, serve, handle_request}

-- A GET request for the status of a job is routed by the number after `job_id=`: to the page of that
-- job, or, if it is no `int`, to an exception that nothing catches.
pub route-status :
    (value body : Text)
    → route (text "GET") (text "/api/query?job_id=" ++ value) body ≡ status_of (stoi 10 value)
unfolding route find starts_with
route-status value body = refl

module _ (R : Reals) (dashboard : Text) (now now_ms : ℕ) (s : HttpServer R) where
  dispatch_throws :
      (buffer : Text)
      → parse_request buffer ≡ throws
      → handle_request R dashboard now now_ms buffer s ≡ crashed
  unfolding handle_request parse_request getline
  dispatch_throws [] h = absurd (ground (arith, h))
  dispatch_throws (b ∷ buffer) h = rw (h, handle_request) refl

  -- One POST request with a content length that is no `int`, after any other headers, ends the server.
  pub handle_request-crashed :
      (path version : Text) (before : List Text) (value tail : Text)
      → IsWord path
      → IsFree 10 version
      → All IsHeader before
      → IsFree 10 value
      → stoi 10 (value ++ 13 ∷ []) ≡ none
      → handle_request R dashboard now now_ms
          (post_line path version
            ++ 13 ∷ 10 ∷ rendered before ((length_header ++ value) ++ 13 ∷ 10 ∷ tail))
          s
        ≡ crashed
  handle_request-crashed path version before value tail p v bs free bad =
      dispatch_throws _ (parse_request-throws path version before value tail p v bs free bad)

  -- The pages of the metrics never answer, whatever was recorded before: the server waits for its own
  -- lock, and serves nobody after that.
  pub serve-blocked :
      (serve R dashboard now now_ms Route.metrics s ≡ blocked)
      × (serve R dashboard now now_ms Route.stats s ≡ blocked)
  unfolding serve handle_metrics handle_stats
  serve-blocked = let never = reports_blocked R s.debates in (rw never.0 refl, rw never.1 refl)
