-- ===== src/Http/Pages.antt =====
-- The answers about jobs: the handlers of src/http/HttpServer.cpp that read the job store. The texts
-- of queries and outputs go into the JSON as they are.
use code_tribunal.Prelude.{
  ℕ, zero, suc, ◌*◌, ◌/◌, Bool, true, false, Option, none, some, List, [], ◌∷◌, ◌++◌, Text, text,
  find, map, if◌then◌else◌,
}
use code_tribunal.Prelude.Int.{ℤ, pos, negsuc, eqb_ℤ, show_ℤ}
use code_tribunal.Http.Request.{Response}
use code_tribunal.Http.Jobs.{AnalystData, ExecutionJob, JobStore, lookup_job, find_job}

abbrev pub json : ℕ → Text → Response
json code body = record { status_code = code; content_type = text "application/json"; body = body }

abbrev pub plain : ℕ → Text → Response
plain code body = record { status_code = code; content_type = text "text/plain"; body = body }

-- The texts with a separator between them.
unfoldable pub separated : Text → List Text → Text
separated sep [] = []
separated sep (t ∷ []) = t
separated sep (t ∷ t' ∷ ts) = t ++ (sep ++ separated sep (t' ∷ ts))

abbrev quoted : Text → Text
quoted t = b'"' ∷ (t ++ b'"' ∷ [])

unfoldable pub task_text : ℕ × ExecutionJob → Text
unfolding show_ℤ
task_text (id, job) =
    text "{\"id\":"
    ++ (show_ℤ (pos id)
        ++ (text ",\"query\":"
            ++ (quoted job.query
                ++ (text ",\"status\":"
                    ++ (show_ℤ job.status
                        ++ (text ",\"output\":"
                            ++ (quoted job.output
                                ++ (text ",\"duration\":"
                                    ++ (show_ℤ job.duration_ms ++ text "}")))))))))

unfoldable pub handle_tasks : JobStore → Response
unfolding task_text separated
handle_tasks s =
    json 200 (text "{\"tasks\":[" ++ (separated (text ",") (map task_text s.jobs) ++ text "]}"))

unfoldable pub status_response : ExecutionJob → Response
unfolding show_ℤ
status_response job =
    if eqb_ℤ job.job_id (negsuc 0)
    then json 404 (text "{\"error\":\"job not found\"}")
    else json 200 (
        text "{\"id\":"
        ++ (show_ℤ job.job_id
            ++ (text ",\"status\":"
                ++ (show_ℤ job.status
                    ++ (text ",\"query\":"
                        ++ (quoted job.query
                            ++ (text ",\"output\":"
                                ++ (quoted job.output
                                    ++ (text ",\"duration\":"
                                        ++ (show_ℤ job.duration_ms ++ text "}"))))))))))

unfoldable pub handle_query_status : ℤ → JobStore → Response
unfolding status_response find_job
handle_query_status job_id s = status_response (find_job job_id s)

abbrev pub line_of : Text → Text → Text
line_of name value = text "\"" ++ (name ++ (text "\": " ++ value))

abbrev boolean : Bool → Text
boolean true = text "true"
boolean false = text "false"

-- The fields that the history and its search share, up to the duration.
unfoldable pub entry_text : ExecutionJob → Text
unfolding show_ℤ
entry_text job =
    text "    {\n      "
    ++ (line_of (text "job_id") (show_ℤ job.job_id)
        ++ (text ",\n      "
            ++ (line_of (text "query") (quoted job.query)
                ++ (text ",\n      "
                    ++ (line_of (text "provider") (quoted job.provider)
                        ++ (text ",\n      "
                            ++ (line_of (text "status") (show_ℤ job.status)
                                ++ (text ",\n      "
                                    ++ line_of (text "duration_ms") (show_ℤ job.duration_ms)))))))))

unfoldable pub history_text : ExecutionJob → Text
unfolding entry_text
history_text job =
    entry_text job
    ++ (text ",\n      " ++ (line_of (text "success") (boolean job.success) ++ text "\n    }"))

unfoldable pub handle_history : JobStore → Response
unfolding history_text separated
handle_history s = json 200 (
    text "{\n  \"history\": [\n"
    ++ (separated (text ",\n") (map history_text s.query_history) ++ text "\n  ]\n}\n"))

abbrev is_found : Option ℕ → Bool
is_found none = false
is_found (some p) = true

-- The jobs whose query contains a text.
unfoldable pub matching : Text → List ExecutionJob → List ExecutionJob
matching search [] = []
matching search (job ∷ jobs) =
    let rest = matching search jobs in if is_found (find search job.query) then job ∷ rest else rest

unfoldable pub handle_history_search : Text → JobStore → Response
unfolding entry_text matching separated
handle_history_search search s = json 200 (
    text "{\n  \"results\": [\n"
    ++ (separated (text ",\n")
          (map (λ j. entry_text j ++ text "\n    }") (matching search s.query_history))
        ++ text "\n  ]\n}\n"))

-- The quotient of C++, rounded to zero, for a divisor above 0.
unfoldable pub percent : ℤ → ℤ → ℤ
percent (pos n) (pos (suc k)) = pos ((100 * n) / suc k)
percent (negsuc n) (pos (suc k)) = (elim ((100 * suc n) / suc k) [
  | zero ↦ pos 0
  | suc q ↦ negsuc q
])
percent n k = pos 0

abbrev job_not_found : Response
job_not_found = json 404 (text "{\"error\":\"job not found\"}")

-- The entry that an iterator finds, for an id of any sign.
unfoldable pub job_entry : ℤ → JobStore → Option ExecutionJob
unfolding lookup_job
job_entry (pos id) s = lookup_job id s.jobs
job_entry (negsuc id) s = none

unfoldable pub progress_text : ExecutionJob → Text
unfolding show_ℤ percent
progress_text job =
    text "{\n  "
    ++ (line_of (text "job_id") (show_ℤ job.job_id)
        ++ (text ",\n  "
            ++ (line_of (text "status") (show_ℤ job.status)
                ++ (text ",\n  "
                    ++ (line_of (text "current_round") (show_ℤ job.current_round)
                        ++ (text ",\n  "
                            ++ (line_of (text "total_rounds") (show_ℤ job.rounds)
                                ++ (text ",\n  "
                                    ++ (line_of (text "analyst_count") (show_ℤ job.analyst_count)
                                        ++ (text ",\n  "
                                            ++ (line_of (text "query") (quoted job.query)
                                                ++ (text ",\n  "
                                                    ++ (line_of (text "provider")
                                                          (quoted job.provider)
                                                        ++ (text ",\n  "
                                                            ++ (line_of (text "duration_ms")
                                                            (show_ℤ job.duration_ms)
                                                            ++ (text ",\n  "
                                                            ++ (line_of (text "progress_percent") (
                                                            show_ℤ
                                                            (percent job.current_round job.rounds))
                                                            ++ text "\n}\n")))))))))))))))))

unfoldable pub handle_debate_progress : ℤ → JobStore → Response
unfolding progress_text job_entry
handle_debate_progress job_id s = elim (job_entry job_id s) [
  | none ↦ job_not_found
  | some job ↦ json 200 (progress_text job)
]

unfoldable pub analyst_text : AnalystData → Text
unfolding show_ℤ
analyst_text a =
    text "    {\n      "
    ++ (line_of (text "id") (quoted a.id)
        ++ (text ",\n      "
            ++ (line_of (text "name") (quoted a.name)
                ++ (text ",\n      "
                    ++ (line_of (text "provider") (quoted a.model_provider)
                        ++ (text ",\n      "
                            ++ (line_of (text "confidence") (show_ℤ a.confidence)
                                ++ (text ",\n      "
                                    ++ (line_of (text "votes") (show_ℤ a.votes)
                                        ++ (text ",\n      "
                                            ++ (line_of (text "eliminated_round")
                                                  (show_ℤ a.eliminated_round)
                                                ++ (text ",\n      "
                                                    ++ (line_of (text "argument_strength")
                                                          a.argument_strength
                                                        ++ text "\n    }\n")))))))))))))

unfoldable pub visualization_text : ExecutionJob → Text
unfolding analyst_text separated show_ℤ
visualization_text job =
    text "{\n  "
    ++ (line_of (text "job_id") (show_ℤ job.job_id)
        ++ (text ",\n  "
            ++ (line_of (text "query") (quoted job.query)
                ++ (text ",\n  "
                    ++ (line_of (text "status") (show_ℤ job.status)
                        ++ (text ",\n  "
                            ++ (line_of (text "current_round") (show_ℤ job.current_round)
                                ++ (text ",\n  "
                                    ++ (line_of (text "total_rounds") (show_ℤ job.rounds)
                                        ++ (text ",\n  "
                                            ++ (line_of (text "provider") (quoted job.provider)
                                                ++ (text ",\n  "
                                                    ++ (line_of (text "duration_ms")
                                                          (show_ℤ job.duration_ms)
                                                        ++ (text ",\n  \"analysts\": [\n"
                                                            ++ (separated (text ",\n")
                                                            (map analyst_text job.analysts)
                                                            ++ text
                                                            "  ],\n  \"winner\": {\n    \"analyst_id\": \"analysis_pending\",\n    \"confidence\": 0\n  }\n}\n")))))))))))))))

unfoldable pub handle_debate_visualization : ℤ → JobStore → Response
unfolding visualization_text job_entry
handle_debate_visualization job_id s = elim (job_entry job_id s) [
  | none ↦ job_not_found
  | some job ↦ json 200 (visualization_text job)
]
