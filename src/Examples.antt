-- ===== src/Examples.antt =====
-- The theorems on the configuration, the storage, the clients and the classifier at
-- concrete inputs.
use code_tribunal.Prelude.{
  ◌≡◌, refl, Bool, true, false, Option, text_eq, if◌then◌else◌, none, some, [], ◌∷◌, Text, text,
  arith,
}
use code_tribunal.Prelude.Int.{pos}
use code_tribunal.Prelude.Stoi.{is_space, skip_spaces}
use code_tribunal.Core.Analyst.{PromptRequest, returns, LlmClient}
use code_tribunal.Core.ConfigParser.{trim_end, trim, parse_line, Environment}
use code_tribunal.Core.ConfigParser.Line.{IsKey, IsValue, starts_comment, parse_line-assignment}
use code_tribunal.Storage.Database.Queries.{ends_well, rows_of, first, query_one-query_all}
use code_tribunal.Storage.Database.{
  returned, query_one, query_all, Sqlite, Database, row, done, prepared,
}
use code_tribunal.Storage.Database.Transactions.{statement, do_commit, do_rollback, run_scope}
use code_tribunal.Storage.Database.Transactions.Active.{
  IsTransactional, active_on, run_scope-inactive,
}
use code_tribunal.Llm.MultiEndpoint.{MultiEndpointOllamaClient, new_client, query, error_response}
use code_tribunal.Llm.MultiEndpoint.RoundRobin.{answer_of, query-round_robin, query-wrapped}
use code_tribunal.Llm.MultiEndpoint.RoundRobin

abbrev reply : Text → LlmClient
reply url request =
    returns (record { response_text = url; tokens_used = pos 1; truncated = false; error = [] })

abbrev question : PromptRequest
question = record {
  model = text "mistral";
  system_prompt = [];
  user_message = text "review";
  temperature_tenths = 7;
  max_tokens = 4096;
  stop_sequences = [];
}

query-round_robin_example :
    (query
      (code_tribunal.Llm.MultiEndpoint.RoundRobin.query_all
        (new_client reply (text "a" ∷ text "b" ∷ []))
        (question ∷ question ∷ question ∷ []))
      question).0
    ≡ answer_of (reply (text "b") question)
query-round_robin_example =
    query-round_robin reply (text "a") (text "b" ∷ []) (question ∷ question ∷ question ∷ [])
      question (text "b") (omega arith) refl

-- A connection is the number of its statements.
-- A connection is whether a transaction is active.
abbrev exec : Bool → Text → Bool × Option Text
exec c sql =
    if text_eq sql (text "BEGIN TRANSACTION")
    then (true, none)
    else if text_eq sql (text "COMMIT")
    then (false, none)
    else if text_eq sql (text "ROLLBACK")
    then (false, none)
    else (c, none)

abbrev sqlite : Sqlite Bool
sqlite = record {
  open_path = λ path. false;
  open_error = λ path. none;
  exec = exec;
  exec_null = text "misuse";
  prepare = λ c sql. prepared (row (some (text "1") ∷ none ∷ []) done);
  after_steps = λ c sql n. c;
  last_insert_rowid = λ c. pos 0;
  get_changes = λ c. 1;
}

abbrev database : Database Bool
database = record { db = some false; last_error = []; in_transaction = false }

sqlite-IsTransactional : IsTransactional sqlite (λ c. c)
unfolding text_eq
sqlite-IsTransactional = record {
  begin_failed = λ c m e h. absurd (ground (arith, e));
  commit_ends = λ c e. refl;
  rollback_ends = λ c. refl;
}

run_scope-inactive_example :
    let d' = run_scope sqlite (statement (text "DELETE") ∷ do_commit ∷ do_rollback ∷ []) database in
    (d'.in_transaction ≡ false) × (active_on sqlite (λ c. c) d'.db ≡ false)
unfolding text_eq
run_scope-inactive_example =
    run_scope-inactive sqlite (λ c. c) sqlite-IsTransactional
      (statement (text "DELETE") ∷ do_commit ∷ do_rollback ∷ []) database (λ c h. h, (tt, (tt, tt)))
      refl refl

query_one-query_all_example :
    ((query_all sqlite database (text "SELECT")).1
      ≡ returned (rows_of sqlite (row (some (text "1") ∷ none ∷ []) done)))
    × ((query_one sqlite database (text "SELECT")).1
        ≡ returned (first sqlite (rows_of sqlite (row (some (text "1") ∷ none ∷ []) done))))
unfolding ends_well
query_one-query_all_example =
    query_one-query_all sqlite database false (text "SELECT")
      (row (some (text "1") ∷ none ∷ []) done) refl refl refl

abbrev key : Text
key = text "model"

key-IsKey : IsKey key
unfolding trim trim_end skip_spaces starts_comment
key-IsKey = record {
  trimmed = refl;
  filled = λ e. cc;
  not_comment = refl;
  one_part = (refl, (refl, (refl, (refl, (refl, tt)))));
}

abbrev value : Text
value = text "qwen"

value-IsValue : IsValue value
unfolding trim trim_end skip_spaces
value-IsValue = record {
  trimmed = refl;
  filled = λ e. cc;
  one_part = (refl, (refl, (refl, (refl, tt))));
}

parse_line-assignment_example :
    (parse_line (text "model = qwen") ≡ some (text "model", text "qwen"))
    × (parse_line (text "model = qwen # small") ≡ some (text "model", text "qwen"))
unfolding is_space parse_line trim skip_spaces
parse_line-assignment_example =
    parse_line-assignment key value [] (text " ") (text " ") (text " ") (text " small") key-IsKey
      value-IsValue tt (refl, tt) (refl, tt) (refl, tt)

abbrev environment : Environment
environment = record {
  getenv = λ name. none;
  read_file = λ path. some (text "rounds = many" ∷ []);
  gcloud_output = none;
}
