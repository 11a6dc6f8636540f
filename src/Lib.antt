-- ===== src/Lib.antt =====
-- Verification of code-tribunal, a council of language models that debate a question and vote
-- (src/core, src/http, src/llm, src/storage, src/ui, src/util and src/main.cpp).
--
-- The parts and how they interact. A `Council` (src/core/Council.cpp) owns an `AnalystPool`
-- (src/core/Pool.cpp) of `Analyst`s (src/core/Analyst.cpp) and an election history
-- (src/core/Election.cpp). `run_debate` runs rounds: each round calls the client of every active
-- analyst in a thread of its own, then holds an election, which generates votes, selects a winner and
-- prunes. The configuration comes from `ConfigParser` and is checked by `ConfigValidator`. The clients
-- stand behind an interface (src/llm); `MultiEndpointOllamaClient` spreads queries over endpoints. The
-- utilities are retries and circuit breakers, a thread pool, hashes and metrics. The program
-- (src/main.cpp) reads its arguments and the configuration, makes a client by the factory and runs one
-- debate or the web server (src/http), whose queries run a debate each in a thread. An earlier web
-- server, in C (src/tribunal_http.c), lists and runs tasks, applies patches and answers queries.
--
-- Files and code:
--   Prelude         shared names, lists over the native numbers, texts as lists of bytes, `std::stoi`,
--                   `std::to_string`, integers
--   Core/Types      src/core/types.h
--   Core/Analyst    src/core/Analyst.cpp; a client is a function from a request to a reply or an exception
--   Core/Pool       src/core/Pool.cpp; `execute_pool` is `execute_round`, its threads interleave by a schedule
--   Core/Election   src/core/Election.cpp
--   Core/Council    src/core/Council.cpp
--   Core/ConfigParser, Core/ConfigValidator    the files of the same names in src/core
--   Util/Resilience, Util/Concurrent, Util/Hash, Util/Metrics, Util/Logging    the files of the same
--                   names in src/util
--   Storage/Database    src/storage/Database.cpp, over a record that stands for SQLite
--   Llm/MultiEndpoint   src/llm/MultiEndpointOllamaClient.cpp
--   Llm/Factory         `ClientFactory` in src/llm/LLMClient.cpp, and the constructors of the clients
--   Llm/Providers       OllamaClient.cpp, ClaudeClient.cpp and GoogleAntigravityClient.cpp in src/llm, over
--                   a parameter that stands for libcurl
--   Http/Request        `parse_request` and `send_response` of src/http/HttpServer.cpp
--   Http/Routes         the branches of `handle_request` as data
--   Http/Jobs, Http/Pages, Http/Statistics    the job store, the answers about jobs and about metrics
--   Http/Server, Http/Execution    `handle_request` and `handle_query`, and `execute_query_async`
--   Http/Loop           the loop of `start`, with the threads of the queries between the connections
--   Http/Interleaving   the threads of several queries by turns on the one council of the server
--   Main                src/main.cpp
--   Ui/QueryClassifier  src/ui/QueryClassifier.cpp
--   TribunalHttp        the earlier server in C, src/tribunal_http.c: `Jobs` the job table and its threads,
--                   `Scan` the use of `sscanf`, `Escape` the texts for JSON, `Handlers` and `Code` the
--                   handlers, `Routes` the dispatch of a request, `Service` the loop over connections
--   Examples, and the modules Examples of the parts    the theorems at concrete inputs
--
-- The state of a component is a record and an operation is a function from the state to the state
-- and the result; an exception is `none` or a constructor of the result. An `int` that can be
-- negative or is read from a text is a ℤ, a counter that starts at 0 is an ℕ without its wrap-
-- around, except for the counter of the round robin, whose wrap-around is written out. Texts are
-- lists of bytes, in the C locale; in C, a text with its terminator and what is behind it is the
-- memory of its array. The loops over the rounds and over the attempts of a retry run by recursion
-- on the number of rounds or attempts that is left, which is exact; the digits of a numeral have
-- its successor as fuel, and a number has no more digits than that; the loops over header lines and
-- over commas have the successor of the number of characters, of which each round takes at least
-- one. Everything else recurses on its data. A lock that is taken again by the thread that holds it
-- gives `none` or `blocked`, and so does a request of libcurl over freed memory. The `double` values of the metrics are a record `Reals` of operations.
--
-- Not modelled: the page of the dashboard, a constant text that is passed in; the records of
-- src/core/types.h that no code uses; the calls on sockets and files, and time, which enters as the
-- arguments of the operations; libcurl, SQLite and OpenSSL, which are parameters. A thread of the
-- pool of tasks makes its steps under the mutex, one at a time; a round of a debate is one turn of
-- its thread, so that what two threads do inside of one round, which is a data race, is left open.
-- Of the C server of an earlier phase, which the Makefile no longer builds, the two pages and the
-- calls on sockets; the functions that its headers only declare are a record of parameters, as are
-- the chunks of output that its sandbox delivers.
pub mod Prelude
pub mod Core
pub mod Http
pub mod Util
pub mod Storage
pub mod Llm
pub mod Ui
pub mod Main
pub mod Examples
pub mod TribunalHttp
