-- ===== src/Http/Jobs.antt =====
-- The jobs of the web server: `ExecutionJob` and the members that keep them in src/http/HttpServer.h,
-- with `allocate_job`, `find_job` and `update_job_output` of HttpServer.cpp. The clock is an argument,
-- in seconds. The ids are natural numbers: they start at 1 and only grow.
pub mod Store
pub mod Lookup
use Prim.Native.Nat.{suc}
use code_tribunal.Prelude.{
  ℕ, ◌+◌, ◌*◌, Bool, true, false, ◌==◌, ltb, Option, none, some, List, [], ◌∷◌, ◌++◌, Text,
  if◌then◌else◌,
}
use code_tribunal.Prelude.Int.{ℤ, pos, negsuc, eqb_ℤ, sub_ℕ, wrap_int}
use code_tribunal.Core.Types.{Configuration}

pub record AnalystData : Type 0 where
  pub id : Text
  pub name : Text
  pub model_provider : Text
  pub confidence : ℤ
  pub votes : ℤ
  pub eliminated_round : ℤ
  -- The `float` as it is printed.
  pub argument_strength : Text

-- `status`: 0 running, 1 complete, 2 failed.
pub record ExecutionJob : Type 0 where
  pub job_id : ℤ
  pub status : ℤ
  pub query : Text
  pub output : Text
  pub error : Text
  pub provider : Text
  pub rounds : ℤ
  pub current_round : ℤ
  pub analyst_count : ℤ
  pub analysts : List AnalystData
  pub start_time : ℕ
  pub duration_ms : ℤ
  pub success : Bool

-- The member initialisers of the struct.
abbrev pub new_job : ExecutionJob
new_job = record {
  job_id = negsuc 0;
  status = pos 0;
  query = [];
  output = [];
  error = [];
  provider = [];
  rounds = pos 4;
  current_round = pos 0;
  analyst_count = pos 0;
  analysts = [];
  start_time = 0;
  duration_ms = pos 0;
  success = false;
}

-- The members under the server's own lock, which no function takes twice.
pub record JobStore : Type 0 where
  pub jobs : List (ℕ × ExecutionJob)
  pub next_job_id : ℕ
  pub query_history : List ExecutionJob

abbrev pub no_jobs : JobStore
no_jobs = record { jobs = []; next_job_id = 1; query_history = [] }

-- `jobs_[id] = job`: the map keeps its entries in the order of the ids.
unfoldable pub put_job : ℕ → ExecutionJob → List (ℕ × ExecutionJob) → List (ℕ × ExecutionJob)
put_job id job [] = (id, job) ∷ []
put_job id job ((k, j) ∷ m) =
    if k == id
    then (id, job) ∷ m
    else if ltb id k
    then (id, job) ∷ (k, j) ∷ m
    else (k, j) ∷ put_job id job m

unfoldable pub lookup_job : ℕ → List (ℕ × ExecutionJob) → Option ExecutionJob
lookup_job id [] = none
lookup_job id ((k, j) ∷ m) = if k == id then some j else lookup_job id m

unfoldable pub allocate_job : Configuration → ℕ → Text → JobStore → ExecutionJob × JobStore
unfolding put_job
allocate_job config now query s =
    let job = record new_job {
      job_id = pos s.next_job_id;
      query = query;
      status = pos 0;
      start_time = now;
      provider = config.api_type;
      rounds = config.rounds;
    } in
    (
      job,
      record {
        jobs = put_job s.next_job_id job s.jobs;
        next_job_id = s.next_job_id + 1;
        query_history = s.query_history ++ job ∷ [];
      },
    )

abbrev pub job_or_empty : Option ExecutionJob → ExecutionJob
job_or_empty none = new_job
job_or_empty (some job) = job

-- Without the job, an empty one with the id -1.
unfoldable pub find_job : ℤ → JobStore → ExecutionJob
unfolding lookup_job
find_job (pos id) s = job_or_empty (lookup_job id s.jobs)
find_job (negsuc id) s = new_job

unfoldable pub finish_job : ℕ → Text → ℤ → ExecutionJob → ExecutionJob
finish_job now output status job = record job {
  output = output;
  status = status;
  duration_ms = wrap_int (sub_ℕ (now * 1000) (job.start_time * 1000));
  success = eqb_ℤ status (pos 1);
}

-- The change of the entry that the iterator found. The history keeps its copy.
unfoldable pub change_job :
    ℕ → (ExecutionJob → ExecutionJob) → List (ℕ × ExecutionJob) → List (ℕ × ExecutionJob)
change_job id f [] = []
change_job id f ((k, j) ∷ m) = if k == id then (k, f j) ∷ m else (k, j) ∷ change_job id f m

unfoldable pub update_job_output : ℕ → ℤ → Text → ℤ → JobStore → JobStore
unfolding change_job finish_job
update_job_output now (pos id) output status s = record s {
  jobs = change_job id (finish_job now output status) s.jobs;
}
update_job_output now (negsuc id) output status s = s
