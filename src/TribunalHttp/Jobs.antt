-- ===== src/TribunalHttp/Jobs.antt =====
-- The job table of the earlier server in C: lines 18 to 123 of src/tribunal_http.c. A slot's `output` holds
-- the first `output_size` bytes of the buffer; the bytes behind them are never read. The mutexes make
-- each function below one step. Ids are natural numbers, since at most 32 are ever given out.
pub mod Slots
pub mod Table
use Prim.Native.Nat.{suc}
use mathlib.Core.Option
use code_tribunal.Prelude.{
  ℕ, ◌+◌, ltb, Option, none, some, List, [], ◌∷◌, ◌++◌, Text, length, take, replicate, get_elem?,
  set, if◌then◌else◌,
}
use code_tribunal.Prelude.Int.{ℤ, pos, negsuc, eqb_ℤ}

-- `status`: 0 running, 1 complete, 2 failed.
pub record ExecutionJob : Type 0 where
  pub job_id : ℤ
  pub task_id : ℤ
  pub command : Text
  pub output : Text
  pub status : ℤ
  pub success : ℤ
  pub duration_ms : ℤ
  pub memory_kb : ℤ
  pub start_time : ℕ

abbrev pub max_jobs : ℕ
max_jobs = 32

abbrev pub output_capacity : ℕ
output_capacity = 16384

-- The two static variables.
pub record JobTable : Type 0 where
  pub jobs : List ExecutionJob
  pub next_job_id : ℕ

abbrev pub output_size : ExecutionJob → ℕ
output_size job = length job.output

-- A slot after `memset` and the id that marks it as free.
abbrev pub free_job : ExecutionJob
free_job = record {
  job_id = negsuc 0;
  task_id = pos 0;
  command = [];
  output = [];
  status = pos 0;
  success = pos 0;
  duration_ms = pos 0;
  memory_kb = pos 0;
  start_time = 0;
}

abbrev pub init_jobs : JobTable
init_jobs = record { jobs = replicate max_jobs free_job; next_job_id = 1 }

-- The bytes that the sandbox delivers; its `len` is their number, far below the largest `int`.
unfoldable pub task_output_callback : Text → ExecutionJob → ExecutionJob
task_output_callback data_bytes job =
    if ltb (output_size job + length data_bytes) 16383
    then record job { output = job.output ++ data_bytes }
    else job

-- What allocation writes into a free slot.
unfoldable pub claim_slot : ℕ → ℤ → Text → ℕ → ExecutionJob → ExecutionJob
claim_slot now task_id command id job = record job {
  job_id = pos id;
  task_id = task_id;
  status = pos 0;
  output = [];
  start_time = now;
  command = take 511 command;
}

-- The loop: the index of the first free slot, and the slots after the allocation.
unfoldable pub allocate_in : ℕ → ℤ → Text → ℕ → List ExecutionJob → Option (ℕ × List ExecutionJob)
unfolding claim_slot
allocate_in now task_id command id [] = none
allocate_in now task_id command id (job ∷ jobs) =
    let rest = Option.map (λ r. (suc r.0, job ∷ r.1)) (allocate_in now task_id command id jobs) in
    if eqb_ℤ job.job_id (negsuc 0)
    then some (0, claim_slot now task_id command id job ∷ jobs)
    else rest

-- The pointer that is returned is the index of the slot.
unfoldable pub allocate_job : ℕ → ℤ → Text → JobTable → Option ℕ × JobTable
unfolding allocate_in
allocate_job now task_id command t = elim (allocate_in now task_id command t.next_job_id t.jobs) [
  | none ↦ (none, t)
  | some (slot, jobs) ↦ (some slot, record { jobs = jobs; next_job_id = suc t.next_job_id })
]

unfoldable pub find_in : ℤ → List ExecutionJob → Option ℕ
find_in job_id [] = none
find_in job_id (job ∷ jobs) =
    let rest = Option.map suc (find_in job_id jobs) in
    if eqb_ℤ job.job_id job_id then some 0 else rest

unfoldable pub find_job : ℤ → JobTable → Option ℕ
unfolding find_in
find_job job_id t = find_in job_id t.jobs

-- The members of `SandboxResult` that are read.
pub record SandboxResult : Type 0 where
  pub duration_ms : ℤ
  pub success : ℤ
  pub peak_memory_kb : ℤ

-- What `execute_command_thread` stores at its end.
unfoldable pub finish_job : SandboxResult → ExecutionJob → ExecutionJob
finish_job result job = record job {
  status = pos 1;
  success = result.success;
  duration_ms = result.duration_ms;
  memory_kb = result.peak_memory_kb;
}

-- The calls of the callback, in their order.
unfoldable pub receive_output : List Text → ExecutionJob → ExecutionJob
unfolding task_output_callback
receive_output [] job = job
receive_output (chunk ∷ chunks) job = receive_output chunks (task_output_callback chunk job)

-- `sandbox_execute_streaming` as a parameter: the chunks that it delivers for a command, and its result.
unfoldable pub execute_command_thread :
    (Text → List Text × SandboxResult) → ExecutionJob → ExecutionJob
unfolding receive_output finish_job
execute_command_thread sandbox_execute_streaming job =
    let (chunks, result) = sandbox_execute_streaming job.command in
    finish_job result (receive_output chunks job)

-- A change of the slot at an index.
unfoldable pub change_slot : ℕ → (ExecutionJob → ExecutionJob) → JobTable → JobTable
change_slot slot f t = elim (get_elem? t.jobs slot) [
  | none ↦ t
  | some job ↦ record t { jobs = set t.jobs slot (f job) }
]
