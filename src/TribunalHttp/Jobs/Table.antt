-- ===== src/TribunalHttp/Jobs/Table.antt =====
-- The job table of src/tribunal_http.c over its life: slots, ids and the bounds of the output buffers.
use code_tribunal.Prelude.{
  length-set, ℕ, suc, ◌+◌, ◌≤◌, ◌<◌, ◌≡◌, refl, ap, ◌∙◌, inl, inr, Bool-cases, Option-cases, true,
  false, ltb, none, some, List, [], ◌∷◌, Text, length, length-append, All, get_elem?, if◌then◌else◌,
  ◌&&◌, arith,
}
use code_tribunal.Prelude.Int.{ℤ, pos, negsuc}
use code_tribunal.TribunalHttp.Jobs.{
  ExecutionJob, JobTable, free_job, init_jobs, task_output_callback, allocate_job, find_in,
  find_job, SandboxResult, finish_job, change_slot,
}
use code_tribunal.TribunalHttp.Jobs.Slots.{
  Slots, Fits, All-replicate, Claimed, allocate_in-none, allocate_in-Claimed, find_in-some,
  find_in-none, set-Slots, set-All, get_elem?-Fits,
}

-- The table with `used` slots given out.
pub record IsSound (used : ℕ) (t : JobTable) : Type 0 where
  pub size : length t.jobs ≡ 32
  pub slots : Slots 1 used t.jobs
  pub next : t.next_job_id ≡ suc used
  pub bounded : used ≤ 32
  pub outputs : All Fits t.jobs

pub init_jobs-IsSound : IsSound 0 init_jobs
init_jobs-IsSound = record {
  size = refl;
  slots = All-replicate (λ job. job.job_id ≡ negsuc 0) 32 free_job refl;
  next = refl;
  bounded = omega arith;
  outputs = All-replicate Fits 32 free_job (omega arith);
}

-- What happens to the table: the request of a run, and what the threads of the jobs do.
pub data TableEvent : Type 0 where
  request : ℕ → ℤ → Text → TableEvent
  output : ℕ → Text → TableEvent
  finish : ℕ → SandboxResult → TableEvent

unfoldable pub do_event : TableEvent → JobTable → JobTable
do_event (request now task_id command) t = (allocate_job now task_id command t).1
do_event (output slot bytes) t = change_slot slot (task_output_callback bytes) t
do_event (finish slot result) t = change_slot slot (finish_job result) t

unfoldable pub do_events : List TableEvent → JobTable → JobTable
unfolding do_event
do_events [] t = t
do_events (e ∷ es) t = do_events es (do_event e t)

-- The slots in use after some events, of which `used` were in use before.
abbrev pub used_after : List TableEvent → ℕ → ℕ
used_after [] used = used
used_after (request now task_id command ∷ es) used =
    used_after es (if ltb used 32 then suc used else used)
used_after (output slot bytes ∷ es) used = used_after es used
used_after (finish slot result ∷ es) used = used_after es used

-- An allocation from a table that is not full.
pub allocate_job-Claimed :
    (now : ℕ) (task_id : ℤ) (command : Text) (used : ℕ) (t : JobTable)
    → IsSound used t
    → used < 32
    → Claimed now task_id command t.next_job_id 1 used t.jobs
allocate_job-Claimed now task_id command used t sound more =
    allocate_in-Claimed now task_id command t.next_job_id 1 used t.jobs sound.slots
      (omega (arith, sound.size)) (omega (arith, sound.next)) sound.outputs

-- The next slot is free as long as there is one.
allocate_job_slot :
    (now : ℕ) (task_id : ℤ) (command : Text) (used : ℕ) (t : JobTable)
    → IsSound used t
    → (allocate_job now task_id command t).0 ≡ (if ltb used 32 then some used else none)
unfolding allocate_job
allocate_job_slot now task_id command used t sound = elim (Bool-cases (ltb used 32)) [
  | inl more ↦
      let claimed = allocate_job-Claimed now task_id command used t sound (ground arith) in
      rw (more, allocate_job, claimed.found) refl
  | inr full ↦
      let whole : used ≡ length t.jobs = ground (arith, sound.size, sound.bounded) in
      let none_free =
        allocate_in-none now task_id command t.next_job_id 1 used t.jobs sound.slots whole in
      rw (full, allocate_job, none_free) refl
]

pub allocate_job-IsSound :
    (now : ℕ) (task_id : ℤ) (command : Text) (used : ℕ) (t : JobTable)
    → IsSound used t
    → IsSound (if ltb used 32 then suc used else used) (allocate_job now task_id command t).1
unfolding allocate_job
allocate_job-IsSound now task_id command used t sound = elim (Bool-cases (ltb used 32)) [
  | inl more ↦
      let claimed = allocate_job-Claimed now task_id command used t sound (ground arith) in
      rw (more, allocate_job, claimed.found)
        record {
          size = omega (arith, claimed.size, sound.size);
          slots = claimed.slots;
          next = omega (arith, sound.next);
          bounded = ground arith;
          outputs = claimed.outputs;
        }
  | inr full ↦
      let whole : used ≡ length t.jobs = ground (arith, sound.size, sound.bounded) in
      let none_free =
        allocate_in-none now task_id command t.next_job_id 1 used t.jobs sound.slots whole in
      rw (full, allocate_job, none_free) sound
]

pub change_slot-IsSound :
    (slot : ℕ) (f : ExecutionJob → ExecutionJob) (used : ℕ) (t : JobTable)
    → ((j : ExecutionJob) → (f j).job_id ≡ j.job_id)
    → ((j : ExecutionJob) → Fits j → Fits (f j))
    → IsSound used t
    → IsSound used (change_slot slot f t)
unfolding change_slot
change_slot-IsSound slot f used t keep fits sound = elim (Option-cases (get_elem? t.jobs slot)) [
  | inl e ↦ rw (change_slot, e) sound
  | inr (job, e) ↦
      let held = fits job (get_elem?-Fits slot t.jobs job e sound.outputs) in
      rw (change_slot, e)
        record {
          size = omega (arith, length-set t.jobs slot (f job), sound.size);
          slots = set-Slots f slot 1 used t.jobs job keep e sound.slots;
          next = sound.next;
          bounded = sound.bounded;
          outputs = set-All slot t.jobs (f job) held sound.outputs;
        }
]

pub task_output_callback-Fits :
    (bytes : Text) (job : ExecutionJob) → Fits job → Fits (task_output_callback bytes job)
unfolding task_output_callback
task_output_callback-Fits bytes job h = ground (arith, length-append job.output bytes)

pub task_output_callback_job_id :
    (bytes : Text) (job : ExecutionJob) → (task_output_callback bytes job).job_id ≡ job.job_id
unfolding task_output_callback
task_output_callback_job_id bytes job = ground arith

-- The table is sound after any events.
pub do_events-IsSound :
    (es : List TableEvent) (used : ℕ) (t : JobTable)
    → IsSound used t
    → IsSound (used_after es used) (do_events es t)
unfolding do_events finish_job
do_events-IsSound [] used t sound = sound
do_events-IsSound (request now task_id command ∷ es) used t sound =
    do_events-IsSound es _ _ (allocate_job-IsSound now task_id command used t sound)
do_events-IsSound (output slot bytes ∷ es) used t sound = do_events-IsSound es used _ (
    change_slot-IsSound slot (task_output_callback bytes) used t (task_output_callback_job_id bytes)
      (task_output_callback-Fits bytes) sound)
do_events-IsSound (finish slot result ∷ es) used t sound =
    do_events-IsSound es used _
      (change_slot-IsSound slot (finish_job result) used t (λ j. refl) (λ j h. h) sound)

-- The number of requests among the events.
abbrev pub requests : List TableEvent → ℕ
requests [] = 0
requests (request now task_id command ∷ es) = suc (requests es)
requests (output slot bytes ∷ es) = requests es
requests (finish slot result ∷ es) = requests es

used_after-requests :
    (es : List TableEvent) (used : ℕ)
    → used ≤ 32
    → used_after es used ≡ (if ltb (used + requests es) 32 then used + requests es else 32)
used_after-requests [] used h = ground arith
used_after-requests (request now task_id command ∷ es) used h =
    ground (arith, used_after-requests es (suc used), used_after-requests es used h)
used_after-requests (output slot bytes ∷ es) used h = used_after-requests es used h
used_after-requests (finish slot result ∷ es) used h = used_after-requests es used h

history_used :
    (es : List TableEvent) → used_after es 0 ≡ (if ltb (requests es) 32 then requests es else 32)
history_used es = ground (arith, used_after-requests es 0 (omega arith))

-- After any requests, chunks of output and ends of jobs, a new request gets the slot behind all those
-- that were ever given out, or none once there have been 32 requests: a slot whose job has ended is
-- never used again.
pub allocate_job-do_events :
    (es : List TableEvent) (now : ℕ) (task_id : ℤ) (command : Text)
    → (allocate_job now task_id command (do_events es init_jobs)).0
      ≡ (if ltb (requests es) 32 then some (requests es) else none)
allocate_job-do_events es now task_id command =
    allocate_job_slot now task_id command (used_after es 0) (do_events es init_jobs)
      (do_events-IsSound es 0 init_jobs init_jobs-IsSound)
    ∙ ground (arith, history_used es)

-- After any events, the job with the id k + 1 is found in slot k if there were more than k requests and
-- k is below 32, and no job is found otherwise.
pub find_job-do_events :
    (es : List TableEvent) (k : ℕ)
    → find_job (pos (suc k)) (do_events es init_jobs)
      ≡ (if ltb k (requests es) && ltb k 32 then some k else none)
unfolding find_job
find_job-do_events es k =
    let sound = do_events-IsSound es 0 init_jobs init_jobs-IsSound in
    let used = history_used es in
    elim (Bool-cases (ltb k (used_after es 0))) [
      | inl inside ↦
          let held : k < used_after es 0 = ground arith in
          let listed : (ltb k (requests es) && ltb k 32) ≡ true = ground (arith, used) in
          let jobs = (do_events es init_jobs).jobs in
          let place : suc k ≡ 1 + k = omega arith in
          rw listed (
            ap (λ id. find_in (pos id) jobs) place
            ∙ find_in-some k 1 (used_after es 0) jobs sound.slots held)
      | inr past ↦
          let listed : (ltb k (requests es) && ltb k 32) ≡ false = ground (arith, used) in
          rw listed (
            find_in-none (suc k) 1 (used_after es 0) (do_events es init_jobs).jobs sound.slots
              (inr (ground arith)))
    ]

-- After any events, every output buffer has room for its terminator: fewer than 16,383 of its 16,384
-- bytes are in use.
pub outputs_fit : (es : List TableEvent) → All Fits (do_events es init_jobs).jobs
outputs_fit es = (do_events-IsSound es 0 init_jobs init_jobs-IsSound).outputs
