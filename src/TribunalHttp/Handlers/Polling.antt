-- ===== src/TribunalHttp/Handlers/Polling.antt =====
-- A job of src/tribunal_http.c from the request that starts it to the request that asks for its output.
use code_tribunal.Prelude.{
  ℕ, suc, ◌+◌, ◌≤◌, ◌<◌, ◌≡◌, refl, sym, ap, ◌∙◌, true, false, ltb, Option, some, List, [], ◌∷◌,
  ◌++◌, Text, text, starts_with, length, length-append, is_empty, take, get_elem?, to_string, arith,
}
use mathlib.Core.List.{append_assoc, append-nil}
use code_tribunal.Prelude.Int.{ℤ, pos, negsuc, eqb_ℤ, show_ℤ}
use code_tribunal.Prelude.Numerals.{EndsNumber, stoi-to_string}
use code_tribunal.TribunalHttp.Jobs.{
  ExecutionJob, JobTable, SandboxResult, task_output_callback, claim_slot, allocate_job, find_job,
  find_in, finish_job, receive_output, execute_command_thread, change_slot,
}
use code_tribunal.TribunalHttp.Jobs.Slots.{Fits, Claimed, find_in-some, get_elem?-set}
use code_tribunal.TribunalHttp.Jobs.Table.{
  IsSound, allocate_job-Claimed, allocate_job-IsSound, change_slot-IsSound,
  task_output_callback-Fits, task_output_callback_job_id,
}
use code_tribunal.TribunalHttp.Scan.{quoted_value}
use code_tribunal.TribunalHttp.Scan.Numbers.{scan_int-stoi}
use code_tribunal.TribunalHttp.Surroundings.{Task, Surroundings}
use code_tribunal.TribunalHttp.Reply.{Reply, concat, json, snprintf}
use code_tribunal.TribunalHttp.Handlers.{
  Server, job_text, job_id_of, slot_reply, handle_get_task_output, run_reply, handle_run_task,
}

-- Chunks that fit the buffer together are all kept, in their order.
pub receive_output-concat :
    (chunks : List Text) (job : ExecutionJob)
    → length job.output + length (concat chunks) < 16383
    → receive_output chunks job ≡ record job { output = job.output ++ concat chunks }
unfolding receive_output task_output_callback
receive_output-concat [] job h = ap (λ o. record job { output = o }) (sym (append-nil job.output))
receive_output-concat (chunk ∷ chunks) job h =
    let count = length-append chunk (concat chunks) in
    let fits : ltb (length job.output + length chunk) 16383 ≡ true = ground (arith, h, count) in
    let next = record job { output = job.output ++ chunk } in
    let rest =
      receive_output-concat chunks next (omega (arith, h, count, length-append job.output chunk)) in
    rw fits
      (rest ∙ ap (λ o. record job { output = o }) (append_assoc job.output chunk (concat chunks)))

receive_output_job_id :
    (chunks : List Text) (job : ExecutionJob) → (receive_output chunks job).job_id ≡ job.job_id
unfolding receive_output
receive_output_job_id [] job = refl
receive_output_job_id (chunk ∷ chunks) job =
    receive_output_job_id chunks (task_output_callback chunk job)
    ∙ task_output_callback_job_id chunk job

receive_output-Fits :
    (chunks : List Text) (job : ExecutionJob) → Fits job → Fits (receive_output chunks job)
unfolding receive_output
receive_output-Fits [] job h = h
receive_output-Fits (chunk ∷ chunks) job h =
    receive_output-Fits chunks (task_output_callback chunk job)
      (task_output_callback-Fits chunk job h)

-- The query string that names a job, whatever follows the number.
job_id_of-to_string :
    (overflow : Text → ℤ) (n : ℕ) (rest : Text)
    → n ≤ 2147483647
    → EndsNumber rest
    → job_id_of overflow (some (text "job_id=" ++ (to_string n ++ rest))) ≡ pos n
unfolding job_id_of starts_with
job_id_of-to_string overflow n rest h ends =
    rw (scan_int-stoi overflow (to_string n ++ rest) (pos n) (stoi-to_string n rest h ends)) refl

-- What a reply is made from, and the slot of the job with the id `n`, once its thread has ended.
pub record IsReported (n : ℕ) (chunks : List Text) (result : SandboxResult) (reply : Reply)
    : Type 0 where
  pub job : ExecutionJob
  pub shown : reply ≡ json 200 (snprintf 20480 (job_text job))
  pub job_id : job.job_id ≡ pos n
  pub status : job.status ≡ pos 1
  pub output : job.output ≡ concat chunks
  pub success : job.success ≡ result.success
  pub duration : job.duration_ms ≡ result.duration_ms
  pub memory : job.memory_kb ≡ result.peak_memory_kb

shown_job :
    (overflow : Text → ℤ) (query_string : Option Text) (id slot : ℕ) (table : JobTable)
    (job : ExecutionJob)
    → job_id_of overflow query_string ≡ pos id
    → find_job (pos id) table ≡ some slot
    → get_elem? table.jobs slot ≡ some job
    → handle_get_task_output overflow query_string table ≡ json 200 (snprintf 20480 (job_text job))
unfolding handle_get_task_output slot_reply
shown_job overflow query_string id slot table job asked found held =
    let given : eqb_ℤ (pos id) (negsuc 0) ≡ false = ground arith in
    rw (handle_get_task_output, asked, given, found, slot_reply, held) refl

change_slot_held :
    (slot : ℕ) (f : ExecutionJob → ExecutionJob) (t : JobTable) (job : ExecutionJob)
    → get_elem? t.jobs slot ≡ some job
    → get_elem? (change_slot slot f t).jobs slot ≡ some (f job)
unfolding change_slot
change_slot_held slot f t job e = rw (change_slot, e) (get_elem?-set t.jobs slot job (f job) e)

module _ (now : ℕ) (task_id : ℤ) (command : Text) (used : ℕ) (t : JobTable) where
  allocated :
      (c : Claimed now task_id command t.next_job_id 1 used t.jobs)
      → allocate_job now task_id command t
        ≡ (some used, record { jobs = c.after; next_job_id = suc t.next_job_id })
  unfolding allocate_job
  allocated c = rw (allocate_job, c.found) refl

  module _ (sandbox : Text → List Text × SandboxResult) where
    -- The table after the allocation and the thread of the job.
    abbrev pub ended : JobTable
    ended = change_slot used (execute_command_thread sandbox) (allocate_job now task_id command t).1

    ended-IsSound : IsSound used t → used < 32 → IsSound (suc used) ended
    unfolding execute_command_thread finish_job
    ended-IsSound sound more =
        let room : ltb used 32 ≡ true = ground arith in
        let before = rw room at (allocate_job-IsSound now task_id command used t sound) in
        change_slot-IsSound used (execute_command_thread sandbox) (suc used) _
          (λ j. receive_output_job_id (sandbox j.command).0 j)
          (λ j h. receive_output-Fits (sandbox j.command).0 j h) before

    ended_slot :
        (c : Claimed now task_id command t.next_job_id 1 used t.jobs)
        → get_elem? ended.jobs used
          ≡ some (
              execute_command_thread sandbox
                (claim_slot now task_id command t.next_job_id c.given.0))
    ended_slot c =
        change_slot_held used (execute_command_thread sandbox)
          (allocate_job now task_id command t).1 _ (rw (allocated c) (c.given.1))

    poll :
        (overflow : Text → ℤ) (rest : Text)
        → IsSound used t
        → used < 32
        → EndsNumber rest
        → length (concat (sandbox (take 511 command)).0) < 16383
        → IsReported (suc used) (sandbox (take 511 command)).0 (sandbox (take 511 command)).1 (
            handle_get_task_output overflow
              (some (text "job_id=" ++ (to_string (suc used) ++ rest)))
              ended)
    unfolding execute_command_thread finish_job claim_slot find_job
    poll overflow rest sound more ends fits =
        let c = allocate_job-Claimed now task_id command used t sound more in
        let after = ended-IsSound sound more in
        let claimed = claim_slot now task_id command t.next_job_id c.given.0 in
        let (chunks, result) = sandbox (take 511 command) in
        let place : suc used ≡ 1 + used = omega arith in
        let asked = job_id_of-to_string overflow (suc used) rest (omega arith) ends in
        let found =
          ap (λ id. find_in (pos id) ended.jobs) place
          ∙ find_in-some used 1 (suc used) ended.jobs after.slots (omega arith) in
        let kept = receive_output-concat chunks claimed (omega (arith, fits)) in
        record {
          job = execute_command_thread sandbox claimed;
          shown = shown_job overflow _ (suc used) used ended _ asked found (ended_slot c);
          job_id = receive_output_job_id chunks claimed ∙ ap pos sound.next;
          status = refl;
          output = ap (λ j. j.output) kept;
          success = refl;
          duration = refl;
          memory = refl;
        }

-- A request that runs a task while fewer than 32 slots are in use is answered with the next id; and once
-- the thread of its job has ended, a request with that id, whatever follows it, is answered from the slot
-- of the job, which is complete, has the result, and holds all that the sandbox delivered, if that fits its
-- buffer. The reply shows the escape of this output as far as it fits 16,384 bytes, up to a NUL.
pub handle_run_task-IsReported :
    {F : Type 0} (outside : Surroundings F) (sandbox : Text → List Text × SandboxResult) (now : ℕ)
    (task_id : ℤ) (body rest : Text) (task : Task) (used : ℕ) (s : Server F)
    → IsSound used s.table
    → used < 32
    → outside.task_get s.tasks task_id ≡ some task
    → is_empty (quoted_value (text "\"command\":") 511 [] body) ≡ false
    → EndsNumber rest
    → length (concat (sandbox (take 511 (quoted_value (text "\"command\":") 511 [] body))).0)
      < 16383
    → let command = quoted_value (text "\"command\":") 511 [] body in
      let (reply, s') = handle_run_task outside now true task_id body s in
      let (chunks, result) = sandbox (take 511 command) in
      let query_string = some (text "job_id=" ++ (to_string (suc used) ++ rest)) in
      let later = change_slot used (execute_command_thread sandbox) s'.table in
      (reply
        ≡ json 202 (
            snprintf 256 (
              concat (
                text "{\"job_id\":"
                ∷ show_ℤ (pos (suc used))
                ∷ text ",\"status\":\"running\",\"message\":\"Command started\"}"
                ∷ []))))
      × (s'.tasks ≡ outside.task_start s.tasks task_id)
      × IsReported
          (suc used)
          chunks
          result
          (handle_get_task_output outside.scan_overflow query_string later)
unfolding handle_run_task run_reply claim_slot
handle_run_task-IsReported outside sandbox now task_id body rest task used s sound more known given
      ends fits =
    let command = quoted_value (text "\"command\":") 511 [] body in
    let c = allocate_job-Claimed now task_id command used s.table sound more in
    let polled =
      poll now task_id command used s.table sandbox outside.scan_overflow rest sound more ends
        fits in
    rw (handle_run_task, given, known)
      (
        rw (allocated now task_id command used s.table c, run_reply, c.given.1, sound.next) refl,
        refl,
        polled,
      )
