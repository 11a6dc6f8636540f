-- ===== src/Http/Jobs/Lookup.antt =====
-- Look-ups in the job store (`find_job` of src/http/HttpServer.cpp) after its changes.
use code_tribunal.Prelude.{
  ℕ, zero, suc, ◌+◌, ◌≡◌, refl, ap, sym, ◌∙◌, inl, inr, Bool-cases, ◌==◌, ==_refl, Option, some,
  List, [], ◌∷◌, ◌++◌, Text, length, map, arith, if◌then◌else◌,
}
use mathlib.Core.Option
use code_tribunal.Prelude.Int.{ℤ, pos, negsuc, eqb_ℤ}
use code_tribunal.Core.Types.{Configuration}
use code_tribunal.Http.Jobs.{
  ExecutionJob, JobStore, lookup_job, allocate_job, job_or_empty, find_job, finish_job, change_job,
  update_job_output,
}
use code_tribunal.Http.Jobs.Store.{ids, IsConsistent, allocate_job_jobs}

lookup_job_last :
    (start n id z : ℕ) (job : ExecutionJob) (m : List (ℕ × ExecutionJob))
    → map (λ e. e.0) m ≡ ids start n
    → id ≡ start + n
    → lookup_job z (m ++ (id, job) ∷ []) ≡ (if id == z then some job else lookup_job z m)
unfolding lookup_job
lookup_job_last start n id z job [] h e = refl
lookup_job_last start zero id z job ((k, j) ∷ m) h e = absurd (ground (arith, h))
lookup_job_last start (suc n) id z job ((k, j) ∷ m) h e =
    let first : k ≡ start = ground (arith, h) in
    let others : map (λ e. e.0) m ≡ ids (suc start) n = ground (arith, h) in
    let rest = lookup_job_last (suc start) n id z job m others (omega arith) in ground (arith, rest)

-- The new job is in the map under its id.
pub lookup_job-allocate_job :
    (config : Configuration) (now : ℕ) (query : Text) (s : JobStore)
    → IsConsistent s
    → let (job, s') = allocate_job config now query s in lookup_job s.next_job_id s'.jobs ≡ some job
unfolding allocate_job
lookup_job-allocate_job config now query s c =
    let id = s.next_job_id in
    let job = (allocate_job config now query s).0 in
    let last =
      lookup_job_last 1 (length s.query_history) id id job s.jobs c.numbered
        (omega (arith, c.next)) in
    ap (lookup_job id) (allocate_job_jobs config now query s c)
    ∙ last
    ∙ ap (λ b. if b then some job else lookup_job id s.jobs) (==_refl id)

found_branches :
    (id z : ℕ) (job : ExecutionJob) (o : Option ExecutionJob)
    → job_or_empty (if id == z then some job else o)
      ≡ (if eqb_ℤ (pos id) (pos z) then job else job_or_empty o)
found_branches id z job o = ground arith

-- A job that is allocated is found under its id, and every other look-up gives what it gave before.
pub find_job-allocate_job :
    (config : Configuration) (now : ℕ) (query : Text) (s : JobStore) (z : ℤ)
    → IsConsistent s
    → let (job, s') = allocate_job config now query s in
      find_job z s' ≡ (if eqb_ℤ job.job_id z then job else find_job z s)
unfolding find_job allocate_job
find_job-allocate_job config now query s (negsuc z) c = ground arith
find_job-allocate_job config now query s (pos z) c =
    let (job, s') = allocate_job config now query s in
    let found =
      ap (lookup_job z) (allocate_job_jobs config now query s c)
      ∙ lookup_job_last 1 (length s.query_history) s.next_job_id z job s.jobs c.numbered
          (omega (arith, c.next)) in
    ap job_or_empty found ∙ found_branches (s.next_job_id) z job (lookup_job z s.jobs)

lookup_job-change_job :
    (f : ExecutionJob → ExecutionJob) (id z : ℕ) (m : List (ℕ × ExecutionJob))
    → lookup_job z (change_job id f m)
      ≡ (if id == z then Option.map f (lookup_job z m) else lookup_job z m)
unfolding lookup_job change_job
lookup_job-change_job f id z [] = ground arith
lookup_job-change_job f id z ((k, j) ∷ m) = ground (arith, lookup_job-change_job f id z m)

updated_branches :
    (f : ExecutionJob → ExecutionJob) (id z : ℕ) (job : ExecutionJob) (m : List (ℕ × ExecutionJob))
    → lookup_job id m ≡ some job
    → job_or_empty (if id == z then Option.map f (lookup_job z m) else lookup_job z m)
      ≡ (if eqb_ℤ (pos id) (pos z) then f job else job_or_empty (lookup_job z m))
updated_branches f id z job m e = elim (Bool-cases (id == z)) [
  | inl t ↦
      let same : id ≡ z = ground arith in
      let found : lookup_job z m ≡ some job = ap (λ k. lookup_job k m) (sym same) ∙ e in
      rw t (rw found refl)
  | inr n ↦ rw n refl
]

-- An update of a job that exists is what a look-up of that job then gives, a success exactly if the
-- status is 1, and every other look-up gives what it gave before.
pub find_job-update_job_output :
    (now id : ℕ) (output : Text) (status : ℤ) (s : JobStore) (job : ExecutionJob) (z : ℤ)
    → lookup_job id s.jobs ≡ some job
    → let job' = finish_job now output status job in
      (find_job z (update_job_output now (pos id) output status s)
        ≡ (if eqb_ℤ (pos id) z then job' else find_job z s))
      × (job'.success ≡ eqb_ℤ status (pos 1))
unfolding find_job update_job_output finish_job
find_job-update_job_output now id output status s job (negsuc z) e = (ground arith, refl)
find_job-update_job_output now id output status s job (pos z) e =
    let f = finish_job now output status in
    (
      ap job_or_empty (lookup_job-change_job f id z s.jobs) ∙ updated_branches f id z job s.jobs e,
      refl,
    )
