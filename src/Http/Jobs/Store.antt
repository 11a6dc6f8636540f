-- ===== src/Http/Jobs/Store.antt =====
-- The job store of src/http/HttpServer.cpp over its life: ids, look-ups and the history.
use code_tribunal.Prelude.{
  ℕ, zero, suc, ◌+◌, ◌≡◌, refl, ap, sym, subst, ◌∙◌, inl, inr, Bool-cases, false, ◌==◌, List, [],
  ◌∷◌, ◌++◌, Text, length, length-append, All, All-append, map, arith,
}
use code_tribunal.Prelude.Int.{ℤ, pos, negsuc}
use code_tribunal.Core.Types.{Configuration}
use code_tribunal.Http.Jobs.{
  ExecutionJob, JobStore, no_jobs, put_job, allocate_job, finish_job, change_job, update_job_output,
}

-- So many ids from `start` on.
abbrev pub ids : ℕ → ℕ → List ℕ
ids start zero = []
ids start (suc n) = start ∷ ids (suc start) n

ids_last : (start n : ℕ) → ids start n ++ (start + n) ∷ [] ≡ ids start (suc n)
ids_last start zero = ap (λ k. k ∷ []) (omega arith)
ids_last start (suc n) =
    ap (λ k. start ∷ (ids (suc start) n ++ k ∷ [])) (omega arith)
    ∙ ap (λ l. start ∷ l) (ids_last (suc start) n)

map-append {ℓ κ} :
    {A : Type ℓ} {B : Type κ} (f : A → B) (xs : List A) (x : A)
    → map f (xs ++ x ∷ []) ≡ map f xs ++ f x ∷ []
map-append f [] x = refl
map-append f (y ∷ xs) x = ap (λ l. f y ∷ l) (map-append f xs x)

-- A new id comes last in the map.
put_job_last :
    (start n id : ℕ) (job : ExecutionJob) (m : List (ℕ × ExecutionJob))
    → map (λ e. e.0) m ≡ ids start n
    → id ≡ start + n
    → put_job id job m ≡ m ++ (id, job) ∷ []
unfolding put_job
put_job_last start n id job [] h e = refl
put_job_last start zero id job ((k, j) ∷ m) h e = absurd (ground (arith, h))
put_job_last start (suc n) id job ((k, j) ∷ m) h e =
    let first : k ≡ start = ground (arith, h) in
    let others : map (λ e. e.0) m ≡ ids (suc start) n = ground (arith, h) in
    let rest = put_job_last (suc start) n id job m others (omega arith) in ground (arith, rest)

-- Jobs are numbered from 1 on without gaps, the map and the history hold the same queries, and no job
-- in the history ever leaves the state in which it was allocated.
pub record IsConsistent (s : JobStore) : Type 0 where
  pub numbered : map (λ e. e.0) s.jobs ≡ ids 1 (length s.query_history)
  pub next : s.next_job_id ≡ suc (length s.query_history)
  pub labelled : All (λ e. e.1.job_id ≡ pos e.0) s.jobs
  pub queries : map (λ e. e.1.query) s.jobs ≡ map (λ j. j.query) s.query_history
  pub running : All (λ j. (j.status ≡ pos 0) × (j.success ≡ false)) s.query_history

pub no_jobs-IsConsistent : IsConsistent no_jobs
no_jobs-IsConsistent = record {
  numbered = refl;
  next = refl;
  labelled = tt;
  queries = refl;
  running = tt;
}

pub allocate_job_jobs :
    (config : Configuration) (now : ℕ) (query : Text) (s : JobStore)
    → IsConsistent s
    → let (job, s') = allocate_job config now query s in
      s'.jobs ≡ s.jobs ++ (s.next_job_id, job) ∷ []
unfolding allocate_job
allocate_job_jobs config now query s c =
    put_job_last 1 (length s.query_history) s.next_job_id _ s.jobs c.numbered
      (omega (arith, c.next))

pub allocate_job-IsConsistent :
    (config : Configuration) (now : ℕ) (query : Text) (s : JobStore)
    → IsConsistent s
    → IsConsistent (allocate_job config now query s).1
unfolding allocate_job
allocate_job-IsConsistent config now query s c =
    let job = (allocate_job config now query s).0 in
    let grown = allocate_job_jobs config now query s c in
    let count = length-append s.query_history (job ∷ []) in
    let one_more : length (s.query_history ++ job ∷ []) ≡ suc (length s.query_history) =
      omega (arith, count) in
    record {
      numbered =
          ap (map (λ e. e.0)) grown
          ∙ map-append (λ e. e.0) s.jobs (s.next_job_id, job)
          ∙ ap (λ l. l ++ s.next_job_id ∷ []) c.numbered
          ∙ ap (λ k. ids 1 (length s.query_history) ++ k ∷ []) (omega (arith, c.next))
          ∙ ids_last 1 (length s.query_history)
          ∙ ap (ids 1) (sym one_more);
      next = omega (arith, count, c.next);
      labelled =
          subst (All (λ e. e.1.job_id ≡ pos e.0)) (sym grown)
            (All-append _ s.jobs _ c.labelled (refl, tt));
      queries =
          ap (map (λ e. e.1.query)) grown
          ∙ map-append (λ e. e.1.query) s.jobs (s.next_job_id, job)
          ∙ ap (λ l. l ++ query ∷ []) c.queries
          ∙ sym (map-append (λ j. j.query) s.query_history job);
      running = All-append _ s.query_history (job ∷ []) c.running ((refl, refl), tt);
    }

-- A change of one entry keeps what the change keeps.
change_job-map {ℓ} :
    {A : Type ℓ} (g : ℕ × ExecutionJob → A) (f : ExecutionJob → ExecutionJob) (id : ℕ)
    (m : List (ℕ × ExecutionJob))
    → ((k : ℕ) (j : ExecutionJob) → g (k, f j) ≡ g (k, j))
    → map g (change_job id f m) ≡ map g m
unfolding change_job
change_job-map g f id [] same = refl
change_job-map g f id ((k, j) ∷ m) same = elim (Bool-cases (k == id)) [
  | inl t ↦ rw t (ap (λ a. a ∷ map g m) (same k j))
  | inr e ↦ rw e (ap (λ l. g (k, j) ∷ l) (change_job-map g f id m same))
]

change_job-All :
    (P : ℕ × ExecutionJob → Type 0) (f : ExecutionJob → ExecutionJob) (id : ℕ)
    (m : List (ℕ × ExecutionJob))
    → ((k : ℕ) (j : ExecutionJob) → P (k, j) → P (k, f j))
    → All P m
    → All P (change_job id f m)
unfolding change_job
change_job-All P f id [] keep h = tt
change_job-All P f id ((k, j) ∷ m) keep h = elim (Bool-cases (k == id)) [
  | inl t ↦ rw t (keep k j h.0, h.1)
  | inr e ↦ rw e (h.0, change_job-All P f id m keep h.1)
]

pub update_job_output-IsConsistent :
    (now : ℕ) (id : ℤ) (output : Text) (status : ℤ) (s : JobStore)
    → IsConsistent s
    → IsConsistent (update_job_output now id output status s)
unfolding update_job_output
update_job_output-IsConsistent now (negsuc id) output status s c = c
update_job_output-IsConsistent now (pos id) output status s c =
    let f = finish_job now output status in
    record {
      numbered = change_job-map (λ e. e.0) f id s.jobs (λ k j. refl) ∙ c.numbered;
      next = c.next;
      labelled = change_job-All (λ e. e.1.job_id ≡ pos e.0) f id s.jobs (λ k j h. h) c.labelled;
      queries = change_job-map (λ e. e.1.query) f id s.jobs (λ k j. refl) ∙ c.queries;
      running = c.running;
    }

-- The calls that change the store.
pub data StoreCall : Type 0 where
  allocate : Configuration → ℕ → Text → StoreCall
  update : ℕ → ℤ → Text → ℤ → StoreCall

unfoldable pub do_call : StoreCall → JobStore → JobStore
do_call (allocate config now query) s = (allocate_job config now query s).1
do_call (update now id output status) s = update_job_output now id output status s

unfoldable pub do_calls : List StoreCall → JobStore → JobStore
unfolding do_call
do_calls [] s = s
do_calls (c ∷ cs) s = do_calls cs (do_call c s)

do_calls-IsConsistent :
    (cs : List StoreCall) (s : JobStore) → IsConsistent s → IsConsistent (do_calls cs s)
unfolding do_calls
do_calls-IsConsistent [] s c = c
do_calls-IsConsistent (allocate config now query ∷ cs) s c =
    do_calls-IsConsistent cs _ (allocate_job-IsConsistent config now query s c)
do_calls-IsConsistent (update now id output status ∷ cs) s c =
    do_calls-IsConsistent cs _ (update_job_output-IsConsistent now id output status s c)

-- After any calls of a new server, the jobs are numbered from 1 on without gaps in the map and in the
-- history, both hold the same queries, and every job in the history is still running and no success,
-- also those that were updated.
pub history-IsConsistent : (cs : List StoreCall) → IsConsistent (do_calls cs no_jobs)
history-IsConsistent cs = do_calls-IsConsistent cs no_jobs no_jobs-IsConsistent
