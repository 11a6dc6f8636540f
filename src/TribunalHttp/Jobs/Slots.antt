-- ===== src/TribunalHttp/Jobs/Slots.antt =====
-- The slots of the job table of src/tribunal_http.c: which are in use, and what a search meets.
use code_tribunal.Prelude.{
  ℕ, zero, suc, ◌+◌, ◌≤◌, ◌<◌, ◌≡◌, refl, sym, ap, ◌∙◌, ◌⊎◌, true, false, none, some, List, [], ◌∷◌,
  Text, length, All, replicate, set, get_elem?, arith,
}
use code_tribunal.Prelude.Int.{ℤ, pos, negsuc, eqb_ℤ}
use code_tribunal.TribunalHttp.Jobs.{ExecutionJob, output_size, claim_slot, allocate_in, find_in}

-- The first `used` slots have the ids from `start` on, and the others are free.
abbrev pub Slots : ℕ → ℕ → List ExecutionJob → Type 0
Slots start zero jobs = All (λ job. job.job_id ≡ negsuc 0) jobs
Slots start (suc used) [] = ⊥
Slots start (suc used) (job ∷ jobs) = (job.job_id ≡ pos start) × Slots (suc start) used jobs

-- The output of a slot leaves room for a terminator in its buffer.
abbrev pub Fits : ExecutionJob → Type 0
Fits job = output_size job < 16383

pub All-replicate {ℓ} : {A : Type ℓ} (P : A → Type 0) (n : ℕ) (a : A) → P a → All P (replicate n a)
All-replicate P zero a h = tt
All-replicate P (suc n) a h = (h, All-replicate P n a h)

-- A slot in use is not free.
pub is_taken :
    (job : ExecutionJob) (id : ℕ) → job.job_id ≡ pos id → eqb_ℤ job.job_id (negsuc 0) ≡ false
is_taken job id h = ground arith

module _ (now : ℕ) (task_id : ℤ) (command : Text) where
  -- A table without a free slot gives none.
  pub allocate_in-none :
      (id start used : ℕ) (jobs : List ExecutionJob)
      → Slots start used jobs
      → used ≡ length jobs
      → allocate_in now task_id command id jobs ≡ none
  unfolding allocate_in
  allocate_in-none id start zero [] s e = refl
  allocate_in-none id start zero (job ∷ jobs) s e = absurd (omega arith)
  allocate_in-none id start (suc used) [] s e = absurd s
  allocate_in-none id start (suc used) (job ∷ jobs) s e =
      rw (is_taken job start s.0, allocate_in-none id (suc start) used jobs s.1 (omega arith)) refl

  -- What an allocation leaves: the slots, their number and the bounds of their outputs.
  pub record Claimed (id start used : ℕ) (jobs : List ExecutionJob) : Type 0 where
    pub after : List ExecutionJob
    pub found : allocate_in now task_id command id jobs ≡ some (used, after)
    pub slots : Slots start (suc used) after
    pub size : length after ≡ length jobs
    pub given :
        (job : ExecutionJob) × (get_elem? after used ≡ some (claim_slot now task_id command id job))
    pub outputs : All Fits after

  -- Otherwise the first free slot is taken, the one behind those in use.
  pub allocate_in-Claimed :
      (id start used : ℕ) (jobs : List ExecutionJob)
      → Slots start used jobs
      → used < length jobs
      → id ≡ start + used
      → All Fits jobs
      → Claimed id start used jobs
  unfolding allocate_in
  allocate_in-Claimed id start zero [] s h e fits = absurd (omega arith)
  allocate_in-Claimed id start (suc used) [] s h e fits = absurd s
  allocate_in-Claimed id start zero (job ∷ jobs) s h e fits =
      let same : id ≡ start = omega arith in
      record {
        after = claim_slot now task_id command id job ∷ jobs;
        found = rw s.0 refl;
        slots = (ap pos same, s.1);
        size = refl;
        given = (job, refl);
        outputs = (omega arith, fits.1);
      }
  allocate_in-Claimed id start (suc used) (job ∷ jobs) s h e fits =
      let rest =
        allocate_in-Claimed id (suc start) used jobs s.1 (omega arith) (omega arith) fits.1 in
      record {
        after = job ∷ rest.after;
        found = rw (is_taken job start s.0, rest.found) refl;
        slots = (s.0, rest.slots);
        size = omega (arith, rest.size);
        given = rest.given;
        outputs = (fits.0, rest.outputs);
      }

-- The look-up of an id in use.
pub find_in-some :
    (k start used : ℕ) (jobs : List ExecutionJob)
    → Slots start used jobs
    → k < used
    → find_in (pos (start + k)) jobs ≡ some k
unfolding find_in
find_in-some k start zero jobs s h = absurd (omega arith)
find_in-some k start (suc used) [] s h = absurd s
find_in-some zero start (suc used) (job ∷ jobs) s h =
    let same : eqb_ℤ job.job_id (pos (start + 0)) ≡ true = ground (arith, s.0) in rw same refl
find_in-some (suc k) start (suc used) (job ∷ jobs) s h =
    let other : eqb_ℤ job.job_id (pos (start + suc k)) ≡ false = ground (arith, s.0) in
    let shift : suc start + k ≡ start + suc k = omega arith in
    let rest = find_in-some k (suc start) used jobs s.1 (omega arith) in
    let found = ap (λ id. find_in (pos id) jobs) (sym shift) ∙ rest in rw (other, found) refl

-- No other id is found, but for the mark of a free slot.
pub find_in-none :
    (id start used : ℕ) (jobs : List ExecutionJob)
    → Slots start used jobs
    → (id < start) ⊎ (start + used ≤ id)
    → find_in (pos id) jobs ≡ none
unfolding find_in
find_in-none id start zero [] s h = refl
find_in-none id start zero (job ∷ jobs) s h =
    let other : eqb_ℤ job.job_id (pos id) ≡ false = ground (arith, s.0) in
    rw (other, find_in-none id start zero jobs s.1 h) refl
find_in-none id start (suc used) [] s h = absurd s
find_in-none id start (suc used) (job ∷ jobs) s h =
    let other : eqb_ℤ job.job_id (pos id) ≡ false = ground (arith, s.0, h) in
    let outside : (id < suc start) ⊎ (suc start + used ≤ id) = ground (arith, h) in
    rw (other, find_in-none id (suc start) used jobs s.1 outside) refl

-- A change that keeps the id of a slot keeps the slots.
pub set-Slots :
    (f : ExecutionJob → ExecutionJob) (i start used : ℕ) (jobs : List ExecutionJob)
    (job : ExecutionJob)
    → ((j : ExecutionJob) → (f j).job_id ≡ j.job_id)
    → get_elem? jobs i ≡ some job
    → Slots start used jobs
    → Slots start used (set jobs i (f job))
set-Slots f i start zero [] job keep e s = s
set-Slots f i start (suc used) [] job keep e s = s
set-Slots f zero start zero (j ∷ jobs) job keep e s = (ground (arith, e, keep job, s.0), s.1)
set-Slots f zero start (suc used) (j ∷ jobs) job keep e s = (ground (arith, e, keep job, s.0), s.1)
set-Slots f (suc i) start zero (j ∷ jobs) job keep e s =
    (s.0, set-Slots f i start zero jobs job keep e s.1)
set-Slots f (suc i) start (suc used) (j ∷ jobs) job keep e s =
    (s.0, set-Slots f i (suc start) used jobs job keep e s.1)

pub set-All :
    (i : ℕ) (jobs : List ExecutionJob) (job : ExecutionJob)
    → Fits job
    → All Fits jobs
    → All Fits (set jobs i job)
set-All i [] job h fits = tt
set-All zero (j ∷ jobs) job h fits = (h, fits.1)
set-All (suc i) (j ∷ jobs) job h fits = (fits.0, set-All i jobs job h fits.1)

pub get_elem?-Fits :
    (i : ℕ) (jobs : List ExecutionJob) (job : ExecutionJob)
    → get_elem? jobs i ≡ some job
    → All Fits jobs
    → Fits job
get_elem?-Fits i [] job e fits = absurd (ground (arith, e))
get_elem?-Fits zero (j ∷ jobs) job e fits = ground (arith, e)
get_elem?-Fits (suc i) (j ∷ jobs) job e fits = get_elem?-Fits i jobs job e fits.1

pub get_elem?-set :
    (xs : List ExecutionJob) (i : ℕ) (old new : ExecutionJob)
    → get_elem? xs i ≡ some old
    → get_elem? (set xs i new) i ≡ some new
get_elem?-set [] i old new e = absurd (ground (arith, e))
get_elem?-set (x ∷ xs) zero old new e = refl
get_elem?-set (x ∷ xs) (suc i) old new e = get_elem?-set xs i old new e
