-- ===== src/Util/Concurrent/Tasks.antt =====
-- What becomes of the tasks over any history of a pool (src/util/Concurrent.cpp).
use mathlib.Core.List.{append_assoc, append-nil}
use code_tribunal.Prelude.{
  ℕ, zero, suc, ◌+◌, ◌≤◌, ◌<◌, ◌≡◌, refl, sym, ap, ◌∙◌, ◌↔◌, Bool, true, false, ◌==◌, Option, none,
  some, List, [], ◌∷◌, ◌++◌, length, is_empty, get_elem?, erase_at, arith, if◌then◌else◌,
}
use code_tribunal.Util.Concurrent.{
  ThreadPool, new_thread_pool, enqueue_unless, leave_if, turn_unless, enqueue, request_stop,
  take_task, worker_turn, end_task, finish_task, all_done, Event, enqueues, finishes, turns, stops,
  step, run, get_optimal_thread_count,
}

-- How often a task stands in a list.
unfoldable pub count : ℕ → List ℕ → ℕ
count t [] = 0
count t (x ∷ xs) = if x == t then suc (count t xs) else count t xs

count-append : (t : ℕ) (xs ys : List ℕ) → count t (xs ++ ys) ≡ count t xs + count t ys
unfolding count
count-append t [] ys = omega arith
count-append t (x ∷ xs) ys = ground (arith, count-append t xs ys)

count-erase_at :
    (t : ℕ) (xs : List ℕ) (k x : ℕ)
    → get_elem? xs k ≡ some x
    → count t xs ≡ count t (erase_at xs k) + (if x == t then 1 else 0)
unfolding count
count-erase_at t [] k x e = cc
count-erase_at t (y ∷ xs) zero x e = ground arith
count-erase_at t (y ∷ xs) (suc k) x e = ground (arith, count-erase_at t xs k x)

length-erase_at :
    (xs : List ℕ) (k x : ℕ) → get_elem? xs k ≡ some x → length xs ≡ suc (length (erase_at xs k))
length-erase_at [] k x e = cc
length-erase_at (y ∷ xs) zero x e = refl
length-erase_at (y ∷ xs) (suc k) x e = ap suc (length-erase_at xs k x e)

-- No worker has left, or the pool is stopped and its queue empty.
abbrev pub LeftLast : ℕ → Bool → List ℕ → Type 0
LeftLast zero stopped tasks = Unit {0}
LeftLast (suc n) stopped tasks = (stopped ≡ true) × (tasks ≡ [])

-- Tasks start in the order in which they were submitted, each that has started is running or finished,
-- and each worker loops, runs a task or has left.
pub record IsOrderly (p : ThreadPool) : Type 0 where
  pub in_order : p.started ++ p.tasks ≡ p.submitted
  pub once : (t : ℕ) → count t p.started ≡ count t p.running + count t p.finished
  pub workers : p.looping + length p.running + p.exited ≡ p.num_threads
  pub manned : 1 ≤ p.num_threads
  pub left_last : LeftLast p.exited p.stopped p.tasks

new_thread_pool-IsOrderly : (hw n : ℕ) → IsOrderly (new_thread_pool hw n)
unfolding new_thread_pool count
new_thread_pool-IsOrderly hw n = record {
  in_order = refl;
  once = λ t. omega arith;
  workers = omega arith;
  manned = ground arith;
  left_last = tt;
}

LeftLast-open : (n : ℕ) (b : Bool) (ts us : List ℕ) → b ≡ false → LeftLast n b ts → LeftLast n b us
LeftLast-open zero b ts us e l = tt
LeftLast-open (suc n) b ts us e l = cc (l.0)

LeftLast-cons :
    (n : ℕ) (b : Bool) (t : ℕ) (us ts vs : List ℕ) → us ≡ t ∷ ts → LeftLast n b us → LeftLast n b vs
LeftLast-cons zero b t us ts vs e l = tt
LeftLast-cons (suc n) b t us ts vs e l = cc (l.1)

enqueue-IsOrderly :
    (b : Bool) (t : ℕ) (p : ThreadPool)
    → p.stopped ≡ b
    → IsOrderly p
    → IsOrderly (enqueue_unless b t p).0
unfolding enqueue_unless
enqueue-IsOrderly true t p s v = v
enqueue-IsOrderly false t p s v = record {
  in_order = sym (append_assoc p.started p.tasks (t ∷ [])) ∙ ap (λ l. l ++ t ∷ []) v.in_order;
  once = v.once;
  workers = v.workers;
  manned = v.manned;
  left_last = LeftLast-open p.exited p.stopped p.tasks _ s v.left_last;
}

leave-IsOrderly :
    (b : Bool) (p : ThreadPool)
    → p.stopped ≡ b
    → p.tasks ≡ []
    → (p.looping == 0) ≡ false
    → IsOrderly p
    → IsOrderly (leave_if b p)
unfolding leave_if
leave-IsOrderly false p s e l v = v
leave-IsOrderly true p s e l v = record {
  in_order = v.in_order;
  once = v.once;
  workers = ground (arith, v.workers);
  manned = v.manned;
  left_last = (s, e);
}

take_task-IsOrderly :
    (ts : List ℕ) (p : ThreadPool)
    → p.tasks ≡ ts
    → (p.looping == 0) ≡ false
    → IsOrderly p
    → IsOrderly (take_task ts p)
unfolding take_task count
take_task-IsOrderly [] p e l v = leave-IsOrderly p.stopped p refl e l v
take_task-IsOrderly (t ∷ ts) p e l v = record {
  in_order = append_assoc p.started (t ∷ []) ts ∙ ap (◌++◌ p.started) (sym e) ∙ v.in_order;
  once = λ u. ground (arith, v.once u, count-append u p.started (t ∷ []));
  workers = ground (arith, v.workers);
  manned = v.manned;
  left_last = LeftLast-cons p.exited p.stopped t p.tasks ts ts e v.left_last;
}

turn-IsOrderly :
    (b : Bool) (p : ThreadPool) → (p.looping == 0) ≡ b → IsOrderly p → IsOrderly (turn_unless b p)
unfolding turn_unless
turn-IsOrderly true p z v = v
turn-IsOrderly false p z v = take_task-IsOrderly p.tasks p refl z v

end_task-IsOrderly :
    (o : Option ℕ) (k : ℕ) (p : ThreadPool)
    → get_elem? p.running k ≡ o
    → IsOrderly p
    → IsOrderly (end_task o k p)
unfolding end_task count
end_task-IsOrderly none k p e v = v
end_task-IsOrderly (some t) k p e v = record {
  in_order = v.in_order;
  once = λ u. ground (arith, v.once u, count-erase_at u p.running k t e);
  workers = omega (arith, v.workers, length-erase_at p.running k t e);
  manned = v.manned;
  left_last = v.left_last;
}

LeftLast-stop : (n : ℕ) (b : Bool) (ts : List ℕ) → LeftLast n b ts → LeftLast n true ts
LeftLast-stop zero b ts l = tt
LeftLast-stop (suc n) b ts l = (refl, l.1)

step-IsOrderly : (e : Event) (p : ThreadPool) → IsOrderly p → IsOrderly (step e p)
unfolding step enqueue finish_task worker_turn request_stop
step-IsOrderly (enqueues task) p v = enqueue-IsOrderly p.stopped task p refl v
step-IsOrderly (finishes k) p v = end_task-IsOrderly (get_elem? p.running k) k p refl v
step-IsOrderly turns p v = turn-IsOrderly (p.looping == 0) p refl v
step-IsOrderly stops p v = record {
  in_order = v.in_order;
  once = v.once;
  workers = v.workers;
  manned = v.manned;
  left_last = LeftLast-stop p.exited p.stopped p.tasks v.left_last;
}

run-IsOrderly : (es : List Event) (p : ThreadPool) → IsOrderly p → IsOrderly (run es p)
unfolding run
run-IsOrderly [] p v = v
run-IsOrderly (e ∷ es) p v = run-IsOrderly es (step e p) (step-IsOrderly e p v)

-- Over any history of a new pool its tasks start in the order in which they were submitted, a task
-- that has started is running or finished and no task is lost or run twice, each worker loops, runs
-- a task or has left, and no worker leaves before the pool is stopped and its queue empty.
pub history-IsOrderly : (hw n : ℕ) (es : List Event) → IsOrderly (run es (new_thread_pool hw n))
history-IsOrderly hw n es = run-IsOrderly es _ (new_thread_pool-IsOrderly hw n)

all_finished :
    (p : ThreadPool) (t : ℕ)
    → IsOrderly p
    → p.running ≡ []
    → p.tasks ≡ []
    → count t p.finished ≡ count t p.submitted
unfolding count
all_finished p t v r e =
    let same : p.started ≡ p.submitted =
      sym (append-nil p.started) ∙ ap (◌++◌ p.started) (sym e) ∙ v.in_order in
    let once = v.once t in ground (arith, ap (count t) same, ap (count t) r)

no_length : (xs : List ℕ) → length xs ≡ 0 → xs ≡ []
no_length [] e = refl
no_length (x ∷ xs) e = absurd (omega arith)

no_element : (xs : List ℕ) → is_empty xs ≡ true → xs ≡ []
no_element [] e = refl
no_element (x ∷ xs) e = cc

LeftLast-some : (n : ℕ) (b : Bool) (ts : List ℕ) → 1 ≤ n → LeftLast n b ts → ts ≡ []
LeftLast-some zero b ts h l = absurd (omega arith)
LeftLast-some (suc n) b ts h l = l.1

drained :
    (p : ThreadPool) (t : ℕ)
    → IsOrderly p
    → p.exited ≡ p.num_threads
    → count t p.finished ≡ count t p.submitted
drained p t v x =
    all_finished p t v (no_length p.running (omega (arith, v.workers)))
      (LeftLast-some p.exited p.stopped p.tasks (omega (arith, v.manned)) v.left_last)

-- Once every worker of a pool has left its loop, which is what `stop` waits for, each task that was
-- submitted has finished, as often as it was submitted.
pub stopped_drained :
    (hw n : ℕ) (es : List Event) (t : ℕ)
    → (run es (new_thread_pool hw n)).exited ≡ (run es (new_thread_pool hw n)).num_threads
    → count t (run es (new_thread_pool hw n)).finished
      ≡ count t (run es (new_thread_pool hw n)).submitted
stopped_drained hw n es t x =
    drained (run es (new_thread_pool hw n)) t (history-IsOrderly hw n es) x

done_finished :
    (p : ThreadPool) (t : ℕ)
    → IsOrderly p
    → all_done p ≡ true
    → count t p.finished ≡ count t p.submitted
unfolding all_done
done_finished p t v h =
    all_finished p t v (no_length p.running (ground arith)) (no_element p.tasks (ground arith))

-- When the predicate of `wait` holds, each task that was submitted has finished, as often as it was
-- submitted.
pub all_done_finished :
    (hw n : ℕ) (es : List Event) (t : ℕ)
    → all_done (run es (new_thread_pool hw n)) ≡ true
    → count t (run es (new_thread_pool hw n)).finished
      ≡ count t (run es (new_thread_pool hw n)).submitted
all_done_finished hw n es t h =
    done_finished (run es (new_thread_pool hw n)) t (history-IsOrderly hw n es) h

-- The recommended number of threads is at least one; it is below two, which the documentation gives
-- as the least, exactly on a machine with two cores.
pub get_optimal_thread_count-lt_two :
    (hw : ℕ) → (1 ≤ get_optimal_thread_count hw) × ((get_optimal_thread_count hw < 2) ↔ (hw ≡ 2))
unfolding get_optimal_thread_count
get_optimal_thread_count-lt_two hw = (ground arith, ((λ h. ground arith), λ h. ground arith))
