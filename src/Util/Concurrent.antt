-- ===== src/Util/Concurrent.antt =====
-- The thread pool: src/util/Concurrent.h and Concurrent.cpp. A task is a number. The workers are
-- told apart only by what they do: some stand at the top of their loop, some run a task, some have
-- left the loop. What happens to a pool is a list of events, each of which the code does under the
-- mutex or by one atomic operation; the lists `submitted`, `started` and `finished` record what
-- happened and are read by no operation.
pub mod Tasks
use code_tribunal.Prelude.{
  ℕ, zero, suc, ◌+◌, ◌-◌, Bool, true, false, not, ◌&&◌, ◌==◌, ltb, Option, none, some, List, [],
  ◌∷◌, ◌++◌, length, is_empty, get_elem?, erase_at, if◌then◌else◌,
}

-- `hardware` is `std::thread::hardware_concurrency()`.
unfoldable pub get_cpu_count : ℕ → ℕ
get_cpu_count hardware = if ltb 0 hardware then hardware else 1

unfoldable pub get_optimal_thread_count : ℕ → ℕ
unfolding get_cpu_count
get_optimal_thread_count hardware =
    let count = get_cpu_count hardware in if ltb 1 count then count - 1 else 2

pub record ThreadPool : Type 0 where
  pub num_threads : ℕ
  pub looping : ℕ
  pub running : List ℕ
  pub exited : ℕ
  pub tasks : List ℕ
  pub stopped : Bool
  pub submitted : List ℕ
  pub started : List ℕ
  pub finished : List ℕ

unfoldable pub new_thread_pool : ℕ → ℕ → ThreadPool
unfolding get_optimal_thread_count
new_thread_pool hardware num_threads =
    let n = if num_threads == 0 then get_optimal_thread_count hardware else num_threads in
    record {
      num_threads = n;
      looping = n;
      running = [];
      exited = 0;
      tasks = [];
      stopped = false;
      submitted = [];
      started = [];
      finished = [];
    }

-- `active_tasks_`: incremented when a task is taken, decremented when it has run.
abbrev pub active_tasks : ThreadPool → ℕ
active_tasks p = length p.running

unfoldable pub enqueue_unless : Bool → ℕ → ThreadPool → ThreadPool × Bool
enqueue_unless true task p = (p, false)
enqueue_unless false task p =
    (record p { tasks = p.tasks ++ task ∷ []; submitted = p.submitted ++ task ∷ [] }, true)

-- The result is false if the call throws.
unfoldable pub enqueue : ℕ → ThreadPool → ThreadPool × Bool
unfolding enqueue_unless
enqueue task p = enqueue_unless p.stopped task p

-- The first half of `stop`; the second waits until all workers have left their loops.
unfoldable pub request_stop : ThreadPool → ThreadPool
request_stop p = record p { stopped = true }

unfoldable pub leave_if : Bool → ThreadPool → ThreadPool
leave_if true p = record p { looping = p.looping - 1; exited = suc p.exited }
leave_if false p = p

-- A worker at the top of its loop that holds the mutex: it takes the first task, leaves the loop, or
-- goes on waiting.
unfoldable pub take_task : List ℕ → ThreadPool → ThreadPool
unfolding leave_if
take_task [] p = leave_if p.stopped p
take_task (t ∷ ts) p = record p {
  looping = p.looping - 1;
  running = t ∷ p.running;
  tasks = ts;
  started = p.started ++ t ∷ [];
}

unfoldable pub turn_unless : Bool → ThreadPool → ThreadPool
unfolding take_task
turn_unless true p = p
turn_unless false p = take_task p.tasks p

unfoldable pub worker_turn : ThreadPool → ThreadPool
unfolding turn_unless
worker_turn p = turn_unless (p.looping == 0) p

-- The task at that place among the running ones returns or throws, which is the same to its worker.
unfoldable pub end_task : Option ℕ → ℕ → ThreadPool → ThreadPool
end_task none k p = p
end_task (some t) k p = record p {
  looping = p.looping + 1;
  running = erase_at p.running k;
  finished = t ∷ p.finished;
}

unfoldable pub finish_task : ℕ → ThreadPool → ThreadPool
unfolding end_task
finish_task k p = end_task (get_elem? p.running k) k p

-- The predicate on which `wait` returns.
unfoldable pub all_done : ThreadPool → Bool
all_done p = is_empty p.tasks && active_tasks p == 0

unfoldable pub pending_tasks : ThreadPool → ℕ
pending_tasks p = length p.tasks + active_tasks p

unfoldable pub is_running : ThreadPool → Bool
is_running p = not p.stopped

pub data Event : Type 0 where
  enqueues finishes : ℕ → Event
  turns stops : Event

unfoldable pub step : Event → ThreadPool → ThreadPool
unfolding enqueue finish_task worker_turn request_stop
step (enqueues task) p = (enqueue task p).0
step (finishes k) p = finish_task k p
step turns p = worker_turn p
step stops p = request_stop p

unfoldable pub run : List Event → ThreadPool → ThreadPool
run [] p = p
run (e ∷ es) p = run es (step e p)
