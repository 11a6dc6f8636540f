-- ===== src/Util/Examples.antt =====
-- The theorems on the utilities at concrete inputs.
use code_tribunal.Prelude.{
  ℕ, zero, suc, ◌≡◌, refl, sym, ap, true, false, some, none, length, ◌++◌, List, [], ◌∷◌, text,
  arith,
}
use code_tribunal.Util.Resilience.{
  Attempt, succeeds, declines, raises, moderate, retryable, Request, CircuitBreaker, call_all,
  open_state, closed,
}
use code_tribunal.Util.Resilience.Retry.{first_success, retryable-first_success}
use code_tribunal.Util.Resilience.Breaker.{recovery_closes}
use code_tribunal.Util.Concurrent.{Event, enqueues, finishes, turns, stops, new_thread_pool, run}
use code_tribunal.Util.Concurrent.Tasks.{count, IsOrderly, history-IsOrderly, stopped_drained}
use code_tribunal.Util.Concurrent.{step}
use mathlib.Core.List.{append-nil, append_assoc}
use code_tribunal.Util.Hash.{Openssl, sha256, sha256_file}
use code_tribunal.Util.Hash.Chunked.{sha256_file-sha256}

-- The second call succeeds.
abbrev second : ℕ → Attempt
second zero = declines
second (suc zero) = raises (text "refused")
second (suc (suc n)) = succeeds

retryable-first_success_example :
    let r = retryable second moderate (λ n. n) none in (r.succeeded ≡ true) × (r.calls ≡ 2)
unfolding first_success
retryable-first_success_example = retryable-first_success second moderate (λ n. n) none

abbrev failing : Request
failing = record { begins = 5; returns = false; ends = 9 }

abbrev passing : Request
passing = record { begins = 60; returns = true; ends = 61 }

abbrev tripped : CircuitBreaker
tripped = record {
  failure_threshold = 2;
  recovery_timeout_ms = 50;
  success_threshold = 2;
  state = open_state;
  failure_count = 2;
  success_count = 0;
  last_failure_time = 9;
}

recovery_closes_example :
    ((call_all (passing ∷ passing ∷ []) tripped).state ≡ closed)
    × ((call_all (passing ∷ passing ∷ []) tripped).failure_count ≡ 0)
recovery_closes_example =
    recovery_closes passing (passing ∷ []) tripped refl (omega arith) (refl, (refl, tt)) refl

-- One worker takes two tasks, finishes them and leaves.
abbrev events : List Event
events = enqueues 7 ∷ enqueues 8 ∷ turns ∷ finishes 0 ∷ turns ∷ finishes 0 ∷ stops ∷ turns ∷ []

history-IsOrderly_example : IsOrderly (run events (new_thread_pool 4 1))
history-IsOrderly_example = history-IsOrderly 4 1 events

stopped_drained_example :
    count 8 (run events (new_thread_pool 4 1)).finished
    ≡ count 8 (run events (new_thread_pool 4 1)).submitted
unfolding run new_thread_pool step
stopped_drained_example = stopped_drained 4 1 events 8 refl

-- A context is the bytes that it was given, and their number stands for the hash.
abbrev counting : Openssl (List ℕ)
counting = record {
  new_context = some [];
  digest_init = λ c. some [];
  digest_update = λ c bytes. some (c ++ bytes);
  digest_final = λ c. some (length c ∷ []);
}

sha256_file-sha256_example :
    sha256_file counting (text "a.c") (some (text "int main;")) ≡ sha256 counting (text "int main;")
sha256_file-sha256_example =
    sha256_file-sha256 counting (λ c. ap some (append-nil c))
      (λ c a b. ap some (sym (append_assoc c a b))) (text "a.c") (text "int main;")
