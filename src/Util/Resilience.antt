-- ===== src/Util/Resilience.antt =====
-- Retries, the circuit breaker and the timeout guard: src/util/Resilience.h and Resilience.cpp. Times
-- are milliseconds of one clock, passed to each call that reads it. The thresholds, delays and counts
-- are non-negative and do not overflow. The backoff multiplier, a double, is a fraction; 2.0 and 1.5,
-- which the policies use, are exact.
pub mod Breaker
pub mod Retry
use Prim.Native.Nat.{max}
use code_tribunal.Prelude.{
  ℕ, zero, suc, ◌+◌, ◌-◌, ◌*◌, ◌/◌, Bool, true, false, ◌==◌, ltb, leb, Option, none, some, List, [],
  ◌∷◌, ◌++◌, Text, text, is_empty, to_string, if◌then◌else◌,
}

pub record RetryPolicy : Type 0 where
  pub max_attempts : ℕ
  pub initial_delay_ms : ℕ
  pub max_delay_ms : ℕ
  pub multiplier_num : ℕ
  pub multiplier_den : ℕ
  pub jitter_enabled : Bool

abbrev pub aggressive : RetryPolicy
aggressive = record {
  max_attempts = 5;
  initial_delay_ms = 50;
  max_delay_ms = 2000;
  multiplier_num = 2;
  multiplier_den = 1;
  jitter_enabled = true;
}

abbrev pub moderate : RetryPolicy
moderate = record {
  max_attempts = 3;
  initial_delay_ms = 100;
  max_delay_ms = 5000;
  multiplier_num = 2;
  multiplier_den = 1;
  jitter_enabled = true;
}

abbrev pub conservative : RetryPolicy
conservative = record {
  max_attempts = 2;
  initial_delay_ms = 500;
  max_delay_ms = 10000;
  multiplier_num = 3;
  multiplier_den = 2;
  jitter_enabled = false;
}

-- What one call of the function does: return true, return false, or throw.
pub data Attempt : Type 0 where
  succeeds declines : Attempt
  raises : Text → Attempt

abbrev pub is_success : Attempt → Bool
is_success succeeds = true
is_success _ = false

pub record RetryResult : Type 0 where
  pub succeeded : Bool
  pub error_msg : Option Text
  pub delays : List ℕ
  pub calls : ℕ

-- The message is written only where the caller gave a pointer.
abbrev pub store_error : Attempt → Option Text → Option Text
store_error (raises e) (some m) = some e
store_error _ msg = msg

unfoldable pub actual_delay : RetryPolicy → ℕ → ℕ → ℕ
actual_delay policy delay_ms jitter_percent =
    let d = if policy.jitter_enabled then delay_ms * (100 + jitter_percent) / 100 else delay_ms in
    if ltb policy.max_delay_ms d then policy.max_delay_ms else d

abbrev pub exhausted : RetryPolicy → Option Text → Option Text
exhausted policy none = none
exhausted policy (some m) =
    if is_empty m
    then some (text "All " ++ (to_string policy.max_attempts ++ text " retry attempts exhausted"))
    else some m

-- The loop, with the attempts left, the number of the next one and the delay before it is retried.
unfoldable pub retry_loop :
    RetryPolicy → (ℕ → Attempt) → (ℕ → ℕ) → ℕ → ℕ → ℕ → Option Text → RetryResult
unfolding actual_delay
retry_loop policy fn jitter zero attempt delay_ms msg = record {
  succeeded = false;
  error_msg = exhausted policy msg;
  delays = [];
  calls = 0;
}
retry_loop policy fn jitter (suc left) attempt delay_ms msg =
    let next = delay_ms * policy.multiplier_num / policy.multiplier_den in
    let slept = ltb attempt policy.max_attempts in
    let rest =
      retry_loop policy fn jitter left (suc attempt) (if slept then next else delay_ms)
        (store_error (fn attempt) msg) in
    if is_success (fn attempt)
    then record { succeeded = true; error_msg = msg; delays = []; calls = 1 }
    else record rest {
      delays =
          if slept
          then actual_delay policy delay_ms (jitter attempt) ∷ rest.delays
          else rest.delays;
      calls = suc rest.calls;
    }

-- `fn n` is the n-th call of the function, and `jitter n` the random percentage drawn after it.
unfoldable pub retryable : (ℕ → Attempt) → RetryPolicy → (ℕ → ℕ) → Option Text → RetryResult
unfolding retry_loop
retryable fn policy jitter error_msg =
    retry_loop policy fn jitter policy.max_attempts 1 policy.initial_delay_ms error_msg

pub data State : Type 0 where
  closed open_state half_open : State

pub record CircuitBreaker : Type 0 where
  pub failure_threshold : ℕ
  pub recovery_timeout_ms : ℕ
  pub success_threshold : ℕ
  pub state : State
  pub failure_count : ℕ
  pub success_count : ℕ
  pub last_failure_time : ℕ

unfoldable pub new_breaker : ℕ → ℕ → ℕ → CircuitBreaker
new_breaker failure_threshold recovery_timeout_ms success_threshold = record {
  failure_threshold = failure_threshold;
  recovery_timeout_ms = recovery_timeout_ms;
  success_threshold = success_threshold;
  state = closed;
  failure_count = 0;
  success_count = 0;
  last_failure_time = 0;
}

-- The test changes the state, through a `const_cast`, once the timeout has passed.
unfoldable pub is_open : ℕ → CircuitBreaker → CircuitBreaker × Bool
is_open now c = elim c.state [
  | open_state ↦
      if leb (c.last_failure_time + c.recovery_timeout_ms) now
      then (record c { state = half_open; success_count = 0 }, false)
      else (c, true)
  | _ ↦ (c, false)
]

unfoldable pub get_state : CircuitBreaker → Text
get_state c = elim c.state [
  | closed ↦ text "closed"
  | open_state ↦ text "open"
  | half_open ↦ text "half-open"
]

unfoldable pub reset : CircuitBreaker → CircuitBreaker
reset c = record c { state = closed; failure_count = 0; success_count = 0 }

unfoldable pub record_success : CircuitBreaker → CircuitBreaker
record_success c = elim c.state [
  | half_open ↦
      if leb c.success_threshold (c.success_count + 1)
      then record c { success_count = c.success_count + 1; state = closed; failure_count = 0 }
      else record c { success_count = c.success_count + 1 }
  | closed ↦ record c { failure_count = 0 }
  | open_state ↦ c
]

unfoldable pub record_failure : ℕ → CircuitBreaker → CircuitBreaker
record_failure now c = elim c.state [
  | half_open ↦ record c { state = open_state; last_failure_time = now }
  | closed ↦
      if leb c.failure_threshold (c.failure_count + 1)
      then record c {
        failure_count = c.failure_count + 1;
        state = open_state;
        last_failure_time = now;
      }
      else record c { failure_count = c.failure_count + 1 }
  | open_state ↦ c
]

-- A request: when it comes in, whether the function returns, and when it has ended.
pub record Request : Type 0 where
  pub begins : ℕ
  pub returns : Bool
  pub ends : ℕ

pub data CallResult : Type 0 where
  rejected completed failed : CallResult

unfoldable pub call : Request → CircuitBreaker → CircuitBreaker × CallResult
unfolding is_open record_success record_failure
call r c =
    let (c', open_now) = is_open r.begins c in
    if open_now
    then (c', rejected)
    else if r.returns
    then (record_success c', completed)
    else (record_failure r.ends c', failed)

unfoldable pub call_all : List Request → CircuitBreaker → CircuitBreaker
call_all [] c = c
call_all (r ∷ rs) c = call_all rs (call r c).0

pub record TimeoutGuard : Type 0 where
  pub timeout_ms : ℕ
  pub name : Text
  pub start_time : ℕ

unfoldable pub elapsed_ms : ℕ → TimeoutGuard → ℕ
elapsed_ms now g = now - g.start_time

unfoldable pub remaining_ms : ℕ → TimeoutGuard → ℕ
unfolding elapsed_ms
remaining_ms now g = g.timeout_ms - elapsed_ms now g

-- The message of the exception, if the guard throws.
unfoldable pub check : ℕ → TimeoutGuard → Option Text
unfolding elapsed_ms
check now g =
    if ltb g.timeout_ms (elapsed_ms now g)
    then some (g.name ++ (text " exceeded timeout of " ++ (to_string g.timeout_ms ++ text "ms")))
    else none
