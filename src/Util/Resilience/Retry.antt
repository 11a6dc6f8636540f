-- ===== src/Util/Resilience/Retry.antt =====
-- What a retried call returns, how often it sleeps and for how long (src/util/Resilience.cpp).
use mathlib.Core.Option
use code_tribunal.Prelude.{
  ℕ, zero, suc, ◌+◌, ◌-◌, ◌*◌, ◌/◌, ◌≤◌, ◌≡◌, refl, ◌⊎◌, inl, inr, Bool, true, false, ltb, Option,
  none, some, [], ◌∷◌, Text, All, length, is_empty, arith, if◌then◌else◌, Bool-cases,
}
use code_tribunal.Util.Resilience.{
  RetryPolicy, Attempt, raises, is_success, store_error, actual_delay, retry_loop, retryable,
}

-- The number of the first call that succeeds, among so many from `attempt` on.
unfoldable pub first_success : (ℕ → Attempt) → ℕ → ℕ → Option ℕ
first_success fn attempt zero = none
first_success fn attempt (suc left) =
    let rest = first_success fn (suc attempt) left in
    if is_success (fn attempt) then some attempt else rest

abbrev pub is_some : Option ℕ → Bool
is_some none = false
is_some (some n) = true

abbrev pub or_else : Option ℕ → ℕ → ℕ
or_else none d = d
or_else (some n) d = n

loop_calls :
    (policy : RetryPolicy) (fn : ℕ → Attempt) (jitter : ℕ → ℕ) (left attempt delay : ℕ)
    (msg : Option Text)
    → let r = retry_loop policy fn jitter left attempt delay msg in
      let first = first_success fn attempt left in
      (r.succeeded ≡ is_some first)
      × (attempt + r.calls ≡ or_else (Option.map suc first) (attempt + left))
unfolding retry_loop first_success
loop_calls policy fn jitter zero attempt delay msg = (refl, omega arith)
loop_calls policy fn jitter (suc left) attempt delay msg = ground (
  arith,
  loop_calls policy fn jitter left (suc attempt)
      (if ltb attempt policy.max_attempts
        then delay * policy.multiplier_num / policy.multiplier_den
        else delay)
      (store_error (fn attempt) msg),
)

-- A retried call succeeds exactly if one of its first `max_attempts` calls does; it makes the calls
-- up to the first that succeeds, or all of them.
pub retryable-first_success :
    (fn : ℕ → Attempt) (policy : RetryPolicy) (jitter : ℕ → ℕ) (msg : Option Text)
    → let r = retryable fn policy jitter msg in
      let first = first_success fn 1 policy.max_attempts in
      (r.succeeded ≡ is_some first) × (r.calls ≡ or_else first policy.max_attempts)
unfolding retryable
retryable-first_success fn policy jitter msg =
    ground (arith, loop_calls policy fn jitter policy.max_attempts 1 policy.initial_delay_ms msg)

actual_delay-le : (policy : RetryPolicy) (d j : ℕ) → actual_delay policy d j ≤ policy.max_delay_ms
unfolding actual_delay
actual_delay-le policy d j = ground arith

-- No more than the cap, and one sleep between two calls.
loop_delays :
    (policy : RetryPolicy) (fn : ℕ → Attempt) (jitter : ℕ → ℕ) (left attempt delay : ℕ)
    (msg : Option Text)
    → attempt + left ≡ suc policy.max_attempts
    → let r = retry_loop policy fn jitter left attempt delay msg in
      All (λ d. d ≤ policy.max_delay_ms) r.delays
      × (r.calls - 1 ≡ length r.delays)
      × ((left ≡ 0) ⊎ (1 ≤ r.calls))
unfolding retry_loop
loop_delays policy fn jitter zero attempt delay msg h = (tt, refl, inl refl)
loop_delays policy fn jitter (suc left) attempt delay msg h = ground (
  arith,
  actual_delay-le policy delay (jitter attempt),
  loop_delays policy fn jitter left (suc attempt)
      (if ltb attempt policy.max_attempts
        then delay * policy.multiplier_num / policy.multiplier_den
        else delay)
      (store_error (fn attempt) msg),
)

-- No sleep of a retried call is longer than the cap of the policy, and it sleeps once between any two
-- calls of the function and at no other time.
pub retryable-delays :
    (fn : ℕ → Attempt) (policy : RetryPolicy) (jitter : ℕ → ℕ) (msg : Option Text)
    → let r = retryable fn policy jitter msg in
      All (λ d. d ≤ policy.max_delay_ms) r.delays × (r.calls - 1 ≡ length r.delays)
unfolding retryable
retryable-delays fn policy jitter msg =
    let d =
      loop_delays policy fn jitter policy.max_attempts 1 policy.initial_delay_ms msg
        (omega arith) in
    (d.0, d.1)

stored_text : Attempt → Text → Text
stored_text (raises e) m = e
stored_text _ m = m

store_error-some : (a : Attempt) (m : Text) → store_error a (some m) ≡ some (stored_text a m)
unfolding stored_text
store_error-some (raises e) m = refl
store_error-some _ m = refl

true_is_not_false : true ≡ false → ⊥
true_is_not_false e = cc

loop_error :
    (policy : RetryPolicy) (fn : ℕ → Attempt) (jitter : ℕ → ℕ) (left attempt delay : ℕ) (m : Text)
    → (retry_loop policy fn jitter left attempt delay (some m)).succeeded ≡ false
    → (e : Text) × ((retry_loop policy fn jitter left attempt delay (some m)).error_msg ≡ some e)
      × (is_empty e ≡ false)
unfolding retry_loop
loop_error policy fn jitter zero attempt delay [] h = (_, refl, refl)
loop_error policy fn jitter zero attempt delay (c ∷ m) h = (c ∷ m, refl, refl)
loop_error policy fn jitter (suc left) attempt delay m h =
    elim (Bool-cases (is_success (fn attempt))) [
      | inl t ↦ absurd (true_is_not_false (rw t at h))
      | inr f ↦
          rw (f, store_error-some (fn attempt) m)
            (loop_error policy fn jitter left (suc attempt) _ (stored_text (fn attempt) m)
              (rw (f, store_error-some (fn attempt) m) at h))
    ]

-- If a retried call fails and the caller asked for the message, the message is not empty.
pub retryable-error_msg :
    (fn : ℕ → Attempt) (policy : RetryPolicy) (jitter : ℕ → ℕ) (m : Text)
    → (retryable fn policy jitter (some m)).succeeded ≡ false
    → (e : Text) × ((retryable fn policy jitter (some m)).error_msg ≡ some e) × (is_empty e ≡ false)
unfolding retryable
retryable-error_msg fn policy jitter m h =
    loop_error policy fn jitter policy.max_attempts 1 policy.initial_delay_ms m h
