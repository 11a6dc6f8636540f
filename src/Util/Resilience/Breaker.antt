-- ===== src/Util/Resilience/Breaker.antt =====
-- The circuit breaker over any history of requests (src/util/Resilience.cpp).
use code_tribunal.Prelude.{
  ℕ, suc, ◌+◌, ◌≤◌, ◌<◌, ◌≡◌, refl, ◌∙◌, true, false, List, [], ◌∷◌, All, length, arith,
}
use code_tribunal.Util.Resilience.{
  State, closed, open_state, half_open, CircuitBreaker, Request, rejected, new_breaker, reset, call,
  call_all,
}

-- The counter of the current state is below its threshold.
abbrev BelowThreshold : State → CircuitBreaker → Type 0
BelowThreshold closed c = c.failure_count < c.failure_threshold
BelowThreshold half_open c = c.success_count < c.success_threshold
BelowThreshold open_state c = Unit {0}

pub record IsValid (c : CircuitBreaker) : Type 0 where
  pub below : BelowThreshold c.state c
  pub failures_positive : 1 ≤ c.failure_threshold
  pub successes_positive : 1 ≤ c.success_threshold

pub new_breaker-IsValid : (f t s : ℕ) → 1 ≤ f → 1 ≤ s → IsValid (new_breaker f t s)
unfolding new_breaker
new_breaker-IsValid f t s hf hs = record {
  below = hf;
  failures_positive = hf;
  successes_positive = hs;
}

pub reset-IsValid : (c : CircuitBreaker) → IsValid c → IsValid (reset c)
unfolding reset
reset-IsValid c v = ground arith

pub call-IsValid : (r : Request) (c : CircuitBreaker) → IsValid c → IsValid (call r c).0
unfolding call
call-IsValid r c v = ground arith

-- Whatever requests a new breaker with positive thresholds has met, the counter of its current state
-- is below that state's threshold, and the thresholds are positive.
pub history-IsValid :
    (f t s : ℕ) (rs : List Request) → 1 ≤ f → 1 ≤ s → IsValid (call_all rs (new_breaker f t s))
unfolding call_all
history-IsValid f t s rs hf hs = go rs (new_breaker f t s) (new_breaker-IsValid f t s hf hs)
  where
    go : (rs : List Request) (c : CircuitBreaker) → IsValid c → IsValid (call_all rs c)
    go [] c v = v
    go (r ∷ rs) c v = go rs (call r c).0 (call-IsValid r c v)

abbrev pub Fails : Request → Type 0
Fails r = r.returns ≡ false

abbrev pub Returns : Request → Type 0
Returns r = r.returns ≡ true

closed_failure :
    (r : Request) (c : CircuitBreaker)
    → c.state ≡ closed
    → r.returns ≡ false
    → suc c.failure_count < c.failure_threshold
    → (call r c).0 ≡ record c { failure_count = suc c.failure_count }
unfolding call
closed_failure r c s f h = ground arith

-- A closed breaker stays closed over any run of failing requests too short to bring its failure
-- counter to the threshold, and counts each of them.
pub failures_below_threshold :
    (rs : List Request) (c : CircuitBreaker)
    → c.state ≡ closed
    → All Fails rs
    → c.failure_count + length rs < c.failure_threshold
    → call_all rs c ≡ record c { failure_count = c.failure_count + length rs }
unfolding call_all
failures_below_threshold [] c s a h = ground arith
failures_below_threshold (r ∷ rs) c s a h = rw (closed_failure r c s a.0 (omega arith)) (
    failures_below_threshold rs (record c { failure_count = suc c.failure_count }) s a.1
      (omega arith)
    ∙ ground arith)

-- The failing request that brings the counter of a closed breaker to the threshold opens it, and
-- its end is the time from which the recovery timeout runs.
pub failure_opens :
    (rs : List Request) (r : Request) (c : CircuitBreaker)
    → c.state ≡ closed
    → All Fails rs
    → Fails r
    → c.failure_count + suc (length rs) ≡ c.failure_threshold
    → let c' = (call r (call_all rs c)).0 in
      (c'.state ≡ open_state)
      × (c'.last_failure_time ≡ r.ends)
      × (c'.failure_count ≡ c.failure_threshold)
unfolding call
failure_opens rs r c s a f h = ground (arith, failures_below_threshold rs c s a (omega arith))

-- An open breaker rejects every request before the recovery timeout has passed, and stays as it is.
pub open_rejects :
    (r : Request) (c : CircuitBreaker)
    → c.state ≡ open_state
    → r.begins < c.last_failure_time + c.recovery_timeout_ms
    → call r c ≡ (c, rejected)
unfolding call
open_rejects r c s h = ground arith

half_open_success :
    (r : Request) (c : CircuitBreaker)
    → c.state ≡ half_open
    → r.returns ≡ true
    → suc c.success_count < c.success_threshold
    → (call r c).0 ≡ record c { success_count = suc c.success_count }
unfolding call
half_open_success r c s f h = ground arith

half_open_closes :
    (rs : List Request) (c : CircuitBreaker)
    → c.state ≡ half_open
    → All Returns rs
    → c.success_count < c.success_threshold
    → c.success_count + length rs ≡ c.success_threshold
    → ((call_all rs c).state ≡ closed) × ((call_all rs c).failure_count ≡ 0)
unfolding call_all
half_open_closes [] c s a b h = absurd (omega arith)
half_open_closes (r ∷ []) c s a b h = unfold call in ground arith
half_open_closes (r ∷ q ∷ rs) c s a b h =
    rw (half_open_success r c s a.0 (omega arith), call_all)
      (half_open_closes (q ∷ rs) (record c { success_count = suc c.success_count }) s a.1
        (omega arith) (omega arith))

first_trial :
    (r : Request) (c : CircuitBreaker)
    → c.state ≡ open_state
    → c.last_failure_time + c.recovery_timeout_ms ≤ r.begins
    → (call r c).0 ≡ (call r (record c { state = half_open; success_count = 0 })).0
unfolding call
first_trial r c s h = ground arith

-- An open breaker whose timeout has passed closes after as many successful requests as its success
-- threshold says, with its failure counter reset.
pub recovery_closes :
    (r : Request) (rs : List Request) (c : CircuitBreaker)
    → c.state ≡ open_state
    → c.last_failure_time + c.recovery_timeout_ms ≤ r.begins
    → All Returns (r ∷ rs)
    → suc (length rs) ≡ c.success_threshold
    → ((call_all (r ∷ rs) c).state ≡ closed) × ((call_all (r ∷ rs) c).failure_count ≡ 0)
unfolding call_all
recovery_closes r rs c s h a n =
    rw (first_trial r c s h, call_all)
      (half_open_closes (r ∷ rs) (record c { state = half_open; success_count = 0 }) refl a
        (omega arith) (omega arith))

-- A request that fails while an open breaker is on trial opens it again, from the end of the request.
pub trial_reopens :
    (r : Request) (c : CircuitBreaker)
    → c.state ≡ open_state
    → c.last_failure_time + c.recovery_timeout_ms ≤ r.begins
    → Fails r
    → ((call r c).0.state ≡ open_state) × ((call r c).0.last_failure_time ≡ r.ends)
unfolding call
trial_reopens r c s h f = ground arith
