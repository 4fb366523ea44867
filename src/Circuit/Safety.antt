-- ===== src/Circuit/Safety.antt =====
-- Laws of the breaker (circuit_breaker.py).
use async_gate.Prelude.{
  ℕ, ◌+◌, ◌-◌, ◌*◌, ◌/◌, ◌≤◌, ◌<◌, ◌≡◌, ◌≢◌, ◌⊎◌, none, some, List, [], ◌∷◌, ◌++◌, map, arith, refl,
  length, All,
}
use async_gate.Circuit.{
  CircuitBreakerConfig, CircuitBreaker, CircuitState, reject, second, new, enter, on_success,
  on_failure,
}
use async_gate.Circuit.Run.{Event, enters, succeeds, answers, fails, step, run}

-- Below its threshold while closed, and within its test calls while half open.
pub record IsValid (b : CircuitBreaker) : Type 0 where
  pub below_threshold :
      b.state ≡ CircuitState.closed
      → (b.failure_count ≡ 0) ⊎ (b.failure_count < b.failure_threshold)
  pub probes_bounded : b.half_open_calls ≤ b.half_open_max_calls
  pub probing_only : b.state ≢ CircuitState.half_open → b.half_open_calls ≡ 0
  pub open_since : b.state ≡ CircuitState.open_ → b.opened_at ≢ none
  pub closed_never : b.state ≡ CircuitState.closed → b.opened_at ≡ none
  pub successes_short :
      b.state ≡ CircuitState.half_open
      → (b.success_count ≡ 0) ⊎ (b.success_count < b.success_threshold)

new-IsValid : (c : CircuitBreakerConfig) → IsValid (new c)
unfolding new
new-IsValid c = ground arith

step-IsValid : (b : CircuitBreaker) (e : Event) → IsValid b → IsValid (step b e)
unfolding step enter on_success on_failure
step-IsValid b (enters now) v = ground arith
step-IsValid b succeeds v = ground arith
step-IsValid b answers v = v
step-IsValid b (fails now) v = ground arith

run-IsValid : (b : CircuitBreaker) (es : List Event) → IsValid b → IsValid (run b es)
unfolding run
run-IsValid b [] v = v
run-IsValid b (e ∷ es) v = run-IsValid (step b e) es (step-IsValid b e v)

-- After any interleaving of calls from the start: a closed breaker is below its failure threshold
-- (or has no failure at all) and has no opening time, an open one has an opening time, a half-open
-- one is below its success threshold (or has no success), test calls never pass their limit, and
-- none is counted outside the half-open state.
pub run-new-IsValid : (c : CircuitBreakerConfig) (es : List Event) → IsValid (run (new c) es)
run-new-IsValid c es = run-IsValid (new c) es (new-IsValid c)

run-append : (b : CircuitBreaker) (es fs : List Event) → run b (es ++ fs) ≡ run (run b es) fs
unfolding run
run-append b [] fs = refl
run-append b (e ∷ es) fs = run-append (step b e) es fs

-- Failures below the threshold only count up.
failures-closed :
    (b : CircuitBreaker) (ts : List ℕ)
    → b.state ≡ CircuitState.closed
    → b.failure_count + length ts < b.failure_threshold
    → ((run b (map fails ts)).state ≡ CircuitState.closed)
      × ((run b (map fails ts)).failure_count ≡ b.failure_count + length ts)
      × ((run b (map fails ts)).failure_threshold ≡ b.failure_threshold)
unfolding run
failures-closed b [] h n = (h, omega arith, refl)
failures-closed b (t ∷ ts) h n =
    ground (arith, failure-closed b t h, failures-closed (step b (fails t)) ts)
  where
    failure-closed :
        (b : CircuitBreaker) (t : ℕ)
        → b.state ≡ CircuitState.closed
        → b.failure_count + 1 < b.failure_threshold
        → ((step b (fails t)).state ≡ CircuitState.closed)
          × ((step b (fails t)).failure_count ≡ b.failure_count + 1)
          × ((step b (fails t)).failure_threshold ≡ b.failure_threshold)
    failure-closed b t h n = unfold step on_failure in ground arith

-- The failure that reaches the threshold of a closed breaker opens it at its own time, and the
-- breaker is closed up to there.
pub failures_open :
    (b : CircuitBreaker) (ts : List ℕ) (t : ℕ)
    → b.state ≡ CircuitState.closed
    → b.failure_count + length ts + 1 ≡ b.failure_threshold
    → ((run b (map fails ts)).state ≡ CircuitState.closed)
      × ((run b (map fails ts ++ fails t ∷ [])).state ≡ CircuitState.open_)
      × ((run b (map fails ts ++ fails t ∷ [])).opened_at ≡ some t)
failures_open b ts t h n =
    let low = failures-closed b ts h (omega arith) in
    rw (run-append b (map fails ts) (fails t ∷ []))
      (unfold run step on_failure in ground (arith, low))

-- A call that enters at or after the limit is the only step that can end the open state.
abbrev pub EntersBefore : ℕ → Event → Type 0
EntersBefore limit (enters now) = now < limit
EntersBefore limit _ = Unit

open-step :
    (b : CircuitBreaker) (t : ℕ) (e : Event)
    → b.state ≡ CircuitState.open_
    → b.opened_at ≡ some t
    → EntersBefore (t + b.timeout_seconds * second) e
    → ((step b e).state ≡ CircuitState.open_)
      × ((step b e).opened_at ≡ some t)
      × ((step b e).timeout_seconds ≡ b.timeout_seconds)
unfolding step enter on_success on_failure
open-step b t (enters now) h o k = ground arith
open-step b t succeeds h o k = ground arith
open-step b t answers h o k = ground arith
open-step b t (fails now) h o k = ground arith

-- A breaker that opened at `t` stays open and turns every call away, with the whole seconds that are
-- left, until its timeout has passed: whatever the calls under way report meanwhile.
pub open_rejects :
    (b : CircuitBreaker) (t now : ℕ) (es : List Event)
    → b.state ≡ CircuitState.open_
    → b.opened_at ≡ some t
    → All (EntersBefore (t + b.timeout_seconds * second)) es
    → now < t + b.timeout_seconds * second
    → ((run b es).state ≡ CircuitState.open_)
      × ((enter (run b es) now).1 ≡ reject ((t + b.timeout_seconds * second - now) / second))
unfolding run
open_rejects b t now [] h o k l = (h, unfold enter in ground arith)
open_rejects b t now (e ∷ es) h o (k, ks) l =
    let (h', o', c) = open-step b t e h o k in
    rw c at (open_rejects (step b e) t now es h' o' (rw c ks) (rw c l))
