-- ===== src/Circuit.antt =====
-- asyncgate/integrations/circuit_breaker.py. Times are in microseconds. The lock is released while
-- the wrapped function runs, so a call is two steps of the breaker, `enter` and one of `on_success`,
-- `on_failure` or nothing, and other calls may come between them; `call` runs them in a row.
pub mod Run
pub mod Safety
pub mod Stuck
use async_gate.Prelude.{
  ℕ, suc, ◌+◌, ◌-◌, ◌*◌, ◌/◌, Bool, true, false, Option, none, some, ltb, leb, if◌then◌else◌,
}

pub data CircuitState : Type 0 where
  closed open_ half_open : CircuitState

pub record CircuitBreakerConfig : Type 0 where
  pub failure_threshold : ℕ
  pub timeout_seconds : ℕ
  pub half_open_max_calls : ℕ
  pub success_threshold : ℕ

-- The breaker's `_state` and `_stats`, whose own `state` field is never read.
pub record CircuitBreaker : Type 0 where
  pub config : CircuitBreakerConfig
  pub open config use *
  pub state : CircuitState
  pub failure_count : ℕ
  pub success_count : ℕ
  pub last_failure_time : Option ℕ
  pub opened_at : Option ℕ
  pub half_open_calls : ℕ
  pub total_calls : ℕ
  pub total_failures : ℕ
  pub total_successes : ℕ

abbrev pub second : ℕ
second = 1_000_000

unfoldable pub new : CircuitBreakerConfig → CircuitBreaker
new config = record {
  config = config;
  state = CircuitState.closed;
  failure_count = 0;
  success_count = 0;
  last_failure_time = none;
  opened_at = none;
  half_open_calls = 0;
  total_calls = 0;
  total_failures = 0;
  total_successes = 0;
}

unfoldable pub transition_to_open : CircuitBreaker → ℕ → CircuitBreaker
transition_to_open b now = record b {
  state = CircuitState.open_;
  opened_at = some now;
  half_open_calls = 0;
}

unfoldable pub transition_to_half_open : CircuitBreaker → CircuitBreaker
transition_to_half_open b = record b {
  state = CircuitState.half_open;
  success_count = 0;
  failure_count = 0;
  half_open_calls = 0;
}

unfoldable pub transition_to_closed : CircuitBreaker → CircuitBreaker
transition_to_closed b = record b {
  state = CircuitState.closed;
  failure_count = 0;
  success_count = 0;
  opened_at = none;
  half_open_calls = 0;
}

-- `now - opened_at >= timeout`, with the subtraction moved to the other side.
unfoldable pub should_attempt_reset : CircuitBreaker → ℕ → Bool
should_attempt_reset b now = elim b.opened_at [
  | none ↦ false
  | some opened ↦ leb (opened + b.timeout_seconds * second) now
]

-- Truncated subtraction is the source's `max(0, …)`, and the division its `int(…)`.
unfoldable pub seconds_until_half_open : CircuitBreaker → ℕ → ℕ
seconds_until_half_open b now = elim b.opened_at [
  | none ↦ b.timeout_seconds
  | some opened ↦ (opened + b.timeout_seconds * second - now) / second
]

-- What the locked part of `call` decides: to run the function, or to turn the call away with the
-- seconds to wait.
pub data Entry : Type 0 where
  proceed : Entry
  reject : ℕ → Entry

-- The second check: the limit on test calls.
unfoldable pub admit : CircuitBreaker → ℕ → CircuitBreaker × Entry
unfolding seconds_until_half_open
admit b now = elim b.state [
  | CircuitState.half_open ↦
      if leb b.half_open_max_calls b.half_open_calls
      then (b, reject (seconds_until_half_open b now))
      else (record b { half_open_calls = b.half_open_calls + 1 }, proceed)
  | _ ↦ (b, proceed)
]

unfoldable pub enter : CircuitBreaker → ℕ → CircuitBreaker × Entry
unfolding admit should_attempt_reset seconds_until_half_open transition_to_half_open
enter breaker now =
    let b : CircuitBreaker = record breaker { total_calls = breaker.total_calls + 1 } in
    elim b.state [
      | CircuitState.open_ ↦
          if should_attempt_reset b now
          then admit (transition_to_half_open b) now
          else (b, reject (seconds_until_half_open b now))
      | _ ↦ admit b now
    ]

unfoldable pub on_success : CircuitBreaker → CircuitBreaker
unfolding transition_to_closed
on_success breaker =
    let b : CircuitBreaker = record breaker {
      success_count = breaker.success_count + 1;
      total_successes = breaker.total_successes + 1;
      failure_count = 0;
    } in
    elim b.state [
      | CircuitState.half_open ↦
          if leb b.success_threshold b.success_count then transition_to_closed b else b
      | _ ↦ b
    ]

unfoldable pub on_failure : CircuitBreaker → ℕ → CircuitBreaker
unfolding transition_to_open
on_failure breaker now =
    let b : CircuitBreaker = record breaker {
      failure_count = breaker.failure_count + 1;
      total_failures = breaker.total_failures + 1;
      success_count = 0;
      last_failure_time = some now;
    } in
    elim b.state [
      | CircuitState.half_open ↦ transition_to_open b now
      | CircuitState.closed ↦
          if leb b.failure_threshold b.failure_count then transition_to_open b now else b
      | CircuitState.open_ ↦ b
    ]

unfoldable pub reset : CircuitBreaker → CircuitBreaker
unfolding transition_to_closed
reset b = transition_to_closed b

-- How the wrapped function ends: it returns, it raises one of the exceptions that are answers, or it
-- raises any other.
pub data Reply (A E : Type 0) : Type 0 where
  returned : A → Reply A E
  answered : E → Reply A E
  raised : E → Reply A E

-- How `call` ends. With a fallback a rejected call runs it, outside this model; without one it
-- raises `CircuitBreakerOpen`.
pub data Called (A E : Type 0) : Type 0 where
  done : A → Called A E
  error : E → Called A E
  rejected : ℕ → Called A E

module _ {A E : Type 0} where
  unfoldable pub finish : CircuitBreaker → Reply A E → ℕ → CircuitBreaker × Called A E
  unfolding on_success on_failure
  finish b (returned a) now = (on_success b, done a)
  finish b (answered e) now = (b, error e)
  finish b (raised e) now = (on_failure b now, error e)

  -- The function starts at `now` and ends at `later`; it is not run when the entry is a rejection.
  unfoldable pub call : CircuitBreaker → ℕ → ℕ → Reply A E → CircuitBreaker × Called A E
  unfolding enter finish
  call b now later reply =
      let (b', entry) = enter b now in
      elim entry [ proceed ↦ finish b' reply later | reject wait ↦ (b', rejected wait) ]
