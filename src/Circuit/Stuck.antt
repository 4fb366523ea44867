-- ===== src/Circuit/Stuck.antt =====
-- Answers do not count as successes (circuit_breaker.py, the `non_failure_exceptions` branch of
-- `call`), yet each takes one of the test calls, and only an open breaker looks at the clock.
use async_gate.Prelude.{ℕ, ◌+◌, ◌≤◌, ◌≡◌, refl, List, [], ◌∷◌, arith, length, All, true}
use async_gate.Circuit.{
  CircuitBreaker, CircuitState, should_attempt_reset, Reply, answered, Called, rejected, call,
  enter, reject, seconds_until_half_open,
}

module _ {A E : Type 0} where
  -- Calls one after the other, each with its start, its end and what the function does.
  unfoldable pub calls :
      CircuitBreaker → List (ℕ × ℕ × Reply A E) → CircuitBreaker × List (Called A E)
  unfolding call
  calls b [] = (b, [])
  calls b ((now, later, reply) ∷ rest) =
      let (b', result) = call b now later reply in
      let (b'', results) = calls b' rest in (b'', result ∷ results)

  abbrev pub IsAnswer : ℕ × ℕ × Reply A E → Type 0
  IsAnswer c = (e : E) × (c.2 ≡ answered e)

  abbrev pub IsRejected : Called A E → Type 0
  IsRejected r = (wait : ℕ) × (r ≡ rejected wait)

-- No test call is left.
abbrev pub IsJammed : CircuitBreaker → Type 0
IsJammed b = (b.state ≡ CircuitState.half_open) × (b.half_open_max_calls ≤ b.half_open_calls)

enter-IsJammed :
    (b : CircuitBreaker) (now : ℕ)
    → b.state ≡ CircuitState.half_open
    → b.half_open_max_calls ≤ b.half_open_calls
    → enter b now
      ≡ (record b { total_calls = b.total_calls + 1 }, reject (seconds_until_half_open b now))
unfolding enter
enter-IsJammed b now h k = ground arith

module _ {A E : Type 0} where
  call-IsJammed :
      (b : CircuitBreaker) (now later : ℕ) (reply : Reply A E)
      → IsJammed b
      → IsJammed (call b now later reply).0 × IsRejected (call b now later reply).1
  unfolding call
  call-IsJammed b now later reply (h, k) =
      (ground arith, (seconds_until_half_open b now, ground (arith, enter-IsJammed b now h k)))

  pub calls-IsJammed :
      (b : CircuitBreaker) (cs : List (ℕ × ℕ × Reply A E))
      → IsJammed b
      → IsJammed (calls b cs).0 × All IsRejected (calls b cs).1
  unfolding calls
  calls-IsJammed b [] h = (h, tt)
  calls-IsJammed b ((now, later, reply) ∷ rest) h =
      let one = call-IsJammed b now later reply h in
      let more = calls-IsJammed (call b now later reply).0 rest one.0 in (more.0, (one.1, more.1))

-- The breaker after one more test call that was answered.
abbrev probed : CircuitBreaker → CircuitBreaker
probed b = record b { total_calls = b.total_calls + 1; half_open_calls = b.half_open_calls + 1 }

module _ (A : Type 0) {E : Type 0} where
  -- An answer takes one test call of a half-open breaker, and changes nothing else that it looks at.
  call-answered :
      (b : CircuitBreaker) (now later : ℕ) (e : E)
      → b.state ≡ CircuitState.half_open
      → b.half_open_calls + 1 ≤ b.half_open_max_calls
      → (call {A = A} b now later (answered e)).0 ≡ probed b
  unfolding call
  call-answered b now later e h k = ground arith

  call-first :
      (b : CircuitBreaker) (now later : ℕ) (e : E)
      → b.state ≡ CircuitState.open_
      → should_attempt_reset b now ≡ true
      → 1 ≤ b.half_open_max_calls
      → (call {A = A} b now later (answered e)).0 ≡ record b {
        state = CircuitState.half_open;
        success_count = 0;
        failure_count = 0;
        half_open_calls = 1;
        total_calls = b.total_calls + 1;
      }
  unfolding call
  call-first b now later e h t k = ground arith

module _ {A E : Type 0} where
  answers-IsJammed :
      (b : CircuitBreaker) (cs : List (ℕ × ℕ × Reply A E))
      → b.state ≡ CircuitState.half_open
      → All IsAnswer cs
      → length cs + b.half_open_calls ≡ b.half_open_max_calls
      → IsJammed (calls b cs).0
  unfolding calls
  answers-IsJammed b [] h a n = (h, omega arith)
  answers-IsJammed b ((now, later, reply) ∷ rest) h ((e, r), a) n = rw r (
      rw (call-answered A b now later e h (omega arith))
        (answers-IsJammed (probed b) rest h a (omega arith)))

  -- An open breaker whose timeout has passed, and then as many answers as it allows test calls: from
  -- then on it rejects every call, whenever it comes and whatever the dependency would have done.
  pub answers_jam :
      (b : CircuitBreaker) (now later : ℕ) (reply : Reply A E) (cs ds : List (ℕ × ℕ × Reply A E))
      → b.state ≡ CircuitState.open_
      → should_attempt_reset b now ≡ true
      → All IsAnswer ((now, later, reply) ∷ cs)
      → length cs + 1 ≡ b.half_open_max_calls
      → All IsRejected (calls (calls b ((now, later, reply) ∷ cs)).0 ds).1
  unfolding calls
  answers_jam b now later reply cs ds h t ((e, r), a) n =
      (calls-IsJammed _ ds (
        rw r (
          rw (call-first A b now later e h t (omega arith))
            (answers-IsJammed _ cs refl a (omega arith))))).1
