-- ===== src/Circuit/Run.antt =====
-- Interleaved calls of one breaker (circuit_breaker.py): the steps that they make, in any order.
use async_gate.Prelude.{ℕ, List, [], ◌∷◌}
use async_gate.Circuit.{CircuitBreaker, enter, on_success, on_failure}

-- One step: a call enters, or one that had entered ends.
pub data Event : Type 0 where
  enters : ℕ → Event
  succeeds : Event
  answers : Event
  fails : ℕ → Event

unfoldable pub step : CircuitBreaker → Event → CircuitBreaker
step b (enters now) = (enter b now).0
step b succeeds = on_success b
step b answers = b
step b (fails now) = on_failure b now

unfoldable pub run : CircuitBreaker → List Event → CircuitBreaker
unfolding step
run b [] = b
run b (e ∷ es) = run (step b e) es
