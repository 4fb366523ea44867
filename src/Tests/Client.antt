-- ===== src/Tests/Client.antt =====
-- The breaker, the limiter and the ledger's client at concrete states.
use async_gate.Prelude.{
  ℕ, ◌+◌, ◌-◌, ◌*◌, ◌/◌, ◌≤◌, ◌≡◌, refl, List, [], ◌∷◌, ◌++◌, map, none, some, String, arith, All,
  str_eq_iff,
}
use async_gate.Models.Json.{Json, Fields, end, field}
use async_gate.Circuit
use async_gate.Circuit.{
  CircuitBreaker, CircuitBreakerConfig, CircuitState, Reply, answered, raised, enter, reject,
  second,
}
use async_gate.Circuit.Run.{Event, enters, succeeds, answers, fails}
use async_gate.Circuit.Run
use async_gate.Circuit.Safety
use async_gate.Circuit.Stuck
use async_gate.RateLimit
use async_gate.RateLimit.Window
use async_gate.Store.{Store, ReceiptGateClient, BufferedReceipt, after}
use async_gate.Client.{emit_receipt}
use async_gate.Client.Buffer.{retry_delay_seconds}
use async_gate.Client.Replay.{replay_buffered_receipts}
use async_gate.Client.Accounts
use async_gate.Client.Accounts.{total}
use async_gate.Invariant.Verdicts
use async_gate.Tests.Server.{settings, client, start}

abbrev config : CircuitBreakerConfig
config = record {
  failure_threshold = 3;
  timeout_seconds = 60;
  half_open_max_calls = 2;
  success_threshold = 2;
}

abbrev opened : CircuitBreaker
opened = record (Circuit.new config) { state = CircuitState.open_; opened_at = some 5_000_000 }

open_rejects_example :
    ((Run.run opened (enters 9_000_000 ∷ answers ∷ fails 9_500_000 ∷ [])).state
      ≡ CircuitState.open_)
    × ((enter (Run.run opened (enters 9_000_000 ∷ answers ∷ fails 9_500_000 ∷ [])) 10_000_000).1
        ≡ reject ((5_000_000 + 60 * second - 10_000_000) / second))
unfolding Circuit.new
open_rejects_example =
    Safety.open_rejects opened 5_000_000 10_000_000
      (enters 9_000_000 ∷ answers ∷ fails 9_500_000 ∷ []) refl refl (omega arith, (tt, (tt, tt)))
      (omega arith)

failures_open_example :
    ((Run.run (Circuit.new config) (map fails (1 ∷ 2 ∷ []))).state ≡ CircuitState.closed)
    × ((Run.run (Circuit.new config) (map fails (1 ∷ 2 ∷ []) ++ fails 3 ∷ [])).state
        ≡ CircuitState.open_)
    × ((Run.run (Circuit.new config) (map fails (1 ∷ 2 ∷ []) ++ fails 3 ∷ [])).opened_at ≡ some 3)
unfolding Circuit.new
failures_open_example = Safety.failures_open (Circuit.new config) (1 ∷ 2 ∷ []) 3 refl refl

run-new-IsValid_example :
    Safety.IsValid (Run.run (Circuit.new config) (enters 1 ∷ fails 2 ∷ enters 3 ∷ succeeds ∷ []))
run-new-IsValid_example =
    Safety.run-new-IsValid config (enters 1 ∷ fails 2 ∷ enters 3 ∷ succeeds ∷ [])

-- Two refusals use up the two test calls; a third call finds no place, and so does every later one.
abbrev refusals : List (ℕ × ℕ × Reply ℕ String)
refusals = (66_000_000, 66_100_000, answered "refused") ∷ []

abbrev later_calls : List (ℕ × ℕ × Reply ℕ String)
later_calls =
    (70_000_000, 70_100_000, answered "refused")
    ∷ (9_000_000_000, 9_000_100_000, raised "down")
    ∷ []

answers_jam_example :
    All Stuck.IsRejected
      (Stuck.calls
        (Stuck.calls opened ((65_000_000, 65_100_000, answered "refused") ∷ refusals)).0
        later_calls).1
unfolding Circuit.new Circuit.should_attempt_reset
answers_jam_example =
    Stuck.answers_jam opened 65_000_000 65_100_000 (answered "refused") refusals later_calls refl
      refl (("refused", refl), (("refused", refl), tt)) refl

abbrev hits : List (String × ℕ)
hits = ("a", 1_000_000) ∷ ("b", 1_500_000) ∷ ("a", 2_000_000) ∷ ("a", 3_000_000) ∷ []

passed-within-le_example :
    Window.within 4_000_000 60_000_000 (RateLimit.passed RateLimit.new 2 60_000_000 "a" hits []) ≤ 2
passed-within-le_example =
    Window.passed-within-le 2 60_000_000 1_000_000 4_000_000 "a" hits
      (omega arith, (omega arith, (omega arith, (omega arith, tt))))

windows-check_ne_example :
    (RateLimit.check_rate_limit RateLimit.new "a" 2 60_000_000 1_000_000).0.windows "b"
    ≡ RateLimit.new.windows "b"
windows-check_ne_example =
    Window.windows-check_ne RateLimit.new "a" "b" 2 60_000_000 1_000_000
      (λ e. ground (arith, (str_eq_iff "a" "b").1 e))

abbrev item : ℕ → BufferedReceipt
item id = record {
  buffer_id = id;
  receipt = field "phase" (Json.str "complete") end;
  queued_at = 5;
  next_retry_at = 5;
  retry_count = 0;
  last_error = none;
}

-- A full buffer, for the capacity of the settings.
abbrev full : ReceiptGateClient
full = record client { buffered_receipts = item 1 ∷ item 2 ∷ [] }

retry_delay-bounds_example :
    (1 ≤ retry_delay_seconds settings 2)
    × (retry_delay_seconds settings 5 ≤ 3600)
    × (retry_delay_seconds settings 2 ≤ retry_delay_seconds settings 5)
retry_delay-bounds_example = Accounts.retry_delay-bounds settings 2 5 (omega arith)

abbrev waiting : Store
waiting = record start { client = full }

replay-total_example :
    total (after (replay_buffered_receipts 10 waiting)).client ≡ total waiting.client
replay-total_example = Accounts.replay-total 10 waiting

abbrev completion : Fields
completion = field "phase" (Json.str "complete") end

abbrev unheard : Store
unheard = after (emit_receipt completion start)
