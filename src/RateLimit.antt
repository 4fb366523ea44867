-- ===== src/RateLimit.antt =====
-- asyncgate/middleware/rate_limit.py: the in-memory limiter. Times and windows are in microseconds,
-- and the dictionary of windows is a function, which is `[]` on a key that was never used.
pub mod Window
pub mod Redis
pub mod Entries
pub mod Same
pub mod Front
pub mod Requests
use async_gate.Prelude.{
  ℕ, ◌+◌, ◌-◌, ◌/◌, Bool, ◌&&◌, List, [], ◌∷◌, ◌++◌, String, str_eq, select, length, ltb,
  if◌then◌else◌,
}

pub record InMemoryRateLimiter : Type 0 where
  pub windows : String → List ℕ

unfoldable pub new : InMemoryRateLimiter
new = record { windows = λ key. [] }

-- `(allowed, remaining, reset_time)`
pub record Verdict : Type 0 where
  pub allowed : Bool
  pub remaining : ℕ
  pub reset_time : ℕ

abbrev pub second : ℕ
second = 1_000_000

abbrev put_window : InMemoryRateLimiter → String → List ℕ → InMemoryRateLimiter
put_window l key window = record { windows = λ k. if str_eq key k then window else l.windows k }

-- `ts > now - window_seconds`, with the subtraction moved to the other side.
abbrev pub in_window : ℕ → ℕ → ℕ → Bool
in_window now window ts = ltb now (ts + window)

unfoldable pub reset_at : List ℕ → ℕ → ℕ → ℕ
reset_at [] now window = (now + window) / second
reset_at (oldest ∷ rest) now window = (oldest + window) / second

unfoldable pub check_rate_limit :
    InMemoryRateLimiter → String → ℕ → ℕ → ℕ → InMemoryRateLimiter × Verdict
unfolding reset_at select
check_rate_limit l key max_calls window now =
    let kept = select (in_window now window) (l.windows key) in
    let current_calls = length kept in
    let allowed = ltb current_calls max_calls in
    (
      put_window l key (if allowed then kept ++ now ∷ [] else kept),
      record {
        allowed = allowed;
        remaining = max_calls - current_calls - (if allowed then 1 else 0);
        reset_time = reset_at kept now window;
      },
    )

unfoldable pub reset : InMemoryRateLimiter → String → InMemoryRateLimiter
reset l key = put_window l key []

-- The calls of one endpoint, each with its key and its time.
unfoldable pub serve : InMemoryRateLimiter → ℕ → ℕ → List (String × ℕ) → InMemoryRateLimiter
unfolding check_rate_limit
serve l max_calls window [] = l
serve l max_calls window ((key, now) ∷ rest) =
    serve (check_rate_limit l key max_calls window now).0 max_calls window rest

-- The times at which the calls with this key were let through, the latest first, before those in
-- the last argument.
unfoldable pub passed : InMemoryRateLimiter → ℕ → ℕ → String → List (String × ℕ) → List ℕ → List ℕ
unfolding check_rate_limit
passed l max_calls window k [] log = log
passed l max_calls window k ((key, now) ∷ rest) log =
    let (l', verdict) = check_rate_limit l key max_calls window now in
    passed l' max_calls window k rest (if str_eq key k && verdict.allowed then now ∷ log else log)
