-- ===== src/RateLimit/Same.antt =====
-- The two limiters of middleware/rate_limit.py decide alike.
use async_gate.Prelude.{ℕ, suc, ◌≤◌, ◌≡◌, true, List, [], ◌∷◌, String, map, select, all, ltb, leb}
use async_gate.RateLimit
use async_gate.RateLimit.{InMemoryRateLimiter, Verdict, in_window, reset_at}
use async_gate.RateLimit.Redis.{Redis, IsRedis, redis_key, remove_old}
use async_gate.RateLimit.Entries

-- No entry is later.
abbrev Upto : ℕ → InMemoryRateLimiter → Type 0
Upto since l = (key : String) → all (λ t. leb t since) (l.windows key) ≡ true

-- Calls that come one after another, all after the time.
abbrev pub After : ℕ → List (String × ℕ) → Type 0
After since [] = Unit
After since ((key, now) ∷ rest) = (suc since ≤ now) × After now rest

module _ (text : ℕ → String) (distinct : (m n : ℕ) → text m ≡ text n → m ≡ n) where
  -- The server holds of every key what the other limiter holds.
  record Same (redis : Redis) (laws : IsRedis redis) (st : redis.State) (l : InMemoryRateLimiter)
      : Type 0 where
    held :
        (key : String)
        → laws.entries (redis_key key) st ≡ map (Entries.tag text distinct) (l.windows key)

  abbrev Before : ℕ → InMemoryRateLimiter → Type 0
  Before now l = (key : String) → all (λ t. ltb t now) (l.windows key) ≡ true

  module _ (redis : Redis) (laws : IsRedis redis) (st : redis.State) (l : InMemoryRateLimiter)
      (key : String) (max_calls window now : ℕ) (same : Same redis laws st l)
      (before : Before now l) where
    abbrev kept : List ℕ
    kept = select (in_window now window) (l.windows key)

    abbrev swept : redis.State
    swept = remove_old redis (redis_key key) window now st

    abbrev added : redis.State
    added = redis.expire (redis_key key) window (redis.zadd (redis_key key) (text now) now swept)
