-- ===== src/RateLimit/Redis.antt =====
-- asyncgate/middleware/rate_limit.py: the limiter on a Redis server, and that it decides as the
-- in-memory one does. Redis is a parameter: its commands on sorted sets, and what its manual says of
-- them. That a key is dropped some time after its last call is not modelled.
use async_gate.Prelude.{
  ℕ, ◌+◌, ◌-◌, ◌/◌, ◌≡◌, true, false, ◌&&◌, List, [], ◌∷◌, ◌++◌, Option, none, some, String, str_eq,
  prepend, delete_where, any, all, length, head?, ltb, leb, if◌then◌else◌,
}
use async_gate.RateLimit
use async_gate.RateLimit.{InMemoryRateLimiter, Verdict, second, in_window, reset_at}

-- A sorted set has members, each with a score.
pub record Redis : Type 1 where
  pub State : Type 0
  pub zremrangebyscore : String → ℕ → ℕ → State → State
  pub zcard : String → State → ℕ
  pub zadd : String → String → ℕ → State → State
  pub expire : String → ℕ → State → State
  -- zrange(key, 0, 0, withscores=True)
  pub zrange_first : String → State → Option (String × ℕ)
  pub zrem : String → String → State → State
  pub delete : String → State → State

abbrev pub redis_key : String → String
redis_key key = prepend "ratelimit:" key

-- A range that ends before 0 holds no score.
abbrev pub remove_old : (redis : Redis) → String → ℕ → ℕ → redis.State → redis.State
remove_old redis key window now st =
    if ltb now window then st else redis.zremrangebyscore key 0 (now - window) st

abbrev pub reset_from : Option (String × ℕ) → ℕ → ℕ → ℕ
reset_from none now window = (now + window) / second
reset_from (some (member, oldest)) now window = (oldest + window) / second

-- `text` is `str` on times.
unfoldable pub check_rate_limit :
    (redis : Redis) → (ℕ → String) → redis.State → String → ℕ → ℕ → ℕ → redis.State × Verdict
unfolding prepend
check_rate_limit redis text st key max_calls window now =
    let swept = remove_old redis (redis_key key) window now st in
    let current_calls = redis.zcard (redis_key key) swept in
    let added =
      redis.expire (redis_key key) window (redis.zadd (redis_key key) (text now) now swept) in
    let allowed = ltb current_calls max_calls in
    (
      if allowed then added else redis.zrem (redis_key key) (text now) added,
      record {
        allowed = allowed;
        remaining = max_calls - current_calls - (if allowed then 1 else 0);
        reset_time = reset_from (redis.zrange_first (redis_key key) added) now window;
      },
    )

unfoldable pub reset : (redis : Redis) → redis.State → String → redis.State
unfolding prepend
reset redis st key = redis.delete (redis_key key) st

-- What the manual says of the commands, on the entries of a key in the order of their scores.
pub record IsRedis (redis : Redis) : Type 0 where
  pub entries : String → redis.State → List (String × ℕ)
  pub zremrangebyscore-entries :
      (key k : String) (low high : ℕ) (st : redis.State)
      → entries k (redis.zremrangebyscore key low high st) ≡ (
          if str_eq key k
          then delete_where (λ (e : String × ℕ). leb low e.1 && leb e.1 high) (entries k st)
          else entries k st)
  pub zcard-entries :
      (key : String) (st : redis.State) → redis.zcard key st ≡ length (entries key st)
  -- A member that is new and has the highest score comes last.
  pub zadd-entries :
      (key member : String) (score : ℕ) (st : redis.State)
      → any (λ (e : String × ℕ). str_eq e.0 member) (entries key st) ≡ false
      → all (λ (e : String × ℕ). leb e.1 score) (entries key st) ≡ true
      → entries key (redis.zadd key member score st) ≡ entries key st ++ (member, score) ∷ []
  pub zadd-entries_ne :
      (key k member : String) (score : ℕ) (st : redis.State)
      → str_eq key k ≡ false
      → entries k (redis.zadd key member score st) ≡ entries k st
  pub expire-entries :
      (key k : String) (time : ℕ) (st : redis.State)
      → entries k (redis.expire key time st) ≡ entries k st
  pub zrange_first-entries :
      (key : String) (st : redis.State) → redis.zrange_first key st ≡ head? (entries key st)
  pub zrem-entries :
      (key k member : String) (st : redis.State)
      → entries k (redis.zrem key member st) ≡ (
          if str_eq key k
          then delete_where (λ (e : String × ℕ). str_eq e.0 member) (entries k st)
          else entries k st)

-- The verdicts of a sequence of calls, each with its key and its time.
unfoldable pub verdicts :
    (redis : Redis) → (ℕ → String) → redis.State → ℕ → ℕ → List (String × ℕ) → List Verdict
unfolding check_rate_limit
verdicts redis text st max_calls window [] = []
verdicts redis text st max_calls window ((key, now) ∷ rest) =
    let (st', verdict) = check_rate_limit redis text st key max_calls window now in
    verdict ∷ verdicts redis text st' max_calls window rest

-- And those of the in-memory limiter.
unfoldable pub memory_verdicts : InMemoryRateLimiter → ℕ → ℕ → List (String × ℕ) → List Verdict
unfolding RateLimit.check_rate_limit
memory_verdicts l max_calls window [] = []
memory_verdicts l max_calls window ((key, now) ∷ rest) =
    let (l', verdict) = RateLimit.check_rate_limit l key max_calls window now in
    verdict ∷ memory_verdicts l' max_calls window rest
