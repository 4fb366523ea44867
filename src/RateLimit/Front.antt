-- ===== src/RateLimit/Front.antt =====
-- asyncgate/middleware/rate_limit.py: RateLimiter, which counts a request under a key and refuses it
-- where its backend says so. The time is read once.
use async_gate.Prelude.{
  ℕ, ◌-◌, ◌*◌, ◌/◌, Bool, true, false, ◌||◌, Option, List, [], ◌∷◌, String, str_eq, prepend,
  take_text, is_text, text_or, get_or, if◌then◌else◌,
}
use async_gate.Models.Auth.{Environment}
use async_gate.Auth.Deps.{header_key}
use async_gate.RateLimit
use async_gate.RateLimit.{InMemoryRateLimiter, Verdict, second}
use async_gate.RateLimit.Redis
use async_gate.RateLimit.Redis.{Redis}

pub record RateLimitRule : Type 0 where
  pub calls : ℕ
  pub window_seconds : ℕ
  pub key_prefix : String

-- What the limiter reads of the settings (config.py).
pub record LimiterSettings : Type 0 where
  pub env : Environment
  pub allow_insecure_dev : Bool
  pub rate_limit_enabled : Bool
  pub rate_limit_backend : String
  pub redis_url : Option String
  pub rate_limit_default_calls : ℕ
  pub rate_limit_default_window_seconds : ℕ

abbrev is_served : Environment → Bool
is_served Environment.development = false
is_served Environment.staging = true
is_served Environment.production = true

unfoldable pub rate_limit_active : LimiterSettings → Bool
rate_limit_active settings = is_served settings.env || settings.rate_limit_enabled

pub record RateLimiterBackend : Type 1 where
  pub State : Type 0
  pub check_rate_limit : State → String → ℕ → ℕ → ℕ → State × Verdict
  pub reset : State → String → State

abbrev pub memory_backend : RateLimiterBackend
memory_backend = record {
  State = InMemoryRateLimiter;
  check_rate_limit = RateLimit.check_rate_limit;
  reset = RateLimit.reset;
}

abbrev pub redis_backend : Redis → (ℕ → String) → RateLimiterBackend
redis_backend redis text = record {
  State = redis.State;
  check_rate_limit = Redis.check_rate_limit redis text;
  reset = Redis.reset redis;
}

-- The backend that the settings ask for: in memory, on a server, or an error.
pub data BackendChoice : Type 0 where
  in_memory : BackendChoice
  on_redis : String → BackendChoice
  redis_url_required : BackendChoice

unfoldable pub chosen_backend : LimiterSettings → BackendChoice
chosen_backend settings =
    if str_eq settings.rate_limit_backend "redis"
    then (if is_text settings.redis_url
        then on_redis (get_or settings.redis_url "")
        else redis_url_required)
    else in_memory

pub record RateLimiter (b : RateLimiterBackend) : Type 0 where
  pub backend : b.State
  pub rules : List (String × RateLimitRule)
  pub default_rule : RateLimitRule

unfoldable pub new_limiter : (b : RateLimiterBackend) → b.State → LimiterSettings → RateLimiter b
new_limiter b state settings = record {
  backend = state;
  rules = [];
  default_rule = record {
    calls = settings.rate_limit_default_calls;
    window_seconds = settings.rate_limit_default_window_seconds;
    key_prefix = "";
  };
}

-- A dictionary's assignment.
abbrev put_rule :
    String → RateLimitRule → List (String × RateLimitRule) → List (String × RateLimitRule)
put_rule path rule [] = (path, rule) ∷ []
put_rule path rule ((p, r) ∷ rest) =
    if str_eq p path then (p, rule) ∷ rest else (p, r) ∷ put_rule path rule rest

unfoldable pub configure_endpoint :
    {b : RateLimiterBackend} → RateLimiter b → String → ℕ → ℕ → String → RateLimiter b
configure_endpoint limiter path calls window_seconds key_prefix = record limiter {
  rules =
      put_rule path
        (record { calls = calls; window_seconds = window_seconds; key_prefix = key_prefix })
        limiter.rules;
}

abbrev pub rule_for : String → RateLimitRule → List (String × RateLimitRule) → RateLimitRule
rule_for path default [] = default
rule_for path default ((p, r) ∷ rest) = if str_eq p path then r else rule_for path default rest

-- What the limiter looks at in a request.
pub record Request : Type 0 where
  pub path : String
  pub authorization : Option String
  pub x_api_key : Option String
  pub tenant_id_param : Option String
  pub x_tenant_id : Option String
  pub client_host : Option String

abbrev by_address : String → Request → String
by_address key_prefix request =
    prepend key_prefix (prepend "ip:" (get_or request.client_host "unknown"))

abbrev tenant_of : Request → Option String
tenant_of request =
    if is_text request.tenant_id_param then request.tenant_id_param else request.x_tenant_id

abbrev pub api_key_of : Request → Option String
api_key_of request = header_key request.authorization request.x_api_key

-- The key that a request is counted under; `sha256` gives the digest in hexadecimal.
unfoldable pub rate_key : (String → String) → LimiterSettings → RateLimitRule → Request → String
unfolding prepend take_text header_key
rate_key sha256 settings rule request =
    if settings.allow_insecure_dev
    then (if is_text (tenant_of request)
        then prepend rule.key_prefix (prepend "tenant:" (get_or (tenant_of request) ""))
        else by_address rule.key_prefix request)
    else if is_text (api_key_of request)
    then prepend rule.key_prefix
        (prepend "auth:" (take_text 16 (sha256 (get_or (api_key_of request) ""))))
    else by_address rule.key_prefix request

pub data Answer : Type 0 where
  unlimited : Answer
  -- With the remaining calls and the time of the reset.
  allowed : ℕ → ℕ → Answer
  -- 429, with the seconds to wait, the limit and the time of the reset.
  too_many_requests : ℕ → ℕ → ℕ → Answer

abbrev pub answer : ℕ → RateLimitRule → Verdict → Answer
answer now rule verdict =
    if verdict.allowed
    then allowed verdict.remaining verdict.reset_time
    else too_many_requests (verdict.reset_time - now / second) rule.calls verdict.reset_time

unfoldable pub check_request :
    {b : RateLimiterBackend}
    → (String → String)
    → LimiterSettings
    → RateLimiter b
    → Request
    → Option String
    → ℕ
    → RateLimiter b × Answer
unfolding rate_limit_active rate_key
check_request {b} sha256 settings limiter request key_override now =
    let rule = rule_for request.path limiter.default_rule limiter.rules in
    let key = text_or key_override (rate_key sha256 settings rule request) in
    let (state, verdict) =
      b.check_rate_limit limiter.backend key rule.calls (rule.window_seconds * second) now in
    if rate_limit_active settings
    then (record limiter { backend = state }, answer now rule verdict)
    else (limiter, unlimited)
