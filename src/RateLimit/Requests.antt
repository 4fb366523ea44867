-- ===== src/RateLimit/Requests.antt =====
-- What RateLimiter.check_request of middleware/rate_limit.py lets through.
use async_gate.Prelude.{
  ℕ, ◌*◌, ◌≤◌, ◌≡◌, refl, sym, subst, Bool, true, false, ◌&&◌, none, List, [], ◌∷◌, String, str_eq,
  is_text, if◌then◌else◌, Bool-cases, inl, inr, map,
}
use async_gate.RateLimit
use async_gate.RateLimit.{InMemoryRateLimiter, Verdict, new, second, passed}
use async_gate.RateLimit.Window.{within, Rises, passed-within-le}
use async_gate.RateLimit.Front.{
  LimiterSettings, RateLimitRule, rate_limit_active, memory_backend, RateLimiter, new_limiter,
  Request, rate_key, api_key_of, Answer, answer, check_request,
}

abbrev is_allowed : Answer → Bool
is_allowed (Answer.allowed remaining reset_time) = true
is_allowed Answer.unlimited = false
is_allowed (Answer.too_many_requests wait calls reset_time) = false

-- The rule of a path for which none is configured.
abbrev pub default_rule : LimiterSettings → RateLimitRule
default_rule settings = record {
  calls = settings.rate_limit_default_calls;
  window_seconds = settings.rate_limit_default_window_seconds;
  key_prefix = "";
}

abbrev pub default_key : (String → String) → LimiterSettings → Request → String
default_key sha256 settings request = rate_key sha256 settings (default_rule settings) request

-- The times at which requests that count under the key were let through, the latest first.
unfoldable pub let_through :
    (String → String)
    → LimiterSettings
    → RateLimiter memory_backend
    → String
    → List (Request × ℕ)
    → List ℕ
    → List ℕ
let_through sha256 settings limiter k [] log = log
let_through sha256 settings limiter k ((request, now) ∷ rest) log =
    let (limiter', given) = check_request sha256 settings limiter request none now in
    let_through sha256 settings limiter' k rest (
      if str_eq (default_key sha256 settings request) k && is_allowed given then now ∷ log else log)

abbrev call_of : (String → String) → LimiterSettings → Request × ℕ → String × ℕ
call_of sha256 settings (request, now) = (default_key sha256 settings request, now)

-- What the in-memory limiter answers to a request.
abbrev verdict_on :
    (String → String)
    → LimiterSettings
    → InMemoryRateLimiter
    → Request
    → ℕ
    → InMemoryRateLimiter × Verdict
verdict_on sha256 settings l request now =
    RateLimit.check_rate_limit l (default_key sha256 settings request)
      settings.rate_limit_default_calls (settings.rate_limit_default_window_seconds * second) now

-- A limiter without rules for single paths.
abbrev limiter_at : LimiterSettings → InMemoryRateLimiter → RateLimiter memory_backend
limiter_at settings l = record { backend = l; rules = []; default_rule = default_rule settings }

checked :
    (sha256 : String → String) (settings : LimiterSettings) (l : InMemoryRateLimiter)
    (request : Request) (now : ℕ)
    → rate_limit_active settings ≡ true
    → check_request sha256 settings (limiter_at settings l) request none now ≡ (
      limiter_at settings (verdict_on sha256 settings l request now).0,
      answer now (default_rule settings) (verdict_on sha256 settings l request now).1,
    )
unfolding check_request
checked sha256 settings l request now active = rw active refl

is_allowed-answer :
    (now : ℕ) (rule : RateLimitRule) (verdict : Verdict)
    → is_allowed (answer now rule verdict) ≡ verdict.allowed
is_allowed-answer now rule verdict = elim (Bool-cases verdict.allowed) [
  | inl e ↦ rw e refl
  | inr e ↦ rw e refl
]

let_through-passed :
    (sha256 : String → String) (settings : LimiterSettings) (k : String)
    → rate_limit_active settings ≡ true
    → (requests : List (Request × ℕ)) (l : InMemoryRateLimiter) (log : List ℕ)
    → let_through sha256 settings (limiter_at settings l) k requests log
      ≡ passed l settings.rate_limit_default_calls
          (settings.rate_limit_default_window_seconds * second)
          k
          (map (call_of sha256 settings) requests)
          log
unfolding let_through passed
let_through-passed sha256 settings k active [] l log = refl
let_through-passed sha256 settings k active ((request, now) ∷ rest) l log =
    rw
      (
        checked sha256 settings l request now active,
        is_allowed-answer now (default_rule settings) (verdict_on sha256 settings l request now).1,
      )
      (let_through-passed sha256 settings k active rest (verdict_on sha256 settings l request now).0
        _)

-- The times of the requests never go back.
abbrev pub Rising : ℕ → List (Request × ℕ) → Type 0
Rising last [] = Unit
Rising last ((request, now) ∷ rest) = (last ≤ now) × Rising now rest

Rises-map :
    (sha256 : String → String) (settings : LimiterSettings) (last : ℕ)
    (requests : List (Request × ℕ))
    → Rising last requests
    → Rises last (map (call_of sha256 settings) requests)
Rises-map sha256 settings last [] r = tt
Rises-map sha256 settings last ((request, now) ∷ rest) (h, r) =
    (h, Rises-map sha256 settings now rest r)

-- Where rate limiting is active and the server authenticates, requests with one API key count under
-- one key, whatever tenant they name and wherever they come from; and in every window of the default
-- length no more of those that count under a key are let through than the default number, if no path
-- has a rule of its own and the clock does not go back.
pub let_through-within-le :
    (sha256 : String → String) (settings : LimiterSettings) (start now : ℕ) (first : Request)
    (requests : List (Request × ℕ))
    → rate_limit_active settings ≡ true
    → settings.allow_insecure_dev ≡ false
    → is_text (api_key_of first) ≡ true
    → Rising start requests
    → ((other : Request)
        → api_key_of other ≡ api_key_of first
        → default_key sha256 settings other ≡ default_key sha256 settings first)
      × (within now (settings.rate_limit_default_window_seconds * second) (
            let_through sha256 settings
              (new_limiter memory_backend new settings)
              (default_key sha256 settings first)
              requests
              [])
          ≤ settings.rate_limit_default_calls)
unfolding rate_key new_limiter
let_through-within-le sha256 settings start now first requests active shut given rising = (
  λ other same. rw (shut, same, given) refl,
  subst
      (λ times.
        within now (settings.rate_limit_default_window_seconds * second) times
        ≤ settings.rate_limit_default_calls)
      (sym (
        let_through-passed sha256 settings (default_key sha256 settings first) active requests new
          []))
      (passed-within-le settings.rate_limit_default_calls
        (settings.rate_limit_default_window_seconds * second) start now
        (default_key sha256 settings first) (map (call_of sha256 settings) requests)
        (Rises-map sha256 settings start requests rising)),
)
