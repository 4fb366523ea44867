-- ===== src/Tests/Limits.antt =====
-- A server of sorted sets in memory, the limiters, and the theorems on them.
use async_gate.Prelude.{
  ℕ, zero, suc, ◌≡◌, ◌≤◌, refl, true, false, ◌&&◌, List, [], ◌∷◌, ◌++◌, String, str_eq, str_eq_refl,
  prepend, length, any, all, delete_where, insert_by, head?, ltb, leb, if◌then◌else◌, arith, none,
  some, is_text,
}
use async_gate.RateLimit.{new}
use async_gate.RateLimit.Redis.{Redis, IsRedis}
use async_gate.RateLimit.Same
use async_gate.RateLimit.Front.{
  LimiterSettings, Request, memory_backend, new_limiter, api_key_of, rate_limit_active,
}
use async_gate.RateLimit.Window.{within}
use async_gate.RateLimit.Requests
use async_gate.RateLimit.Requests.{default_key, let_through, Rising}
use async_gate.Models.Auth.{Environment}
use async_gate.Auth.Deps.{header_key}

abbrev Sets : Type 0
Sets = String → List (String × ℕ)

abbrev at_key : String → (List (String × ℕ) → List (String × ℕ)) → Sets → Sets
at_key key f sets k = if str_eq key k then f (sets k) else sets k

-- The member with its new score, behind those of no higher one.
abbrev put_member : String → ℕ → List (String × ℕ) → List (String × ℕ)
put_member member score es =
    insert_by (λ (x : String × ℕ) (y : String × ℕ). ltb x.1 y.1) (member, score)
      (delete_where (λ (e : String × ℕ). str_eq e.0 member) es)

abbrev server : Redis
server = record {
  State = Sets;
  zremrangebyscore =
      λ key low high. at_key key (delete_where (λ (e : String × ℕ). leb low e.1 && leb e.1 high));
  zcard = λ key sets. length (sets key);
  zadd = λ key member score. at_key key (put_member member score);
  expire = λ key time sets. sets;
  zrange_first = λ key sets. head? (sets key);
  zrem = λ key member. at_key key (delete_where (λ (e : String × ℕ). str_eq e.0 member));
  delete = λ key. at_key key (λ es. []);
}

delete_none :
    (member : String) (es : List (String × ℕ))
    → any (λ (e : String × ℕ). str_eq e.0 member) es ≡ false
    → delete_where (λ (e : String × ℕ). str_eq e.0 member) es ≡ es
unfolding any delete_where
delete_none member [] h = refl
delete_none member (e ∷ es) h = ground (arith, h, delete_none member es)

insert_last :
    (member : String) (score : ℕ) (es : List (String × ℕ))
    → all (λ (e : String × ℕ). leb e.1 score) es ≡ true
    → insert_by (λ (x : String × ℕ) (y : String × ℕ). ltb x.1 y.1) (member, score) es
      ≡ es ++ (member, score) ∷ []
unfolding all insert_by
insert_last member score [] h = refl
insert_last member score (e ∷ es) h = ground (arith, h, insert_last member score es)

server-IsRedis : IsRedis server
server-IsRedis = record {
  entries = λ key sets. sets key;
  zremrangebyscore-entries = λ key k low high sets. refl;
  zcard-entries = λ key sets. refl;
  zadd-entries = λ key member score sets h k.
      rw (str_eq_refl key, delete_none member (sets key) h) (insert_last member score (sets key) k);
  zadd-entries_ne = λ key k member score sets h. rw h refl;
  expire-entries = λ key k time sets. refl;
  zrange_first-entries = λ key sets. refl;
  zrem-entries = λ key k member sets. refl;
}

-- A time as that many strokes.
abbrev strokes : ℕ → String
strokes zero = ""
strokes (suc n) = prepend "|" (strokes n)

abbrev calls : List (String × ℕ)
calls = ("ada", 3) ∷ ("ada", 5) ∷ ("bob", 6) ∷ ("ada", 7) ∷ ("ada", 8) ∷ []

abbrev production : LimiterSettings
production = record {
  env = Environment.production;
  allow_insecure_dev = false;
  rate_limit_enabled = false;
  rate_limit_backend = "memory";
  redis_url = none;
  rate_limit_default_calls = 2;
  rate_limit_default_window_seconds = 60;
}

abbrev asking : String → Request
asking tenant_id = record {
  path = "/mcp";
  authorization = some "Bearer ag_key";
  x_api_key = none;
  tenant_id_param = some tenant_id;
  x_tenant_id = none;
  client_host = some "10.0.0.1";
}

abbrev asked : List (Request × ℕ)
asked = (asking "a", 1) ∷ (asking "b", 2) ∷ (asking "c", 2) ∷ []

active : rate_limit_active production ≡ true
unfolding rate_limit_active
active = refl

keyed : is_text (api_key_of (asking "a")) ≡ true
unfolding header_key
keyed = refl

let_through-within-le_example :
    ((other : Request)
      → api_key_of other ≡ api_key_of (asking "a")
      → default_key (λ s. s) production other ≡ default_key (λ s. s) production (asking "a"))
    × (within 2 60_000_000 (
          let_through
            (λ s. s)
            production
            (new_limiter memory_backend new production)
            (default_key (λ s. s) production (asking "a"))
            asked
            [])
        ≤ 2)
let_through-within-le_example =
    Requests.let_through-within-le (λ s. s) production 0 2 (asking "a") asked active refl keyed
      (omega arith, (omega arith, (omega arith, tt)))
