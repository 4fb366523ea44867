-- ===== src/RateLimit/Window.antt =====
-- The bound that the in-memory limiter keeps (rate_limit.py, `InMemoryRateLimiter`).
use async_gate.Prelude.{
  ℕ, suc, ◌≤◌, ◌≡◌, ◌≢◌, refl, inl, inr, Bool, true, ◌&&◌, List, [], ◌∷◌, String, str_eq,
  str_eq_iff, select, count, leb, if◌then◌else◌, arith, Bool-cases, count-append, length-select,
}
use async_gate.RateLimit.{InMemoryRateLimiter, new, in_window, check_rate_limit, passed}

-- Times, the latest first, none after the bound.
abbrev pub Falls : ℕ → List ℕ → Type 0
Falls bound [] = Unit
Falls bound (t ∷ ts) = (t ≤ bound) × Falls t ts

-- How many of the times lie in the window that ends at `now`, the end included and the start not.
abbrev pub within : ℕ → ℕ → List ℕ → ℕ
within now window log = count (λ ts. in_window now window ts && leb ts now) log

-- At each entry, that entry and the earlier ones in its window are at most `max_calls`.
abbrev Bounded : ℕ → ℕ → List ℕ → Type 0
Bounded max_calls window [] = Unit
Bounded max_calls window (t ∷ ts) =
    (suc (count (in_window t window) ts) ≤ max_calls) × Bounded max_calls window ts

count_mono :
    (p q : ℕ → Bool) (ts : List ℕ) → ((t : ℕ) → p t ≡ true → q t ≡ true) → count p ts ≤ count q ts
unfolding count
count_mono p q [] h = omega arith
count_mono p q (t ∷ ts) h = ground (arith, h t, count_mono p q ts h)

-- What is in the window at `now` and not after `now` is in the window at `t`, if `t` is not after.
earlier :
    (t now window u : ℕ)
    → t ≤ now
    → (in_window now window u && leb u now) ≡ true
    → in_window t window u ≡ true
earlier t now window u h k = ground arith

-- The bound at the entries is the bound at every time.
within-le :
    (max_calls window now bound : ℕ) (log : List ℕ)
    → Falls bound log
    → Bounded max_calls window log
    → within now window log ≤ max_calls
unfolding count
within-le max_calls window now bound [] f b = omega arith
within-le max_calls window now bound (t ∷ ts) (f, fs) (b, bs) = elim (Bool-cases (leb t now)) [
  | inl past ↦
      let some_in =
        count_mono (λ ts. in_window now window ts && leb ts now) (in_window t window) ts
          (λ u h. earlier t now window u (ground arith) h) in
      ground (arith, some_in)
  | inr future ↦ ground (arith, within-le max_calls window now t ts fs bs)
]

-- The limiter's list of a key and the log agree on every window that ends at `now` or later.
abbrev Agrees : InMemoryRateLimiter → ℕ → String → ℕ → List ℕ → Type 0
Agrees l window k now log =
    (later : ℕ)
    → now ≤ later
    → count (in_window later window) (l.windows k) ≡ count (in_window later window) log

count-select :
    (window now later : ℕ) (ts : List ℕ)
    → now ≤ later
    → count (in_window later window) (select (in_window now window) ts)
      ≡ count (in_window later window) ts
unfolding count select
count-select window now later [] h = refl
count-select window now later (t ∷ ts) h = ground (arith, count-select window now later ts h)

-- The log after one call.
abbrev logged : InMemoryRateLimiter → String → ℕ → ℕ → ℕ → String → List ℕ → List ℕ
logged l key max_calls window now k log =
    if str_eq key k && (check_rate_limit l key max_calls window now).1.allowed
    then now ∷ log
    else log

check-Agrees :
    (l : InMemoryRateLimiter) (key k : String) (max_calls window last now : ℕ) (log : List ℕ)
    → last ≤ now
    → Agrees l window k last log
    → Agrees
        (check_rate_limit l key max_calls window now).0
        window
        k
        now
        (logged l key max_calls window now k log)
unfolding check_rate_limit
check-Agrees l key k max_calls window last now log h a later b =
    unfold count in
    ground (
      arith,
      str_eq_iff key k,
      a later,
      count-select window now later (l.windows k) b,
      count-append (in_window later window) (select (in_window now window) (l.windows k))
          (now ∷ []),
    )

check-Bounded :
    (l : InMemoryRateLimiter) (key k : String) (max_calls window last now : ℕ) (log : List ℕ)
    → last ≤ now
    → Agrees l window k last log
    → Bounded max_calls window log
    → Bounded max_calls window (logged l key max_calls window now k log)
unfolding check_rate_limit
check-Bounded l key k max_calls window last now log h a b =
    ground (arith, str_eq_iff key k, a now, length-select (in_window now window) (l.windows k))

-- The times of the calls never go back.
abbrev pub Rises : ℕ → List (String × ℕ) → Type 0
Rises last [] = Unit
Rises last ((key, now) ∷ rest) = (last ≤ now) × Rises now rest

Falls-logged :
    (l : InMemoryRateLimiter) (key k : String) (max_calls window last now : ℕ) (log : List ℕ)
    → last ≤ now
    → Falls last log
    → Falls now (logged l key max_calls window now k log)
Falls-logged l key k max_calls window last now [] h f = ground arith
Falls-logged l key k max_calls window last now (t ∷ ts) h f = ground arith

passed-Bounded :
    (l : InMemoryRateLimiter) (max_calls window last bound : ℕ) (k : String)
    (cs : List (String × ℕ)) (log : List ℕ)
    → Rises last cs
    → Agrees l window k last log
    → Falls last log
    → Bounded max_calls window log
    → (end : ℕ) × Falls end (passed l max_calls window k cs log)
      × Bounded max_calls window (passed l max_calls window k cs log)
unfolding passed
passed-Bounded l max_calls window last bound k [] log r a f b = (last, f, b)
passed-Bounded l max_calls window last bound k ((key, now) ∷ rest) log (h, r) a f b =
    passed-Bounded (check_rate_limit l key max_calls window now).0 max_calls window now bound k rest
      (logged l key max_calls window now k log) r
      (check-Agrees l key k max_calls window last now log h a)
      (Falls-logged l key k max_calls window last now log h f)
      (check-Bounded l key k max_calls window last now log h a b)

-- Whatever calls come, with whatever keys, as long as the clock does not go back: in every window of
-- the configured length, wherever it ends, at most `max_calls` calls of a key are let through.
pub passed-within-le :
    (max_calls window start now : ℕ) (k : String) (cs : List (String × ℕ))
    → Rises start cs
    → within now window (passed new max_calls window k cs []) ≤ max_calls
passed-within-le max_calls window start now k cs r =
    let (end, f, b) =
      passed-Bounded new max_calls window start start k cs [] r
        (λ later h. unfold new count in refl) tt tt in
    within-le max_calls window now end _ f b

-- A call changes what the limiter holds for its own key only.
pub windows-check_ne :
    (l : InMemoryRateLimiter) (key k : String) (max_calls window now : ℕ)
    → key ≢ k
    → (check_rate_limit l key max_calls window now).0.windows k ≡ l.windows k
unfolding check_rate_limit
windows-check_ne l key k max_calls window now h = ground (arith, str_eq_iff key k)
