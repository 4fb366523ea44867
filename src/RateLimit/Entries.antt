-- ===== src/RateLimit/Entries.antt =====
-- The entries of a sorted set and those of the in-memory limiter (middleware/rate_limit.py).
use async_gate.Prelude.{
  ℕ, suc, ◌-◌, ◌≡◌, refl, sym, ap, subst, ◌∙◌, inl, inr, Bool, true, false, ◌&&◌, List, [], ◌∷◌,
  ◌++◌, some, String, str_eq, str_eq_iff, str_eq_refl, strip_prefix, prepend, map, select,
  delete_where, any, all, length, head?, ltb, leb, arith, Bool-cases,
}
use async_gate.RateLimit.{in_window, reset_at}
use async_gate.RateLimit.Redis.{redis_key, reset_from}

pub redis_key-eq : (k l : String) → str_eq k l ≡ false → str_eq (redis_key k) (redis_key l) ≡ false
unfolding prepend strip_prefix
redis_key-eq k l h = elim (Bool-cases (str_eq (redis_key k) (redis_key l))) [
  | inl e ↦
      ground
        (arith, h, str_eq_iff k l, stripped (ap (strip_prefix "ratelimit:") ((str_eq_iff _ _).0 e)))
  | inr e ↦ e
]
  where
    stripped : some k ≡ some l → k ≡ l
    stripped e = ground (arith, e)

pub redis_key-same : (k l : String) → str_eq (redis_key k) (redis_key l) ≡ str_eq k l
redis_key-same k l = elim (Bool-cases (str_eq k l)) [
  | inl e ↦
      subst (λ m. str_eq (redis_key k) (redis_key m) ≡ str_eq k m) ((str_eq_iff k l).0 e)
        (str_eq_refl (redis_key k) ∙ sym (str_eq_refl k))
  | inr e ↦ redis_key-eq k l e ∙ sym e
]

pub all-select : (p q : ℕ → Bool) (ws : List ℕ) → all p ws ≡ true → all p (select q ws) ≡ true
unfolding all select
all-select p q [] h = refl
all-select p q (t ∷ ws) h = ground (arith, h, all-select p q ws)

pub all_mono :
    (p q : ℕ → Bool) (ws : List ℕ)
    → ((t : ℕ) → p t ≡ true → q t ≡ true)
    → all p ws ≡ true
    → all q ws ≡ true
unfolding all
all_mono p q [] h k = refl
all_mono p q (t ∷ ws) h k = ground (arith, k, h t, all_mono p q ws h)

pub all-append :
    (p : ℕ → Bool) (ws : List ℕ) (t : ℕ)
    → all p ws ≡ true
    → p t ≡ true
    → all p (ws ++ t ∷ []) ≡ true
unfolding all
all-append p [] t h k = ground (arith, k)
all-append p (w ∷ ws) t h k = ground (arith, k, h, all-append p ws t)

pub select-all :
    (now window : ℕ) (ws : List ℕ) → ltb now window ≡ true → select (in_window now window) ws ≡ ws
unfolding select
select-all now window [] h = refl
select-all now window (t ∷ ws) h = ground (arith, h, select-all now window ws h)

module _ (text : ℕ → String) (distinct : (m n : ℕ) → text m ≡ text n → m ≡ n) where
  abbrev pub tag : ℕ → String × ℕ
  tag t = (text t, t)

  pub text_ne : (t now : ℕ) → ltb t now ≡ true → str_eq (text t) (text now) ≡ false
  text_ne t now h = elim (Bool-cases (str_eq (text t) (text now))) [
    | inl e ↦ ground (arith, h, distinct t now ((str_eq_iff _ _).0 e))
    | inr e ↦ e
  ]

  pub delete_old :
      (now window : ℕ) (ws : List ℕ)
      → ltb now window ≡ false
      → delete_where (λ (e : String × ℕ). leb 0 e.1 && leb e.1 (now - window)) (map tag ws)
        ≡ map tag (select (in_window now window) ws)
  unfolding delete_where select
  delete_old now window [] h = refl
  delete_old now window (t ∷ ws) h = ground (arith, h, delete_old now window ws h)

  pub all-tag :
      (now : ℕ) (ws : List ℕ)
      → all (λ t. ltb t now) ws ≡ true
      → all (λ (e : String × ℕ). leb e.1 now) (map tag ws) ≡ true
  unfolding all
  all-tag now [] h = refl
  all-tag now (t ∷ ws) h = ground (arith, h, all-tag now ws)

  pub any-tag :
      (now : ℕ) (ws : List ℕ)
      → all (λ t. ltb t now) ws ≡ true
      → any (λ (e : String × ℕ). str_eq e.0 (text now)) (map tag ws) ≡ false
  unfolding all any
  any-tag now [] h = refl
  any-tag now (t ∷ ws) h = ground (arith, h, text_ne t now, any-tag now ws)

  pub delete_new :
      (now : ℕ) (ws : List ℕ)
      → all (λ t. ltb t now) ws ≡ true
      → delete_where (λ (e : String × ℕ). str_eq e.0 (text now)) (map tag ws ++ tag now ∷ [])
        ≡ map tag ws
  unfolding all delete_where
  delete_new now [] h = ground (arith, str_eq_refl (text now))
  delete_new now (t ∷ ws) h = ground (arith, h, text_ne t now, delete_new now ws)

  pub length-tag : (ws : List ℕ) → length (map tag ws) ≡ length ws
  length-tag [] = refl
  length-tag (t ∷ ws) = ap suc (length-tag ws)

  pub append_tag : (ws : List ℕ) (now : ℕ) → map tag ws ++ tag now ∷ [] ≡ map tag (ws ++ now ∷ [])
  append_tag [] now = refl
  append_tag (t ∷ ws) now = ap (λ es. tag t ∷ es) (append_tag ws now)

  pub reset_tag :
      (ws : List ℕ) (now window : ℕ)
      → reset_from (head? (map tag ws ++ tag now ∷ [])) now window ≡ reset_at ws now window
  unfolding reset_at
  reset_tag [] now window = refl
  reset_tag (t ∷ ws) now window = refl
