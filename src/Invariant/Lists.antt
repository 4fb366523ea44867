-- ===== src/Invariant/Lists.antt =====
-- What updates, deletions and additions of rows do to the queries of a table.
use async_gate.Prelude.{
  ℕ, zero, suc, ◌≤◌, ◌≡◌, refl, subst, inl, inr, Bool, true, false, List, [], ◌∷◌, ◌++◌, none, some,
  arith, any, first, count, select, take, order_by, insert_by, update_where, delete_where, All,
  Bool-cases,
}

module _ {A : Type 0} where
  pub All-append : (P : A → Type 0) → (xs ys : List A) → All P xs → All P ys → All P (xs ++ ys)
  All-append P [] ys h k = k
  All-append P (x ∷ xs) ys (h, hs) k = (h, All-append P xs ys hs k)

  pub All-map :
      (P : A → Type 0)
      → (Q : A → Type 0) (xs : List A) → ((x : A) → P x → Q x)
      → All P xs
      → All Q xs
  All-map P Q [] f h = tt
  All-map P Q (x ∷ xs) f (h, hs) = (f x h, All-map P Q xs f hs)

  pub All-both :
      (P : A → Type 0)
      → (Q : A → Type 0) (xs : List A) → All P xs
      → All Q xs
      → All (λ x. P x × Q x) xs
  All-both P Q [] h k = tt
  All-both P Q (x ∷ xs) (h, hs) (k, ks) = ((h, k), All-both P Q xs hs ks)

  pub All-update :
      (P : A → Type 0)
      → (Q : A → Type 0) (p : A → Bool) (f : A → A) (xs : List A)
      → ((x : A) → p x ≡ true → P x → Q (f x))
      → ((x : A) → p x ≡ false → P x → Q x)
      → All P xs
      → All Q (update_where p f xs)
  unfolding update_where
  All-update P Q p f [] g k h = tt
  All-update P Q p f (x ∷ xs) g k (h, hs) = elim (Bool-cases (p x)) [
    | inl e ↦ rw e (g x e h, All-update P Q p f xs g k hs)
    | inr e ↦ rw e (k x e h, All-update P Q p f xs g k hs)
  ]

  pub All-delete :
      (P : A → Type 0) → (p : A → Bool) (xs : List A) → All P xs → All P (delete_where p xs)
  unfolding delete_where
  All-delete P p [] h = tt
  All-delete P p (x ∷ xs) (h, hs) = elim (Bool-cases (p x)) [
    | inl e ↦ rw e (All-delete P p xs hs)
    | inr e ↦ rw e (h, All-delete P p xs hs)
  ]

  pub All-first :
      (P : A → Type 0) → (p : A → Bool) (xs : List A) (x : A) → first p xs ≡ some x → All P xs → P x
  unfolding first
  All-first P p [] x e h = ground arith
  All-first P p (y ∷ ys) x e (h, hs) = elim (Bool-cases (p y)) [
    | inl t ↦ let same : y ≡ x = ground arith in subst P same h
    | inr f ↦ All-first P p ys x (ground arith) hs
  ]

  pub All-select :
      (P : A → Type 0)
      → (p : A → Bool) (xs : List A) → All P xs
      → All (λ x. (p x ≡ true) × P x) (select p xs)
  unfolding select
  All-select P p [] h = tt
  All-select P p (x ∷ xs) (h, hs) = elim (Bool-cases (p x)) [
    | inl e ↦ rw e ((e, h), All-select P p xs hs)
    | inr e ↦ rw e (All-select P p xs hs)
  ]

  pub All-take : (P : A → Type 0) → (n : ℕ) (xs : List A) → All P xs → All P (take n xs)
  All-take P zero xs h = tt
  All-take P (suc n) [] h = tt
  All-take P (suc n) (x ∷ xs) (h, hs) = (h, All-take P n xs hs)

  pub All-insert :
      (P : A → Type 0)
      → (le : A → A → Bool) (x : A) (xs : List A) → P x
      → All P xs
      → All P (insert_by le x xs)
  unfolding insert_by
  All-insert P le x [] h k = (h, tt)
  All-insert P le x (y ∷ ys) h (k, ks) = elim (Bool-cases (le x y)) [
    | inl e ↦ rw e (h, (k, ks))
    | inr e ↦ rw e (k, All-insert P le x ys h ks)
  ]

  pub All-order :
      (P : A → Type 0) → (le : A → A → Bool) (xs : List A) → All P xs → All P (order_by le xs)
  unfolding order_by
  All-order P le [] h = tt
  All-order P le (x ∷ xs) (h, hs) = All-insert P le x (order_by le xs) h (All-order P le xs hs)

  pub first-holds : (p : A → Bool) (xs : List A) (x : A) → first p xs ≡ some x → p x ≡ true
  unfolding first
  first-holds p [] x e = ground arith
  first-holds p (y ∷ ys) x e = elim (Bool-cases (p y)) [
    | inl t ↦ let same : y ≡ x = ground arith in subst (λ z. p z ≡ true) same t
    | inr f ↦ first-holds p ys x (ground arith)
  ]

  pub any-first : (p : A → Bool) (xs : List A) (x : A) → first p xs ≡ some x → any p xs ≡ true
  unfolding any first
  any-first p [] x e = ground arith
  any-first p (y ∷ ys) x e = ground (arith, any-first p ys x)

  pub first-none : (p : A → Bool) (xs : List A) → first p xs ≡ none → any p xs ≡ false
  unfolding any first
  first-none p [] e = refl
  first-none p (y ∷ ys) e = ground (arith, first-none p ys)

  pub any-update :
      (q p : A → Bool) (f : A → A) (xs : List A)
      → ((x : A) → q (f x) ≡ q x)
      → any q (update_where p f xs) ≡ any q xs
  unfolding any update_where
  any-update q p f [] h = refl
  any-update q p f (x ∷ xs) h = ground (arith, h x, any-update q p f xs h)

  pub count-update :
      (q p : A → Bool) (f : A → A) (xs : List A)
      → ((x : A) → q (f x) ≡ q x)
      → count q (update_where p f xs) ≡ count q xs
  unfolding count update_where
  count-update q p f [] h = refl
  count-update q p f (x ∷ xs) h = ground (arith, h x, count-update q p f xs h)

  pub any-append : (q : A → Bool) (xs ys : List A) → any q xs ≡ true → any q (xs ++ ys) ≡ true
  unfolding any
  any-append q [] ys h = ground arith
  any-append q (x ∷ xs) ys h = ground (arith, any-append q xs ys)

  pub count-delete_ne :
      (q p : A → Bool) (xs : List A)
      → ((x : A) → p x ≡ true → q x ≡ false)
      → count q (delete_where p xs) ≡ count q xs
  unfolding count delete_where
  count-delete_ne q p [] h = refl
  count-delete_ne q p (x ∷ xs) h = ground (arith, h x, count-delete_ne q p xs h)

  pub count-delete_self : (q : A → Bool) (xs : List A) → count q (delete_where q xs) ≡ 0
  unfolding count delete_where
  count-delete_self q [] = refl
  count-delete_self q (x ∷ xs) = ground (arith, count-delete_self q xs)

  pub any-delete_ne :
      (q p : A → Bool) (xs : List A)
      → ((x : A) → p x ≡ true → q x ≡ false)
      → any q (delete_where p xs) ≡ any q xs
  unfolding any delete_where
  any-delete_ne q p [] h = refl
  any-delete_ne q p (x ∷ xs) h = ground (arith, h x, any-delete_ne q p xs h)

  pub count-any : (q : A → Bool) (xs : List A) → any q xs ≡ false → count q xs ≡ 0
  unfolding count any
  count-any q [] h = refl
  count-any q (x ∷ xs) h = ground (arith, count-any q xs)

  count-delete_le : (q p : A → Bool) (xs : List A) → count q (delete_where p xs) ≤ count q xs
  unfolding count delete_where
  count-delete_le q p [] = omega arith
  count-delete_le q p (x ∷ xs) = ground (arith, count-delete_le q p xs)

  pub any-count :
      (q p : A → Bool) (xs : List A)
      → ((x : A) → p x ≡ true → q x ≡ true)
      → any p xs ≡ true
      → 1 ≤ count q xs
  unfolding count any
  any-count q p [] h a = ground arith
  any-count q p (x ∷ xs) h a = ground (arith, h x, any-count q p xs h)

  -- The one row of a kind that is there, if it is deleted.
  pub count-delete_one :
      (q p : A → Bool) (xs : List A)
      → ((x : A) → p x ≡ true → q x ≡ true)
      → any p xs ≡ true
      → count q xs ≤ 1
      → count q (delete_where p xs) ≡ 0
  unfolding count any delete_where
  count-delete_one q p [] h a c = refl
  count-delete_one q p (x ∷ xs) h a c =
      ground (arith, h x, count-delete_one q p xs h, count-delete_le q p xs, any-count q p xs h)

  pub any-weaken :
      (q p : A → Bool) (xs : List A)
      → ((x : A) → p x ≡ true → q x ≡ true)
      → any p xs ≡ true
      → any q xs ≡ true
  unfolding any
  any-weaken q p [] h a = ground arith
  any-weaken q p (x ∷ xs) h a = ground (arith, h x, any-weaken q p xs h)

  pub count-none : (q : A → Bool) (xs : List A) → All (λ x. q x ≡ false) xs → count q xs ≡ 0
  unfolding count
  count-none q [] h = refl
  count-none q (x ∷ xs) (h, hs) = ground (arith, h, count-none q xs hs)
