-- ===== src/Store/Frame.antt =====
-- What an operation leaves alone: one rule for each way to build an operation.
use async_gate.Prelude.{
  ◌≤◌, ◌≡◌, refl, ◌∙◌, Bool, true, false, Option, none, some, arith, if◌then◌else◌,
}
use native.Mathlib.Nat.{le_refl, le_trans}
use async_gate.Models.Json.{Json}
use async_gate.Store.{
  ReceiptGateClient, Store, Db, Out, ok, err, M, Error, ◌>>=◌, pure, raise, gets, uuid4, after,
  or_raise,
}

-- The clock, the settings and the environment stay, and identifiers are never given out again.
pub record Steady (s t : Store) : Type 0 where
  pub env : t.env ≡ s.env
  pub settings : t.settings ≡ s.settings
  pub clock : t.clock ≡ s.clock
  pub next_id : s.next_id ≤ t.next_id

-- And so do the tables of tasks and leases.
pub record Quiet (s t : Store) : Type 0 where
  pub steady : Steady s t
  pub open steady use *
  pub tasks : t.db.tasks ≡ s.db.tasks
  pub leases : t.db.leases ≡ s.db.leases
  pub committed : t.committed ≡ s.committed

pub Steady-refl : (s : Store) → Steady s s
Steady-refl s = record { env = refl; settings = refl; clock = refl; next_id = le_refl _ }

pub Steady-trans : {s t u : Store} → Steady s t → Steady t u → Steady s u
Steady-trans p q = record {
  env = q.env ∙ p.env;
  settings = q.settings ∙ p.settings;
  clock = q.clock ∙ p.clock;
  next_id = le_trans p.next_id q.next_id;
}

pub Quiet-refl : (s : Store) → Quiet s s
Quiet-refl s = record { steady = Steady-refl s; tasks = refl; leases = refl; committed = refl }

pub Quiet-trans : {s t u : Store} → Quiet s t → Quiet t u → Quiet s u
Quiet-trans p q = record {
  steady = Steady-trans p.steady q.steady;
  tasks = q.tasks ∙ p.tasks;
  leases = q.leases ∙ p.leases;
  committed = q.committed ∙ p.committed;
}

-- A change of the database, of the client and of the trace.
pub Steady-put :
    (s : Store) (db : Db) (client : ReceiptGateClient) (trace_id : Option Json)
    → Steady s (record s { db = db; client = client; trace_id = trace_id })
Steady-put s db client trace_id = record {
  env = refl;
  settings = refl;
  clock = refl;
  next_id = le_refl _;
}

pub Quiet-put :
    (s : Store) (db : Db) (client : ReceiptGateClient) (trace_id : Option Json)
    → db.tasks ≡ s.db.tasks
    → db.leases ≡ s.db.leases
    → Quiet s (record s { db = db; client = client; trace_id = trace_id })
Quiet-put s db client trace_id p q = record {
  steady = Steady-put s db client trace_id;
  tasks = p;
  leases = q;
  committed = refl;
}

-- A relation between stores that holds from before an operation to after it, however it ends.
pub record Within {A : Type 0} (R : Store → Store → Type 0) (m : M A) : Type 0 where
  pub at : (s : Store) → R s (after (m s))

abbrev pub IsQuiet : {A : Type 0} → M A → Type 0
IsQuiet m = Within Quiet m

module _ {A : Type 0} where
  pub IsQuiet-pure : (a : A) → IsQuiet (pure a)
  IsQuiet-pure a = record { at = λ s. Quiet-refl s }

  pub IsQuiet-raise : (e : Error) → IsQuiet (raise {A = A} e)
  IsQuiet-raise e = record { at = λ s. Quiet-refl s }

  pub IsQuiet-gets : (f : Store → A) → IsQuiet (gets f)
  IsQuiet-gets f = record { at = λ s. Quiet-refl s }

  pub IsQuiet-or_raise : (o : Option A) (e : Error) → IsQuiet (or_raise o e)
  IsQuiet-or_raise none e = record { at = λ s. Quiet-refl s }
  IsQuiet-or_raise (some a) e = record { at = λ s. Quiet-refl s }

  pub IsQuiet-if : (b : Bool) (m n : M A) → IsQuiet m → IsQuiet n → IsQuiet (if b then m else n)
  IsQuiet-if true m n p q = p
  IsQuiet-if false m n p q = q

  pub IsQuiet-option :
      {B : Type 0} (o : Option B) (m : M A) (f : B → M A)
      → IsQuiet m
      → ((b : B) → IsQuiet (f b))
      → IsQuiet (λ s. elim o [ none ↦ m s | some b ↦ f b s ])
  IsQuiet-option none m f p q = p
  IsQuiet-option (some b) m f p q = q b

pub IsQuiet-uuid4 : IsQuiet uuid4
IsQuiet-uuid4 = record {
  at = λ s. record {
    steady = record { env = refl; settings = refl; clock = refl; next_id = omega arith };
    tasks = refl;
    leases = refl;
    committed = refl;
  };
}

module _ {A B : Type 0} where
  bind-Quiet :
      (s : Store) (r : Out A) (f : A → M B)
      → Quiet s (after r)
      → ((a : A) → IsQuiet (f a))
      → Quiet s (after (elim r [ ok a s' ↦ f a s' | err e s' ↦ err e s' ]))
  bind-Quiet s (ok a s') f p q = Quiet-trans p ((q a).at s')
  bind-Quiet s (err e s') f p q = p

  pub IsQuiet-bind :
      (m : M A) (f : A → M B) → IsQuiet m → ((a : A) → IsQuiet (f a)) → IsQuiet (m >>= f)
  IsQuiet-bind m f p q = record { at = λ s. bind-Quiet s (m s) f (p.at s) q }

pub ruleset quiet_rules = (
  IsQuiet-pure, IsQuiet-raise, IsQuiet-gets, IsQuiet-or_raise, IsQuiet-if, IsQuiet-uuid4,
  IsQuiet-bind,
)

module _ {A B : Type 0} where
  -- A sequence that returns has returned twice.
  pub bind-ok :
      (m : M A) (f : A → M B) (s u : Store) (b : B)
      → (m >>= f) s ≡ ok b u
      → (a : A) × (t : Store) × (m s ≡ ok a t) × (f a t ≡ ok b u)
  bind-ok m f s u b e = go (m s) refl
    where
      go : (o : Out A) → m s ≡ o → (a : A) × (t : Store) × (m s ≡ ok a t) × (f a t ≡ ok b u)
      go (ok a t) k = (a, t, k, ground (arith, k))
      go (err x t) k = ground (arith, k)

-- An operation that changes nothing at all.
abbrev pub IsReader : {A : Type 0} → M A → Type 0
IsReader m = Within (λ s t. t ≡ s) m

module _ {A : Type 0} where
  pub IsReader-pure : (a : A) → IsReader (pure a)
  IsReader-pure a = record { at = λ s. refl }

  pub IsReader-raise : (e : Error) → IsReader (raise {A = A} e)
  IsReader-raise e = record { at = λ s. refl }

  pub IsReader-gets : (f : Store → A) → IsReader (gets f)
  IsReader-gets f = record { at = λ s. refl }

  pub IsReader-or_raise : (o : Option A) (e : Error) → IsReader (or_raise o e)
  IsReader-or_raise none e = record { at = λ s. refl }
  IsReader-or_raise (some a) e = record { at = λ s. refl }

  pub IsReader-if : (b : Bool) (m n : M A) → IsReader m → IsReader n → IsReader (if b then m else n)
  IsReader-if true m n p q = p
  IsReader-if false m n p q = q

module _ {A B : Type 0} where
  bind-reads :
      (s : Store) (r : Out A) (f : A → M B)
      → after r ≡ s
      → ((a : A) → IsReader (f a))
      → after (elim r [ ok a s' ↦ f a s' | err e s' ↦ err e s' ]) ≡ s
  bind-reads s (ok a s') f p q = (q a).at s' ∙ p
  bind-reads s (err e s') f p q = p

  pub IsReader-bind :
      (m : M A) (f : A → M B) → IsReader m → ((a : A) → IsReader (f a)) → IsReader (m >>= f)
  IsReader-bind m f p q = record { at = λ s. bind-reads s (m s) f (p.at s) q }

pub ruleset reader_rules =
    (IsReader-pure, IsReader-raise, IsReader-gets, IsReader-or_raise, IsReader-if, IsReader-bind)
