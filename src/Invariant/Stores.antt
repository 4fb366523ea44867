-- ===== src/Invariant/Stores.antt =====
-- What keeps a store valid: quiet operations, writes, commits, blocks, and one operation after another.
use async_gate.Prelude.{
  ◌≤◌, ℕ, ◌<◌, ◌≡◌, refl, sym, ap, ◌∙◌, subst, arith, Option, none, some, Bool, true, false,
  if◌then◌else◌,
}
use native.Mathlib.Nat.{le_refl}
use async_gate.Store.{
  Settings, Db, Store, Error, M, Out, ok, err, after, ◌>>=◌, savepoint, restore, commit, settle,
  transaction, caught, or_raise, raise,
}
use async_gate.Store.Frame.{Steady, Steady-trans, Steady-refl, Steady-put, Quiet, IsReader}
use async_gate.Invariant.{
  Sound, Evolves, Evolves-refl, Evolves-trans, IsValid, Keeps, Keeps-refl, Keeps-trans,
}
use async_gate.Invariant.Lists.{All-map}

pub Sound-later :
    (settings : Settings) (n m : ℕ) (db : Db) → n ≤ m → Sound settings n db → Sound settings m db
Sound-later settings n m db h v = record {
  one_lease = v.one_lease;
  has_task = v.has_task;
  distinct = v.distinct;
  distinct_leases = v.distinct_leases;
  fresh_tasks =
      All-map (λ t. t.task_id < n) (λ t. t.task_id < m) db.tasks (λ t k. omega arith) v.fresh_tasks;
  fresh_leases =
      All-map (λ l. l.lease_id < n) (λ l. l.lease_id < m) db.leases (λ l k. omega arith)
        v.fresh_leases;
  limited = v.limited;
  retried = v.retried;
}

-- Soundness looks at two tables.
pub Sound-tables :
    (settings : Settings) (n : ℕ) (x y : Db)
    → y.tasks ≡ x.tasks
    → y.leases ≡ x.leases
    → Sound settings n x
    → Sound settings n y
Sound-tables settings n x y p q v =
    (subst (λ ls. Sound settings n (record y { leases = ls })) (sym q)
      (subst (λ ts. Sound settings n (record y { tasks = ts; leases = x.leases })) (sym p)
        (widen v)))
  where
    widen : Sound settings n x → Sound settings n (record y { tasks = x.tasks; leases = x.leases })
    widen v = record {
      one_lease = v.one_lease;
      has_task = v.has_task;
      distinct = v.distinct;
      distinct_leases = v.distinct_leases;
      fresh_tasks = v.fresh_tasks;
      fresh_leases = v.fresh_leases;
      limited = v.limited;
      retried = v.retried;
    }

-- A write that commits nothing keeps the store valid if it keeps the tables sound.
pub write-Keeps :
    (s t : Store)
    → Steady s t
    → t.committed ≡ s.committed
    → (IsValid s → Sound s.settings t.next_id t.db × Evolves s.db.tasks t.db.tasks)
    → Keeps s t
write-Keeps s t h c w = record {
  steady = h;
  valid = λ v. record {
    sound = subst (λ z. Sound z t.next_id t.db) (sym h.settings) (w v).0;
    committed =
        subst (λ z. Sound z t.next_id t.committed) (sym h.settings)
          (subst (λ z. Sound s.settings t.next_id z) (sym c)
            (Sound-later s.settings s.next_id t.next_id s.committed h.next_id v.committed));
    evolves =
        subst (λ z. Evolves z.tasks t.db.tasks) (sym c)
          (Evolves-trans s.committed.tasks s.db.tasks t.db.tasks v.evolves (w v).1);
  };
  tasks = λ v. (w v).1;
  committed =
      λ v. subst (λ z. Evolves s.committed.tasks z.tasks) (sym c) (Evolves-refl s.committed.tasks);
}

pub Quiet-Keeps : {s t : Store} → Quiet s t → Keeps s t
Quiet-Keeps {s} {t} q = write-Keeps s t q.steady q.committed λ v. (
  Sound-later s.settings s.next_id t.next_id t.db q.next_id
      (Sound-tables s.settings s.next_id s.db t.db q.tasks q.leases v.sound),
  subst (λ z. Evolves s.db.tasks z) (sym q.tasks) (Evolves-refl s.db.tasks),
)

pub commit-Keeps : (s : Store) → Keeps s (after (commit s))
commit-Keeps s = record {
  steady = record { env = refl; settings = refl; clock = refl; next_id = le_refl _ };
  valid = λ v. record { sound = v.sound; committed = v.sound; evolves = Evolves-refl s.db.tasks };
  tasks = λ v. Evolves-refl s.db.tasks;
  committed = λ v. v.evolves;
}

module _ {A B : Type 0} where
  pub bind-Keeps :
      (s : Store) (m : M A) (f : A → M B)
      → Keeps s (after (m s))
      → ((a : A) (t : Store) → m s ≡ ok a t → Keeps t (after (f a t)))
      → Keeps s (after ((m >>= f) s))
  bind-Keeps s m f p q = go (m s) refl
    where
      go :
          (o : Out A)
          → m s ≡ o
          → Keeps s (after (elim o [ ok a s' ↦ f a s' | err e s' ↦ err e s' ]))
      go (ok a t) e = Keeps-trans (subst (λ o. Keeps s (after o)) e p) (q a t e)
      go (err x t) e = subst (λ o. Keeps s (after o)) e p

-- How a block ends: it leaves a store that follows, or it raises and touches nothing but its tables.
abbrev pub Ends : {A : Type 0} → Store → Out A → Type 0
Ends s (ok a t) = Keeps s t
Ends s (err e t) = Steady s t × (t.committed ≡ s.committed)

module _ {A : Type 0} where
  pub restored-Keeps : (s : Store) (o : Out A) → Ends s o → Keeps s (after (restore s.db o))
  restored-Keeps s (ok a t) k = k
  restored-Keeps s (err e t) (k, c) =
      write-Keeps s (record t { db = s.db })
        (Steady-trans k (Steady-put t s.db t.client t.trace_id)) c
        λ v. (
          Sound-later s.settings s.next_id t.next_id s.db k.next_id v.sound,
          Evolves-refl s.db.tasks,
        )

  pub savepoint-Keeps : (s : Store) (m : M A) → Ends s (m s) → Keeps s (after (savepoint m s))
  savepoint-Keeps s m k = restored-Keeps s (m s) k

  pub caught-after : (o : Out A) → after (caught o) ≡ after o
  caught-after (ok a t) = refl
  caught-after (err e t) = refl

  -- A transaction starts where nothing is uncommitted.
  pub transaction-Keeps :
      (s : Store) (m : M A)
      → IsValid s
      → ((t : Store) → IsValid t → t.committed ≡ t.db → Keeps t (after (m t)))
      → Keeps s (after (transaction m s))
  unfolding transaction
  transaction-Keeps s m v k =
      Keeps-trans (commit-Keeps s)
        (settled (m (after (commit s))) (k (after (commit s)) ((commit-Keeps s).valid v) refl))
    where
      settled :
          (o : Out A)
          → Keeps (after (commit s)) (after o)
          → Keeps (after (commit s)) (after (settle o))
      settled (ok a t) h = Keeps-trans h (commit-Keeps t)
      settled (err e t) h = record {
        steady = Steady-trans h.steady (Steady-put t t.committed t.client t.trace_id);
        valid = λ v. record {
          sound = (h.valid v).committed;
          committed = (h.valid v).committed;
          evolves = Evolves-refl t.committed.tasks;
        };
        tasks = λ v. h.committed v;
        committed = λ v. h.committed v;
      }

module _ {A B : Type 0} where
  -- What an operation after a reader does.
  pub reader-bind :
      (R : Out B → Type 0) (s : Store) (m : M A) (f : A → M B)
      → IsReader m
      → ((a : A) → m s ≡ ok a s → R (f a s))
      → ((e : Error) → R (err e s))
      → R ((m >>= f) s)
  reader-bind R s m f r k x = go (m s) refl
    where
      go : (o : Out A) → m s ≡ o → R (elim o [ ok a s' ↦ f a s' | err e s' ↦ err e s' ])
      go (ok a t) e =
          let same : t ≡ s = sym (ap after e) ∙ r.at s in
          subst (λ z. R (f a z)) (sym same) (k a (e ∙ ap (ok a) same))
      go (err y t) e =
          let same : t ≡ s = sym (ap after e) ∙ r.at s in subst (λ z. R (err y z)) (sym same) (x y)

  pub reader-Keeps :
      (s : Store) (m : M A) (f : A → M B)
      → IsReader m
      → ((a : A) → m s ≡ ok a s → Keeps s (after (f a s)))
      → Keeps s (after ((m >>= f) s))
  reader-Keeps s m f r k = reader-bind (λ o. Keeps s (after o)) s m f r k (λ e. Keeps-refl s)

  pub reader-Ends :
      (s : Store) (m : M A) (f : A → M B)
      → IsReader m
      → ((a : A) → m s ≡ ok a s → Ends s (f a s))
      → Ends s ((m >>= f) s)
  reader-Ends s m f r k = reader-bind (Ends s) s m f r k (λ e. (Steady-refl s, refl))

-- What a test leads to.
pub if-Keeps :
    {A : Type 0} (b : Bool) (m n : M A) (s : Store)
    → (b ≡ true → Keeps s (after (m s)))
    → (b ≡ false → Keeps s (after (n s)))
    → Keeps s (after ((if b then m else n) s))
if-Keeps true m n s h k = h refl
if-Keeps false m n s h k = k refl

pub or_raise-Keeps :
    {A B : Type 0} (o : Option A) (e : Error) (f : A → M B) (s : Store)
    → ((a : A) → o ≡ some a → Keeps s (after (f a s)))
    → Keeps s (after ((or_raise o e >>= f) s))
or_raise-Keeps none e f s h = Keeps-refl s
or_raise-Keeps (some a) e f s h = h a refl

pub guard-Keeps :
    {A B : Type 0} (b : Bool) (e : Error) (m : M A) (f : A → M B) (s : Store)
    → (b ≡ false → Keeps s (after ((m >>= f) s)))
    → Keeps s (after (((if b then raise e else m) >>= f) s))
guard-Keeps true e m f s h = Keeps-refl s
guard-Keeps false e m f s h = h refl
