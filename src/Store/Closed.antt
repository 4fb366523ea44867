-- ===== src/Store/Closed.antt =====
-- Relations between the stores before and after an operation that the building blocks of operations
-- keep, and what follows for the operations built from them.
use async_gate.Prelude.{suc, Bool, true, false, Option, none, some, if◌then◌else◌}
use async_gate.Models.Json.{Json}
use async_gate.Store.{
  ReceiptGateClient, Store, Out, ok, err, M, Error, ◌>>=◌, pure, raise, gets, modify, uuid4, after,
  or_raise, when,
}
use async_gate.Store.Frame.{Within}

pub record Closed (R : Store → Store → Type 0) : Type 0 where
  pub same : (s : Store) → R s s
  pub both : {s t u : Store} → R s t → R t u → R s u
  pub fresh : (s : Store) → R s (record s { next_id = suc s.next_id })
  pub client : (s : Store) (client : ReceiptGateClient) → R s (record s { client = client })
  pub trace : (s : Store) (trace_id : Option Json) → R s (record s { trace_id = trace_id })

module _ {R : Store → Store → Type 0} (c : Closed R) where
  pub Within-pure : {A : Type 0} (a : A) → Within R (pure a)
  Within-pure a = record { at = λ s. c.same s }

  pub Within-raise : {A : Type 0} (e : Error) → Within R (raise {A = A} e)
  Within-raise e = record { at = λ s. c.same s }

  pub Within-gets : {A : Type 0} (f : Store → A) → Within R (gets f)
  Within-gets f = record { at = λ s. c.same s }

  pub Within-or_raise : {A : Type 0} (o : Option A) (e : Error) → Within R (or_raise o e)
  Within-or_raise none e = record { at = λ s. c.same s }
  Within-or_raise (some a) e = record { at = λ s. c.same s }

  pub Within-uuid4 : Within R uuid4
  Within-uuid4 = record { at = c.fresh }

  pub Within-client :
      (f : Store → ReceiptGateClient) → Within R (modify λ s. record s { client = f s })
  Within-client f = record { at = λ s. c.client s (f s) }

  pub Within-trace : (f : Store → Option Json) → Within R (modify λ s. record s { trace_id = f s })
  Within-trace f = record { at = λ s. c.trace s (f s) }

  bind_at :
      {A B : Type 0} (s : Store) (r : Out A) (f : A → M B)
      → R s (after r)
      → ((a : A) → Within R (f a))
      → R s (after (elim r [ ok a s' ↦ f a s' | err e s' ↦ err e s' ]))
  bind_at s (ok a s') f p q = c.both p ((q a).at s')
  bind_at s (err e s') f p q = p

  pub Within-bind :
      {A B : Type 0} (m : M A) (f : A → M B)
      → Within R m
      → ((a : A) → Within R (f a))
      → Within R (m >>= f)
  Within-bind m f p q = record { at = λ s. bind_at s (m s) f (p.at s) q }

pub Within-if :
    {A : Type 0} {R : Store → Store → Type 0} (b : Bool) (m n : M A)
    → Within R m
    → Within R n
    → Within R (if b then m else n)
Within-if true m n p q = p
Within-if false m n p q = q

pub Within-when :
    {R : Store → Store → Type 0}
    → Closed R
    → (b : Bool) (m : M Unit) → Within R m
    → Within R (when b m)
Within-when c b m p = Within-if b m (pure tt) p (Within-pure c tt)

pub ruleset within_rules =
    (Within-pure, Within-raise, Within-gets, Within-or_raise, Within-uuid4, Within-if, Within-bind)
