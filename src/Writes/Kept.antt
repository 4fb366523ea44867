-- ===== src/Writes/Kept.antt =====
-- What a session keeps of a part of the database, in its rows and in those that are committed.
use async_gate.Prelude.{◌≡◌, refl, sym, ◌∙◌}
use async_gate.Store.{Db, Store, Out, ok, err, after, commit, settle}
use async_gate.Store.Frame.{Within}
use async_gate.Store.Closed.{Closed}

-- In a session that has written nothing of the part yet, nothing is written of it.
pub record Kept {V : Type 0} (part : Db → V) (s t : Store) : Type 0 where
  pub kept : part s.committed ≡ part s.db → (part t.db ≡ part s.db) × (part t.committed ≡ part s.db)

module _ {V : Type 0} (part : Db → V) where
  pub Kept-Closed : Closed (Kept part)
  Kept-Closed = record {
    same = λ s. record { kept = λ h. (refl, h) };
    both = λ p q. record {
      kept = λ h. let (a, b) = p.kept h in let (c, d) = q.kept (b ∙ sym a) in (c ∙ a, d ∙ a);
    };
    fresh = λ s. record { kept = λ h. (refl, h) };
    client = λ s client. record { kept = λ h. (refl, h) };
    trace = λ s trace_id. record { kept = λ h. (refl, h) };
  }

  pub Kept-put : (s : Store) (db : Db) → part db ≡ part s.db → Kept part s (record s { db = db })
  Kept-put s db e = record { kept = λ h. (e, h) }

  pub Kept-commit : Within (Kept part) commit
  Kept-commit = record { at = λ s. record { kept = λ h. (refl, refl) } }

  pub Kept-rolled_back : (s : Store) → Kept part s (record s { db = s.committed })
  Kept-rolled_back s = record { kept = λ h. (h, h) }

  pub Kept-restored : (s t : Store) → Kept part s t → Kept part s (record t { db = s.db })
  Kept-restored s t p = record { kept = λ h. (refl, (p.kept h).1) }

  -- A session that keeps the part has not changed it when it is over.
  pub settle-Kept :
      {A : Type 0} (s : Store) (o : Out A)
      → part s.committed ≡ part s.db
      → Kept part s (after o)
      → part (after (settle o)).db ≡ part s.db
  settle-Kept s (ok a t) h p = (p.kept h).0
  settle-Kept s (err e t) h p = (p.kept h).1
