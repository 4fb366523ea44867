-- ===== src/Queries/Obligations.antt =====
-- Receipts and obligations (ReceiptRepository of repositories.py).
use async_gate.Prelude.{
  ℕ, ◌≡◌, refl, inl, inr, Bool, not, ◌&&◌, ◌||◌, List, [], ◌∷◌, ◌++◌, arith, ◌==◌, any, Bool-cases,
}
use async_gate.Models.Records.{Receipt}
use async_gate.Models.Termination.{is_terminal_type}
use async_gate.Store.{Store, after}
use async_gate.Repositories.Receipts
use async_gate.Repositories.Receipts.{
  NewReceipt, rejection, lacks_locatability, parents_to_use, new_receipt, exists_receipt, insert,
  add_receipt, anomaly_receipt,
}
use async_gate.Repositories.Ledger.{terminates, has_terminator}

-- The receipt row that `create` has added is the last one, but for the anomaly behind it.
any-append : (q : Receipt → Bool) (xs ys : List Receipt) → any q (xs ++ ys) ≡ (any q xs || any q ys)
unfolding any
any-append q [] ys = refl
any-append q (x ∷ xs) ys = ground (arith, any-append q xs ys)

-- What an insertion of a receipt does to obligations. A success that says where its work is, or that
-- it was delivered, and any other receipt, counts as a terminator of a parent if its type is
-- terminal. A success that does not say so discharges nothing: every obligation is exactly as open
-- as before.
pub insert-has_terminator :
    (tenant_id receipt_id parent : ℕ) (new : NewReceipt) (s : Store)
    → has_terminator tenant_id parent (after (insert tenant_id receipt_id new s)) ≡ (
        has_terminator tenant_id parent s
        || not (lacks_locatability new)
          && any (λ p. p == parent) new.parents
          && is_terminal_type new.receipt_type)
unfolding has_terminator insert new_receipt parents_to_use is_terminal_type
insert-has_terminator tenant_id receipt_id parent new s =
    let row = new_receipt s tenant_id receipt_id new in
    let anomaly = anomaly_receipt s tenant_id s.next_id receipt_id new in
    let one = any-append (terminates tenant_id parent) s.db.receipts (row ∷ []) in
    let two = any-append (terminates tenant_id parent) (s.db.receipts ++ row ∷ []) (anomaly ∷ []) in
    elim (Bool-cases (lacks_locatability new)) [
      | inl e ↦ unfold Receipts.emit_anomaly anomaly_receipt any in ground (arith, e, one, two)
      | inr e ↦ unfold any in ground (arith, e, one)
    ]
