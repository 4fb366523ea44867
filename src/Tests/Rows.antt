-- ===== src/Tests/Rows.antt =====
-- Queries at concrete tables.
use async_gate.Prelude.{
  ℕ, ◌*◌, ◌≤◌, ◌≡◌, ◌&&◌, ◌||◌, not, refl, List, [], ◌∷◌, none, some, arith, first, any, ◌==◌,
}
use async_gate.Models.Enums.{ReceiptType}
use async_gate.Models.Json.{end}
use async_gate.Models.Records.{Task, Receipt}
use async_gate.Models.Termination
use async_gate.Models.Termination.{is_terminal_type}
use async_gate.Store.{Store, Db, ok, after}
use async_gate.Repositories.Tasks
use async_gate.Repositories.Tasks.{new_task, holds_key, second, backoff}
use async_gate.Repositories.Receipts.{NewReceipt, insert, lacks_locatability}
use async_gate.Repositories.Ledger.{has_terminator}
use async_gate.Engine.Emit.{about, service_principal, worker_principal}
use async_gate.Queries.Selection
use async_gate.Queries.Obligations
use async_gate.Tests.Server.{start, empty_db, new, agent}

abbrev row : Task
row = new_task start 7 1 (new "ada")

abbrev one_row : Db
one_row = record empty_db { tasks = row ∷ [] }

abbrev with_row : Store
with_row = record start { db = one_row; committed = one_row; next_id = 2 }

held_row : first (holds_key 7 "key-1") with_row.db.tasks ≡ some row
unfolding new_task first
held_row = refl

create_again_example :
    Tasks.create 7 (new "bob") with_row ≡ ok row (record with_row { next_id = 3 })
create_again_example =
    Selection.create_again 7 (new "bob") "key-1" row with_row refl refl refl held_row

backoff_mono_example : (backoff 15 1 900 ≤ backoff 15 9 900) × (backoff 15 9 900 ≤ 900 * second)
backoff_mono_example = Selection.backoff_mono 15 900 1 9 (omega arith)

abbrev receipt : ℕ → Receipt
receipt id = record {
  receipt_id = id;
  tenant_id = 7;
  receipt_type = ReceiptType.task_assigned;
  created_at = 5;
  from_ = service_principal;
  to_ = agent "ada";
  task_id = some 1;
  lease_id = none;
  schedule_id = none;
  parents = [];
  body = end;
  hash = none;
  asyncgate_instance = "asyncgate-1";
  delivered_at = none;
}

abbrev three : List Receipt
three = receipt 1 ∷ receipt 2 ∷ receipt 3 ∷ []

-- A completion that says neither where its work is nor that it was delivered.
abbrev blind : NewReceipt
blind =
    about ReceiptType.task_completed (worker_principal "worker-1") (agent "ada") 1 (some 4) (1 ∷ [])
      end

insert-has_terminator_example : has_terminator 7 1 (after (insert 7 9 blind start)) ≡ (
    has_terminator 7 1 start
    || not (lacks_locatability blind)
      && any (λ p. p == 1) blind.parents
      && is_terminal_type blind.receipt_type)
insert-has_terminator_example = Obligations.insert-has_terminator 7 9 1 blind start
