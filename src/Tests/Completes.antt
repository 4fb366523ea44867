-- ===== src/Tests/Completes.antt =====
-- A completion of a worker's task, and the theorem that it returns.
use async_gate.Prelude.{◌≡◌, refl, true, none, some, arith}
use async_gate.Models.Enums.{TaskStatus}
use async_gate.Models.Json.{end}
use async_gate.Models.Records.{Lease, Receipt, can_transition_to}
use async_gate.Store.{Store, ok}
use async_gate.Engine.Emit.{resolve_obligation_owner, task_obligation}
use async_gate.Engine.Worker
use async_gate.Repositories.Leases.{find_valid}
use async_gate.Invariant.System.{run}
use async_gate.Invariant.Completes
use async_gate.Tests.Server.{leased, the_task, leased_row}

leased_lease : (l : Lease) × (find_valid 7 1 4 "worker-1" leased ≡ some l)
unfolding run find_valid
leased_lease = (_, refl)

leased_obligation :
    (r : Receipt) × (task_obligation 7 1
        (resolve_obligation_owner (the_task leased).created_by)
        leased
      ≡ some r)
unfolding run task_obligation resolve_obligation_owner
leased_obligation = (_, refl)

may_succeed : can_transition_to (the_task leased) TaskStatus.succeeded ≡ true
unfolding run
may_succeed = refl

complete-Returns_example :
    (t : Store) × (Worker.complete 7 "worker-1" 1 4 end none leased ≡ ok tt t)
unfolding run
complete-Returns_example =
    Completes.complete-Returns 7 "worker-1" 1 4 end none leased leased_lease.0 (the_task leased)
      leased_obligation.0 leased_lease.1 leased_row may_succeed leased_obligation.1 refl
      (omega arith) (omega arith) refl
