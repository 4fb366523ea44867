-- ===== src/Lib.antt =====
-- A verification library for AsyncGate, a gateway of asynchronous tasks: callers create tasks, workers
-- lease them, complete or fail them, and every step leaves a receipt that the ledger (ReceiptGate) is
-- told of. A receipt of one kind creates an obligation, one of another kind discharges it.
--
-- The parts and the code that they model:
--   Prelude: lists over the native numbers, text, and decidable tests that all modules share.
--   Models: the enumerations (src/asyncgate/models/enums.py), the rows and the table of transitions
--     (models/task.py, lease.py, receipt.py, progress.py, relationship.py, principal.py), receipt
--     bodies and hashes (models/receipt.py), the rules of termination (models/termination.py), and
--     the JSON values that bodies consist of.
--   Principals: src/asyncgate/principals.py.
--   Circuit: CircuitBreaker of src/asyncgate/integrations/circuit_breaker.py. Its method `call` is
--     `enter` and `finish`, the two parts that hold the lock; Circuit.Run interleaves the parts of
--     several calls, Circuit.Safety and Circuit.Stuck state what follows.
--   RateLimit: InMemoryRateLimiter of src/asyncgate/middleware/rate_limit.py, with RateLimit.Window;
--     RateLimit.Redis is RedisRateLimiter, which Entries and Same lay beside the first; RateLimit.Front
--     is RateLimiter, and Requests what it lets through.
--   Store: the tables (src/asyncgate/db/tables.py), the session (`get_session` of db/base.py), the
--     settings that the code reads (config.py), the errors (engine/errors.py), and the client's state,
--     in one record, with the monad of operations that return or raise; Store.Frame has its lemmas, and Store.Closed
--     those on relations between the stores before and after.
--   Repositories: src/asyncgate/db/repositories.py, with Tasks, Leases, Receipts, Ledger (the queries
--     of ReceiptRepository) and Progress; Queries proves what the queries and inserts promise.
--   Adapter: src/asyncgate/receipts/memorygate_adapter.py.
--   Client: ReceiptGateClient of src/asyncgate/integrations/memorygate_client.py, with Client.Buffer
--     and Client.Replay; Client.Accounts is about the buffer.
--   Auth: Auth.Keys has the API keys (src/asyncgate/auth/middleware.py, models.py), Auth.Token the
--     context of a request and its tenant (auth/token.py, context.py), Auth.Deps the checks of headers
--     (api/deps.py). Auth.Tenancy, Auth.Provenance and Auth.Issue state what a credential decides.
--   Mcp: Mcp.Server is `_handle_tool` of src/asyncgate/mcp/server.py, with its readers of arguments in
--     Mcp.Arguments, Mcp.Http the JSON-RPC entry (mcp/http.py), Mcp.Access what a credential opens.
--   Engine: AsyncGateEngine of src/asyncgate/engine/core.py: Emit (receipts), Tasker (the caller's
--     operations), Worker (the worker's operations) and Sweep (expiry of leases).
--   Reconcile: src/asyncgate/engine/reconcile.py.
--   Invariant: what holds of all runs. Its children Lists, Rows, Stores, Emission, Receipts,
--     Release and Snapshot are lemmas; Create, Tasker, Claim, Start, Renew, Worker, Fail, Sweep and Custody carry
--     the invariant through one operation each; System is the step of the whole server and Reach its runs;
--     Holding, Waiting, Completion, Settlement, Reconciled, Verdicts and Ownership are about single
--     operations; Returns and Completes show that a completion returns.
--   Writes: the interface of the ways in which operations for a tenant write rows. Rows and Leases (the
--     repositories), Tasker and Worker (the engine), Arguments, Tools and Calls (the MCP call) show that
--     a relation which each write keeps is kept by all; Kept and Access are about authentication.
--   Isolation: one instance of it, the rows of one tenant under the calls of another. Atomic: another,
--     that no tool commits before its session ends.
--   Tests: concrete runs.
--
-- How the parts interact. An MCP call is authenticated, its tenant is the credential's, and the branch
-- of its tool runs one method of the engine in one session. The engine calls the repositories on the session's tables and the client
-- through `forward`; the client calls the ledger through the breaker and buffers what may wait. A
-- receipt that may not wait, the acceptance of custody, raises through the enclosing savepoint or
-- session. `perform` (Invariant.System) runs one method of the engine in a session, as the MCP tools do, a reconciliation or a replay, or lets time pass; `run` is a sequence of these.
--
-- Conventions. Identifiers (uuid4) are numbers from a counter, so they are fresh. Times are in
-- microseconds; an operation reads the clock once, and time passes between operations. Sessions run
-- one after another, so that row locks decide nothing. A table is the list of its rows in the order of
-- insertion, which is also the order among rows that an ORDER BY leaves equal. A savepoint restores the
-- database when its block raises. What is not code of the repository is a parameter, the record Env of
-- Store: the ledger's answers, its list of custody, the rules of the legivellum package on buffering
-- and validity, the text of JSON, the hash function, the text of identifiers, bcrypt, the decoding of
-- tokens (jose), random tokens and the files of keys. Redis is a parameter of its own. Counts, limits and
-- seconds are natural numbers: a negative one is not modelled; priorities are integers. An argument of
-- a tool that is not of the kind its schema declares is an error. Headers are texts of Latin-1. All loops of the code run over lists and are
-- structural recursion: no fuel is used.
--
-- Not modelled: logging, metrics and tracing; the routes of main.py, the schemas of the tools and the
-- dictionaries that their results are turned into; the timers of the sweep and the replay; the
-- expiry of keys on the Redis server; the file of the buffer, whose writes do not fail here;
-- validators of the settings; migrations, scripts and deployment.
pub mod Prelude
pub mod Models
pub mod Principals
pub mod Circuit
pub mod RateLimit
pub mod Store
pub mod Repositories
pub mod Queries
pub mod Adapter
pub mod Client
pub mod Engine
pub mod Reconcile
pub mod Auth
pub mod Mcp
pub mod Writes
pub mod Isolation
pub mod Atomic
pub mod Invariant
pub mod Tests
