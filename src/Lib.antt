-- ===== src/Lib.antt =====
-- The orchestrator of sloppenheimer: the durable workflow of an issue, the handoff of its pull request,
-- the scheduler that starts runs, and the connection to the agent that a run drives. Paths are those of
-- the repository.
--
-- The host runs coding agents on issues. Each issue has one durable workflow, a record in a store that
-- survives the host. Every change of it is an event that a pure transition accepts or refuses, and
-- that is committed by compare and swap on the revision before anything follows from it. A run is
-- admitted on the workflow, writes under an owner name of its own, and settles it. When the run opens
-- a pull request, a handoff follows it: each poll observes the pull request, one decision function
-- answers with the new handoff and the one call to make, and the answer of the call is folded back.
--
-- The scheduler keeps one state: live runs, retries, retained deliveries, workspace counts and the poll
-- loop's own flags. Each change of it is a pure transition that takes effect at once. A poll sorts the
-- candidates and dispatches those that the policy admits; a refresh that is asked for during a poll waits
-- for the next one. A run talks to an App Server over a pipe: bytes are framed into lines, and
-- one connection state says which turns and requests are outstanding and who may settle them.
--
-- Files, and the code that each is about:
--   Base                shared helpers: Boolean tests, the Eq interface, lists
--                       over the native numbers, decimal numerals and template strings
--   Collections         packages/core/src/support/collections.ts
--   Codex.Framing       packages/adapter-codex/src/framing.ts: the line readers
--   Codex.Records       packages/adapter-codex/src/framing.ts: diagnostic records
--   Codex.Connection    packages/adapter-codex/src/connection-state.ts, and in Trace the sequences of its
--                       transitions with the candidate of failSession
--   Domain              packages/core/src/domain/domain.ts, the states and the snapshot of handoff.ts,
--                       ExecutionSnapshot of packages/core/src/core/state.ts, and events and token
--                       counts of packages/core/src/telemetry/events.ts
--   Domain.Retention    packages/core/src/domain/workspace-retention.ts
--   Durable.Types       packages/core/src/domain/durable-workflow.ts and completion.ts
--   Durable.Transition  packages/core/src/core/durable/transition.ts
--   Durable.Store       packages/adapter-node/src/workflow-store.ts and workflow-database-worker.ts behind
--                       packages/core/src/ports/workflow-store.ts
--   Durable.Controller  packages/core/src/core/durable/controller.ts and the claim of execute.ts
--   Durable.Settlement  packages/core/src/core/durable/settlement.ts and retry-settlement.ts
--   Durable.Admission   packages/core/src/core/durable/admission.ts and admittedWorkflow of transition.ts
--   Durable.Host        packages/core/src/core/durable/live-journal.ts: persist, write, setIntent, start
--   Durable.Restore     packages/core/src/core/durable/restore.ts
--   Durable.External    packages/core/src/core/durable/external-operation.ts, as the step before the call and the one after
--   Durable.Cleanup     packages/core/src/core/durable/cleanup.ts: queueCleanup and the loop of runCleanup
--   Handoff.Observation packages/core/src/domain/handoff.ts: threads, checks, disposition
--   Handoff.Entry       packages/core/src/core/repair.ts, packages/core/src/core/rebase.ts, retryHandoffIntervention
--   Handoff.Action, Handoff.Attribution, Handoff.Review, Handoff.Decision
--                       packages/core/src/core/handoff-decision.ts
--   Handoff.Perform     packages/core/src/core/handoff-reconciliation.ts and packages/core/src/core/polling/rebase.ts: what a pass writes
--   Handoff.Life        the events that write a handoff, in any order
--   Json                packages/core/src/support/json.ts: JSON values and their sparse merge
--   Scheduler.State     packages/core/src/core/state.ts, and DeliveryEntry of packages/core/src/core/postflight.ts
--   Scheduler.Claims    packages/core/src/core/transitions/claims.ts
--   Scheduler.Runs      packages/core/src/core/transitions/runs.ts, and in Trace how
--                       pass.ts, retry-due.ts, handoff-reconciliation.ts, dispatch.ts and retained-conflict-worker.ts
--                       start one
--   Scheduler.Retries   packages/core/src/core/transitions/retries.ts and deliveries.ts
--   Scheduler.Workspaces
--                       packages/core/src/core/transitions/workspaces.ts
--   Scheduler.Scheduling
--                       packages/core/src/core/transitions/scheduling.ts
--   Scheduler.Policy    packages/core/src/core/policy.ts
--   Scheduler.Polling   packages/core/src/core/polling/tick.ts and packages/core/src/core/runtime/scheduling.ts
--   Tests               concrete runs of the theorems
-- The child modules of these hold the theorems.
--
-- Conventions: a nullable or optional field is an Option; an instant or a duration is a number of
-- milliseconds; a Map is the list of its entries in insertion order; an object that the source compares
-- by identity to see whether anything changed is an Option, none for the same object; text is built
-- by template strings. Whether the database, a provider or a permission answers, and how, is an
-- argument of the function that asks. Effects that run under one semaphore are functions of the whole
-- host. The loops of the modelled code are over finite lists but for that of the cleanup, which is on
-- fuel: six rounds are enough, since the fifth attempt ends it; and that which scans a buffer for lines,
-- on fuel of the buffer's length, since each round takes a byte at least. The poll loop is a step
-- function, whose steps callers may come between. Bytes and chunks are lists of numbers; a deferred
-- value, a queue or an object that is compared by identity is a number, and a new object takes the
-- next one. Counters are natural numbers without a bound, as the source checks none.
--
-- Not modelled: the codecs of the persisted records, the worker thread and the lock of the database, the
-- processes, the HTTP clients and the file system of the adapters, the decoding of the App Server's
-- messages, the published snapshots, and the user interfaces, which are input and output; and the agents'
-- detail records, the handlers of the mailbox but that of a tick, the run journal and the workspace
-- leases, which the modelled parts do not read.
pub mod Base
pub mod Codex
pub mod Collections
pub mod Domain
pub mod Durable
pub mod Handoff
pub mod Json
pub mod Scheduler
pub mod Tests
