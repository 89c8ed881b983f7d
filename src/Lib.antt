-- ===== src/Lib.antt =====
-- ThreadPilot plans, writes, audits and publishes posts on Threads. This library models the parts of
-- it that decide what is published, when, and by whom, and proves what they promise.
--
-- Publishing: apps/worker/src/processors/publishing.processor.ts. `process` takes one scheduled post
-- through its claim, guards, quota gate, container, polling, publication or recovery, and commit.
--   Publishing/Post: the row of `scheduled_posts` (packages/database/prisma/schema.prisma) and each
--     `UPDATE` of the worker as a function on it.
--   Publishing/Effect: asynchronous code as actions on a state (the row, the tables that the commit
--     writes, the clock, the local variables), which end with a value, an exception, a return, or the
--     death of the worker. `Env` gives, by the number of the step, the time that passes, what other
--     workers write to the row, the failures, and every answer of the platform.
--   Publishing/Classify: classifyPublishError. Publishing/Text: packages/types/src/canonical.ts.
--   Publishing/Recovery: recoverFromFeed and the 45 seconds of recovery around it.
--   Publishing/Steps, Polling, Publish, Commit, Process: the steps of `process` in their order.
--   Publishing/Keeps: an invariant of an action from those of its parts. Publishing/Frame: what an
--     invariant must withstand to hold through the steps. Publishing/Once: the single publication.
--   Publishing/Ends, Sending, Fenced, Completes, Deadline, Adoption: what a run does before it sends,
--     without its lease, until its deadline, and what its recovery adopts. Publishing/Kinds: which
--     failures are given up at once.
--   Publishing/Reconcile: of apps/worker/src/services/publishing-reconciliation.service.ts, the
--     conditions of the scans 2, 3 and 4, the treatment of a stale lease, and safeEnqueue; Recovers
--     compares them with the worker's claim. Pages has the pagination of scan 2 with its cursor,
--     a Date, Visits its theorem.
-- Auth/RefreshToken: apps/api/src/auth/refresh-token.service.ts, over the list of token rows. The
--   hashes are the parameter `Passwords`. Reuse has the lemmas, Theft the theorems.
-- Analytics/Observation: apps/worker/src/services/observation-fsm.service.ts; Diagram has the
--   diagram that its comments describe. Analytics/Schedule: observation-scheduler.service.ts, with its
--   theorems in Idempotent and Windows. Analytics/Sweeper: expired-observation-sweeper.service.ts, with
--   its theorems in Arrows and Attended, which rest on the table of transitions. Analytics/Outbox:
--   analytics-outbox.service.ts, with its theorems in Exhaustion and Replay. All three of these stand
--   in apps/worker/src/services and work on the rows of Analytics/Row.
-- Safety: apps/worker/src/services/safety-gate.service.ts. Record has the rows, Walls the four
--   evaluators, Audit initiateAudit and evaluateAudit, Override requestOverride, isPublishPermitted
--   and consumeOverrideToken. Verdict, Grant, SingleUse and Lifecycle have the theorems.
-- Operator: apps/worker/src/services/autonomous-operator.service.ts. Record has the rows, Lease the
--   three operations on the lease of an account, Slot findNextAvailableSlot, Schedule the scheduling
--   transaction, Cycle runPlanningCycle, which calls the safety gate of Safety/Audit. `Around` gives
--   the clock, the identifiers, and what other processes write to the database wherever the cycle
--   waits. Exclusion, SlotSearch, Cleared, Bounds and Released have the theorems; Keeps carries an
--   invariant through a cycle.
-- Threads/RateLimit: packages/threads-client/src/rate-limit.service.ts, over the rows of
--   platform_rate_limits; Window has the theorems. Threads/Token: token.service.ts of the same folder,
--   with its theorems in Waiting and Shared. Threads/Encryption: token-encryption.service.ts, with its
--   theorem in RoundTrip; the version in front is printed with itself as fuel, which is enough since
--   a number has no more digits than its value and one.
-- Rules: packages/types/src/rules.ts, evaluateAST and getNestedValue (Condition), and what a condition
--   says independently of its evaluation (Denotation), with its operators (Comparison) and its paths
--   (Comparison/Dots and Lookup); claimExecutionAndBudget of
--   apps/worker/src/services/rules-engine.service.ts (Budget) and its invariant (Budget/Bound).
-- Common: shared names, Boolean tests and lists. The files named Tests run the code.
--
-- Bounds and fuel: the recovery loop runs on fuel 10, one more than the rounds of 5 seconds that
-- 45 seconds hold; the feed is read for at most 3 pages, the container's status 5 times, and the
-- date of the post 3 times, as in the code; a caller waits for a token's lock on fuel 201, one
-- more than the pauses of 50 milliseconds that 10 seconds hold; a scan of k pages runs on fuel k +
-- 1. Identifiers, times in milliseconds (in microseconds for the cursor of a scan) and scores in
-- hundredths are natural numbers; a subtraction of times is written as a sum on the other side.
--
-- Not modelled: log messages and the texts of `last_error_msg`; the cursor of the feed query,
-- whose answers come by the step; interleavings within one operation on the refresh tokens or the
-- safety tables; regular expressions, lower case, hashes, ciphers and the search of published
-- posts, which are parameters; failures of the database in a planning cycle but of the creation of
-- its run, and the ISO week of a slot, which is a parameter; rows of the outbox that a concurrent
-- claim has locked; the actions of rules, the other reconciliation scans and the leader lease,
-- statistics, and the services that only join HTTP, queues and language models.
pub mod Common
pub mod Publishing
pub mod Analytics
pub mod Auth
pub mod Safety
pub mod Threads
pub mod Operator
pub mod Rules
